-- ===== src/Discovery/Ranking.antt =====
-- `rank_discovery_product` of src/promo_bot/discovery/ranking.py. A price is a number of cents. Other
-- decimals are a number of units of a power of ten; the smallest drop is not negative. The median is
-- kept doubled, and the drop as what it compares: the arithmetic is exact, where `Decimal` keeps 28
-- digits, which decide the same comparisons and floors for prices below 10 ^ 12 cents.
pub mod Bounds
pub mod Order
use promo_bot.Base.{
  ℕ, zero, suc, ◌+◌, ◌-◌, ◌*◌, ◌/◌, ◌%◌, ◌^◌, min, Bool, true, false, not, ◌&&◌, Option, none, some,
  List, [], ◌∷◌, ◌==◌, ltb, leb, if◌then◌else◌, length,
}
use promo_bot.Base.Int.{ℤ, pos, negsuc}

-- units / 10 ^ places
pub record Decimal : Type 0 where
  pub units : ℤ
  pub places : ℕ

-- What is read of a `DiscoveryProduct`.
pub record DiscoveryProduct : Type 0 where
  pub target_brl_price : Option ℕ
  pub declared_discount_percent : Option Decimal
  pub commission_rate : Option Decimal
  pub volume : Option ℤ
  pub completeness_score : ℕ

pub data Classification : Type 0 where
  insufficient_data history_backed_price_drop provider_discount_only baseline_only : Classification

-- The smallest drop, in percent: units / 10 ^ places.
pub record MinimumDrop : Type 0 where
  pub units : ℕ
  pub places : ℕ

-- `price_drop_percent` is left out: what is decided by it is here.
pub record DiscoveryScore : Type 0 where
  -- twice the median, in cents
  pub history_median : Option ℕ
  pub history_snapshot_count : ℕ
  pub history_score : ℕ
  pub discount_score : ℕ
  pub volume_score : ℕ
  pub commission_score : ℕ
  pub completeness_score : ℕ
  pub total_score : ℕ
  pub classification : Classification

-- `sorted`
unfoldable pub insert_price : ℕ → List ℕ → List ℕ
insert_price p [] = p ∷ []
insert_price p (q ∷ qs) = let later = q ∷ insert_price p qs in if leb p q then p ∷ q ∷ qs else later

unfoldable pub sorted : List ℕ → List ℕ
sorted [] = []
sorted (p ∷ ps) = insert_price p (sorted ps)

-- the prices above zero
abbrev pub positive : List ℕ → List ℕ
positive [] = []
positive (p ∷ ps) = let rest = positive ps in if ltb 0 p then p ∷ rest else rest

abbrev pub at : List ℕ → ℕ → ℕ
at [] i = 0
at (p ∷ ps) zero = p
at (p ∷ ps) (suc i) = at ps i

-- `_median`, doubled; the list is not empty
unfoldable pub double_median : List ℕ → ℕ
double_median ps =
    let middle = length ps / 2 in
    if length ps % 2 == 1 then 2 * at ps middle else at ps (middle - 1) + at ps middle

-- `_bounded_floor`
abbrev pub floor_units : ℤ → (places divisor maximum : ℕ) → ℕ
floor_units (negsuc n) places divisor maximum = 0
floor_units (pos n) places divisor maximum = min maximum (n / (divisor * 10 ^ places))

unfoldable pub bounded_floor : Option Decimal → (divisor maximum : ℕ) → ℕ
bounded_floor none divisor maximum = 0
bounded_floor (some d) divisor maximum = floor_units d.units d.places divisor maximum

unfoldable pub volume_score : Option ℤ → ℕ
volume_score none = 0
volume_score (some (negsuc n)) = 0
volume_score (some (pos n)) =
    if n == 0
    then 0
    else if ltb n 10
    then 2
    else if ltb n 50
    then 4
    else if ltb n 200
    then 6
    else if ltb n 1000
    then 8
    else 10

-- `price_drop_percent >= minimum_drop`, of a doubled median and a price
unfoldable pub drops : MinimumDrop → (median price : ℕ) → Bool
drops m median price =
    leb (2 * price) median && leb (m.units * median) (100 * (median - 2 * price) * 10 ^ m.places)

-- `min(60, _floor(price_drop_percent * 2))`
unfoldable pub drop_score : (median price : ℕ) → ℕ
drop_score median price = min 60 (200 * (median - 2 * price) / median)

abbrev is_positive : ℤ → Bool
is_positive (pos n) = ltb 0 n
is_positive (negsuc n) = false

abbrev pub is_discounted : Option Decimal → Bool
is_discounted none = false
is_discounted (some d) = is_positive d.units

-- What the prices of the past say: the doubled median, their number, and whether the price drops.
pub record History : Type 0 where
  pub median : Option ℕ
  pub count : ℕ
  pub dropped : Bool
  pub score : ℕ

abbrev pub history_of : MinimumDrop → (price : ℕ) → List ℕ → History
history_of m price ps =
    if leb 2 (length ps)
    then record {
      median = some (double_median ps);
      count = length ps;
      dropped = drops m (double_median ps) price;
      score = if drops m (double_median ps) price then drop_score (double_median ps) price else 0;
    }
    else record { median = none; count = length ps; dropped = false; score = 0 }

abbrev pub history : MinimumDrop → Option ℕ → List ℕ → History
history m none snapshots = record { median = none; count = 0; dropped = false; score = 0 }
history m (some price) snapshots = history_of m price (sorted (positive snapshots))

abbrev pub classified : Option ℕ → Bool → Option Decimal → Classification
classified none dropped discount = insufficient_data
classified (some price) true discount = history_backed_price_drop
classified (some price) false discount =
    if is_discounted discount then provider_discount_only else baseline_only

unfoldable pub rank_discovery_product : DiscoveryProduct → List ℕ → MinimumDrop → DiscoveryScore
rank_discovery_product product snapshots m =
    let h = history m product.target_brl_price snapshots in
    let discount = bounded_floor product.declared_discount_percent 2 15 in
    let volume = volume_score product.volume in
    let commission = bounded_floor product.commission_rate 1 5 in
    record {
      history_median = h.median;
      history_snapshot_count = h.count;
      history_score = h.score;
      discount_score = discount;
      volume_score = volume;
      commission_score = commission;
      completeness_score = product.completeness_score;
      total_score = h.score + discount + volume + commission + product.completeness_score;
      classification =
          classified product.target_brl_price h.dropped product.declared_discount_percent;
    }
