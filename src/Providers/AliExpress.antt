-- ===== src/Providers/AliExpress.antt =====
-- `select_publishable_price` of src/promo_bot/providers/aliexpress/policy.py, on what it reads of an
-- `AliExpressProductSnapshot`.
use promo_bot.Base.{
  ◌≡◌, ◌≢◌, ◌<◌, Bool, true, false, not, ◌&&◌, ◌||◌, ◌==◌, Option, none, some, String, is_none,
  str_eq, eq_iff, if◌then◌else◌, Result, ok, raised, ◌>>◌, require, arith, Bool-cases, inl, inr,
  refl, ap, ok-injective, require-passed,
}
use mathlib.Core.Path.{subst}
use promo_bot.Providers.{Money, ProviderError}

pub data PriceScope : Type 0 where
  product sku range : PriceScope

pub data PriceDisplayMode : Type 0 where
  exact starting_at range : PriceDisplayMode

pub record Snapshot : Type 0 where
  pub requested_sku_id : Option String
  pub price_min : Money
  pub price_max : Money
  pub price_scope : PriceScope
  pub selected_sku_id : Option String
  pub selected_price : Option Money
  pub available : Option Bool

pub record PricePresentation : Type 0 where
  pub minimum : Money
  pub maximum : Money
  pub mode : PriceDisplayMode
  pub selected_sku_id : Option String

abbrev pub refused : String → (manual_review : Bool) → ProviderError
refused code manual_review = record {
  code = code;
  retryable = false;
  manual_review = manual_review;
}

abbrev pub is_sku : PriceScope → Bool
is_sku PriceScope.sku = true
is_sku _ = false

abbrev pub is_range : PriceScope → Bool
is_range PriceScope.range = true
is_range _ = false

-- `available is True`
abbrev pub confirmed : Option Bool → Bool
confirmed none = false
confirmed (some b) = b

abbrev pub not_positive : Money → Bool
not_positive m = m.cents == 0

-- `selected_sku_id == requested_sku_id`
abbrev pub is_selected : Option String → String → Bool
is_selected none requested = false
is_selected (some s) requested = str_eq s requested

-- The branch of a requested SKU.
abbrev pub sku_price : Snapshot → String → Option Money → Result ProviderError PricePresentation
sku_price s requested none = raised (refused "ALIEXPRESS_SKU_NOT_CONFIRMED" true)
sku_price s requested (some price) = do
  require (is_selected s.selected_sku_id requested && is_sku s.price_scope)
      (refused "ALIEXPRESS_SKU_NOT_CONFIRMED" true)
  require (not (not_positive price)) (refused "ALIEXPRESS_NON_POSITIVE_PRICE" false)
  ok (record {
    minimum = price;
    maximum = price;
    mode = PriceDisplayMode.exact;
    selected_sku_id = s.selected_sku_id;
  })

-- The branches without one.
abbrev pub product_price : Snapshot → Result ProviderError PricePresentation
product_price s =
    if not (s.price_min.cents == s.price_max.cents)
    then (require (is_range s.price_scope) (refused "ALIEXPRESS_PRICE_RANGE_REQUIRES_REVIEW" true)
        >> ok (record {
          minimum = s.price_min;
          maximum = s.price_max;
          mode = PriceDisplayMode.range;
          selected_sku_id = none;
        }))
    else ok (record {
      minimum = s.price_min;
      maximum = s.price_max;
      mode = if is_sku s.price_scope then PriceDisplayMode.exact else PriceDisplayMode.starting_at;
      selected_sku_id = none;
    })

abbrev pub chosen_price : Snapshot → Option String → Result ProviderError PricePresentation
chosen_price s none = product_price s
chosen_price s (some requested) = sku_price s requested s.selected_price

unfoldable pub select_publishable_price : Snapshot → Result ProviderError PricePresentation
select_publishable_price s = do
  require (str_eq s.price_min.currency "BRL") (refused "ALIEXPRESS_CURRENCY_INCOMPATIBLE" false)
  require (confirmed s.available)
      (refused "ALIEXPRESS_AVAILABILITY_UNCONFIRMED" (is_none s.available))
  require (not (not_positive s.price_min || not_positive s.price_max))
      (refused "ALIEXPRESS_NON_POSITIVE_PRICE" false)
  chosen_price s s.requested_sku_id

-- What a presentation may say of a snapshot, by its mode.
abbrev pub Justified : Snapshot → PricePresentation → PriceDisplayMode → Type 0
Justified s p PriceDisplayMode.exact =
    (s.price_scope ≡ PriceScope.sku)
    × (p.minimum.cents ≡ p.maximum.cents)
    × (0 < p.minimum.cents)
    × ((requested : String)
        → s.requested_sku_id ≡ some requested
        → (p.selected_sku_id ≡ some requested)
          × (s.selected_sku_id ≡ some requested)
          × (s.selected_price ≡ some p.minimum)
          × (s.selected_price ≡ some p.maximum))
    × (s.requested_sku_id ≡ none
        → (p.minimum ≡ s.price_min)
          × (p.maximum ≡ s.price_max)
          × (s.price_min.cents ≡ s.price_max.cents))
Justified s p PriceDisplayMode.starting_at =
    (s.requested_sku_id ≡ none)
    × (s.price_scope ≢ PriceScope.sku)
    × (p.minimum ≡ s.price_min)
    × (p.maximum ≡ s.price_max)
    × (s.price_min.cents ≡ s.price_max.cents)
    × (0 < p.minimum.cents)
Justified s p PriceDisplayMode.range =
    (s.requested_sku_id ≡ none)
    × (s.price_scope ≡ PriceScope.range)
    × (p.minimum ≡ s.price_min)
    × (p.maximum ≡ s.price_max)
    × (s.price_min.cents ≢ s.price_max.cents)
    × (0 < p.minimum.cents)
    × (0 < p.maximum.cents)

is_selected-some :
    (o : Option String) (requested : String) → is_selected o requested ≡ true → o ≡ some requested
is_selected-some none requested h = absurd (cc)
is_selected-some (some s) requested h = ap some ((eq_iff s requested).0 h)

is_sku-sku : (x : PriceScope) → is_sku x ≡ true → x ≡ PriceScope.sku
is_sku-sku x h = ground arith

is_range-range : (x : PriceScope) → is_range x ≡ true → x ≡ PriceScope.range
is_range-range x h = ground arith

both : (a b : Bool) → (a && b) ≡ true → (a ≡ true) × (b ≡ true)
both true b h = (refl, h)
both false b h = absurd (cc)

positive : (m : Money) → not (not_positive m) ≡ true → 0 < m.cents
positive m h = ground arith

both_positive :
    (m n : Money) → not (not_positive m || not_positive n) ≡ true → (0 < m.cents) × (0 < n.cents)
both_positive m n h = ground arith

sku_price-Justified :
    (s : Snapshot) (requested : String) (o : Option Money) (p : PricePresentation)
    → s.requested_sku_id ≡ some requested
    → s.selected_price ≡ o
    → sku_price s requested o ≡ ok p
    → Justified s p p.mode
sku_price-Justified s requested none p r e h = absurd (cc)
sku_price-Justified s requested (some price) p r e h =
    let (chosen, h1) =
      require-passed (is_selected s.selected_sku_id requested && is_sku s.price_scope) _ _ h in
    let (some', h2) = require-passed (not (not_positive price)) _ _ h1 in
    let (named, scope) =
      both (is_selected s.selected_sku_id requested) (is_sku s.price_scope) chosen in
    let selected = is_selected-some s.selected_sku_id requested named in
    subst (λ x. Justified s x x.mode) (ok-injective h2)
      (
        is_sku-sku s.price_scope scope,
        refl,
        positive price some',
        λ requested' r'.
            let same : requested ≡ requested' = cc in
            (rw selected (rw same), rw selected (rw same), e, e),
        λ never. absurd (cc),
      )

product_price-Justified :
    (s : Snapshot) (p : PricePresentation)
    → s.requested_sku_id ≡ none
    → 0 < s.price_min.cents
    → 0 < s.price_max.cents
    → product_price s ≡ ok p
    → Justified s p p.mode
product_price-Justified s p r low high h =
    elim (Bool-cases (s.price_min.cents == s.price_max.cents)) [
      | inl equal ↦
          let h' = rw equal at h in
          let one : s.price_min.cents ≡ s.price_max.cents = ground arith in
          subst (λ x. Justified s x x.mode) (ok-injective h')
            (elim (Bool-cases (is_sku s.price_scope)) [
              | inl single ↦ rw single (
                is_sku-sku s.price_scope single,
                one,
                low,
                (λ requested e. absurd (cc)),
                λ free. (refl, refl, one),
              )
              | inr other ↦ rw other (r, (λ e. grind arith), refl, refl, one, low)
            ])
      | inr differ ↦
          let h' = rw differ at h in
          let (scope, h2) = require-passed (is_range s.price_scope) _ _ h' in
          subst (λ x. Justified s x x.mode) (ok-injective h2)
            (r, is_range-range s.price_scope scope, refl, refl, (λ e. ground arith), low, high)
    ]

chosen_price-Justified :
    (s : Snapshot) (o : Option String) (p : PricePresentation)
    → s.requested_sku_id ≡ o
    → 0 < s.price_min.cents
    → 0 < s.price_max.cents
    → chosen_price s o ≡ ok p
    → Justified s p p.mode
chosen_price-Justified s none p r low high h = product_price-Justified s p r low high h
chosen_price-Justified s (some requested) p r low high h =
    sku_price-Justified s requested s.selected_price p r refl h

confirmed-some : (o : Option Bool) → confirmed o ≡ true → o ≡ some true
confirmed-some none h = absurd (cc)
confirmed-some (some b) h = rw h

-- A price is published only as what the shop has confirmed: what `select_publishable_price` returns is
-- for an available product in reais; EXACT is the positive price of a single SKU: where one was
-- requested, the price that the shop selected for that SKU, and else the one price of the snapshot;
-- STARTING_AT is the one price of a product without a SKU requested; RANGE the two different prices
-- that the shop gave as a range, without a SKU requested.
pub price-Justified :
    (s : Snapshot) (p : PricePresentation)
    → select_publishable_price s ≡ ok p
    → (s.price_min.currency ≡ "BRL") × (s.available ≡ some true) × Justified s p p.mode
unfolding select_publishable_price
price-Justified s p h =
    let (reais, h1) = require-passed (str_eq s.price_min.currency "BRL") _ _ h in
    let (available, h2) = require-passed (confirmed s.available) _ _ h1 in
    let (some', h3) =
      require-passed (not (not_positive s.price_min || not_positive s.price_max)) _ _ h2 in
    let (low, high) = both_positive s.price_min s.price_max some' in
    (
      (eq_iff s.price_min.currency "BRL").0 reais,
      confirmed-some s.available available,
      chosen_price-Justified s s.requested_sku_id p refl low high h3,
    )
