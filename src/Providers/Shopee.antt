-- ===== src/Providers/Shopee.antt =====
-- `select_publishable_price` of src/promo_bot/providers/shopee/policy.py, on what it reads of a
-- `ProductSnapshot`.
use promo_bot.Base.{
  ◌≡◌, ◌≢◌, ◌<◌, Bool, true, false, not, ◌||◌, ◌==◌, Option, none, some, String, str_eq, eq_iff,
  if◌then◌else◌, Result, ok, raised, ◌>>◌, require, require-passed, arith, Bool-cases, inl, inr,
  refl, ap, ok-injective,
}
use mathlib.Core.Path.{subst}
use promo_bot.Providers.{Money, ProviderError}

pub data PriceDisplayMode : Type 0 where
  exact starting_at : PriceDisplayMode

pub record Snapshot : Type 0 where
  pub requested_variation_id : Option String
  pub price_min : Money
  pub price_max : Money
  pub available : Bool
  pub selected_variation_id : Option String
  pub selected_variation_price : Option Money
  pub selected_variation_available : Option Bool
  pub range_semantics_confirmed : Bool

pub record PricePresentation : Type 0 where
  pub price : Money
  pub mode : PriceDisplayMode
  pub variation_id : Option String

abbrev pub refused : String → (manual_review : Bool) → ProviderError
refused code manual_review = record {
  code = code;
  retryable = false;
  manual_review = manual_review;
}

abbrev pub not_positive : Money → Bool
not_positive m = m.cents == 0

abbrev pub is_selected : Option String → String → Bool
is_selected none requested = false
is_selected (some s) requested = str_eq s requested

-- The branch of a requested variation.
abbrev pub variation_price :
    Snapshot → String → Option Money → Option Bool → Result ProviderError PricePresentation
variation_price s requested none available = raised (refused "SHOPEE_VARIATION_NOT_CONFIRMED" true)
variation_price s requested (some price) none =
    raised (refused "SHOPEE_VARIATION_NOT_CONFIRMED" true)
variation_price s requested (some price) (some available) = do
  require (is_selected s.selected_variation_id requested)
      (refused "SHOPEE_VARIATION_NOT_CONFIRMED" true)
  require available (refused "SHOPEE_VARIATION_UNAVAILABLE" false)
  require (not (not_positive price)) (refused "SHOPEE_NON_POSITIVE_PRICE" false)
  ok (record { price = price; mode = PriceDisplayMode.exact; variation_id = some requested })

-- The branches without one.
abbrev pub product_price : Snapshot → Result ProviderError PricePresentation
product_price s =
    if s.price_min.cents == s.price_max.cents
    then ok (record { price = s.price_min; mode = PriceDisplayMode.exact; variation_id = none })
    else (require s.range_semantics_confirmed (refused "SHOPEE_PRICE_RANGE_REQUIRES_REVIEW" true)
        >> ok (record {
          price = s.price_min;
          mode = PriceDisplayMode.starting_at;
          variation_id = none;
        }))

abbrev pub chosen_price : Snapshot → Option String → Result ProviderError PricePresentation
chosen_price s none = product_price s
chosen_price s (some requested) =
    variation_price s requested s.selected_variation_price s.selected_variation_available

unfoldable pub select_publishable_price : Snapshot → Result ProviderError PricePresentation
select_publishable_price s = do
  require (str_eq s.price_min.currency "BRL") (refused "SHOPEE_CURRENCY_NOT_SUPPORTED" false)
  require s.available (refused "SHOPEE_PRODUCT_UNAVAILABLE" false)
  require (not (not_positive s.price_min || not_positive s.price_max))
      (refused "SHOPEE_NON_POSITIVE_PRICE" false)
  chosen_price s s.requested_variation_id

-- What the price presented is, by the variation requested.
abbrev pub Justified : Snapshot → PricePresentation → Option String → Type 0
Justified s p (some requested) =
    (p.mode ≡ PriceDisplayMode.exact)
    × (p.variation_id ≡ some requested)
    × (s.selected_variation_id ≡ some requested)
    × (s.selected_variation_available ≡ some true)
    × (s.selected_variation_price ≡ some p.price)
Justified s p none =
    (p.variation_id ≡ none)
    × (p.price ≡ s.price_min)
    × (p.mode ≡ PriceDisplayMode.exact → s.price_min.cents ≡ s.price_max.cents)
    × (p.mode ≡ PriceDisplayMode.starting_at
        → (s.price_min.cents ≢ s.price_max.cents) × (s.range_semantics_confirmed ≡ true))

is_selected-some :
    (o : Option String) (requested : String) → is_selected o requested ≡ true → o ≡ some requested
is_selected-some none requested h = absurd (cc)
is_selected-some (some s) requested h = ap some ((eq_iff s requested).0 h)

positive : (m : Money) → not (not_positive m) ≡ true → 0 < m.cents
positive m h = ground arith

first_positive : (m n : Money) → not (not_positive m || not_positive n) ≡ true → 0 < m.cents
first_positive m n h = ground arith

variation_price-Justified :
    (s : Snapshot) (requested : String) (o : Option Money) (b : Option Bool) (p : PricePresentation)
    → s.selected_variation_price ≡ o
    → s.selected_variation_available ≡ b
    → variation_price s requested o b ≡ ok p
    → (0 < p.price.cents) × Justified s p (some requested)
variation_price-Justified s requested none b p e a h = absurd (cc)
variation_price-Justified s requested (some price) none p e a h = absurd (cc)
variation_price-Justified s requested (some price) (some available) p e a h =
    let (named, h1) = require-passed (is_selected s.selected_variation_id requested) _ _ h in
    let (there, h2) = require-passed available _ _ h1 in
    let (some', h3) = require-passed (not (not_positive price)) _ _ h2 in
    subst (λ x. (0 < x.price.cents) × Justified s x (some requested)) (ok-injective h3)
      (
        positive price some',
        (refl, refl, is_selected-some s.selected_variation_id requested named, rw (a, there), e),
      )

product_price-Justified :
    (s : Snapshot) (p : PricePresentation)
    → 0 < s.price_min.cents
    → product_price s ≡ ok p
    → (0 < p.price.cents) × Justified s p none
product_price-Justified s p low h = elim (Bool-cases (s.price_min.cents == s.price_max.cents)) [
  | inl equal ↦
      let h' = rw equal at h in
      subst (λ x. (0 < x.price.cents) × Justified s x none) (ok-injective h')
        (low, (refl, refl, (λ e. ground arith), λ e. absurd (cc)))
  | inr differ ↦
      let h' = rw differ at h in
      let (range, h2) = require-passed s.range_semantics_confirmed _ _ h' in
      subst (λ x. (0 < x.price.cents) × Justified s x none) (ok-injective h2)
        (low, (refl, refl, (λ e. absurd (cc)), λ e. ((λ same. ground arith), range)))
]

chosen_price-Justified :
    (s : Snapshot) (o : Option String) (p : PricePresentation)
    → 0 < s.price_min.cents
    → chosen_price s o ≡ ok p
    → (0 < p.price.cents) × Justified s p o
chosen_price-Justified s none p low h = product_price-Justified s p low h
chosen_price-Justified s (some requested) p low h =
    variation_price-Justified s requested s.selected_variation_price s.selected_variation_available
      p refl refl h

-- A Shopee price is published only as what the shop has confirmed: what `select_publishable_price`
-- returns is for an available product in reais, and is positive; with a variation requested it is
-- EXACT, and the price of that variation, selected and available; without one it is the lowest price,
-- EXACT where there is one price only and STARTING_AT where there are two and the range is confirmed.
pub variation-Justified :
    (s : Snapshot) (p : PricePresentation)
    → select_publishable_price s ≡ ok p
    → (s.price_min.currency ≡ "BRL")
      × (s.available ≡ true)
      × (0 < p.price.cents)
      × Justified s p s.requested_variation_id
unfolding select_publishable_price
variation-Justified s p h =
    let (reais, h1) = require-passed (str_eq s.price_min.currency "BRL") _ _ h in
    let (available, h2) = require-passed s.available _ _ h1 in
    let (some', h3) =
      require-passed (not (not_positive s.price_min || not_positive s.price_max)) _ _ h2 in
    let (price, why) =
      chosen_price-Justified s s.requested_variation_id p
        (first_positive s.price_min s.price_max some') h3 in
    ((eq_iff s.price_min.currency "BRL").0 reais, available, price, why)
