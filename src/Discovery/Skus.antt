-- ===== src/Discovery/Skus.antt =====
-- `match_discovery_skus` of src/promo_bot/discovery/sku_matcher.py, and the validators of its
-- requirements in src/promo_bot/discovery/config.py. A text is a list of code points. `str.casefold`,
-- a table of Unicode, is the parameter `casefold`: nothing is assumed of it.
pub mod Matching
use promo_bot.Base.{
  is_empty, ℕ, ◌+◌, Bool, true, false, not, ◌&&◌, ◌||◌, Option, none, some, List, [], ◌∷◌, ◌==◌,
  leb, ltb, all, any, if◌then◌else◌, length, is_space,
}
use promo_bot.Base.Int.{ℤ, pos, negsuc}
use promo_bot.Stores.Patterns.{Text, codes, same}
use promo_bot.Discovery.Ranking.{Decimal}

pub record DiscoverySkuAttribute : Type 0 where
  pub name : Text
  pub value : Text

pub record DiscoverySku : Type 0 where
  pub product_id : Text
  pub sku_id : Text
  pub currency : Text
  pub price_with_tax : Option Decimal
  pub sale_price_with_tax : Decimal
  pub discount_percent : Option Decimal
  pub attributes : List DiscoverySkuAttribute

pub record DiscoverySkuPage : Type 0 where
  pub product_id : Text
  pub skus : List DiscoverySku

pub record SkuRefinementRequirement : Type 0 where
  pub dimension : Text
  pub property_names : List Text
  pub accepted_values : List Text

pub data SkuMatchState : Type 0 where
  matched no_match ambiguous review_required : SkuMatchState

pub record SkuMatchResult : Type 0 where
  pub state : SkuMatchState
  pub selected : Option DiscoverySku
  pub alternatives : List DiscoverySku

-- `text.strip()`, from the left and then from the right
abbrev pub strip_left : Text → Text
strip_left [] = []
strip_left (c ∷ s) = let rest = strip_left s in if is_space c then rest else c ∷ s

abbrev pub prepend : ℕ → Text → Text
prepend c [] = if is_space c then [] else c ∷ []
prepend c (d ∷ s) = c ∷ d ∷ s

abbrev pub strip_right : Text → Text
strip_right [] = []
strip_right (c ∷ s) = prepend c (strip_right s)

abbrev pub strip : Text → Text
strip s = strip_right (strip_left s)

-- `text in texts`
abbrev pub is_one_of : List Text → Text → Bool
is_one_of texts t = any (same t) texts

-- `value <= 0`
abbrev pub is_positive : Decimal → Bool
is_positive d = elim d.units [ pos n ↦ ltb 0 n | negsuc n ↦ false ]

-- A dict of attributes: each name once.
abbrev pub lookup : List (Text × Text) → Text → Option Text
lookup [] name = none
lookup ((n, v) ∷ rest) name = let later = lookup rest name in if same n name then some v else later

-- `name in attributes and attributes[name] != value`
abbrev pub contradicts : Option Text → Text → Bool
contradicts none value = false
contradicts (some held) value = not (same held value)

abbrev pub choose : List DiscoverySku → SkuMatchResult
choose [] = record { state = no_match; selected = none; alternatives = [] }
choose (sku ∷ []) = record { state = matched; selected = some sku; alternatives = sku ∷ [] }
choose (sku ∷ other ∷ rest) = record {
  state = ambiguous;
  selected = none;
  alternatives = sku ∷ other ∷ rest;
}

abbrev pub to_review : SkuMatchResult
to_review = record { state = review_required; selected = none; alternatives = [] }

module _ (casefold : Text → Text) where
  -- `text.strip().casefold()`
  abbrev pub normalized : Text → Text
  normalized t = casefold (strip t)

  abbrev pub is_control : ℕ → Bool
  is_control c = ltb c 32 || c == 127

  -- `_normalize_sku_label`; `none` stands for its `ValueError`
  unfoldable pub normalize_sku_label : Text → Option Text
  normalize_sku_label t =
      let n = normalized t in
      if not (leb 1 (length n) && leb (length n) 100) || any is_control n then none else some n

  -- The loop of `_valid_sku` over the attributes, with the dict so far.
  abbrev pub consistent : List (Text × Text) → List DiscoverySkuAttribute → Bool
  consistent held [] = true
  consistent held (a ∷ rest) =
      let name = normalized a.name in
      let value = normalized a.value in
      not (is_empty name || is_empty value || contradicts (lookup held name) value)
      && consistent ((name, value) ∷ held) rest

  -- `_valid_sku`
  unfoldable pub valid_sku : (product_id : Text) → DiscoverySku → Bool
  valid_sku product_id sku =
      same sku.product_id product_id
      && same sku.currency (codes "BRL")
      && is_positive sku.sale_price_with_tax
      && not (is_empty sku.attributes)
      && consistent [] sku.attributes

  abbrev pub answers : SkuRefinementRequirement → DiscoverySkuAttribute → Bool
  answers r a =
      is_one_of r.property_names (normalized a.name)
      && is_one_of r.accepted_values (normalized a.value)

  -- `_matches`
  unfoldable pub matches : List SkuRefinementRequirement → DiscoverySku → Bool
  matches requirements sku = all (λ r. any (answers r) sku.attributes) requirements

  -- the alternatives of a page
  abbrev pub matching : List SkuRefinementRequirement → List DiscoverySku → List DiscoverySku
  matching requirements [] = []
  matching requirements (sku ∷ skus) =
      let rest = matching requirements skus in if matches requirements sku then sku ∷ rest else rest

  unfoldable pub match_discovery_skus :
      DiscoverySkuPage → List SkuRefinementRequirement → SkuMatchResult
  match_discovery_skus page requirements =
      if is_empty requirements || not (leb 1 (length page.skus) && ltb (length page.skus) 20)
      then to_review
      else if not (all (valid_sku page.product_id) page.skus)
      then to_review
      else choose (matching requirements page.skus)
