-- ===== src/Tests/Variants.antt =====
-- The variants of a page matched as src/promo_bot/discovery/sku_matcher.py does it.
use promo_bot.Base.{
  is_empty, ◌+◌, ◌<◌, ◌≡◌, ◌↔◌, refl, true, false, ◌&&◌, none, some, List, [], ◌∷◌, all, length,
  map, leb, if◌then◌else◌,
}
use promo_bot.Base.Int.{pos}
use promo_bot.Stores.Patterns.{Text, codes}
use promo_bot.Discovery.Skus.{
  DiscoverySku, DiscoverySkuPage, SkuRefinementRequirement, match_discovery_skus, valid_sku,
  matches, normalize_sku_label, ambiguous, review_required,
}
use promo_bot.Discovery.Skus.Matching.{Alone, selected_iff}

-- of ASCII
abbrev lower : Text → Text
lower t = map (λ c. if leb 65 c && leb c 90 then c + 32 else c) t

abbrev in_color : Text → DiscoverySku
in_color color = record {
  product_id = codes "1005";
  sku_id = color;
  currency = codes "BRL";
  price_with_tax = none;
  sale_price_with_tax = record { units = pos 9990; places = 2 };
  discount_percent = none;
  attributes = record { name = codes " Color "; value = color } ∷ [];
}

abbrev black : DiscoverySku
black = in_color (codes "BLACK")

abbrev white : DiscoverySku
white = in_color (codes "White")

abbrev page : DiscoverySkuPage
page = record { product_id = codes "1005"; skus = white ∷ black ∷ [] }

abbrev colors : List Text → List SkuRefinementRequirement
colors accepted =
    record {
      dimension = codes "color";
      property_names = codes "color" ∷ [];
      accepted_values = accepted;
    }
    ∷ []

abbrev dark : List SkuRefinementRequirement
dark = colors (codes "black" ∷ codes "grey" ∷ [])

chosen : (match_discovery_skus lower page dark).selected ≡ some black
unfolding match_discovery_skus valid_sku matches
chosen = refl

-- Two variants fit, or nothing is required.
undecided :
    (match_discovery_skus lower page (colors (codes "black" ∷ codes "white" ∷ []))).state
    ≡ ambiguous
unfolding match_discovery_skus valid_sku matches
undecided = refl

unrequired : (match_discovery_skus lower page []).state ≡ review_required
unfolding match_discovery_skus
unrequired = refl

label : normalize_sku_label lower (codes " Color ") ≡ some (codes "color")
unfolding normalize_sku_label
label = refl

selected_iff_example : ((match_discovery_skus lower page dark).selected ≡ some black) ↔ (
    (is_empty dark ≡ false)
    × (length page.skus < 20)
    × (all (valid_sku lower page.product_id) page.skus ≡ true)
    × Alone lower dark page.skus black)
selected_iff_example = selected_iff lower page dark black
