-- ===== src/Tests/Prices.antt =====
-- Prices that the policies of src/promo_bot/providers publish.
use promo_bot.Base.{◌<◌, ◌≡◌, refl, true, none, some, ok}
use promo_bot.Providers.{Money}
use promo_bot.Providers.AliExpress
use promo_bot.Providers.Shopee

abbrev reais : Money
reais = record { cents = 4990; currency = "BRL" }

abbrev sku_snapshot : AliExpress.Snapshot
sku_snapshot = record {
  requested_sku_id = some "120";
  price_min = reais;
  price_max = record { cents = 8990; currency = "BRL" };
  price_scope = AliExpress.PriceScope.sku;
  selected_sku_id = some "120";
  selected_price = some reais;
  available = some true;
}

abbrev sku_presentation : AliExpress.PricePresentation
sku_presentation = record {
  minimum = reais;
  maximum = reais;
  mode = AliExpress.PriceDisplayMode.exact;
  selected_sku_id = some "120";
}

sku_published : AliExpress.select_publishable_price sku_snapshot ≡ ok sku_presentation
unfolding AliExpress.select_publishable_price
sku_published = refl

price-Justified_example :
    (reais.currency ≡ "BRL")
    × (sku_snapshot.available ≡ some true)
    × AliExpress.Justified sku_snapshot sku_presentation AliExpress.PriceDisplayMode.exact
price-Justified_example = AliExpress.price-Justified sku_snapshot sku_presentation sku_published

abbrev range_snapshot : Shopee.Snapshot
range_snapshot = record {
  requested_variation_id = none;
  price_min = reais;
  price_max = record { cents = 8990; currency = "BRL" };
  available = true;
  selected_variation_id = none;
  selected_variation_price = none;
  selected_variation_available = none;
  range_semantics_confirmed = true;
}

abbrev range_presentation : Shopee.PricePresentation
range_presentation = record {
  price = reais;
  mode = Shopee.PriceDisplayMode.starting_at;
  variation_id = none;
}

range_published : Shopee.select_publishable_price range_snapshot ≡ ok range_presentation
unfolding Shopee.select_publishable_price
range_published = refl

variation-Justified_example :
    (reais.currency ≡ "BRL")
    × (range_snapshot.available ≡ true)
    × (0 < 4990)
    × Shopee.Justified range_snapshot range_presentation none
variation-Justified_example =
    Shopee.variation-Justified range_snapshot range_presentation range_published
