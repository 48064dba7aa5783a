-- ===== src/Discovery.antt =====
-- src/promo_bot/discovery: how products found are ranked and variants are matched.
pub mod Ranking
pub mod Skus
