-- ===== src/Tests/Scores.antt =====
-- A product ranked as src/promo_bot/discovery/ranking.py does it.
use mathlib.Core.List.Perm
use promo_bot.Base.{ℕ, ◌+◌, ◌≤◌, ◌≡◌, ◌≢◌, refl, some, List, [], ◌∷◌}
use promo_bot.Base.Int.{pos}
use promo_bot.Discovery.Ranking.{
  DiscoveryProduct, MinimumDrop, history_backed_price_drop, rank_discovery_product, sorted,
  insert_price, double_median, drops, drop_score, bounded_floor, volume_score,
}
use promo_bot.Discovery.Ranking.Bounds.{score_bounds}
use promo_bot.Discovery.Ranking.Order.{rank-perm}

-- 75.00, with a declared discount of 41%, a commission of 7% and 300 sales
abbrev product : DiscoveryProduct
product = record {
  target_brl_price = some 7500;
  declared_discount_percent = some (record { units = pos 41; places = 0 });
  commission_rate = some (record { units = pos 70; places = 1 });
  volume = some (pos 300);
  completeness_score = 4;
}

abbrev prices : List ℕ
prices = 12000 ∷ 0 ∷ 10000 ∷ 8000 ∷ []

abbrev ten_percent : MinimumDrop
ten_percent = record { units = 10; places = 0 }

-- The median is 100.00, the drop 25%: 50 for the history, 15, 8, 5 and 4 for the rest.
total : (rank_discovery_product product prices ten_percent).total_score ≡ 82
unfolding rank_discovery_product sorted insert_price double_median drops drop_score bounded_floor
    volume_score
total = refl

score_bounds_example :
    ((rank_discovery_product product prices ten_percent).history_score ≤ 60)
    × ((rank_discovery_product product prices ten_percent).discount_score ≤ 15)
    × ((rank_discovery_product product prices ten_percent).volume_score ≤ 10)
    × ((rank_discovery_product product prices ten_percent).commission_score ≤ 5)
    × ((rank_discovery_product product prices ten_percent).total_score ≤ 90 + 4)
    × ((rank_discovery_product product prices ten_percent).classification
          ≢ history_backed_price_drop
        → (rank_discovery_product product prices ten_percent).history_score ≡ 0)
score_bounds_example = score_bounds product prices ten_percent

rank-perm_example :
    rank_discovery_product product (12000 ∷ 8000 ∷ 10000 ∷ []) ten_percent
    ≡ rank_discovery_product product (8000 ∷ 12000 ∷ 10000 ∷ []) ten_percent
rank-perm_example = rank-perm product ten_percent (Perm.swap 8000 12000 (10000 ∷ []))
