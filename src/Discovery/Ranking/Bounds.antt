-- ===== src/Discovery/Ranking/Bounds.antt =====
-- The range of the scores of src/promo_bot/discovery/ranking.py.
use promo_bot.Base.{
  ℕ, ◌+◌, ◌≤◌, ◌≡◌, ◌≢◌, ◌⊎◌, refl, ap, Bool, true, false, Option, none, some, List, leb,
  Bool-cases, inl, inr, arith, length,
}
use promo_bot.Base.Int.{ℤ, pos, negsuc}
use promo_bot.Discovery.Ranking.{
  Decimal, DiscoveryProduct, DiscoveryScore, MinimumDrop, history_backed_price_drop, bounded_floor,
  floor_units, volume_score, drop_score, drops, double_median, history, sorted, positive,
  classified, rank_discovery_product,
}
use native.Mathlib.Nat.{min-le_left}

floor_units-le :
    (z : ℤ) (places divisor maximum : ℕ) → floor_units z places divisor maximum ≤ maximum
floor_units-le (pos n) places divisor maximum = min-le_left _ _
floor_units-le (negsuc n) places divisor maximum = omega arith

bounded_floor-le :
    (o : Option Decimal) (divisor maximum : ℕ) → bounded_floor o divisor maximum ≤ maximum
unfolding bounded_floor
bounded_floor-le none divisor maximum = omega arith
bounded_floor-le (some d) divisor maximum = floor_units-le d.units d.places divisor maximum

volume_score-le : (o : Option ℤ) → volume_score o ≤ 10
unfolding volume_score
volume_score-le none = omega arith
volume_score-le (some (pos n)) = ground arith
volume_score-le (some (negsuc n)) = omega arith

drop_score-le : (median price : ℕ) → drop_score median price ≤ 60
unfolding drop_score
drop_score-le median price = min-le_left _ _

-- A drop is scored only where it is large enough, and then it decides the class.
history-score :
    (m : MinimumDrop) (o : Option ℕ) (snapshots : List ℕ)
    → ((history m o snapshots).score ≤ 60)
      × ((history m o snapshots).dropped ≡ false → (history m o snapshots).score ≡ 0)
history-score m none snapshots = (omega arith, λ h. refl)
history-score m (some price) snapshots =
    let ps = sorted (positive snapshots) in
    elim (Bool-cases (leb 2 (length ps))) [
      | inl b ↦ elim (Bool-cases (drops m (double_median ps) price)) [
        | inl d ↦ rw (b, d) (drop_score-le (double_median ps) price, λ h. absurd (cc))
        | inr d ↦ rw (b, d) (omega arith, λ h. refl)
      ]
      | inr b ↦ rw b (omega arith, λ h. refl)
    ]

classified-dropped :
    (o : Option ℕ) (b : Bool) (d : Option Decimal)
    → classified o b d ≢ history_backed_price_drop
    → (o ≡ none) ⊎ (b ≡ false)
classified-dropped none b d h = inl refl
classified-dropped (some p) true d h = absurd (h refl)
classified-dropped (some p) false d h = inr refl

module _ (product : DiscoveryProduct) (snapshots : List ℕ) (m : MinimumDrop) where
  abbrev rank : DiscoveryScore
  rank = rank_discovery_product product snapshots m

  unscored : rank.classification ≢ history_backed_price_drop → rank.history_score ≡ 0
  unfolding rank_discovery_product
  unscored h =
      elim (classified-dropped product.target_brl_price
        (history m product.target_brl_price snapshots).dropped product.declared_discount_percent
        h) [
          | inl e ↦ ap (λ o. (history m o snapshots).score) e
          | inr e ↦ (history-score m product.target_brl_price snapshots).1 e
        ]

  -- Each part of a score keeps to its range, so that the total exceeds the completeness of the data
  -- by 90 at most; and the prices of the past add to the score only of a product that is classified as
  -- one whose price drops.
  pub score_bounds :
      (rank.history_score ≤ 60)
      × (rank.discount_score ≤ 15)
      × (rank.volume_score ≤ 10)
      × (rank.commission_score ≤ 5)
      × (rank.total_score ≤ 90 + product.completeness_score)
      × (rank.classification ≢ history_backed_price_drop → rank.history_score ≡ 0)
  unfolding rank_discovery_product
  score_bounds =
      let h = (history-score m product.target_brl_price snapshots).0 in
      let d = bounded_floor-le product.declared_discount_percent 2 15 in
      let v = volume_score-le product.volume in
      let c = bounded_floor-le product.commission_rate 1 5 in
      (h, d, v, c, omega (arith, h, d, v, c), unscored)
