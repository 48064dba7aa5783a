-- ===== src/Discovery/Ranking/Order.antt =====
-- The order in which the prices of the past are read does not matter to
-- src/promo_bot/discovery/ranking.py.
use mathlib.Core.Logic.{∥∥₁_elim}
use mathlib.Core.List.{Perm, Permᴰ}
use native.Mathlib.Decide.{ℕ_discrete}
use promo_bot.Base.{
  ℕ, ◌≡◌, refl, ap, ◌∙◌, Option, none, some, List, [], ◌∷◌, ltb, Bool-cases, inl, inr, arith,
}
use promo_bot.Discovery.Ranking.{
  DiscoveryProduct, MinimumDrop, insert_price, sorted, positive, history_of, history,
  rank_discovery_product,
}

-- Two prices are inserted in either order with one result.
insert-swap :
    (p q : ℕ) (xs : List ℕ)
    → insert_price p (insert_price q xs) ≡ insert_price q (insert_price p xs)
unfolding insert_price
insert-swap p q [] = ground arith
insert-swap p q (x ∷ xs) = ground (arith, insert-swap p q xs)

abbrev ordered : List ℕ → List ℕ
ordered xs = sorted (positive xs)

cons-ordered :
    (a : ℕ) (xs ys : List ℕ) → ordered xs ≡ ordered ys → ordered (a ∷ xs) ≡ ordered (a ∷ ys)
unfolding sorted
cons-ordered a xs ys e = elim (Bool-cases (ltb 0 a)) [
  | inl h ↦ rw h (ap (insert_price a) e)
  | inr h ↦ rw h e
]

swap-ordered : (a b : ℕ) (l : List ℕ) → ordered (a ∷ b ∷ l) ≡ ordered (b ∷ a ∷ l)
unfolding sorted
swap-ordered a b l = elim (Bool-cases (ltb 0 a)) [
  | inl h ↦ elim (Bool-cases (ltb 0 b)) [
    | inl k ↦ rw (h, k) (insert-swap a b (ordered l))
    | inr k ↦ rw (h, k)
  ]
  | inr h ↦ elim (Bool-cases (ltb 0 b)) [ inl k ↦ rw (h, k) | inr k ↦ rw (h, k) ]
]

ordered-perm : {xs ys : List ℕ} → Permᴰ xs ys → ordered xs ≡ ordered ys
ordered-perm Permᴰ.nil = refl
ordered-perm (Permᴰ.cons {a} {b} {l₁} {l₂} e p) =
    cons-ordered a l₁ l₂ (ordered-perm p) ∙ ap (λ x. ordered (x ∷ l₂)) e
ordered-perm (Permᴰ.swap {a} {b} {a'} {b'} {l} e f) =
    swap-ordered a b l ∙ ap (λ x. ordered (x ∷ a ∷ l)) f ∙ ap (λ x. ordered (a' ∷ x ∷ l)) e
ordered-perm (Permᴰ.trans p q) = ordered-perm p ∙ ordered-perm q

List-set : (xs ys : List ℕ) (p q : xs ≡ ys) → p ≡ q
List-set = hlevel ℕ_discrete

history-perm :
    (m : MinimumDrop) (o : Option ℕ) {xs ys : List ℕ} → Perm xs ys → history m o xs ≡ history m o ys
history-perm m none p = refl
history-perm m (some price) {xs} {ys} p =
    ap (history_of m price) (∥∥₁_elim p (List-set (ordered xs) (ordered ys)) ordered-perm)

-- The score of a product does not depend on the order in which its past prices are listed: two
-- histories with the same prices, each as often, give the same score, median and class included.
pub rank-perm :
    (product : DiscoveryProduct) (m : MinimumDrop) {xs ys : List ℕ}
    → Perm xs ys
    → rank_discovery_product product xs m ≡ rank_discovery_product product ys m
unfolding rank_discovery_product
rank-perm product m {xs} {ys} p = rw (history-perm m product.target_brl_price p)
