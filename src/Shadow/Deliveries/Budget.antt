-- ===== src/Shadow/Deliveries/Budget.antt =====
-- What the rows of src/promo_bot/database/shadow_delivery_repository.py leave to be sent to a target, and
-- what the statements spend of it.
use mathlib.Core.Path.{subst}
use promo_bot.Base.{
  both, ℕ, ◌+◌, ◌≡◌, ◌≢◌, refl, ap, sym, ◌∙◌, Bool, true, false, ◌&&◌, ◌||◌, Option, none, some,
  String, [], ◌∷◌, ◌++◌, ◌==◌, if◌then◌else◌, any, ok, ok-injective, Bool-cases, inl, inr, arith,
  ==_iff, eq_iff, str_eq, All,
}
use promo_bot.Sql.Rows.{Sql, map_where}
use promo_bot.Sql.Keys.{
  UniqueKeys, find, at_key, update-UniqueKeys, insert-UniqueKeys, insert_outcome,
}
use promo_bot.Shadow.Deliveries.{
  ShadowDelivery, ShadowDeliveries, shadow_key, Preview, ShadowError, new_shadow, same_target,
  same_preview, may_send, started, or_raise,
}

pub some-injective : {A : Type 0} {a b : A} → some a ≡ some b → a ≡ b
some-injective e = cc

pub or_raise-ok :
    {A : Type 0} (o : Option A) (e : ShadowError) {a : A} → or_raise o e ≡ ok a → o ≡ some a
or_raise-ok none e h = absurd (cc)
or_raise-ok (some a) e h = ap some (ok-injective h)

pub absent :
    (i : ℕ) (g : ShadowDelivery → Bool) (f : ShadowDelivery → ShadowDelivery) (t : ShadowDeliveries)
    → All (λ s. shadow_key s ≢ i) t
    → map_where (at_key shadow_key i g) f t ≡ t
absent i g f [] h = refl
absent i g f (r ∷ t) (n, h) = ground (arith, absent i g f t h)

pub first_here :
    (i : ℕ) (s : ShadowDelivery) (t : ShadowDeliveries) {r : ShadowDelivery}
    → (s.id == i) ≡ true
    → find shadow_key i (s ∷ t) ≡ some r
    → s ≡ r
first_here i s t here found = let found' = rw here at found in cc

pub first_later :
    (i : ℕ) (s : ShadowDelivery) (t : ShadowDeliveries) {r : ShadowDelivery}
    → (s.id == i) ≡ false
    → find shadow_key i (s ∷ t) ≡ some r
    → find shadow_key i t ≡ some r
first_later i s t away found = rw away at found

module _ (m : ℕ) (d : String) where
  -- what a row, and a table, leave to be sent to the target
  abbrev pub left_of : ShadowDelivery → ℕ
  left_of r = if same_target m d r then (if r.attempt_count == 0 then 1 else 0) else 0

  unfoldable pub left : ShadowDeliveries → ℕ
  left [] = 0
  left (r ∷ t) = left_of r + left t

  unfoldable pub budget : ShadowDeliveries → ℕ
  budget t = if any (same_target m d) t then left t else 1

  pub left-map_where :
      (q : ShadowDelivery → Bool) (f : ShadowDelivery → ShadowDelivery) (t : ShadowDeliveries)
      → ((r : ShadowDelivery) → same_target m d (f r) ≡ same_target m d r)
      → ((r : ShadowDelivery) → (f r).attempt_count ≡ r.attempt_count)
      → left (map_where q f t) ≡ left t
  unfolding left
  left-map_where q f [] same kept = refl
  left-map_where q f (r ∷ t) same kept =
      ground (arith, same r, kept r, left-map_where q f t same kept)

  pub any-map_where :
      (q : ShadowDelivery → Bool) (f : ShadowDelivery → ShadowDelivery) (t : ShadowDeliveries)
      → ((r : ShadowDelivery) → same_target m d (f r) ≡ same_target m d r)
      → any (same_target m d) (map_where q f t) ≡ any (same_target m d) t
  any-map_where q f [] same = refl
  any-map_where q f (r ∷ t) same = ground (arith, same r, any-map_where q f t same)

  pub left_none : (t : ShadowDeliveries) → any (same_target m d) t ≡ false → left t ≡ 0
  unfolding left
  left_none [] h = refl
  left_none (r ∷ t) h = ground (arith, left_none t)

  pub left-concat :
      (t : ShadowDeliveries) (r : ShadowDelivery) → left (t ++ r ∷ []) ≡ left t + left_of r
  unfolding left
  left-concat [] r = omega arith
  left-concat (s ∷ t) r = omega (arith, left-concat t r)

  pub any-concat :
      (t : ShadowDeliveries) (r : ShadowDelivery)
      → any (same_target m d) (t ++ r ∷ []) ≡ (any (same_target m d) t || same_target m d r)
  any-concat [] r = ground arith
  any-concat (s ∷ t) r = ground (arith, any-concat t r)

  pub budget-concat :
      (t : ShadowDeliveries) (r : ShadowDelivery)
      → r.attempt_count ≡ 0
      → (same_target m d r ≡ true → any (same_target m d) t ≡ false)
      → budget (t ++ r ∷ []) ≡ budget t
  unfolding budget
  budget-concat t r fresh apart = ground (arith, left-concat t r, any-concat t r, left_none t)

  -- The statement that starts a send takes what its row leaves.
  pub left-started :
      (i now : ℕ) (t : ShadowDeliveries) {r : ShadowDelivery}
      → UniqueKeys shadow_key t
      → find shadow_key i t ≡ some r
      → may_send r ≡ true
      → left (map_where (at_key shadow_key i may_send) (started now) t)
          + (if same_target m d r then 1 else 0)
        ≡ left t
  unfolding left
  left-started i now [] u found may = absurd (cc)
  left-started i now (s ∷ t) {r} (n, u) found may = elim (Bool-cases (s.id == i)) [
    | inl here ↦
        let e = first_here i s t here found in
        let others = subst (λ k. All (λ s'. shadow_key s' ≢ k) t) ((==_iff s.id i).0 here) n in
        let may_s = subst (λ r. may_send r ≡ true) (sym e) may in
        subst
          (λ r.
            left (map_where (at_key shadow_key i may_send) (started now) (s ∷ t))
              + (if same_target m d r then 1 else 0)
            ≡ left (s ∷ t))
          e (rw (absent i may_send (started now) t others, here, may_s) (ground arith))
    | inr away ↦
        rw away
          (let ih = left-started i now t u (first_later i s t away found) may in omega (arith, ih))
  ]

  pub any-update :
      (i : ℕ) (g : ShadowDelivery → Bool) (f : ShadowDelivery → ShadowDelivery)
      (t : ShadowDeliveries)
      → ((r : ShadowDelivery) → same_target m d (f r) ≡ same_target m d r)
      → any (same_target m d) (map_where (at_key shadow_key i g) f t) ≡ any (same_target m d) t
  any-update i g f t same = any-map_where (at_key shadow_key i g) f t same

  pub any_found :
      (i : ℕ) (t : ShadowDeliveries) {r : ShadowDelivery}
      → find shadow_key i t ≡ some r
      → same_target m d r ≡ true
      → any (same_target m d) t ≡ true
  any_found i [] found h = absurd (cc)
  any_found i (s ∷ t) {r} found h = elim (Bool-cases (s.id == i)) [
    | inl here ↦ let e = first_here i s t here found in ground arith
    | inr away ↦ let later = any_found i t (first_later i s t away found) h in ground arith
  ]

  pub budget-started :
      (i now : ℕ) (t : ShadowDeliveries) {r : ShadowDelivery}
      → UniqueKeys shadow_key t
      → find shadow_key i t ≡ some r
      → may_send r ≡ true
      → budget (map_where (at_key shadow_key i may_send) (started now) t)
          + (if same_target m d r then 1 else 0)
        ≡ budget t
  unfolding budget
  budget-started i now t {r} u found may =
      let n = left-started i now t u found may in
      rw (any-update i may_send (started now) t (λ r. refl))
        (elim (Bool-cases (same_target m d r)) [
          | inl h ↦ rw (any_found i t found h) n
          | inr h ↦ elim (Bool-cases (any (same_target m d) t)) [
            | inl b ↦ rw b n
            | inr b ↦ rw (b, h)
          ]
        ])

pub apart :
    (p : Preview) (destination : String) (m : ℕ) (d : String) (t : ShadowDeliveries)
    → any (same_target p.source_message_id destination) t ≡ false
    → (p.source_message_id == m && str_eq destination d) ≡ true
    → any (same_target m d) t ≡ false
apart p destination m d t free h =
    let (a, b) = both (p.source_message_id == m) (str_eq destination d) h in
    subst (λ k. any (same_target k d) t ≡ false) ((==_iff p.source_message_id m).0 a)
      (subst (λ k. any (same_target p.source_message_id k) t ≡ false) ((eq_iff destination d).0 b)
        free)

-- The rows keep apart, and what is left for each target is the same.
abbrev pub Keeps : ShadowDeliveries → ShadowDeliveries → Type 0
Keeps t t' = UniqueKeys shadow_key t' × ((m : ℕ) (d : String) → budget m d t' ≡ budget m d t)

module _ (sql : Sql ShadowDelivery shadow_key) where
  pub update-Keeps :
      (q : ShadowDelivery → Bool) (f : ShadowDelivery → ShadowDelivery) (t : ShadowDeliveries)
      → ((r : ShadowDelivery) → shadow_key (f r) ≡ shadow_key r)
      → ((m : ℕ) (d : String) (r : ShadowDelivery) → same_target m d (f r) ≡ same_target m d r)
      → ((r : ShadowDelivery) → (f r).attempt_count ≡ r.attempt_count)
      → UniqueKeys shadow_key t
      → Keeps t (sql.update q f t).0
  unfolding budget
  update-Keeps q f t named same counted u = (
    update-UniqueKeys shadow_key named sql q t u,
    λ m d. rw (
      sql.update_lem,
      any-map_where m d q f t (same m d),
      left-map_where m d q f t (same m d) counted,
    ),
  )

  pub insert-Keeps :
      (p : Preview) (destination : String) (now : ℕ) (t : ShadowDeliveries) {t' : ShadowDeliveries}
      {n : ℕ}
      → UniqueKeys shadow_key t
      → sql.insert
          (same_target p.source_message_id destination)
          (same_preview p.id destination)
          (new_shadow p destination now)
          t
        ≡ some (t', n)
      → Keeps t t'
  insert-Keeps p destination now t u e =
      let target = same_target p.source_message_id destination in
      let other = same_preview p.id destination in
      let v = new_shadow p destination now in
      (
        insert-UniqueKeys shadow_key sql target other v t e (λ i. refl) u,
        λ m d. elim (insert_outcome shadow_key sql target other v t e) [
          | inl (_, same, _) ↦ ap (budget m d) same
          | inr (free, added, _) ↦
              ap (budget m d) added
              ∙ budget-concat m d t (v (sql.fresh t)) refl (apart p destination m d t free)
        ],
      )
