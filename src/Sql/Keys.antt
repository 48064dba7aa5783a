-- ===== src/Sql/Keys.antt =====
-- Statements that name one row by its primary key, as almost every statement of the repositories
-- does: what they do to that row, and that they leave the others alone.
use promo_bot.Base.{
  ℕ, ◌≡◌, ◌≢◌, ◌⊎◌, refl, sym, Bool, true, false, ◌&&◌, List, [], ◌∷◌, ◌++◌, ◌==◌, if◌then◌else◌,
  Option, none, some, All, All-concat, arith, Bool-cases, Option-cases, inl, inr, ==_iff, any,
}
use mathlib.Core.Path.{subst}
use promo_bot.Sql.Rows.{map_where, count_where, where_rows, first, Sql}

module _ {Row : Type 0} (key : Row → ℕ) where
  -- The key identifies a row.
  abbrev pub UniqueKeys : List Row → Type 0
  UniqueKeys [] = Unit
  UniqueKeys (r ∷ t) = All (λ s. key s ≢ key r) t × UniqueKeys t

  abbrev pub find : ℕ → List Row → Option Row
  find i t = first (where_rows (λ r. key r == i) t)

  abbrev pub at_key : ℕ → (Row → Bool) → Row → Bool
  at_key i guard r = key r == i && guard r

  -- How many rows a statement on the row found writes, and what it leaves of it.
  abbrev pub hits : (Row → Bool) → Option Row → ℕ
  hits guard none = 0
  hits guard (some r) = if guard r then 1 else 0

  abbrev pub written : (Row → Bool) → (Row → Row) → Option Row → Option Row
  written guard f none = none
  written guard f (some r) = some (if guard r then f r else r)

  find-cons :
      (i : ℕ) (r : Row) (t : List Row) → find i (r ∷ t) ≡ (if key r == i then some r else find i t)
  find-cons i r t = ground arith

  find_absent : (i : ℕ) (t : List Row) → All (λ s. key s ≢ i) t → find i t ≡ none
  find_absent i [] h = refl
  find_absent i (r ∷ t) (n, h) = ground (arith, find_absent i t h)

  count_absent :
      (i : ℕ) (g : Row → Bool) (t : List Row)
      → All (λ s. key s ≢ i) t
      → count_where (at_key i g) t ≡ 0
  count_absent i g [] h = refl
  count_absent i g (r ∷ t) (n, h) = ground (arith, count_absent i g t h)

  pub count_where-at_key :
      (i : ℕ) (g : Row → Bool) (t : List Row)
      → UniqueKeys t
      → count_where (at_key i g) t ≡ hits g (find i t)
  count_where-at_key i g [] u = refl
  count_where-at_key i g (r ∷ t) (n, u) = elim (Bool-cases (key r == i)) [
    | inl here ↦
        let e = (==_iff (key r) i).0 here in
        let others = subst (λ k. All (λ s. key s ≢ k) t) e n in
        ground (arith, count_absent i g t others)
    | inr away ↦ ground (arith, count_where-at_key i g t u)
  ]

  pub find-key : (j : ℕ) (t : List Row) {d : Row} → find j t ≡ some d → key d ≡ j
  find-key j [] e = absurd (cc)
  find-key j (r ∷ t) {d} e = ground (arith, find-key j t {d = d})

  pub map_where_none :
      (p : Row → Bool) (f : Row → Row) (t : List Row) → count_where p t ≡ 0 → map_where p f t ≡ t
  map_where_none p f [] h = refl
  map_where_none p f (r ∷ t) h = ground (arith, map_where_none p f t)

  -- A statement that names one row writes it, or writes nothing at all.
  abbrev pub WritesOne : Sql Row key → ℕ → (Row → Bool) → (Row → Row) → List Row → Type 0
  WritesOne sql i g f t =
      ((r : Row) × (find i t ≡ some r)
        × (g r ≡ true)
        × (sql.update (at_key i g) f t ≡ (map_where (at_key i g) f t, 1)))
      ⊎ ((hits g (find i t) ≡ 0) × (sql.update (at_key i g) f t ≡ (t, 0)))

  pub update_one :
      (sql : Sql Row key) (i : ℕ) (g : Row → Bool) (f : Row → Row) (t : List Row)
      → UniqueKeys t
      → WritesOne sql i g f t
  update_one sql i g f t u = elim (Option-cases (find i t)) [
    | inl e ↦
        let c : count_where (at_key i g) t ≡ 0 = rw (count_where-at_key i g t u, e) in
        inr (rw e, rw (sql.update_lem, c, map_where_none (at_key i g) f t c))
    | inr (r, e) ↦ elim (Bool-cases (g r)) [
      | inl yes' ↦
          let c : count_where (at_key i g) t ≡ 1 = rw (count_where-at_key i g t u, e, yes') in
          inl (r, e, yes', rw (sql.update_lem, c))
      | inr no' ↦
          let c : count_where (at_key i g) t ≡ 0 = rw (count_where-at_key i g t u, e, no') in
          inr (rw (e, no'), rw (sql.update_lem, c, map_where_none (at_key i g) f t c))
    ]
  ]

  module _ {f : Row → Row} (keeps : (r : Row) → key (f r) ≡ key r) where
    -- A statement changes the row found exactly when it meets the condition, and no other row.
    pub find-map_where :
        (j i : ℕ) (g : Row → Bool) (t : List Row)
        → find j (map_where (at_key i g) f t)
          ≡ (if j == i then written g f (find j t) else find j t)
    find-map_where j i g [] = ground arith
    find-map_where j i g (r ∷ t) = ground (arith, find-map_where j i g t, keeps r)

    pub find-map_where_all :
        (j : ℕ) (p : Row → Bool) (t : List Row) → find j (map_where p f t) ≡ written p f (find j t)
    find-map_where_all j p [] = refl
    find-map_where_all j p (r ∷ t) = ground (arith, find-map_where_all j p t, keeps r)

    All-map_where :
        (i : ℕ) (p : Row → Bool) (t : List Row)
        → All (λ s. key s ≢ i) t
        → All (λ s. key s ≢ i) (map_where p f t)
    All-map_where i p [] h = tt
    All-map_where i p (r ∷ t) (n, h) = (ground (arith, keeps r), All-map_where i p t h)

    pub map_where-UniqueKeys :
        (p : Row → Bool) (t : List Row) → UniqueKeys t → UniqueKeys (map_where p f t)
    map_where-UniqueKeys p [] u = tt
    map_where-UniqueKeys p (r ∷ t) (n, u) =
        let e : key (if p r then f r else r) ≡ key r = ground (arith, keeps r) in
        (
          subst (λ k. All (λ s. key s ≢ k) (map_where p f t)) (sym e) (All-map_where (key r) p t n),
          map_where-UniqueKeys p t u,
        )

    -- An UPDATE does to each row found what its clauses say, and keeps the keys apart.
    pub find-update :
        (sql : Sql Row key) (j : ℕ) (p : Row → Bool) (t : List Row)
        → find j (sql.update p f t).0 ≡ written p f (find j t)
    find-update sql j p t = rw sql.update_lem (find-map_where_all j p t)

    pub update-UniqueKeys :
        (sql : Sql Row key) (p : Row → Bool) (t : List Row)
        → UniqueKeys t
        → UniqueKeys (sql.update p f t).0
    update-UniqueKeys sql p t u = rw sql.update_lem (map_where-UniqueKeys p t u)

  pub UniqueKeys-concat-one :
      (t : List Row) (r : Row)
      → UniqueKeys t
      → All (λ s. key s ≢ key r) t
      → UniqueKeys (t ++ r ∷ [])
  UniqueKeys-concat-one [] r u h = (tt, tt)
  UniqueKeys-concat-one (s ∷ t) r (n, u) (d, h) =
      (All-concat (λ s'. key s' ≢ key s) t n (λ e. d (sym e)), UniqueKeys-concat-one t r u h)

  pub find-concat_old :
      (j : ℕ) (t : List Row) (r : Row) {d : Row} → find j t ≡ some d → find j (t ++ r ∷ []) ≡ some d
  find-concat_old j [] r e = absurd (cc)
  find-concat_old j (s ∷ t) r {d} e = ground (arith, find-concat_old j t r {d = d})

  -- What an insert that does not raise has done.
  abbrev pub Inserted : (Row → Bool) → Row → List Row → List Row → ℕ → Type 0
  Inserted p r t t' n =
      ((any p t ≡ true) × (t' ≡ t) × (n ≡ 0)) ⊎ ((any p t ≡ false) × (t' ≡ t ++ r ∷ []) × (n ≡ 1))

  module _ (sql : Sql Row key) (p q : Row → Bool) (v : ℕ → Row) (t : List Row) {t' : List Row}
      {n : ℕ} (e : sql.insert p q v t ≡ some (t', n)) where
    pub insert_outcome : Inserted p (v (sql.fresh t)) t t' n
    insert_outcome = elim (Bool-cases (any p t)) [
      | inl clash ↦ elim (Bool-cases (any q t)) [
        | inl other ↦ elim (sql.insert_both p q v t clash other) [
          | inl fails ↦ absurd (cc)
          | inr same ↦ inl (clash, ground arith, ground arith)
        ]
        | inr fine ↦
            let same = sql.insert_conflict p q v t clash fine in
            inl (clash, ground arith, ground arith)
      ]
      | inr free ↦ elim (Bool-cases (any q t)) [
        | inl other ↦ let fails = sql.insert_violation p q v t free other in absurd (cc)
        | inr fine ↦
            let added = sql.insert_new p q v t free fine in inr (free, ground arith, ground arith)
      ]
    ]

    -- An insert that does not raise keeps the keys apart.
    pub insert-UniqueKeys : ((i : ℕ) → key (v i) ≡ i) → UniqueKeys t → UniqueKeys t'
    insert-UniqueKeys named u = elim insert_outcome [
      | inl kept ↦ rw kept.1 u
      | inr added ↦
          let new = sql.fresh t in
          let apart = subst (λ k. All (λ s. key s ≢ k) t) (sym (named new)) (sql.fresh_new t) in
          rw added.1 (UniqueKeys-concat-one t (v new) u apart)
    ]
