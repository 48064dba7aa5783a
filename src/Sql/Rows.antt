-- ===== src/Sql/Rows.antt =====
-- SQL statements over the rows of one table. The engine is not part of the program: it is a
-- parameter, `Sql Row key`, with what SQL documents of each statement. A table is the list of its
-- rows, and `key` is the integer primary key.
use promo_bot.Base.{
  ℕ, suc, ◌≡◌, ◌≢◌, ◌⊎◌, Bool, true, false, List, [], ◌∷◌, ◌++◌, ◌==◌, if◌then◌else◌, Option, none,
  some, any, All, ltb, leb, ◌&&◌, ◌||◌,
}

module _ {Row : Type 0} where
  -- What `UPDATE … WHERE p` leaves, if it writes `f row` over a row.
  abbrev pub map_where : (Row → Bool) → (Row → Row) → List Row → List Row
  map_where p f [] = []
  map_where p f (r ∷ t) = (if p r then f r else r) ∷ map_where p f t

  -- How many rows a WHERE clause selects.
  abbrev pub count_where : (Row → Bool) → List Row → ℕ
  count_where p [] = 0
  count_where p (r ∷ t) = let rest = count_where p t in if p r then suc rest else rest

  abbrev pub where_rows : (Row → Bool) → List Row → List Row
  where_rows p [] = []
  where_rows p (r ∷ t) = let rest = where_rows p t in if p r then r ∷ rest else rest

  -- `scalar_one_or_none`, for a WHERE clause that selects one row at most.
  abbrev pub first : List Row → Option Row
  first [] = none
  first (r ∷ t) = some r

module _ {Row : Type 0} (column key : Row → ℕ) where
  -- `ORDER BY column, key`
  abbrev pub precedes : Row → Row → Bool
  precedes r s = ltb (column r) (column s) || column r == column s && leb (key r) (key s)

  abbrev pub insert_sorted : Row → List Row → List Row
  insert_sorted r [] = r ∷ []
  insert_sorted r (s ∷ t) =
      let later = s ∷ insert_sorted r t in if precedes r s then r ∷ s ∷ t else later

  abbrev pub sort_rows : List Row → List Row
  sort_rows [] = []
  sort_rows (r ∷ t) = insert_sorted r (sort_rows t)

pub record Sql (Row : Type 0) (key : Row → ℕ) : Type 0 where
  -- `UPDATE … WHERE … `, with the number of rows that it writes (`rowcount`)
  pub update : (Row → Bool) → (Row → Row) → List Row → List Row × ℕ
  -- `SELECT … WHERE …`
  pub select : (Row → Bool) → List Row → List Row
  -- `… ORDER BY column, key`
  pub ordered : (Row → ℕ) → List Row → List Row
  -- `INSERT … ON CONFLICT (…) DO NOTHING`, with the number of rows that it adds. The first test is
  -- the conflict that the statement names, the second the other uniqueness constraints of the
  -- table, whose violation is an `IntegrityError`, here `none`; the values are a function of the key
  -- that the engine assigns.
  pub insert : (Row → Bool) → (Row → Bool) → (ℕ → Row) → List Row → Option (List Row × ℕ)
  pub fresh : List Row → ℕ
  pub update_lem :
      (p : Row → Bool) (f : Row → Row) (t : List Row)
      → update p f t ≡ (map_where p f t, count_where p t)
  pub select_lem : (p : Row → Bool) (t : List Row) → select p t ≡ where_rows p t
  pub ordered_lem : (column : Row → ℕ) (t : List Row) → ordered column t ≡ sort_rows column key t
  pub insert_new :
      (p q : Row → Bool) (v : ℕ → Row) (t : List Row)
      → any p t ≡ false
      → any q t ≡ false
      → insert p q v t ≡ some (t ++ v (fresh t) ∷ [], 1)
  pub insert_conflict :
      (p q : Row → Bool) (v : ℕ → Row) (t : List Row)
      → any p t ≡ true
      → any q t ≡ false
      → insert p q v t ≡ some (t, 0)
  pub insert_violation :
      (p q : Row → Bool) (v : ℕ → Row) (t : List Row)
      → any p t ≡ false
      → any q t ≡ true
      → insert p q v t ≡ none
  -- where a row breaks both, the order in which the engine looks at them is left open
  pub insert_both :
      (p q : Row → Bool) (v : ℕ → Row) (t : List Row)
      → any p t ≡ true
      → any q t ≡ true
      → (insert p q v t ≡ none) ⊎ (insert p q v t ≡ some (t, 0))
  pub fresh_new : (t : List Row) → All (λ r. key r ≢ fresh t) t

-- `session.get(Model, id)`
abbrev pub get : {Row : Type 0} {key : Row → ℕ} → Sql Row key → ℕ → List Row → Option Row
get {key} sql i t = first (sql.select (λ r. key r == i) t)
