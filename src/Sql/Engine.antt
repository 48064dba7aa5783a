-- ===== src/Sql/Engine.antt =====
-- An engine that keeps its tables as lists: the statements of `Sql` can be met.
use promo_bot.Base.{
  ℕ, ◌+◌, ◌<◌, ◌≢◌, ◌≡◌, refl, max, List, [], ◌∷◌, ◌++◌, Option, none, some, Bool, true, false, inl,
  All, All-map, any, if◌then◌else◌, arith,
}
use promo_bot.Sql.Rows.{Sql, map_where, count_where, where_rows, sort_rows}

module _ {Row : Type 0} (key : Row → ℕ) where
  -- one more than the largest key, as SQLite assigns it
  abbrev next_key : List Row → ℕ
  next_key [] = 1
  next_key (r ∷ t) = max (key r + 1) (next_key t)

  below_next : (t : List Row) → All (λ r. key r < next_key t) t
  below_next [] = tt
  below_next (r ∷ t) = (omega arith, All-map t (λ s h. omega arith) (below_next t))

  pub next_key_new : (t : List Row) → All (λ r. key r ≢ next_key t) t
  next_key_new t = All-map t (λ s h. omega arith) (below_next t)

  abbrev insert_row : (Row → Bool) → (Row → Bool) → (ℕ → Row) → List Row → Option (List Row × ℕ)
  insert_row p q v t =
      if any q t then none else some (if any p t then (t, 0) else (t ++ v (next_key t) ∷ [], 1))

  module _ (p q : Row → Bool) (v : ℕ → Row) (t : List Row) where
    pub insert_row_new :
        any p t ≡ false → any q t ≡ false → insert_row p q v t ≡ some (t ++ v (next_key t) ∷ [], 1)
    insert_row_new a b = ground arith

    pub insert_row_conflict : any p t ≡ true → any q t ≡ false → insert_row p q v t ≡ some (t, 0)
    insert_row_conflict a b = ground arith

    pub insert_row_violation : any q t ≡ true → insert_row p q v t ≡ none
    insert_row_violation b = ground arith

  abbrev pub list_engine : Sql Row key
  list_engine = record {
    update = λ p f t. (map_where p f t, count_where p t);
    select = where_rows;
    ordered = λ column t. sort_rows column key t;
    insert = insert_row;
    fresh = next_key;
    update_lem = λ p f t. refl;
    select_lem = λ p t. refl;
    ordered_lem = λ column t. refl;
    insert_new = insert_row_new;
    insert_conflict = insert_row_conflict;
    insert_violation = λ p q v t a b. insert_row_violation p q v t b;
    insert_both = λ p q v t a b. inl (insert_row_violation p q v t b);
    fresh_new = next_key_new;
  }
