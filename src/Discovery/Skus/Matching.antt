-- ===== src/Discovery/Skus/Matching.antt =====
-- What src/promo_bot/discovery/sku_matcher.py selects.
use mathlib.Core.Path.{subst}
use mathlib.Core.List.{Memᴰ}
use promo_bot.Base.{
  is_empty, both, ==_iff, ℕ, ◌<◌, ◌≡◌, ◌↔◌, refl, sym, ap, ◌∙◌, Bool, true, false, ◌==◌, ◌&&◌, some,
  List, [], ◌∷◌, ◌++◌, all, any, All, length, leb, ltb, Bool-cases, inl, inr, arith, ==_refl,
}
use promo_bot.Stores.Patterns.{Text, same}
use promo_bot.Discovery.Skus.{
  DiscoverySku, DiscoverySkuAttribute, DiscoverySkuPage, SkuRefinementRequirement, is_one_of,
  normalized, answers, matches, matching, choose, valid_sku, match_discovery_skus,
}

-- Two texts that compare as equal are equal, and the other way round.
same-eq : (s t : Text) → same s t ≡ true → s ≡ t
same-eq [] [] h = refl
same-eq [] (b ∷ t) h = absurd (cc)
same-eq (a ∷ s) [] h = absurd (cc)
same-eq (a ∷ s) (b ∷ t) h =
    let parts : ((a == b) ≡ true) × (same s t ≡ true) = both (a == b) (same s t) h in
    ap (λ x. x ∷ s) ((==_iff a b).0 parts.0) ∙ ap (λ r. b ∷ r) (same-eq s t parts.1)

same_refl : (s : Text) → same s s ≡ true
same_refl [] = refl
same_refl (a ∷ s) = rw (==_refl a, same_refl s)

module _ {ℓ} {A : Type ℓ} (p : A → Bool) where
  any_found : (xs : List A) → any p xs ≡ true → (x : A) × (Memᴰ x xs × (p x ≡ true))
  any_found [] h = absurd (cc)
  any_found (x ∷ xs) h = elim (Bool-cases (p x)) [
    | inl e ↦ (x, (Memᴰ.head refl, e))
    | inr e ↦
        let found : (y : A) × (Memᴰ y xs × (p y ≡ true)) = any_found xs (rw e at h) in
        (found.0, (Memᴰ.tail found.1.0, found.1.1))
  ]

  any-Mem : (x : A) (xs : List A) → Memᴰ x xs → p x ≡ true → any p xs ≡ true
  any-Mem x [] m h = elim m [ ]
  any-Mem x (y ∷ xs) (Memᴰ.head e) h = rw (sym e, h)
  any-Mem x (y ∷ xs) (Memᴰ.tail m) h = elim (Bool-cases (p y)) [
    | inl e ↦ rw e
    | inr e ↦ rw e (any-Mem x xs m h)
  ]

one_of_iff : (t : Text) (ts : List Text) → (is_one_of ts t ≡ true) ↔ Memᴰ t ts
one_of_iff t ts = (
  λ h.
      let found : (u : Text) × (Memᴰ u ts × (same t u ≡ true)) = any_found (same t) ts h in
      subst (λ u. Memᴰ u ts) (sym (same-eq t found.0 found.1.1)) found.1.0,
  λ m. any-Mem (same t) t ts m (same_refl t),
)

module _ (casefold : Text → Text) where
  -- The attributes of a variant name, for a requirement, one of its properties with one of the
  -- values it accepts.
  abbrev pub Satisfies : SkuRefinementRequirement → DiscoverySku → Type 0
  Satisfies r sku =
      (a : DiscoverySkuAttribute) × Memᴰ a sku.attributes
      × Memᴰ (normalized casefold a.name) r.property_names
      × Memᴰ (normalized casefold a.value) r.accepted_values

  abbrev pub Fits : List SkuRefinementRequirement → DiscoverySku → Type 0
  Fits rs sku = All (λ r. Satisfies r sku) rs

  answered :
      (r : SkuRefinementRequirement) (sku : DiscoverySku)
      → any (answers casefold r) sku.attributes ≡ true
      → Satisfies r sku
  answered r sku h =
      let found = any_found (answers casefold r) sku.attributes h in
      let parts =
        both (is_one_of r.property_names (normalized casefold found.0.name))
          (is_one_of r.accepted_values (normalized casefold found.0.value)) found.1.1 in
      (
        found.0,
        found.1.0,
        (one_of_iff (normalized casefold found.0.name) r.property_names).0 parts.0,
        (one_of_iff (normalized casefold found.0.value) r.accepted_values).0 parts.1,
      )

  answering :
      (r : SkuRefinementRequirement) (sku : DiscoverySku)
      → Satisfies r sku
      → any (answers casefold r) sku.attributes ≡ true
  answering r sku (a, m, n, v) = any-Mem (answers casefold r) a sku.attributes m (
      rw (
        (one_of_iff (normalized casefold a.name) r.property_names).1 n,
        (one_of_iff (normalized casefold a.value) r.accepted_values).1 v,
      ))

  matches-Fits :
      (rs : List SkuRefinementRequirement) (sku : DiscoverySku)
      → (matches casefold rs sku ≡ true) ↔ Fits rs sku
  unfolding matches
  matches-Fits [] sku = (λ _. tt, λ _. refl)
  matches-Fits (r ∷ rs) sku = (
    λ h.
        let parts = both (any (answers casefold r) sku.attributes) (matches casefold rs sku) h in
        (answered r sku parts.0, (matches-Fits rs sku).0 parts.1),
    λ (a, f). rw (answering r sku a) ((matches-Fits rs sku).1 f),
  )

  -- The variant is the one of the list that fits.
  abbrev pub Alone : List SkuRefinementRequirement → List DiscoverySku → DiscoverySku → Type 0
  Alone rs skus s =
      (before : List DiscoverySku) × (after : List DiscoverySku) × (skus ≡ before ++ (s ∷ after))
      × Fits rs s
      × All (λ x. ¬ Fits rs x) before
      × All (λ x. ¬ Fits rs x) after

  unfit :
      (rs : List SkuRefinementRequirement) (x : DiscoverySku)
      → matches casefold rs x ≡ false
      → ¬ Fits rs x
  unfit rs x e f = let t = (matches-Fits rs x).1 f in absurd (cc)

  unmatched :
      (rs : List SkuRefinementRequirement) (x : DiscoverySku)
      → ¬ Fits rs x
      → matches casefold rs x ≡ false
  unmatched rs x n = elim (Bool-cases (matches casefold rs x)) [
    | inl e ↦ absurd (n ((matches-Fits rs x).0 e))
    | inr e ↦ e
  ]

  matching_none :
      (rs : List SkuRefinementRequirement) (skus : List DiscoverySku)
      → matching casefold rs skus ≡ []
      → All (λ x. ¬ Fits rs x) skus
  matching_none rs [] h = tt
  matching_none rs (x ∷ skus) h = elim (Bool-cases (matches casefold rs x)) [
    | inl e ↦ let h' = rw e at h in absurd (cc)
    | inr e ↦ (unfit rs x e, matching_none rs skus (rw e at h))
  ]

  none_matching :
      (rs : List SkuRefinementRequirement) (skus : List DiscoverySku)
      → All (λ x. ¬ Fits rs x) skus
      → matching casefold rs skus ≡ []
  none_matching rs [] h = refl
  none_matching rs (x ∷ skus) (n, h) = rw (unmatched rs x n) (none_matching rs skus h)

  matching_one :
      (rs : List SkuRefinementRequirement) (skus : List DiscoverySku) (s : DiscoverySku)
      → matching casefold rs skus ≡ s ∷ []
      → Alone rs skus s
  matching_one rs [] s h = absurd (cc)
  matching_one rs (x ∷ skus) s h = elim (Bool-cases (matches casefold rs x)) [
    | inl e ↦
        let h' : x ∷ matching casefold rs skus ≡ s ∷ [] = rw e at h in
        let here : x ≡ s = cc in
        let later : matching casefold rs skus ≡ [] = cc in
        (
          [],
          skus,
          ap (λ y. y ∷ skus) here,
          subst (Fits rs) here ((matches-Fits rs x).0 e),
          tt,
          matching_none rs skus later,
        )
    | inr e ↦
        let (before, after, split, fits, out, rest) = matching_one rs skus s (rw e at h) in
        (x ∷ before, after, ap (λ ys. x ∷ ys) split, fits, (unfit rs x e, out), rest)
  ]

  one_matching :
      (rs : List SkuRefinementRequirement) (before after : List DiscoverySku) (s : DiscoverySku)
      → Fits rs s
      → All (λ x. ¬ Fits rs x) before
      → All (λ x. ¬ Fits rs x) after
      → matching casefold rs (before ++ (s ∷ after)) ≡ s ∷ []
  one_matching rs [] after s f _ out =
      rw ((matches-Fits rs s).1 f) (ap (λ ys. s ∷ ys) (none_matching rs after out))
  one_matching rs (x ∷ before) after s f (n, h) out =
      rw (unmatched rs x n) (one_matching rs before after s f h out)

  choose-some :
      (xs : List DiscoverySku) (s : DiscoverySku) → (choose xs).selected ≡ some s → xs ≡ s ∷ []
  choose-some [] s h = absurd (cc)
  choose-some (x ∷ []) s h = let e : x ≡ s = cc in ap (λ y. y ∷ []) e
  choose-some (x ∷ y ∷ xs) s h = absurd (cc)

  below_20 : (n : ℕ) → (leb 1 n && ltb n 20) ≡ true → n < 20
  below_20 n h = ground arith

  within : (n : ℕ) → 0 < n → n < 20 → (leb 1 n && ltb n 20) ≡ true
  within n h k = ground arith

  some_length :
      (before after : List DiscoverySku) (s : DiscoverySku) → 0 < length (before ++ (s ∷ after))
  some_length [] after s = omega arith
  some_length (x ∷ before) after s = omega arith

  -- A variant is selected exactly if there is a requirement, the page has fewer than 20 variants, each of
  -- them valid, and it is the only one of them that fits: for each requirement one of its attributes
  -- names one of the properties with one of the values accepted, and no other variant is so.
  pub selected_iff :
      (page : DiscoverySkuPage) (requirements : List SkuRefinementRequirement) (s : DiscoverySku)
      → ((match_discovery_skus casefold page requirements).selected ≡ some s) ↔ (
          (is_empty requirements ≡ false)
          × (length page.skus < 20)
          × (all (valid_sku casefold page.product_id) page.skus ≡ true)
          × Alone requirements page.skus s)
  unfolding match_discovery_skus
  selected_iff page requirements s = (
    λ h. elim (Bool-cases (is_empty requirements)) [
      | inl a ↦ let h' = rw a at h in absurd (cc)
      | inr a ↦ elim (Bool-cases (leb 1 (length page.skus) && ltb (length page.skus) 20)) [
        | inl b ↦ elim (Bool-cases (all (valid_sku casefold page.product_id) page.skus)) [
          | inl c ↦
              let one =
                choose-some (matching casefold requirements page.skus) s (rw (a, b, c) at h) in
              (a, below_20 (length page.skus) b, c, matching_one requirements page.skus s one)
          | inr c ↦ let h' = rw (a, b, c) at h in absurd (cc)
        ]
        | inr b ↦ let h' = rw (a, b) at h in absurd (cc)
      ]
    ],
    λ (a, b, c, (before, after, split, fits, out, rest)).
        let few : (leb 1 (length page.skus) && ltb (length page.skus) 20) ≡ true =
          within (length page.skus) (rw split (some_length before after s)) b in
        rw (
          a,
          few,
          c,
          ap (matching casefold requirements) split,
          one_matching requirements before after s fits out rest,
        ),
  )
