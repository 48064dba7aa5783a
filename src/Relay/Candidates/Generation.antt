-- ===== src/Relay/Candidates/Generation.antt =====
-- `claim_for_generation` and `mark_affiliate_generated` of src/promo_bot/database/repositories.py: a
-- candidate that is held for generation is not claimed, and only the attempt claimed can record it.
use promo_bot.Base.{
  ℕ, ◌≡◌, ◌<◌, ◌∙◌, ap, sym, refl, Bool, true, false, Option, some, none, ok, raised, if◌then◌else◌,
  arith, Bool-cases, Option-cases, inl, inr,
}
use mathlib.Core.Path.{subst}
use promo_bot.Domain.Enums.{AffiliateCandidateState}
use promo_bot.Sql.Rows.{Sql, map_where}
use promo_bot.Sql.Keys.{UniqueKeys, find, at_key, find-key, update_one, find-map_where}
use promo_bot.Relay.Candidates.{
  Candidate, Candidates, candidate_key, transition_conflict, claimable, generation_claimable,
  claimed, may_generate, generated, one_row, candidate_read_back, claim, claim_for_generation,
  mark_affiliate_generated,
}
use promo_bot.Relay.Candidates.Life.{generating, act, perform, find-perform, perform-UniqueKeys}

-- What a claim of the row found gives.
abbrev pub granted :
    (Candidate → Bool) → (Candidate → Candidate) → Option Candidate → Option Candidate
granted g f none = none
granted g f (some c) = if g c then some (f c) else none

granted-some :
    (g : Candidate → Bool) (f : Candidate → Candidate) (o : Option Candidate) {c : Candidate}
    → granted g f o ≡ some c
    → (c0 : Candidate) × (o ≡ some c0) × (g c0 ≡ true) × (f c0 ≡ c)
granted-some g f none e = absurd (cc)
granted-some g f (some c0) e = elim (Bool-cases (g c0)) [
  | inl free ↦ let e' = rw free at e in (c0, refl, free, cc)
  | inr busy ↦ let e' = rw busy at e in absurd (cc)
]

module _ (sql : Sql Candidate candidate_key) (i : ℕ) (t : Candidates)
    (u : UniqueKeys candidate_key t) where
  read_back-granted :
      (g : Candidate → Bool) (f : Candidate → Candidate)
      → ((c : Candidate) → candidate_key (f c) ≡ candidate_key c)
      → (candidate_read_back sql i (sql.update (at_key candidate_key i g) f t)).1
        ≡ granted g f (find candidate_key i t)
  read_back-granted g f keeps = elim (update_one candidate_key sql i g f t u) [
    | inl (r, found, free, q) ↦
        rw q
          (rw (sql.select_lem, find-map_where candidate_key {f = f} keeps i i g t) (ground arith))
    | inr (none_hit, q) ↦ rw q (elim (Option-cases (find candidate_key i t)) [
      | inl absent ↦ rw absent
      | inr (c, e) ↦ rw e (ground arith)
    ])
  ]

  one_row-found :
      (g : Candidate → Bool) (f : Candidate → Candidate) (c : Candidate)
      → ((c : Candidate) → candidate_key (f c) ≡ candidate_key c)
      → find candidate_key i t ≡ some c
      → g c ≡ true
      → (t' : Candidates) × (one_row (sql.update (at_key candidate_key i g) f t) ≡ ok t')
        × (find candidate_key i t' ≡ some (f c))
  one_row-found g f c keeps e h =
      let here = find-key candidate_key i t e in
      elim (update_one candidate_key sql i g f t u) [
        | inl (r, found, free, q) ↦ (
          map_where (at_key candidate_key i g) f t,
          rw q,
          rw (find-map_where candidate_key {f = f} keeps i i g t, e) (ground arith),
        )
        | inr (none_hit, q) ↦ let none_hit' = rw (e, h) at none_hit in absurd (omega arith)
      ]

  one_row-refused :
      (g : Candidate → Bool) (f : Candidate → Candidate) (c : Candidate)
      → find candidate_key i t ≡ some c
      → g c ≡ false
      → one_row (sql.update (at_key candidate_key i g) f t) ≡ raised transition_conflict
  one_row-refused g f c e h = elim (update_one candidate_key sql i g f t u) [
    | inl (r, found, free, q) ↦ let same : c ≡ r = ground arith in absurd (cc)
    | inr (none_hit, q) ↦ rw q
  ]

module _ (sql : Sql Candidate candidate_key) (i now lease_until max_attempts : ℕ)
    (t t1 : Candidates) (u : UniqueKeys candidate_key t) {c : Candidate}
    (h : claim_for_generation sql false (ok tt) i now lease_until max_attempts t
      ≡ ok (t1, some c)) where
  -- The row of a candidate claimed for generation.
  generation_row :
      UniqueKeys candidate_key t1
      × (find candidate_key i t1 ≡ some c)
      × (c.state ≡ AffiliateCandidateState.generating_affiliate)
      × (c.processing_lease_until ≡ some lease_until)
      × (c.processing_started_at ≡ some now)
  unfolding claim_for_generation perform act
  generation_row =
      let g = generation_claimable now max_attempts in
      let f = claimed AffiliateCandidateState.generating_affiliate now lease_until in
      let done = candidate_read_back sql i (sql.update (at_key candidate_key i g) f t) in
      let pair : done ≡ (t1, some c) = cc in
      let (c0, e, free, same) =
        granted-some g f (find candidate_key i t)
          (sym (read_back-granted sql i t u g f (λ x. refl)) ∙ ap (λ x. x.1) pair) in
      let here = find-key candidate_key i t e in
      let s = generating false (ok tt) i now lease_until max_attempts in
      let keys = perform-UniqueKeys (λ x. x) sql t u s in
      let row = find-perform (λ x. x) sql t u s i c0 e in
      (
        subst (UniqueKeys candidate_key) (ap (λ x. x.0) pair) keys,
        subst (λ x. find candidate_key i x ≡ some c) (ap (λ x. x.0) pair) (row ∙ ground arith),
        ap (λ x. x.state) (sym same),
        ap (λ x. x.processing_lease_until) (sym same),
        ap (λ x. x.processing_started_at) (sym same),
      )

module _ (sql : Sql Candidate candidate_key) (i now lease_until max_attempts : ℕ)
    (t t1 : Candidates) (u : UniqueKeys candidate_key t) {c : Candidate}
    (h : claim_for_generation sql false (ok tt) i now lease_until max_attempts t
      ≡ ok (t1, some c)) where
  -- A claim for generation shuts out the claims that follow it: under unique ids, on the table that it
  -- leaves when it has returned a candidate, a claim of the same candidate, for generation or for
  -- validation, returns `None`, whatever time it reads, even after the lease has run out, and the claim
  -- for generation changes nothing.
  pub generation_exclusive :
      (now' lease_until' max_attempts' : ℕ)
      → ((claim sql i now' lease_until' max_attempts' t1).1 ≡ none)
        × (claim_for_generation sql false (ok tt) i now' lease_until' max_attempts' t1
            ≡ ok (t1, none))
  unfolding claim claim_for_generation
  generation_exclusive now' l' n' =
      let (u1, e, busy, until, started) =
        generation_row sql i now lease_until max_attempts t t1 u h in
      (
        read_back-granted sql i t1 u1 (claimable now' n')
              (claimed AffiliateCandidateState.validating now' l') (λ x. refl)
            ∙ rw e (ground arith),
        elim (update_one candidate_key sql i (generation_claimable now' n')
            (claimed AffiliateCandidateState.generating_affiliate now' l') t1 u1) [
              | inl (r, found, free, q) ↦ let same : c ≡ r = cc in absurd (ground arith)
              | inr (none_hit, q) ↦ rw q refl
            ],
      )

  -- The record of a generation is fenced: under unique ids, after a claim for generation at `now` has
  -- returned a candidate, `mark_affiliate_generated` with the time and the attempt of that claim, before
  -- the lease has run out, makes the candidate AFFILIATE_GENERATED; after the lease, or with another
  -- start or attempt count, it raises `AffiliateCandidateTransitionConflict`.
  pub generation_fenced :
      (at started attempts : ℕ)
      → (at < lease_until
          → started ≡ now
          → attempts ≡ c.attempt_count
          → (t2 : Candidates) × (mark_affiliate_generated sql i at started attempts t1 ≡ ok t2)
            × (find candidate_key i t2 ≡ some (generated c)))
        × (¬ ((at < lease_until) × (started ≡ now) × (attempts ≡ c.attempt_count))
            → mark_affiliate_generated sql i at started attempts t1 ≡ raised transition_conflict)
  unfolding mark_affiliate_generated
  generation_fenced at started attempts =
      let (u1, e, busy, until, began) =
        generation_row sql i now lease_until max_attempts t t1 u h in
      (
        λ early s a.
            one_row-found sql i t1 u1 (may_generate at started attempts) generated c (λ x. refl) e
              (ground arith),
        λ n.
            one_row-refused sql i t1 u1 (may_generate at started attempts) generated c e
              (elim (Bool-cases (may_generate at started attempts c)) [
                | inl passes ↦ absurd (n (ground arith, ground arith, ground arith))
                | inr refused ↦ refused
              ]),
      )
