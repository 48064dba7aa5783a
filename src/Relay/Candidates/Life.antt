-- ===== src/Relay/Candidates/Life.antt =====
-- `AffiliateCandidateRepository` of src/promo_bot/database/repositories.py: what any sequence of its
-- calls does to one candidate, against the candidate state machine of
-- src/promo_bot/domain/state_machines.py.
pub mod Phases
use promo_bot.Base.{
  ℕ, ◌≡◌, refl, Bool, true, false, Option, some, String, List, [], ◌∷◌, ◌==◌, ok, raised, Result,
  if◌then◌else◌, ap, sym, ◌∙◌, arith, Bool-cases, inl, inr,
}
use mathlib.Core.Path.{subst}
use promo_bot.Domain.Enums.{AffiliateCandidateState}
use promo_bot.Sql.Rows.{Sql, map_where, count_where}
use promo_bot.Sql.Keys.{
  UniqueKeys, find, at_key, find-key, update_one, find-map_where, map_where-UniqueKeys,
}
use promo_bot.Relay.Candidates.{
  Candidate, Candidates, candidate_key, CandidateError, CandidateFailure, is_failure, claimable,
  generation_claimable, claimed, may_await, awaiting, may_generate, generated, may_finish,
  enriched_by, may_fail, candidate_failed, one_row, candidate_read_back, claim,
  claim_for_generation, mark_awaiting_generation, mark_affiliate_generated, mark_enriched, fail,
}

pub data Step : Type 0 where
  claiming : (i now lease_until max_attempts : ℕ) → Step
  generating : Bool → Result CandidateError (Unit {0}) → (i now lease_until max_attempts : ℕ) → Step
  waiting : (i now : ℕ) → Step
  generation_done : (i now expected_started_at expected_attempt_count : ℕ) → Step
  enriching : (i now product_id deal_id : ℕ) → Step
  failing : (i now : ℕ) → CandidateFailure → Step

abbrev pub committed : Candidates → Result CandidateError Candidates → Candidates
committed t (ok t') = t'
committed t (raised e) = t

abbrev pub committed_claim :
    Candidates → Result CandidateError (Candidates × Option Candidate) → Candidates
committed_claim t (ok (t', c)) = t'
committed_claim t (raised e) = t

-- What a statement that names the candidate `i` does to a row that is there.
abbrev pub written_at : ℕ → (Candidate → Bool) → (Candidate → Candidate) → Candidate → Candidate
written_at i g f c = if at_key candidate_key i g c then f c else c

abbrev pub generation_written :
    Bool
    → Result CandidateError (Unit {0})
    → (i now lease_until max_attempts : ℕ) → Candidate
    → Candidate
generation_written true request i now lease_until max_attempts c = c
generation_written false (raised e) i now lease_until max_attempts c = c
generation_written false (ok u) i now lease_until max_attempts c =
    written_at i (generation_claimable now max_attempts)
      (claimed AffiliateCandidateState.generating_affiliate now lease_until) c

module _ (cut : Option String → Option String) where
  unfoldable pub act : Step → Candidate → Candidate
  act (claiming i now lease_until max_attempts) c =
      written_at i (claimable now max_attempts)
        (claimed AffiliateCandidateState.validating now lease_until) c
  act (generating blocked request i now lease_until max_attempts) c =
      generation_written blocked request i now lease_until max_attempts c
  act (waiting i now) c = written_at i (may_await now) awaiting c
  act (generation_done i now started attempts) c =
      written_at i (may_generate now started attempts) generated c
  act (enriching i now product_id deal_id) c =
      written_at i (may_finish now) (enriched_by now product_id deal_id) c
  act (failing i now f) c =
      let done = written_at i (may_fail now f) (candidate_failed cut f) c in
      if is_failure f.target_state then done else c

  unfoldable pub act_all : List Step → Candidate → Candidate
  act_all [] c = c
  act_all (s ∷ steps) c = act_all steps (act s c)

  module _ (sql : Sql Candidate candidate_key) where
    unfoldable pub perform : Step → Candidates → Candidates
    perform (claiming i now lease_until max_attempts) t =
        (claim sql i now lease_until max_attempts t).0
    perform (generating blocked request i now lease_until max_attempts) t =
        committed_claim t
          (claim_for_generation sql blocked request i now lease_until max_attempts t)
    perform (waiting i now) t = committed t (mark_awaiting_generation sql i now t)
    perform (generation_done i now started attempts) t =
        committed t (mark_affiliate_generated sql i now started attempts t)
    perform (enriching i now product_id deal_id) t =
        committed t (mark_enriched sql i now product_id deal_id t)
    perform (failing i now f) t = committed t (fail sql cut i now f t)

    unfoldable pub perform_all : List Step → Candidates → Candidates
    perform_all [] t = t
    perform_all (s ∷ steps) t = perform_all steps (perform s t)

module _ (sql : Sql Candidate candidate_key) (t : Candidates) (u : UniqueKeys candidate_key t)
    (f : Candidate → Candidate) (i : ℕ) (g : Candidate → Bool) where
  -- The tables behind a transition and behind a claim are the one of the UPDATE.
  transition-table :
      committed t (one_row (sql.update (at_key candidate_key i g) f t))
      ≡ map_where (at_key candidate_key i g) f t
  transition-table = elim (update_one candidate_key sql i g f t u) [
    | inl (c, found, free, q) ↦ rw q refl
    | inr (none_hit, q) ↦ rw q (sym (unchanged q))
  ]
    where
      unchanged :
          sql.update (at_key candidate_key i g) f t ≡ (t, 0)
          → map_where (at_key candidate_key i g) f t ≡ t
      unchanged q = ap (λ x. x.0) (sym (sql.update_lem (at_key candidate_key i g) f t) ∙ q)

  claim-table :
      (candidate_read_back sql i (sql.update (at_key candidate_key i g) f t)).0
      ≡ map_where (at_key candidate_key i g) f t
  claim-table =
      rw sql.update_lem (elim (Bool-cases (count_where (at_key candidate_key i g) t == 1)) [
        | inl one ↦ rw one refl
        | inr other ↦ rw other refl
      ])

  module _ (keeps : (c : Candidate) → candidate_key (f c) ≡ candidate_key c) where
    find-written :
        (j : ℕ) (c : Candidate)
        → find candidate_key j t ≡ some c
        → find candidate_key j (map_where (at_key candidate_key i g) f t)
          ≡ some (written_at i g f c)
    find-written j c e =
        let here = find-key candidate_key j t e in
        rw (find-map_where candidate_key {f = f} keeps j i g t, e) (ground arith)

module _ (cut : Option String → Option String) (sql : Sql Candidate candidate_key) (t : Candidates)
    (u : UniqueKeys candidate_key t) where
  generating-table :
      (b : Bool) (r : Result CandidateError (Unit {0})) (i now lease_until max_attempts : ℕ)
      → (P : Candidates → Type 0) → P t
      → P (
          map_where
            (at_key candidate_key i (generation_claimable now max_attempts))
            (claimed AffiliateCandidateState.generating_affiliate now lease_until)
            t)
      → P (committed_claim t (claim_for_generation sql b r i now lease_until max_attempts t))
  unfolding claim_for_generation
  generating-table true r i now l n P p q = p
  generating-table false (raised e) i now l n P p q = p
  generating-table false (ok _) i now l n P p q =
      subst P
        (sym (
          claim-table sql t u (claimed AffiliateCandidateState.generating_affiliate now l) i
            (generation_claimable now n)))
        q

  generating-step :
      (b : Bool) (r : Result CandidateError (Unit {0})) (i now l n j : ℕ) (c : Candidate)
      → find candidate_key j t ≡ some c
      → find candidate_key j (committed_claim t (claim_for_generation sql b r i now l n t))
        ≡ some (generation_written b r i now l n c)
  unfolding claim_for_generation
  generating-step true r i now l n j c e = e
  generating-step false (raised x) i now l n j c e = e
  generating-step false (ok _) i now l n j c e =
      rw
        (claim-table sql t u (claimed AffiliateCandidateState.generating_affiliate now l) i
          (generation_claimable now n))
        (find-written sql t u (claimed AffiliateCandidateState.generating_affiliate now l) i
          (generation_claimable now n) (λ x. refl) j c e)

  transition-step :
      (f : Candidate → Candidate) (i : ℕ) (g : Candidate → Bool)
      → ((c : Candidate) → candidate_key (f c) ≡ candidate_key c)
      → (j : ℕ) (c : Candidate) → find candidate_key j t ≡ some c
      → find candidate_key j (committed t (one_row (sql.update (at_key candidate_key i g) f t)))
        ≡ some (written_at i g f c)
  transition-step f i g keeps j c e =
      rw (transition-table sql t u f i g) (find-written sql t u f i g keeps j c e)

  -- Each call does to every row that is there what `act` says.
  pub find-perform :
      (s : Step) (j : ℕ) (c : Candidate)
      → find candidate_key j t ≡ some c
      → find candidate_key j (perform cut sql s t) ≡ some (act cut s c)
  unfolding perform act claim mark_awaiting_generation mark_affiliate_generated mark_enriched fail
  find-perform (claiming i now l n) j c e =
      rw
        (claim-table sql t u (claimed AffiliateCandidateState.validating now l) i (claimable now n))
        (find-written sql t u (claimed AffiliateCandidateState.validating now l) i (claimable now n)
          (λ x. refl) j c e)
  find-perform (generating b r i now l n) j c e = generating-step b r i now l n j c e
  find-perform (waiting i now) j c e = transition-step awaiting i (may_await now) (λ x. refl) j c e
  find-perform (generation_done i now s a) j c e =
      transition-step generated i (may_generate now s a) (λ x. refl) j c e
  find-perform (enriching i now p d) j c e =
      transition-step (enriched_by now p d) i (may_finish now) (λ x. refl) j c e
  find-perform (failing i now f) j c e = elim (Bool-cases (is_failure f.target_state)) [
    | inl fine ↦
        rw fine (transition-step (candidate_failed cut f) i (may_fail now f) (λ x. refl) j c e)
    | inr wrong ↦ rw wrong e
  ]

  transition-UniqueKeys :
      (f : Candidate → Candidate) (i : ℕ) (g : Candidate → Bool)
      → ((c : Candidate) → candidate_key (f c) ≡ candidate_key c)
      → UniqueKeys candidate_key (committed t (one_row (sql.update (at_key candidate_key i g) f t)))
  transition-UniqueKeys f i g keeps =
      rw (transition-table sql t u f i g) (map_where-UniqueKeys candidate_key {f = f} keeps _ t u)

  -- No call makes two rows of one key.
  pub perform-UniqueKeys : (s : Step) → UniqueKeys candidate_key (perform cut sql s t)
  unfolding perform claim mark_awaiting_generation mark_affiliate_generated mark_enriched fail
  perform-UniqueKeys (claiming i now l n) =
      rw
        (claim-table sql t u (claimed AffiliateCandidateState.validating now l) i (claimable now n))
        (map_where-UniqueKeys candidate_key {f = claimed AffiliateCandidateState.validating now l}
          (λ x. refl) _ t u)
  perform-UniqueKeys (generating b r i now l n) =
      generating-table b r i now l n (UniqueKeys candidate_key) u (
        map_where-UniqueKeys candidate_key
          {f = claimed AffiliateCandidateState.generating_affiliate now l} (λ x. refl) _ t u)
  perform-UniqueKeys (waiting i now) = transition-UniqueKeys awaiting i (may_await now) (λ x. refl)
  perform-UniqueKeys (generation_done i now s a) =
      transition-UniqueKeys generated i (may_generate now s a) (λ x. refl)
  perform-UniqueKeys (enriching i now p d) =
      transition-UniqueKeys (enriched_by now p d) i (may_finish now) (λ x. refl)
  perform-UniqueKeys (failing i now f) = elim (Bool-cases (is_failure f.target_state)) [
    | inl fine ↦
        rw fine (transition-UniqueKeys (candidate_failed cut f) i (may_fail now f) (λ x. refl))
    | inr wrong ↦ rw wrong u
  ]

-- Refinement: in a table of unique ids, whatever the claims, transitions and failures of the repository
-- and the clocks they read, the candidate of an id is afterwards what `act_all` makes of the one before.
pub candidates_refined :
    (cut : Option String → Option String) (sql : Sql Candidate candidate_key) (steps : List Step)
    (t : Candidates) (j : ℕ) (c : Candidate)
    → UniqueKeys candidate_key t
    → find candidate_key j t ≡ some c
    → find candidate_key j (perform_all cut sql steps t) ≡ some (act_all cut steps c)
unfolding perform_all act_all
candidates_refined cut sql [] t j c u e = e
candidates_refined cut sql (s ∷ steps) t j c u e =
    candidates_refined cut sql steps (perform cut sql s t) j (act cut s c)
      (perform-UniqueKeys cut sql t u s) (find-perform cut sql t u s j c e)
