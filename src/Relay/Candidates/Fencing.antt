-- ===== src/Relay/Candidates/Fencing.antt =====
-- `AffiliateCandidateRepository` of src/promo_bot/database/repositories.py: which transitions it makes,
-- and who may work on a candidate.
use promo_bot.Base.{
  ℕ, ◌≡◌, ◌⊎◌, ◌∙◌, refl, true, false, Option, some, String, List, [], ◌∷◌, ltb, ok, raised, arith,
  inl, inr,
}
use promo_bot.Domain.Enums.{AffiliateCandidateState}
use promo_bot.Domain.Transitions.{ensure_affiliate_candidate_transition}
use promo_bot.Sql.Rows.{Sql}
use promo_bot.Sql.Keys.{UniqueKeys, find, find-key}
use promo_bot.Relay.Candidates.{Candidate, Candidates, candidate_key, claimed}
use promo_bot.Relay.Candidates.Life.{
  Step, claiming, generating, waiting, generation_done, enriching, failing, act, act_all, perform,
  perform_all, find-perform, candidates_refined,
}

abbrev pub Conforms : AffiliateCandidateState → AffiliateCandidateState → Type 0
Conforms s s' = (s' ≡ s) ⊎ (ensure_affiliate_candidate_transition s s' ≡ ok tt)

-- The calls that are not of the generation of a link.
abbrev pub IsEnrichment : Step → Type 0
IsEnrichment (generating b r i now l n) = ⊥
IsEnrichment (generation_done i now s a) = ⊥
IsEnrichment _ = Unit

act-Conforms :
    (cut : Option String → Option String) (s : Step) (c : Candidate)
    → IsEnrichment s
    → Conforms c.state (act cut s c).state
unfolding act ensure_affiliate_candidate_transition
act-Conforms cut (claiming i now l n) c h = ground arith
act-Conforms cut (generating b r i now l n) c h = absurd h
act-Conforms cut (waiting i now) c h = ground arith
act-Conforms cut (generation_done i now s a) c h = absurd h
act-Conforms cut (enriching i now p d) c h = ground arith
act-Conforms cut (failing i now f) c h = ground arith

-- ENRICHED, FAILED_PERMANENT and MANUAL_REVIEW
abbrev pub IsClosed : AffiliateCandidateState → Type 0
IsClosed s =
    (s ≡ AffiliateCandidateState.enriched)
    ⊎ (s ≡ AffiliateCandidateState.failed_permanent)
    ⊎ (s ≡ AffiliateCandidateState.manual_review)

act_closed :
    (cut : Option String → Option String) (s : Step) (c : Candidate)
    → IsClosed c.state
    → act cut s c ≡ c
unfolding act
act_closed cut (claiming i now l n) c h = ground arith
act_closed cut (generating true r i now l n) c h = refl
act_closed cut (generating false (raised e) i now l n) c h = refl
act_closed cut (generating false (ok _) i now l n) c h = ground arith
act_closed cut (waiting i now) c h = ground arith
act_closed cut (generation_done i now s a) c h = ground arith
act_closed cut (enriching i now p d) c h = ground arith
act_closed cut (failing i now f) c h = ground arith

act_all_closed :
    (cut : Option String → Option String) (steps : List Step) (c : Candidate)
    → IsClosed c.state
    → act_all cut steps c ≡ c
unfolding act_all
act_all_closed cut [] c h = refl
act_all_closed cut (s ∷ steps) c h = rw (act_closed cut s c h) (act_all_closed cut steps c h)

module _ (cut : Option String → Option String) (sql : Sql Candidate candidate_key) where
  -- Each of `claim`, `mark_awaiting_generation`, `mark_enriched` and `fail` leaves the state of every
  -- candidate, or moves it along an edge of AFFILIATE_CANDIDATE_TRANSITIONS, under unique ids.
  pub candidate-Conforms :
      (s : Step) (t : Candidates) (j : ℕ) (c : Candidate)
      → UniqueKeys candidate_key t
      → find candidate_key j t ≡ some c
      → IsEnrichment s
      → (c' : Candidate) × (find candidate_key j (perform cut sql s t) ≡ some c')
        × Conforms c.state c'.state
  candidate-Conforms s t j c u e h =
      (act cut s c, find-perform cut sql t u s j c e, act-Conforms cut s c h)

  -- A candidate that is ENRICHED, FAILED_PERMANENT or MANUAL_REVIEW is not changed in any column by any
  -- sequence of these calls and of `claim_for_generation` and `mark_affiliate_generated`, under unique
  -- ids.
  pub candidate_frozen :
      (steps : List Step) (t : Candidates) (j : ℕ) (c : Candidate)
      → UniqueKeys candidate_key t
      → find candidate_key j t ≡ some c
      → IsClosed c.state
      → find candidate_key j (perform_all cut sql steps t) ≡ some c
  candidate_frozen steps t j c u e h =
      rw (← act_all_closed cut steps c h) (candidates_refined cut sql steps t j c u e)

  -- A claim for generation departs from AFFILIATE_CANDIDATE_TRANSITIONS: under unique ids, made for a
  -- PENDING_AFFILIATE candidate with attempts left and no open generation, it takes the candidate to
  -- GENERATING_AFFILIATE, which the mapping does not allow after PENDING_AFFILIATE.
  pub generation_departs :
      (i now lease_until max_attempts : ℕ) (t : Candidates) (c : Candidate)
      → UniqueKeys candidate_key t
      → find candidate_key i t ≡ some c
      → c.state ≡ AffiliateCandidateState.pending_affiliate
      → ltb c.attempt_count max_attempts ≡ true
      → (c' : Candidate) × (find candidate_key i
            (perform cut sql (generating false (ok tt) i now lease_until max_attempts) t)
          ≡ some c')
        × (c'.state ≡ AffiliateCandidateState.generating_affiliate)
        × ¬ Conforms c.state c'.state
  unfolding act ensure_affiliate_candidate_transition
  generation_departs i now l n t c u e pending left =
      let here = find-key candidate_key i t e in
      (
        claimed AffiliateCandidateState.generating_affiliate now l c,
        find-perform cut sql t u (generating false (ok tt) i now l n) i c e ∙ ground arith,
        refl,
        λ k. elim k [ inl same ↦ grind arith | inr allowed ↦ grind arith ],
      )
