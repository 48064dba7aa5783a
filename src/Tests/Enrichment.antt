-- ===== src/Tests/Enrichment.antt =====
-- An affiliate candidate generated by one worker, as src/promo_bot/database/repositories.py does it.
use promo_bot.Stores.Patterns.{codes}
use promo_bot.Base.{
  ℕ, ◌<◌, ◌≡◌, refl, false, none, some, Option, String, List, [], ◌∷◌, ok, raised, arith, inr,
}
use promo_bot.Domain.Enums.{AffiliateCandidateState}
use promo_bot.Sql.Rows.{Sql}
use promo_bot.Sql.Keys.{UniqueKeys, find}
use promo_bot.Sql.Engine.{list_engine}
use promo_bot.Relay.Candidates.{
  Candidate, Candidates, candidate_key, transition_conflict, claimed, generated, claim,
  claim_for_generation, mark_affiliate_generated,
}
use promo_bot.Relay.Candidates.Life.Phases.{phase, handle_all, candidates_in_phase}
use promo_bot.Relay.Candidates.Life.{
  Step, claiming, generating, generation_done, perform, perform_all,
}
use promo_bot.Relay.Candidates.Fencing.{
  Conforms, candidate-Conforms, candidate_frozen, generation_departs,
}
use promo_bot.Relay.Candidates.Generation.{generation_exclusive, generation_fenced}

abbrev candidate_1 : Candidate
candidate_1 = record {
  id = 1;
  store = "shopee";
  external_product_id = codes "11:22";
  variation_key = [];
  canonical_url = codes "https://shopee.com.br/product/11/22";
  created_at = 100;
  state = AffiliateCandidateState.pending_affiliate;
  attempt_count = 0;
  last_attempt_at = none;
  next_attempt_at = none;
  processing_started_at = none;
  processing_lease_until = none;
  enriched_at = none;
  error_code = none;
  error_summary = none;
  product_id = none;
  deal_id = none;
}

abbrev candidate_2 : Candidate
candidate_2 = record candidate_1 {
  id = 2;
  external_product_id = codes "11:33";
  state = AffiliateCandidateState.manual_review;
}

abbrev candidates : Candidates
candidates = candidate_1 ∷ candidate_2 ∷ []

abbrev engine : Sql Candidate candidate_key
engine = list_engine candidate_key

no_cut : Option String → Option String
no_cut s = s

candidates-UniqueKeys : UniqueKeys candidate_key candidates
candidates-UniqueKeys = (((λ e. omega arith), tt), (tt, tt))

abbrev steps : List Step
steps =
    generating false (ok tt) 1 1000 301000 3
    ∷ claiming 2 1000 301000 3
    ∷ generation_done 1 2000 1000 1
    ∷ []

candidates_in_phase_example :
    (c' : Candidate) × (find candidate_key 1 (perform_all no_cut engine steps candidates) ≡ some c')
    × (phase c' ≡ handle_all 1 steps (phase candidate_1))
candidates_in_phase_example =
    candidates_in_phase no_cut engine steps candidates 1 candidate_1 candidates-UniqueKeys refl

candidate-Conforms_example :
    (c' : Candidate) × (find candidate_key 1
        (perform no_cut engine (claiming 1 1000 301000 3) candidates)
      ≡ some c')
    × Conforms AffiliateCandidateState.pending_affiliate c'.state
candidate-Conforms_example =
    candidate-Conforms no_cut engine (claiming 1 1000 301000 3) candidates 1 candidate_1
      candidates-UniqueKeys refl tt

candidate_frozen_example :
    find candidate_key 2 (perform_all no_cut engine steps candidates) ≡ some candidate_2
candidate_frozen_example =
    candidate_frozen no_cut engine steps candidates 2 candidate_2 candidates-UniqueKeys refl
      (inr (inr refl))

generation_departs_example :
    (c' : Candidate) × (find candidate_key 1
        (perform no_cut engine (generating false (ok tt) 1 1000 301000 3) candidates)
      ≡ some c')
    × (c'.state ≡ AffiliateCandidateState.generating_affiliate)
    × ¬ Conforms AffiliateCandidateState.pending_affiliate c'.state
generation_departs_example =
    generation_departs no_cut engine 1 1000 301000 3 candidates candidate_1 candidates-UniqueKeys
      refl refl refl

abbrev start : ℕ
start = 1000

abbrev generating_1 : Candidate
generating_1 = claimed AffiliateCandidateState.generating_affiliate 1000 301000 candidate_1

claimed_1 :
    claim_for_generation engine false (ok tt) 1 1000 301000 3 candidates
    ≡ ok (generating_1 ∷ candidate_2 ∷ [], some generating_1)
unfolding claim_for_generation
claimed_1 = refl

generation_exclusive_example :
    ((claim engine 1 900000 1200000 9 (generating_1 ∷ candidate_2 ∷ [])).1 ≡ none)
    × (claim_for_generation engine false
          (ok tt)
          1
          900000
          1200000
          9
          (generating_1 ∷ candidate_2 ∷ [])
        ≡ ok (generating_1 ∷ candidate_2 ∷ [], none))
generation_exclusive_example =
    generation_exclusive engine 1 1000 301000 3 candidates (generating_1 ∷ candidate_2 ∷ [])
      candidates-UniqueKeys claimed_1 900000 1200000 9

generation_fenced_example :
    (2000 < 301000
      → start ≡ 1000
      → generating_1.attempt_count ≡ generating_1.attempt_count
      → (t2 : Candidates) × (mark_affiliate_generated engine 1 2000 1000 1
            (generating_1 ∷ candidate_2 ∷ [])
          ≡ ok t2)
        × (find candidate_key 1 t2 ≡ some (generated generating_1)))
    × (¬ (
          (2000 < 301000)
          × (start ≡ 1000)
          × (generating_1.attempt_count ≡ generating_1.attempt_count))
        → mark_affiliate_generated engine 1 2000 1000 1 (generating_1 ∷ candidate_2 ∷ [])
          ≡ raised transition_conflict)
generation_fenced_example =
    generation_fenced engine 1 1000 301000 3 candidates (generating_1 ∷ candidate_2 ∷ [])
      candidates-UniqueKeys claimed_1 2000 1000 1
