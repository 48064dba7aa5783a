-- ===== src/Relay/Candidates/Life/Phases.antt =====
-- What the claims, transitions and failures of `AffiliateCandidateRepository` of
-- src/promo_bot/database/repositories.py promise of one candidate: a machine of phases, which they
-- refine.
use promo_bot.Base.{
  ℕ, ◌+◌, ◌≡◌, ◌∙◌, refl, ap, true, false, Bool, ◌&&◌, Option, none, some, String, List, [], ◌∷◌,
  ◌==◌, ltb, leb, if◌then◌else◌, arith, Result, ok, raised,
}
use promo_bot.Domain.Enums.{AffiliateCandidateState}
use promo_bot.Sql.Rows.{Sql}
use promo_bot.Sql.Keys.{UniqueKeys, find, find-key}
use promo_bot.Relay.Candidates.{Candidate, Candidates, candidate_key, CandidateError}
use promo_bot.Relay.Candidates.Life.{
  Step, claiming, generating, waiting, generation_done, enriching, failing, act, act_all,
  perform_all, candidates_refined,
}

-- What a worker does with a candidate.
pub data Work : Type 0 where
  validation generation : Work

-- New, or to be tried again, from a time on if there is one; waiting for a link, or with one; in work
-- since a start, until a lease ends; or done with.
pub data Phase : Type 0 where
  fresh : (attempts : ℕ) → Phase
  again : (attempts : ℕ) (due : Option ℕ) → Phase
  wanting : (attempts : ℕ) → Phase
  linked : (attempts : ℕ) → Phase
  held : Work → (attempts : ℕ) (until started : Option ℕ) → Phase
  closed : (attempts : ℕ) → AffiliateCandidateState → Phase

abbrev pub phase_of :
    AffiliateCandidateState → (attempts : ℕ) (next lease started : Option ℕ) → Phase
phase_of AffiliateCandidateState.pending_affiliate n next lease started = fresh n
phase_of AffiliateCandidateState.failed_retryable n next lease started = again n next
phase_of AffiliateCandidateState.awaiting_affiliate_generation n next lease started = wanting n
phase_of AffiliateCandidateState.affiliate_generated n next lease started = linked n
phase_of AffiliateCandidateState.validating n next lease started = held validation n lease started
phase_of AffiliateCandidateState.generating_affiliate n next lease started =
    held generation n lease started
phase_of AffiliateCandidateState.enriched n next lease started =
    closed n AffiliateCandidateState.enriched
phase_of AffiliateCandidateState.failed_permanent n next lease started =
    closed n AffiliateCandidateState.failed_permanent
phase_of AffiliateCandidateState.manual_review n next lease started =
    closed n AffiliateCandidateState.manual_review

-- The phase of a row.
abbrev pub phase : Candidate → Phase
phase c =
    phase_of c.state c.attempt_count c.next_attempt_at c.processing_lease_until
      c.processing_started_at

-- A new hold, with one attempt more, where it is allowed.
abbrev pub hold : Bool → Work → (attempts now lease_until : ℕ) → Phase → Phase
hold true w n now lease_until p = held w (n + 1) (some lease_until) (some now)
hold false w n now lease_until p = p

abbrev pub is_due : Option ℕ → ℕ → Bool
is_due none now = true
is_due (some due) now = leb due now

-- For validation a candidate is claimed that is new, due again, or held for it under a lease that ended.
abbrev pub claims : (now lease_until max_attempts : ℕ) → Phase → Phase
claims now l max_attempts (fresh n) = hold (ltb n max_attempts) validation n now l (fresh n)
claims now l max_attempts (again n due) =
    hold (ltb n max_attempts && is_due due now) validation n now l (again n due)
claims now l max_attempts (held validation n (some until) started) =
    hold (ltb n max_attempts && leb until now) validation n now l
      (held validation n (some until) started)
claims now l max_attempts p = p

-- For generation one is claimed that is new, wants a link, has one or is due again, but none that is held.
abbrev pub generates : (now lease_until max_attempts : ℕ) → Phase → Phase
generates now l max_attempts (fresh n) = hold (ltb n max_attempts) generation n now l (fresh n)
generates now l max_attempts (wanting n) = hold (ltb n max_attempts) generation n now l (wanting n)
generates now l max_attempts (linked n) = hold (ltb n max_attempts) generation n now l (linked n)
generates now l max_attempts (again n due) =
    hold (ltb n max_attempts && is_due due now) generation n now l (again n due)
generates now l max_attempts p = p

abbrev pub is_work : Work → Work → Bool
is_work validation validation = true
is_work generation generation = true
is_work _ _ = false

-- What counts only under a lease that lasts.
abbrev pub under_lease : (now : ℕ) → (Work → ℕ → Option ℕ → Phase → Phase) → Phase → Phase
under_lease now next (held w n (some until) started) =
    if ltb now until
    then next w n started (held w n (some until) started)
    else held w n (some until) started
under_lease now next p = p

-- The attempt that a worker names, by its start and its number; a failure need not name one.
abbrev pub is_attempt : (started attempts : Option ℕ) → (n : ℕ) → Option ℕ → Bool
is_attempt none attempts n held_since = true
is_attempt (some started) (some attempts) n (some since) = since == started && n == attempts
is_attempt (some started) _ n _ = false

abbrev pub ends_as : AffiliateCandidateState → (next : Option ℕ) → ℕ → Phase → Phase
ends_as AffiliateCandidateState.failed_retryable next n p = again n next
ends_as AffiliateCandidateState.failed_permanent next n p =
    closed n AffiliateCandidateState.failed_permanent
ends_as AffiliateCandidateState.manual_review next n p =
    closed n AffiliateCandidateState.manual_review
ends_as _ next n p = p

abbrev pub only : Bool → (Phase → Phase) → Phase → Phase
only true f p = f p
only false f p = p

abbrev pub permitted : Bool → Result CandidateError (Unit {0}) → Bool
permitted false (ok u) = true
permitted _ _ = false

-- What a call does to the phase of the candidate `j`.
abbrev pub handle : (j : ℕ) → Step → Phase → Phase
handle j (claiming i now l max_attempts) p = only (j == i) (claims now l max_attempts) p
handle j (generating blocked request i now l max_attempts) p =
    only (permitted blocked request && j == i) (generates now l max_attempts) p
handle j (waiting i now) p =
    only (j == i) (under_lease now (λ w n started q. if is_work w validation then wanting n else q))
      p
handle j (generation_done i now started attempts) p =
    only (j == i)
      (under_lease now λ w n since q.
        if is_work w generation && is_attempt (some started) (some attempts) n since
        then linked 0
        else q)
      p
handle j (enriching i now product_id deal_id) p =
    only (j == i) (under_lease now (λ w n started q. closed n AffiliateCandidateState.enriched)) p
handle j (failing i now f) p =
    only (j == i)
      (under_lease now λ w n since q.
        if is_attempt f.expected_started_at f.expected_attempt_count n since
        then ends_as f.target_state f.next_attempt_at n q
        else q)
      p

abbrev pub handle_all : (j : ℕ) → List Step → Phase → Phase
handle_all j [] p = p
handle_all j (s ∷ steps) p = handle_all j steps (handle j s p)

module _ (cut : Option String → Option String) where
  act-id : (s : Step) (c : Candidate) → (act cut s c).id ≡ c.id
  unfolding act
  act-id (claiming i now l n) c = ground arith
  act-id (generating true r i now l n) c = refl
  act-id (generating false (raised e) i now l n) c = refl
  act-id (generating false (ok _) i now l n) c = ground arith
  act-id (waiting i now) c = ground arith
  act-id (generation_done i now s a) c = ground arith
  act-id (enriching i now p d) c = ground arith
  act-id (failing i now f) c = ground arith

  phase-act : (s : Step) (c : Candidate) → phase (act cut s c) ≡ handle c.id s (phase c)
  unfolding act
  phase-act (claiming i now l n) c = ground arith
  phase-act (generating true r i now l n) c = refl
  phase-act (generating false (raised e) i now l n) c = refl
  phase-act (generating false (ok _) i now l n) c = ground arith
  phase-act (waiting i now) c = ground arith
  phase-act (generation_done i now s a) c = ground arith
  phase-act (enriching i now p d) c = ground arith
  phase-act (failing i now f) c = ground arith

  phase-act_all :
      (steps : List Step) (c : Candidate)
      → phase (act_all cut steps c) ≡ handle_all c.id steps (phase c)
  unfolding act_all
  phase-act_all [] c = refl
  phase-act_all (s ∷ steps) c =
      phase-act_all steps (act cut s c)
      ∙ rw (act-id s c) (ap (handle_all c.id steps) (phase-act s c))

  -- Refinement: in a table of unique ids, whatever the claims, transitions and failures of the
  -- repository and the clocks they read, a candidate that is there is afterwards in the phase that the
  -- machine of the phases reaches from the candidate's phase: it is claimed for validation only while it
  -- is new, due again or held under a lease that has ended, and for generation only while nobody holds
  -- it, each time with attempts left and counting one; a result counts only under a lease that lasts,
  -- of the attempt named.
  pub candidates_in_phase :
      (sql : Sql Candidate candidate_key) (steps : List Step) (t : Candidates) (j : ℕ)
      (c : Candidate)
      → UniqueKeys candidate_key t
      → find candidate_key j t ≡ some c
      → (c' : Candidate) × (find candidate_key j (perform_all cut sql steps t) ≡ some c')
        × (phase c' ≡ handle_all j steps (phase c))
  candidates_in_phase sql steps t j c u e =
      let here : c.id ≡ j = find-key candidate_key j t e in
      (
        act_all cut steps c,
        candidates_refined cut sql steps t j c u e,
        rw (← here) (phase-act_all steps c),
      )
