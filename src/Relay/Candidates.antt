-- ===== src/Relay/Candidates.antt =====
-- `AffiliateCandidateRepository` of src/promo_bot/database/repositories.py, over the rows of
-- `AffiliateCandidateModel`. Times are microseconds.
pub mod Life
pub mod Fencing
pub mod Generation
use promo_bot.Base.{
  ℕ, ◌+◌, Bool, true, false, not, ◌&&◌, ◌||◌, Option, none, some, String, List, ◌==◌, ltb, is_none,
  null_le, null_gt, if◌then◌else◌, Result, ok, raised, ◌>>=◌, ◌>>◌, require, take,
}
use promo_bot.Domain.Enums.{AffiliateCandidateState}
use promo_bot.Stores.Patterns.{Text}
use promo_bot.Sql.Rows.{Sql, get}
use promo_bot.Sql.Keys.{at_key}

pub record Candidate : Type 0 where
  pub id : ℕ
  pub store : String
  pub external_product_id : Text
  pub variation_key : Text
  pub canonical_url : Text
  pub created_at : ℕ
  pub state : AffiliateCandidateState
  pub attempt_count : ℕ
  pub last_attempt_at : Option ℕ
  pub next_attempt_at : Option ℕ
  pub processing_started_at : Option ℕ
  pub processing_lease_until : Option ℕ
  pub enriched_at : Option ℕ
  pub error_code : Option String
  pub error_summary : Option String
  pub product_id : Option ℕ
  pub deal_id : Option ℕ

abbrev pub candidate_key : Candidate → ℕ
candidate_key c = c.id

abbrev pub Candidates : Type 0
Candidates = List Candidate

pub data CandidateError : Type 0 where
  -- `AffiliateCandidateTransitionConflict` and `ValueError`
  transition_conflict invalid_failure_state : CandidateError
  -- what `validate_request` of the link history raises
  request_refused : String → CandidateError

abbrev pub is_pending : AffiliateCandidateState → Bool
is_pending AffiliateCandidateState.pending_affiliate = true
is_pending _ = false

abbrev pub is_failed_retryable : AffiliateCandidateState → Bool
is_failed_retryable AffiliateCandidateState.failed_retryable = true
is_failed_retryable _ = false

abbrev pub is_validating : AffiliateCandidateState → Bool
is_validating AffiliateCandidateState.validating = true
is_validating _ = false

abbrev pub is_generating : AffiliateCandidateState → Bool
is_generating AffiliateCandidateState.generating_affiliate = true
is_generating _ = false

-- the states that `claim_for_generation` names
abbrev pub awaits_generation : AffiliateCandidateState → Bool
awaits_generation AffiliateCandidateState.pending_affiliate = true
awaits_generation AffiliateCandidateState.awaiting_affiliate_generation = true
awaits_generation AffiliateCandidateState.affiliate_generated = true
awaits_generation _ = false

-- the target states that `fail` accepts
abbrev pub is_failure : AffiliateCandidateState → Bool
is_failure AffiliateCandidateState.failed_retryable = true
is_failure AffiliateCandidateState.failed_permanent = true
is_failure AffiliateCandidateState.manual_review = true
is_failure _ = false

-- `retryable` of `claim_for_generation`, and the second case of `_recoverable_expression`
abbrev pub retryable : ℕ → Candidate → Bool
retryable now c =
    is_failed_retryable c.state && (is_none c.next_attempt_at || null_le c.next_attempt_at now)

-- `_recoverable_expression`
abbrev pub recoverable_expression : ℕ → Candidate → Bool
recoverable_expression now c =
    is_pending c.state
    || retryable now c
    || (is_validating c.state
        && not (is_none c.processing_lease_until)
        && null_le c.processing_lease_until now)

abbrev pub claimable : (now max_attempts : ℕ) → Candidate → Bool
claimable now max_attempts c = ltb c.attempt_count max_attempts && recoverable_expression now c

abbrev pub generation_claimable : (now max_attempts : ℕ) → Candidate → Bool
generation_claimable now max_attempts c =
    ltb c.attempt_count max_attempts && (awaits_generation c.state || retryable now c)

-- the values of both claims, which differ in the state
abbrev pub claimed : AffiliateCandidateState → (now lease_until : ℕ) → Candidate → Candidate
claimed state now lease_until c = record c {
  state = state;
  attempt_count = c.attempt_count + 1;
  last_attempt_at = some now;
  processing_started_at = some now;
  processing_lease_until = some lease_until;
  next_attempt_at = none;
  error_code = none;
  error_summary = none;
}

abbrev pub lease_holds : ℕ → Candidate → Bool
lease_holds now c = not (is_none c.processing_lease_until) && null_gt c.processing_lease_until now

abbrev pub may_await : ℕ → Candidate → Bool
may_await now c = is_validating c.state && lease_holds now c

abbrev pub awaiting : Candidate → Candidate
awaiting c = record c {
  state = AffiliateCandidateState.awaiting_affiliate_generation;
  processing_lease_until = none;
  next_attempt_at = none;
  error_code = some "WAITING_AFFILIATE_GENERATION";
  error_summary = none;
}

-- SQL's `=` of a nullable column and a value, and of a column and a value that may be NULL
abbrev pub null_eq : Option ℕ → ℕ → Bool
null_eq none n = false
null_eq (some m) n = m == n

abbrev pub eq_null : ℕ → Option ℕ → Bool
eq_null m none = false
eq_null m (some n) = m == n

abbrev pub may_generate : (now expected_started_at expected_attempt_count : ℕ) → Candidate → Bool
may_generate now expected_started_at expected_attempt_count c =
    is_generating c.state
    && lease_holds now c
    && null_eq c.processing_started_at expected_started_at
    && c.attempt_count == expected_attempt_count

abbrev pub generated : Candidate → Candidate
generated c = record c {
  state = AffiliateCandidateState.affiliate_generated;
  attempt_count = 0;
  processing_lease_until = none;
  next_attempt_at = none;
  error_code = none;
  error_summary = none;
}

abbrev pub may_finish : ℕ → Candidate → Bool
may_finish now c = (is_validating c.state || is_generating c.state) && lease_holds now c

abbrev pub enriched_by : (now product_id deal_id : ℕ) → Candidate → Candidate
enriched_by now product_id deal_id c = record c {
  state = AffiliateCandidateState.enriched;
  enriched_at = some now;
  processing_lease_until = none;
  next_attempt_at = none;
  error_code = none;
  error_summary = none;
  product_id = some product_id;
  deal_id = some deal_id;
}

-- the arguments of `fail`, but the id and the time
pub record CandidateFailure : Type 0 where
  pub target_state : AffiliateCandidateState
  pub next_attempt_at : Option ℕ
  pub error_code : String
  pub error_summary : Option String
  pub expected_started_at : Option ℕ
  pub expected_attempt_count : Option ℕ

-- the conditions of `fail` on the attempt that fails, where it names one
abbrev pub same_attempt : Option ℕ → Option ℕ → Candidate → Bool
same_attempt none attempts c = true
same_attempt (some started) attempts c =
    null_eq c.processing_started_at started && eq_null c.attempt_count attempts

abbrev pub may_fail : ℕ → CandidateFailure → Candidate → Bool
may_fail now f c = may_finish now c && same_attempt f.expected_started_at f.expected_attempt_count c

abbrev pub candidate_failed :
    (Option String → Option String) → CandidateFailure → Candidate → Candidate
candidate_failed cut f c = record c {
  state = f.target_state;
  processing_lease_until = none;
  next_attempt_at = if is_failed_retryable f.target_state then f.next_attempt_at else none;
  error_code = some f.error_code;
  error_summary = cut f.error_summary;
}

abbrev pub created : Candidate → ℕ
created c = c.created_at

-- the test of `rowcount` behind each of the transitions
abbrev pub one_row : Candidates × ℕ → Result CandidateError Candidates
one_row (t, n) = if n == 1 then ok t else raised transition_conflict

module _ (sql : Sql Candidate candidate_key) where
  abbrev pub candidate_read_back : ℕ → Candidates × ℕ → Candidates × Option Candidate
  candidate_read_back i (t, n) = if n == 1 then (t, get sql i t) else (t, none)

  unfoldable pub claim :
      (i now lease_until max_attempts : ℕ) → Candidates → Candidates × Option Candidate
  claim i now lease_until max_attempts t = candidate_read_back i (
      sql.update (at_key candidate_key i (claimable now max_attempts))
        (claimed AffiliateCandidateState.validating now lease_until) t)

  -- `blocked` is whether the link history has a generation of this candidate that is not closed, and
  -- `request` what `validate_request` does, or nothing where no request is named.
  unfoldable pub claim_for_generation :
      (blocked : Bool) (request : Result CandidateError (Unit {0}))
      (i now lease_until max_attempts : ℕ)
      → Candidates
      → Result CandidateError (Candidates × Option Candidate)
  claim_for_generation true request i now lease_until max_attempts t = ok (t, none)
  claim_for_generation false request i now lease_until max_attempts t =
      request
      >> ok (
          candidate_read_back i (
            sql.update (at_key candidate_key i (generation_claimable now max_attempts))
              (claimed AffiliateCandidateState.generating_affiliate now lease_until) t))

  unfoldable pub mark_awaiting_generation :
      (i now : ℕ) → Candidates → Result CandidateError Candidates
  mark_awaiting_generation i now t =
      one_row (sql.update (at_key candidate_key i (may_await now)) awaiting t)

  unfoldable pub mark_affiliate_generated :
      (i now expected_started_at expected_attempt_count : ℕ)
      → Candidates
      → Result CandidateError Candidates
  mark_affiliate_generated i now expected_started_at expected_attempt_count t = one_row (
      sql.update
        (at_key candidate_key i (may_generate now expected_started_at expected_attempt_count))
        generated t)

  unfoldable pub mark_enriched :
      (i now product_id deal_id : ℕ) → Candidates → Result CandidateError Candidates
  mark_enriched i now product_id deal_id t =
      one_row (
        sql.update (at_key candidate_key i (may_finish now)) (enriched_by now product_id deal_id) t)

  -- `cut` is `error_summary[:500]`, or None where there is no summary
  unfoldable pub fail :
      (Option String → Option String)
      → (i now : ℕ) → CandidateFailure
      → Candidates
      → Result CandidateError Candidates
  fail cut i now f t = do
    require (is_failure f.target_state) invalid_failure_state
    one_row (sql.update (at_key candidate_key i (may_fail now f)) (candidate_failed cut f) t)

  unfoldable pub recoverable : (now max_attempts limit : ℕ) → Candidates → Candidates
  recoverable now max_attempts limit t =
      take limit (sql.ordered created (sql.select (claimable now max_attempts) t))
