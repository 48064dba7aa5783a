-- ===== src/Relay/Processor.antt =====
-- `RelayProcessor.process` of src/promo_bot/relay/service.py. What `_process_link` does with a link is
-- a parameter, since it turns on the network: it returns, raises `RelayProcessingError`, or raises
-- another exception. The clock and the jitter are parameters too. Each transaction is a step of its
-- own: what other calls make of the table between two of them is the parameter `others`. Times are
-- microseconds.
pub mod Settles
use promo_bot.Base.{
  ℕ, suc, ◌+◌, ◌*◌, Bool, true, false, Option, none, some, String, List, [], ◌∷◌, if◌then◌else◌,
  Result, ok, raised, ◌>>=◌, ◌>>◌,
}
use promo_bot.Sql.Rows.{Sql}
use promo_bot.Relay.Backoff.{BackoffPolicy, BackoffError, next_attempt_at}
use promo_bot.Relay.SourceRows.{Message, Messages, MessageError, message_key, Failure}
use promo_bot.Relay.Messages.{claim, complete, renew_lease, fail}

pub data LinkOutcome : Type 0 where
  processed : LinkOutcome
  -- `RelayProcessingError`
  processing_error : (retryable : Bool) → (code : String) → (summary : Option String) → LinkOutcome
  -- any other exception
  crashed : LinkOutcome

pub data ProcessError : Type 0 where
  messages : MessageError → ProcessError
  backoff : BackoffError → ProcessError

pub record Processor : Type 0 where
  pub stale_after_minutes : ℕ
  pub max_attempts : ℕ
  pub policy : BackoffPolicy
  pub cut : Option String → Option String
  -- the outcome of the link at a position, and the time at which its lease is renewed
  pub outcome : ℕ → String → LinkOutcome
  pub clock : ℕ → ℕ
  pub jitter : ℕ
  -- What the other calls make of the table while `process` awaits: after the claim and after each
  -- link, before the transaction that follows, which the number counts.
  pub others : ℕ → Messages → Messages

abbrev pub minute : ℕ
minute = 60000000

-- The failure that an outcome stands for, with what is retried.
pub record LinkFailure : Type 0 where
  pub retryable : Bool
  pub code : String
  pub summary : Option String

abbrev pub link_failure : LinkOutcome → Option LinkFailure
link_failure processed = none
link_failure (processing_error retryable code summary) =
    some (record { retryable = retryable; code = code; summary = summary })
link_failure crashed =
    some (record { retryable = true; code = "UNEXPECTED_PROCESSING_ERROR"; summary = none })

abbrev pub from_backoff {ℓ} : {A : Type ℓ} → Result BackoffError A → Result ProcessError A
from_backoff (ok a) = ok a
from_backoff (raised e) = raised (backoff e)

-- the time of the next attempt, worked out only where the failure is retried
abbrev pub retry_at : Processor → (later attempt_count : ℕ) → Bool → Result ProcessError (Option ℕ)
retry_at p later attempt_count false = ok none
retry_at p later attempt_count true =
    from_backoff (next_attempt_at p.policy later attempt_count p.jitter) >>= λ at. ok (some at)

abbrev pub table_of {ℓ} :
    {A : Type ℓ} → Result MessageError (Messages × A) → Result ProcessError Messages
table_of (ok (t, a)) = ok t
table_of (raised e) = raised (messages e)

module _ (sql : Sql Message message_key) (p : Processor) where
  abbrev pub after_link :
      (i : ℕ)
      → Option LinkFailure
      → Messages
      → Messages × Option LinkFailure
      → Messages × Option LinkFailure
  after_link i none t rest = rest
  after_link i (some f) t rest = (t, some f)

  -- The loop over the links, up to the transaction that ends the work: each renews the lease and is processed, up to the first that fails.
  unfoldable pub run_links : (i k : ℕ) → List String → Messages → Messages × Option LinkFailure
  run_links i k [] t = (p.others k t, none)
  run_links i k (link ∷ links) t =
      let t' = renew_lease sql i (p.clock k + p.stale_after_minutes * minute) (p.others k t) in
      after_link i (link_failure (p.outcome k link)) (p.others (suc k) t')
        (run_links i (suc k) links t')

  abbrev pub fail_with :
      (i attempt_count later : ℕ) → LinkFailure → Messages → Result ProcessError Messages
  fail_with i attempt_count later f t = do
    at ← retry_at p later attempt_count f.retryable
    table_of (
        fail sql p.cut i
          (record {
            retryable = f.retryable;
            max_attempts = p.max_attempts;
            next_attempt_at = at;
            error_code = f.code;
            error_summary = f.summary;
          })
          t)

  abbrev pub settled :
      (i attempt_count later : ℕ) → Messages × Option LinkFailure → Result ProcessError Messages
  settled i attempt_count later (t, none) = ok (complete sql i later t)
  settled i attempt_count later (t, some f) = fail_with i attempt_count later f t

  abbrev pub claimed_process :
      (i later : ℕ) → Messages × Option Message → Result ProcessError Messages
  claimed_process i later (t, none) = ok t
  claimed_process i later (t, some m) = settled i m.attempt_count later (run_links i 0 m.links t)

  unfoldable pub process : (i now later : ℕ) → Messages → Result ProcessError Messages
  process i now later t =
      claimed_process i later
        (claim sql i now (now + p.stale_after_minutes * minute) p.max_attempts t)
