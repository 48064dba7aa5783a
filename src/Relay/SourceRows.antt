-- ===== src/Relay/SourceRows.antt =====
-- The rows of `SourceMessageModel` of src/promo_bot/database/models.py, and what the statements of
-- `SourceMessageRepository` of src/promo_bot/database/repositories.py test and write in one row. Times
-- are microseconds. A message's text, links and surface are kept as they are received; of the surface
-- only the `legacy_unknown` mark is read.
use promo_bot.Base.{
  ℕ, ◌+◌, Bool, true, false, not, ◌&&◌, ◌||◌, Option, none, some, String, List, ◌==◌, leb, ltb,
  is_none, null_le, if◌then◌else◌, Result, ok, raised, str_eq,
}
use promo_bot.Domain.Enums.{SourceMessageState}

pub record Message : Type 0 where
  pub id : ℕ
  pub platform : String
  pub message_id : String
  pub channel_id : String
  pub occurred_at : ℕ
  pub original_text : String
  pub links : List String
  pub legacy_unknown : Bool
  pub content_hash : String
  pub processing_status : SourceMessageState
  pub attempt_count : ℕ
  pub last_attempt_at : Option ℕ
  pub next_attempt_at : Option ℕ
  pub processing_started_at : Option ℕ
  pub processing_lease_until : Option ℕ
  pub completed_at : Option ℕ
  pub error_code : Option String
  pub error_summary : Option String

abbrev pub message_key : Message → ℕ
message_key m = m.id

abbrev pub Messages : Type 0
Messages = List Message

pub data MessageError : Type 0 where
  -- `LookupError`
  message_not_found : MessageError
  -- raised by the engine
  integrity_error row_missing : MessageError

pub record ReceiveResult : Type 0 where
  pub message : Message
  pub created : Bool
  pub content_matches : Bool
  pub legacy_content_matches : Bool

-- the arguments of `receive`
pub record Received : Type 0 where
  pub platform : String
  pub message_id : String
  pub channel_id : String
  pub occurred_at : ℕ
  pub original_text : String
  pub links : List String
  pub legacy_unknown : Bool
  pub content_hash : String
  pub legacy_content_hash : Option String

-- the values of the insert of `receive`
abbrev pub new_message : Received → ℕ → Message
new_message r id = record {
  id = id;
  platform = r.platform;
  message_id = r.message_id;
  channel_id = r.channel_id;
  occurred_at = r.occurred_at;
  original_text = r.original_text;
  links = r.links;
  legacy_unknown = r.legacy_unknown;
  content_hash = r.content_hash;
  processing_status = SourceMessageState.received;
  attempt_count = 0;
  last_attempt_at = none;
  next_attempt_at = none;
  processing_started_at = none;
  processing_lease_until = none;
  completed_at = none;
  error_code = none;
  error_summary = none;
}

-- the unique key of a message, in the order of the SELECT of `receive`
abbrev pub same_source : Received → Message → Bool
same_source r m =
    str_eq m.platform r.platform
    && str_eq m.message_id r.message_id
    && str_eq m.channel_id r.channel_id

abbrev pub is_hash : Option String → String → Bool
is_hash none h = false
is_hash (some l) h = str_eq h l

abbrev pub receive_result : Received → ℕ → Message → ReceiveResult
receive_result r inserted m =
    let content_matches = str_eq m.content_hash r.content_hash in
    record {
      message = m;
      created = inserted == 1;
      content_matches = content_matches;
      legacy_content_matches =
          not content_matches && m.legacy_unknown && is_hash r.legacy_content_hash m.content_hash;
    }

abbrev pub is_state : SourceMessageState → SourceMessageState → Bool
is_state SourceMessageState.received SourceMessageState.received = true
is_state SourceMessageState.processing SourceMessageState.processing = true
is_state SourceMessageState.completed SourceMessageState.completed = true
is_state SourceMessageState.failed_retryable SourceMessageState.failed_retryable = true
is_state SourceMessageState.failed_permanent SourceMessageState.failed_permanent = true
is_state _ _ = false

-- `_recoverable_expression`
abbrev pub recoverable_expression : ℕ → Message → Bool
recoverable_expression now m =
    is_state m.processing_status SourceMessageState.received
    || (is_state m.processing_status SourceMessageState.failed_retryable
        && (is_none m.next_attempt_at || null_le m.next_attempt_at now))
    || (is_state m.processing_status SourceMessageState.processing
        && not (is_none m.processing_lease_until)
        && null_le m.processing_lease_until now)

-- the WHERE clause of `claim` behind the test on the id, and the one of `recoverable`
abbrev pub claimable : (now max_attempts : ℕ) → Message → Bool
claimable now max_attempts m = ltb m.attempt_count max_attempts && recoverable_expression now m

abbrev pub claimed : (now lease_until : ℕ) → Message → Message
claimed now lease_until m = record m {
  processing_status = SourceMessageState.processing;
  attempt_count = m.attempt_count + 1;
  last_attempt_at = some now;
  processing_started_at = some now;
  processing_lease_until = some lease_until;
  next_attempt_at = none;
  error_code = none;
  error_summary = none;
}

abbrev pub is_processing : Message → Bool
is_processing m = is_state m.processing_status SourceMessageState.processing

abbrev pub done_at : ℕ → Message → Message
done_at now m = record m {
  processing_status = SourceMessageState.completed;
  completed_at = some now;
  processing_lease_until = none;
  next_attempt_at = none;
  error_code = none;
  error_summary = none;
}

abbrev pub with_lease : ℕ → Message → Message
with_lease lease_until m = record m { processing_lease_until = some lease_until }

-- the arguments of `fail`, but the id
pub record Failure : Type 0 where
  pub retryable : Bool
  pub max_attempts : ℕ
  pub next_attempt_at : Option ℕ
  pub error_code : String
  pub error_summary : Option String

-- `fail`'s target state, from the attempts counted
abbrev pub failure_state : Failure → ℕ → SourceMessageState
failure_state f attempt_count =
    let exhausted = leb f.max_attempts attempt_count in
    if f.retryable && not exhausted
    then SourceMessageState.failed_retryable
    else SourceMessageState.failed_permanent

-- the values of `fail`; `summary` is the summary cut to 500 characters
abbrev pub failed : (Option String → Option String) → Failure → ℕ → Message → Message
failed cut f attempt_count m = record m {
  processing_status = failure_state f attempt_count;
  processing_lease_until = none;
  next_attempt_at =
      if is_state (failure_state f attempt_count) SourceMessageState.failed_retryable
      then f.next_attempt_at
      else none;
  error_code =
      some (
        if f.retryable && leb f.max_attempts attempt_count
        then "RETRY_EXHAUSTED"
        else f.error_code);
  error_summary = cut f.error_summary;
}

abbrev pub mismatched : Message → Message
mismatched m = record m {
  processing_status = SourceMessageState.failed_permanent;
  processing_lease_until = none;
  next_attempt_at = none;
  completed_at = none;
  error_code = some "CONTENT_HASH_MISMATCH";
  error_summary = none;
}

abbrev pub deferred : Message → Message
deferred m = record m { error_code = some "QUEUE_CAPACITY_DEFERRED"; error_summary = none }

abbrev pub is_open : SourceMessageState → Bool
is_open SourceMessageState.received = true
is_open SourceMessageState.processing = true
is_open SourceMessageState.failed_retryable = true
is_open _ = false

-- the WHERE clause of `mark_exhausted`
abbrev pub exhausted : ℕ → Message → Bool
exhausted max_attempts m = leb max_attempts m.attempt_count && is_open m.processing_status

-- the values of `mark_exhausted` and `expire_pilot_processing`, which differ in the code
abbrev pub given_up : String → Message → Message
given_up code m = record m {
  processing_status = SourceMessageState.failed_permanent;
  processing_lease_until = none;
  next_attempt_at = none;
  error_code = some code;
  error_summary = none;
}

abbrev pub pilot_expired : ℕ → Message → Bool
pilot_expired now m = is_processing m && null_le m.processing_lease_until now

abbrev pub occurred : Message → ℕ
occurred m = m.occurred_at

-- `scalar_one`, behind the insert of `receive`
abbrev pub result_row :
    Received → ℕ → Messages → Option Message → Result MessageError (Messages × ReceiveResult)
result_row r inserted t none = raised row_missing
result_row r inserted t (some m) = ok (t, receive_result r inserted m)
