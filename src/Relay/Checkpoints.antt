-- ===== src/Relay/Checkpoints.antt =====
-- `TelegramCheckpointRepository` of src/promo_bot/database/repositories.py, over the rows of
-- `TelegramChannelCheckpointModel`: a row or none for each channel. Times are microseconds.
pub mod Newest
use promo_bot.Base.{
  ℕ, Bool, true, false, Option, none, some, String, List, [], ◌∷◌, ltb, if◌then◌else◌, str_eq,
}

pub record Checkpoint : Type 0 where
  pub last_persisted_message_id : Option ℕ
  pub last_persisted_at : Option ℕ
  pub last_catch_up_at : Option ℕ
  pub status : String
  pub error_code : Option String

abbrev pub Checkpoints : Type 0
Checkpoints = String → Option Checkpoint

abbrev pub stored : String → Checkpoint → Checkpoints → Checkpoints
stored channel_id row t c = if str_eq c channel_id then some row else t c

-- the arguments of `record_persisted`, but the channel
pub record Persisted : Type 0 where
  pub message_id : ℕ
  pub occurred_at : ℕ
  pub catch_up_at : Option ℕ

-- the values that are inserted
abbrev pub first_checkpoint : Persisted → Checkpoint
first_checkpoint p = record {
  last_persisted_message_id = some p.message_id;
  last_persisted_at = some p.occurred_at;
  last_catch_up_at = p.catch_up_at;
  status = "READY";
  error_code = none;
}

abbrev pub is_newer : Option ℕ → ℕ → Bool
is_newer none message_id = true
is_newer (some last) message_id = ltb last message_id

abbrev pub or_else : Option ℕ → Option ℕ → Option ℕ
or_else none d = d
or_else (some a) d = some a

-- `set_` of the conflict, on the row that is there
abbrev pub moved : Persisted → Checkpoint → Checkpoint
moved p row = record row {
  last_persisted_message_id =
      if is_newer row.last_persisted_message_id p.message_id
      then some p.message_id
      else row.last_persisted_message_id;
  last_persisted_at =
      if is_newer row.last_persisted_message_id p.message_id
      then some p.occurred_at
      else row.last_persisted_at;
  last_catch_up_at = or_else p.catch_up_at row.last_catch_up_at;
  status = "READY";
  error_code = none;
}

abbrev pub persisted_row : Persisted → Option Checkpoint → Checkpoint
persisted_row p none = first_checkpoint p
persisted_row p (some row) = moved p row

unfoldable pub record_persisted : String → Persisted → Checkpoints → Checkpoints
record_persisted channel_id p t = stored channel_id (persisted_row p (t channel_id)) t

-- `TelegramChannelCheckpointModel(channel_id=…)`
abbrev pub or_new : Option Checkpoint → Checkpoint
or_new none = record {
  last_persisted_message_id = none;
  last_persisted_at = none;
  last_catch_up_at = none;
  status = "READY";
  error_code = none;
}
or_new (some row) = row

abbrev pub in_error : String → Checkpoint → Checkpoint
in_error code row = record row { status = "ERROR"; error_code = some code }

abbrev pub caught_up : ℕ → Checkpoint → Checkpoint
caught_up now row = record row { last_catch_up_at = some now; status = "READY"; error_code = none }

unfoldable pub record_failure : String → String → Checkpoints → Checkpoints
record_failure channel_id error_code t =
    stored channel_id (in_error error_code (or_new (t channel_id))) t

unfoldable pub mark_catch_up_complete : String → ℕ → Checkpoints → Checkpoints
mark_catch_up_complete channel_id now t =
    stored channel_id (caught_up now (or_new (t channel_id))) t
