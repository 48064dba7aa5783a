-- ===== src/Relay/Messages.antt =====
-- `SourceMessageRepository` of src/promo_bot/database/repositories.py: its statements on a table of
-- messages.
pub mod Life
pub mod Intake
use promo_bot.Base.{
  ℕ, ◌+◌, Bool, true, false, not, ◌&&◌, ◌||◌, Option, none, some, String, List, ◌==◌, leb, ltb,
  is_none, null_le, if◌then◌else◌, Result, ok, raised, str_eq, take, length, map,
}
use promo_bot.Domain.Enums.{SourceMessageState}
use promo_bot.Sql.Rows.{Sql, first, get}
use promo_bot.Sql.Keys.{at_key}
use promo_bot.Relay.SourceRows.{
  Failure, Message, MessageError, Messages, ReceiveResult, Received, claimable, claimed, deferred,
  done_at, exhausted, failed, failure_state, given_up, integrity_error, is_hash, is_open,
  is_processing, is_state, message_key, message_not_found, mismatched, new_message, occurred,
  pilot_expired, receive_result, recoverable_expression, result_row, row_missing, same_source,
  with_lease,
}

module _ (sql : Sql Message message_key) where
  abbrev pub read_back :
      Received → Option (Messages × ℕ) → Result MessageError (Messages × ReceiveResult)
  read_back r none = raised integrity_error
  read_back r (some (t', inserted)) =
      result_row r inserted t' (first (sql.select (same_source r) t'))

  unfoldable pub receive : Received → Messages → Result MessageError (Messages × ReceiveResult)
  receive r t = read_back r (sql.insert (same_source r) (λ m. false) (new_message r) t)

  unfoldable pub claim : (i now lease_until max_attempts : ℕ) → Messages → Messages × Option Message
  claim i now lease_until max_attempts t =
      let (t', n) =
        sql.update (at_key message_key i (claimable now max_attempts)) (claimed now lease_until)
          t in
      if n == 1 then (t', get sql i t') else (t', none)

  unfoldable pub complete : (i now : ℕ) → Messages → Messages
  complete i now t = (sql.update (at_key message_key i is_processing) (done_at now) t).0

  unfoldable pub renew_lease : (i lease_until : ℕ) → Messages → Messages
  renew_lease i lease_until t =
      (sql.update (at_key message_key i is_processing) (with_lease lease_until) t).0

  abbrev pub fail_row :
      (Option String → Option String)
      → ℕ
      → Failure
      → Messages
      → Option Message
      → Result MessageError (Messages × SourceMessageState)
  fail_row cut i f t none = raised message_not_found
  fail_row cut i f t (some m) = ok (
    (sql.update (at_key message_key i (λ r. true)) (failed cut f m.attempt_count) t).0,
    failure_state f m.attempt_count,
  )

  -- `cut` is `error_summary[:500]`, or None where there is no summary
  unfoldable pub fail :
      (Option String → Option String)
      → ℕ
      → Failure
      → Messages
      → Result MessageError (Messages × SourceMessageState)
  fail cut i f t = fail_row cut i f t (get sql i t)

  unfoldable pub mark_content_mismatch : ℕ → Messages → Messages
  mark_content_mismatch i t = (sql.update (at_key message_key i (λ r. true)) mismatched t).0

  unfoldable pub defer_queue_full : ℕ → Messages → Messages
  defer_queue_full i t =
      (sql.update
        (at_key message_key i (λ r. is_state r.processing_status SourceMessageState.received))
        deferred t).0

  unfoldable pub mark_exhausted : ℕ → Messages → Messages × ℕ
  mark_exhausted max_attempts t = sql.update (exhausted max_attempts) (given_up "RETRY_EXHAUSTED") t

  unfoldable pub expire_pilot_processing : ℕ → Messages → Messages × ℕ
  expire_pilot_processing now t =
      sql.update (pilot_expired now) (given_up "SHADOW_PILOT_OUTCOME_UNCERTAIN") t

  unfoldable pub recoverable : (now max_attempts limit : ℕ) → Messages → Messages
  recoverable now max_attempts limit t =
      take limit (sql.ordered occurred (sql.select (claimable now max_attempts) t))
