-- ===== src/Delivery/Repository.antt =====
-- src/promo_bot/database/delivery_repository.py. A method takes the table of deliveries and returns
-- it with its result; where it raises, the transaction of its session is rolled back, and there is
-- no new table.
use promo_bot.Base.{
  ℕ, ◌+◌, Bool, true, false, not, ◌&&◌, ◌||◌, Option, none, some, String, List, ◌==◌, ltb,
  if◌then◌else◌, null_le, null_gt, is_none, Result, ok, raised, str_eq, has_text,
}
use promo_bot.Domain.Enums.{DeliveryState, DeliveryPurpose}
use promo_bot.Sql.Rows.{Sql, first, get}
use promo_bot.Sql.Keys.{at_key}
use promo_bot.Delivery.Model.{Delivery, delivery_id}

pub data DeliveryError : Type 0 where
  -- `DeliveryTransitionConflict`
  transition_conflict : DeliveryError
  -- the two uses of `ValueError`
  message_id_required different_identity : DeliveryError
  -- raised by the engine: a uniqueness constraint, or no row for `scalar_one`
  integrity_error row_missing : DeliveryError

abbrev pub Deliveries : Type 0
Deliveries = List Delivery

abbrev pub same_purpose : DeliveryPurpose → DeliveryPurpose → Bool
same_purpose DeliveryPurpose.internal_review DeliveryPurpose.internal_review = true
same_purpose DeliveryPurpose.external_disclosure DeliveryPurpose.external_disclosure = true
same_purpose _ _ = false

abbrev pub new_delivery : ℕ → String → String → DeliveryPurpose → ℕ → Delivery
new_delivery deal key chat purpose id = record {
  id = id;
  deal_id = deal;
  idempotency_key = key;
  target_chat_id = chat;
  purpose = purpose;
  state = DeliveryState.pending;
  attempt_count = 0;
  last_attempt_at = none;
  next_attempt_at = none;
  lease_until = none;
  telegram_message_id = none;
  sent_at = none;
  error_code = none;
  error_summary = none;
}

abbrev pub same_slot : ℕ → DeliveryPurpose → Delivery → Bool
same_slot deal purpose d = d.deal_id == deal && same_purpose d.purpose purpose

-- the unique index on `idempotency_key`
abbrev pub same_token : String → Delivery → Bool
same_token token d = str_eq d.idempotency_key token

-- `result.scalar_one()` and the comparison that follows it; the row is there after the insert
abbrev pub identified :
    String → String → Deliveries → Option Delivery → Result DeliveryError (Deliveries × Delivery)
identified token chat t none = raised row_missing
identified token chat t (some d) =
    if not (str_eq d.idempotency_key token) || not (str_eq d.target_chat_id chat)
    then raised different_identity
    else ok (t, d)

-- the state and time part of the WHERE clause of `claim`
abbrev pub may_send : ℕ → DeliveryState → Option ℕ → Bool
may_send now DeliveryState.pending next = true
may_send now DeliveryState.failed_retryable next = is_none next || null_le next now
may_send now _ next = false

abbrev pub claimable : (now max_attempts : ℕ) → Delivery → Bool
claimable now max_attempts d =
    ltb d.attempt_count max_attempts && may_send now d.state d.next_attempt_at

abbrev pub claimed : (now lease_until : ℕ) → Delivery → Delivery
claimed now lease_until d = record d {
  state = DeliveryState.sending;
  attempt_count = d.attempt_count + 1;
  last_attempt_at = some now;
  next_attempt_at = none;
  lease_until = some lease_until;
  error_code = none;
  error_summary = none;
}

abbrev pub is_sending : DeliveryState → Bool
is_sending DeliveryState.sending = true
is_sending _ = false

-- the WHERE clause of `_finish`, behind the test on the id
abbrev pub leased : ℕ → Delivery → Bool
leased transitioned_at d =
    is_sending d.state && not (is_none d.lease_until) && null_gt d.lease_until transitioned_at

-- the arguments of `_finish` that it writes
pub record Outcome : Type 0 where
  pub state : DeliveryState
  pub next_attempt_at : Option ℕ
  pub telegram_message_id : Option String
  pub sent_at : Option ℕ
  pub error_code : Option String

abbrev pub finished : Outcome → Delivery → Delivery
finished o d = record d {
  state = o.state;
  lease_until = none;
  next_attempt_at = o.next_attempt_at;
  telegram_message_id = o.telegram_message_id;
  sent_at = o.sent_at;
  error_code = o.error_code;
  error_summary = none;
}

abbrev pub sent_outcome : String → ℕ → Outcome
sent_outcome message_id sent_at = record {
  state = DeliveryState.sent;
  next_attempt_at = none;
  telegram_message_id = some message_id;
  sent_at = some sent_at;
  error_code = none;
}

abbrev pub failed_outcome : DeliveryState → Option ℕ → String → Outcome
failed_outcome state next_attempt_at error_code = record {
  state = state;
  next_attempt_at = next_attempt_at;
  telegram_message_id = none;
  sent_at = none;
  error_code = some error_code;
}

-- the WHERE clause and the values of `mark_stale_sending_ambiguous`
abbrev pub stale : ℕ → Delivery → Bool
stale now d = is_sending d.state && not (is_none d.lease_until) && null_le d.lease_until now

abbrev pub expired : Delivery → Delivery
expired d = record d {
  state = DeliveryState.delivery_ambiguous;
  lease_until = none;
  next_attempt_at = none;
  error_code = some "DELIVERY_LEASE_EXPIRED_AMBIGUOUS";
  error_summary = none;
}

module _ (sql : Sql Delivery delivery_id) where
  -- the rest of `ensure_pending`, behind its insert
  abbrev pub read_back :
      (deal : ℕ) (token chat : String) (purpose : DeliveryPurpose)
      → Option (Deliveries × ℕ)
      → Result DeliveryError (Deliveries × Delivery)
  read_back deal token chat purpose none = raised integrity_error
  read_back deal token chat purpose (some (t', n)) =
      identified token chat t' (first (sql.select (same_slot deal purpose) t'))

  unfoldable pub ensure_pending :
      (deal : ℕ) (token chat : String) (purpose : DeliveryPurpose)
      → Deliveries
      → Result DeliveryError (Deliveries × Delivery)
  ensure_pending deal token chat purpose t = read_back deal token chat purpose (
      sql.insert (same_slot deal purpose) (same_token token) (new_delivery deal token chat purpose)
        t)

  -- `None` where the row is not there or may not be claimed
  unfoldable pub claim :
      (i now lease_until max_attempts : ℕ) → Deliveries → Deliveries × Option Delivery
  claim i now lease_until max_attempts t =
      let (t', n) =
        sql.update (at_key delivery_id i (claimable now max_attempts)) (claimed now lease_until)
          t in
      if n == 1 then (t', get sql i t') else (t', none)

  -- `_finish`
  unfoldable pub finish : (i : ℕ) → Outcome → ℕ → Deliveries → Result DeliveryError Deliveries
  finish i outcome transitioned_at t =
      let (t', n) =
        sql.update (at_key delivery_id i (leased transitioned_at)) (finished outcome) t in
      if n == 1 then ok t' else raised transition_conflict

  unfoldable pub mark_sent : ℕ → String → ℕ → Deliveries → Result DeliveryError Deliveries
  unfolding finish
  mark_sent i message_id sent_at t =
      if has_text message_id
      then finish i (sent_outcome message_id sent_at) sent_at t
      else raised message_id_required

  unfoldable pub mark_retryable :
      (i transitioned_at next_attempt_at : ℕ)
      → String
      → Deliveries
      → Result DeliveryError Deliveries
  unfolding finish
  mark_retryable i transitioned_at next_attempt_at code t =
      finish i (failed_outcome DeliveryState.failed_retryable (some next_attempt_at) code)
        transitioned_at t

  unfoldable pub mark_ambiguous :
      (i transitioned_at : ℕ) → String → Deliveries → Result DeliveryError Deliveries
  unfolding finish
  mark_ambiguous i transitioned_at code t =
      finish i (failed_outcome DeliveryState.delivery_ambiguous none code) transitioned_at t

  unfoldable pub mark_permanent :
      (i transitioned_at : ℕ) → String → Deliveries → Result DeliveryError Deliveries
  unfolding finish
  mark_permanent i transitioned_at code t =
      finish i (failed_outcome DeliveryState.failed_permanent none code) transitioned_at t

  unfoldable pub mark_stale_sending_ambiguous : ℕ → Deliveries → Deliveries × ℕ
  mark_stale_sending_ambiguous now t = sql.update (stale now) expired t
