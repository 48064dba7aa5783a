-- ===== src/Delivery/Requests.antt =====
-- The outbox as an object: what each public method of `DeliveryRepository` does to the table of
-- deliveries, in a session of its own.
pub mod Refinement
pub mod Phases
pub mod Safety
pub mod Claiming
use promo_bot.Base.{
  ℕ, Bool, Option, some, none, String, List, [], ◌∷◌, ◌==◌, ◌&&◌, if◌then◌else◌, has_text, ok,
  raised, Result,
}
use promo_bot.Domain.Enums.{DeliveryPurpose, DeliveryState}
use promo_bot.Sql.Rows.{Sql}
use promo_bot.Delivery.Model.{Delivery, delivery_id}
use promo_bot.Delivery.Repository.{
  Deliveries, DeliveryError, Outcome, claimable, claimed, leased, finished, sent_outcome,
  failed_outcome, stale, expired, ensure_pending, claim, finish, mark_sent, mark_retryable,
  mark_ambiguous, mark_permanent, mark_stale_sending_ambiguous,
}

pub data Request : Type 0 where
  ensure : (deal : ℕ) (token chat : String) (purpose : DeliveryPurpose) → Request
  take : (i now lease_until max_attempts : ℕ) → Request
  sent : (i : ℕ) (message_id : String) (sent_at : ℕ) → Request
  retryable : (i transitioned_at next_attempt_at : ℕ) (code : String) → Request
  ambiguous : (i transitioned_at : ℕ) (code : String) → Request
  permanent : (i transitioned_at : ℕ) (code : String) → Request
  recover : (now : ℕ) → Request

-- An exception rolls the session back.
abbrev pub committed : Deliveries → Result DeliveryError Deliveries → Deliveries
committed t (ok t') = t'
committed t (raised e) = t

abbrev pub committed_row : Deliveries → Result DeliveryError (Deliveries × Delivery) → Deliveries
committed_row t (ok (t', d)) = t'
committed_row t (raised e) = t

module _ (sql : Sql Delivery delivery_id) where
  unfoldable pub perform : Request → Deliveries → Deliveries
  perform (ensure deal token chat purpose) t =
      committed_row t (ensure_pending sql deal token chat purpose t)
  perform (take i now lease_until max_attempts) t = (claim sql i now lease_until max_attempts t).0
  perform (sent i message_id sent_at) t = committed t (mark_sent sql i message_id sent_at t)
  perform (retryable i at next code) t = committed t (mark_retryable sql i at next code t)
  perform (ambiguous i at code) t = committed t (mark_ambiguous sql i at code t)
  perform (permanent i at code) t = committed t (mark_permanent sql i at code t)
  perform (recover now) t = (mark_stale_sending_ambiguous sql now t).0

  unfoldable pub perform_all : List Request → Deliveries → Deliveries
  perform_all [] t = t
  perform_all (q ∷ qs) t = perform_all qs (perform q t)

-- What a request does to one row that is already there: the specification of the methods.
abbrev pub finish_row : ℕ → Outcome → ℕ → Delivery → Delivery
finish_row i o at d = if d.id == i && leased at d then finished o d else d

unfoldable pub act : Request → Delivery → Delivery
act (ensure deal token chat purpose) d = d
act (take i now lease_until max_attempts) d =
    if d.id == i && claimable now max_attempts d then claimed now lease_until d else d
act (sent i message_id sent_at) d =
    if has_text message_id then finish_row i (sent_outcome message_id sent_at) sent_at d else d
act (retryable i at next code) d =
    finish_row i (failed_outcome DeliveryState.failed_retryable (some next) code) at d
act (ambiguous i at code) d =
    finish_row i (failed_outcome DeliveryState.delivery_ambiguous none code) at d
act (permanent i at code) d =
    finish_row i (failed_outcome DeliveryState.failed_permanent none code) at d
act (recover now) d = if stale now d then expired d else d

unfoldable pub act_all : List Request → Delivery → Delivery
act_all [] d = d
act_all (q ∷ qs) d = act_all qs (act q d)
