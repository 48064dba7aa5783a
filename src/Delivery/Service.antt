-- ===== src/Delivery/Service.antt =====
-- src/promo_bot/delivery/service.py: the publication gate, and one send of a delivery. The transport
-- and the clock are not part of the program: what the transport answers and what the two clock calls
-- of a send return are arguments of `send`.
pub mod Calls
pub mod Gate
pub mod Outcome
use promo_bot.Base.{
  ℕ, ◌+◌, ◌*◌, min, Bool, true, false, not, ◌&&◌, Option, none, some, String, List, [], ◌∷◌, ◌++◌,
  ◌==◌, if◌then◌else◌, Result, ok, raised, str_eq, has_text, is_none,
}
use promo_bot.Base.Int.{ℤ, pos_part}
use promo_bot.Domain.Enums.{DealState, DeliveryPurpose, ReviewState}
use promo_bot.Sql.Rows.{Sql, get}
use promo_bot.Delivery.Model.{Delivery, Deal, AffiliateLinkProof, delivery_id}
use promo_bot.Delivery.Repository.{
  Deliveries, DeliveryError, same_purpose, claim, mark_sent, mark_retryable, mark_ambiguous,
  mark_permanent,
}

-- the fields of `EnvironmentSettings` that a delivery reads
pub record Settings : Type 0 where
  pub dry_run : Bool
  pub publish_real_deals : Bool
  pub publish_without_affiliate : Bool
  pub telegram_target_chat_id : Option String
  pub telegram_retry_after_max_seconds : ℕ

pub record PublicationContext : Type 0 where
  pub provider_enabled : Bool
  pub affiliate_mode : String
  pub credentials_valid : Bool
  pub hourly_capacity_available : Bool

abbrev pub is_ready : DealState → Bool
is_ready DealState.ready = true
is_ready _ = false

abbrev pub is_awaiting : ReviewState → Bool
is_awaiting ReviewState.awaiting_internal_review = true
is_awaiting _ = false

abbrev pub is_true : Option Bool → Bool
is_true (some b) = b
is_true none = false

-- `bool(text)` and `text == other`, for a nullable text
abbrev pub is_some_text : Option String → Bool
is_some_text none = false
is_some_text (some s) = not (str_eq s "")

abbrev pub is_text : Option String → String → Bool
is_text none t = false
is_text (some s) t = str_eq s t

abbrev pub is_id : Option ℕ → ℕ → Bool
is_id none n = false
is_id (some m) n = m == n

-- `c and d and …`, a chain of conditions
abbrev pub every : List Bool → Bool
every [] = true
every (c ∷ cs) = c && every cs

-- the conditions of `assert_publication_allowed`, in their order
abbrev pub publication_gates :
    Settings → PublicationContext → Deal → AffiliateLinkProof → Delivery → List Bool
publication_gates settings context deal proof delivery =
    context.provider_enabled
    ∷ str_eq context.affiliate_mode "official_api"
    ∷ context.credentials_valid
    ∷ context.hourly_capacity_available
    ∷ not settings.dry_run
    ∷ settings.publish_real_deals
    ∷ not settings.publish_without_affiliate
    ∷ is_ready deal.status
    ∷ str_eq deal.currency "BRL"
    ∷ is_true deal.available
    ∷ is_some_text deal.affiliate_link
    ∷ is_text deal.affiliate_link proof.short_link
    ∷ is_id deal.affiliate_proof_id proof.id
    ∷ not (is_none settings.telegram_target_chat_id)
    ∷ is_text settings.telegram_target_chat_id delivery.target_chat_id
    ∷ same_purpose delivery.purpose DeliveryPurpose.internal_review
    ∷ is_awaiting deal.review_state
    ∷ str_eq proof.provider "shopee_official"
    ∷ proof.official_response_validated
    ∷ str_eq proof.generation_state "CONFIRMED"
    ∷ []

unfoldable pub publication_allowed :
    Settings → PublicationContext → Deal → AffiliateLinkProof → Delivery → Bool
publication_allowed settings context deal proof delivery =
    every (publication_gates settings context deal proof delivery)

pub record RenderedMessage : Type 0 where
  pub text : String
  pub button_label : String
  pub button_url : String

-- What `transport.send` does: it returns a message id, or raises one of the delivery exceptions with
-- its code, or any other exception. The wait that a rate limit asks for is in microseconds, the
-- resolution of a timestamp, and may be negative.
pub data Answer : Type 0 where
  returned : (message_id : String) → Answer
  rate_limited : (retry_after : ℤ) → Answer
  retry_before_send : (code : String) → Answer
  ambiguous : (code : String) → Answer
  permanent : (code : String) → Answer
  crashed : Answer

pub data SendError : Type 0 where
  -- `LookupError`, and the `ValueError`s of a deal or a proof that is not there
  delivery_not_found proof_required proof_not_found : SendError
  blocked_by_policy : SendError
  repository_error : DeliveryError → SendError
  transport_crashed : SendError

-- The database, and the messages that the transport was given, each with its delivery.
pub record World : Type 0 where
  pub deliveries : Deliveries
  pub deals : List Deal
  pub proofs : List AffiliateLinkProof
  pub given : List (ℕ × RenderedMessage)

abbrev pub deal_id : Deal → ℕ
deal_id d = d.id

abbrev pub proof_id : AffiliateLinkProof → ℕ
proof_id p = p.id

-- `DealDeliveryService`, but for its database and its transport
pub record Service : Type 0 where
  pub settings : Settings
  pub publication_context : PublicationContext
  pub max_attempts : ℕ
  pub lease_minutes : ℕ

abbrev pub minute : ℕ
minute = 60000000

abbrev pub second : ℕ
second = 1000000

-- `min(max(0.0, retry_after_seconds), telegram_retry_after_max_seconds)`, in microseconds
abbrev pub retry_wait : Settings → ℤ → ℕ
retry_wait settings after =
    min (pos_part after) (settings.telegram_retry_after_max_seconds * second)

-- A session that marks the delivery, after the transport has answered.
abbrev pub settled : World → Bool → Result DeliveryError Deliveries → World × Result SendError Bool
settled w done (ok t) = (record w { deliveries = t }, ok done)
settled w done (raised e) = (w, raised (repository_error e))

abbrev pub proof_row :
    Deal → Option AffiliateLinkProof → Result SendError (Deal × AffiliateLinkProof)
proof_row deal none = raised proof_not_found
proof_row deal (some proof) = ok (deal, proof)

module _ (deliveries : Sql Delivery delivery_id) (deals : Sql Deal deal_id)
    (proofs : Sql AffiliateLinkProof proof_id) where
  -- the `try` statement of `send` and what follows it
  unfoldable pub record_answer :
      Service → (i later : ℕ) → Answer → World → World × Result SendError Bool
  record_answer s i later (returned message_id) w =
      if has_text message_id
      then settled w true (mark_sent deliveries i message_id later w.deliveries)
      else settled w false
          (mark_ambiguous deliveries i later "TELEGRAM_RESPONSE_WITHOUT_MESSAGE_ID" w.deliveries)
  record_answer s i later (rate_limited after) w = settled w false (
      mark_retryable deliveries i later (later + retry_wait s.settings after)
        "TELEGRAM_RATE_LIMITED" w.deliveries)
  record_answer s i later (retry_before_send code) w =
      settled w false (mark_retryable deliveries i later (later + 2 * second) code w.deliveries)
  record_answer s i later (ambiguous code) w =
      settled w false (mark_ambiguous deliveries i later code w.deliveries)
  record_answer s i later (permanent code) w =
      settled w false (mark_permanent deliveries i later code w.deliveries)
  record_answer s i later crashed w = (w, raised transport_crashed)

  -- the rows that the first session of `send` reads, with the checks on the way
  abbrev pub proof_of : World → Deal → Option ℕ → Result SendError (Deal × AffiliateLinkProof)
  proof_of w deal none = raised proof_required
  proof_of w deal (some p) = proof_row deal (get proofs p w.proofs)

  abbrev pub deal_of : World → Option Deal → Result SendError (Deal × AffiliateLinkProof)
  deal_of w none = raised proof_required
  deal_of w (some deal) = proof_of w deal deal.affiliate_proof_id

  -- the first session of `send` up to its claim: whether the delivery may be published
  abbrev pub admitted_row :
      Service
      → World
      → Delivery
      → Result SendError (Deal × AffiliateLinkProof)
      → Result SendError (Unit {0})
  admitted_row s w delivery (raised e) = raised e
  admitted_row s w delivery (ok (deal, proof)) =
      if publication_allowed s.settings s.publication_context deal proof delivery
      then ok tt
      else raised blocked_by_policy

  abbrev pub admitted_delivery : Service → World → Option Delivery → Result SendError (Unit {0})
  admitted_delivery s w none = raised delivery_not_found
  admitted_delivery s w (some d) = admitted_row s w d (deal_of w (get deals d.deal_id w.deals))

  unfoldable pub admit : Service → ℕ → World → Result SendError (Unit {0})
  admit s i w = admitted_delivery s w (get deliveries i w.deliveries)

  -- behind the claim: the transport is called only where the claim was granted
  abbrev pub hand_over :
      Service
      → (i later : ℕ) → RenderedMessage
      → Answer
      → World
      → Deliveries × Option Delivery
      → World × Result SendError Bool
  hand_over s i later rendered answer w (t, none) = (record w { deliveries = t }, ok false)
  hand_over s i later rendered answer w (t, some d) =
      record_answer s i later answer
        (record w { deliveries = t; given = w.given ++ (i, rendered) ∷ [] })

  abbrev pub send_admitted :
      Service
      → (i now later : ℕ) → RenderedMessage
      → Answer
      → World
      → Result SendError (Unit {0})
      → World × Result SendError Bool
  send_admitted s i now later rendered answer w (raised e) = (w, raised e)
  send_admitted s i now later rendered answer w (ok _) =
      hand_over s i later rendered answer w
        (claim deliveries i now (now + s.lease_minutes * minute) s.max_attempts w.deliveries)

  unfoldable pub send :
      Service → (i now later : ℕ) → RenderedMessage → Answer → World → World × Result SendError Bool
  unfolding admit record_answer
  send s i now later rendered answer w = send_admitted s i now later rendered answer w (admit s i w)
