-- ===== src/Delivery/Model.antt =====
-- src/promo_bot/database/models.py: the rows that a delivery reads and writes. A timestamp is a
-- natural number of microseconds, and a nullable column an `Option`.
use promo_bot.Base.{ℕ, Bool, Option, String}
use promo_bot.Domain.Enums.{DeliveryState, DeliveryPurpose, DealState, ReviewState}

-- `DeliveryModel`, with the columns of `TimestampMixin` left out
pub record Delivery : Type 0 where
  pub id : ℕ
  pub deal_id : ℕ
  pub idempotency_key : String
  pub target_chat_id : String
  pub purpose : DeliveryPurpose
  pub state : DeliveryState
  pub attempt_count : ℕ
  pub last_attempt_at : Option ℕ
  pub next_attempt_at : Option ℕ
  pub lease_until : Option ℕ
  pub telegram_message_id : Option String
  pub sent_at : Option ℕ
  pub error_code : Option String
  pub error_summary : Option String

-- the columns of `DealModel` that publication reads
pub record Deal : Type 0 where
  pub id : ℕ
  pub currency : String
  pub affiliate_link : Option String
  pub status : DealState
  pub review_state : ReviewState
  pub available : Option Bool
  pub affiliate_proof_id : Option ℕ

-- the columns of `AffiliateLinkProofModel` that publication reads
pub record AffiliateLinkProof : Type 0 where
  pub id : ℕ
  pub provider : String
  pub short_link : String
  pub generation_state : String
  pub official_response_validated : Bool

abbrev pub delivery_id : Delivery → ℕ
delivery_id d = d.id
