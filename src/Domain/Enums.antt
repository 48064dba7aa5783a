-- ===== src/Domain/Enums.antt =====
-- src/promo_bot/domain/enums.py. A `StrEnum` is a data type of its members.
pub data Store : Type 0 where
  mercadolivre amazon shopee aliexpress kabum : Store

pub data DealState : Type 0 where
  discovered ready stale discarded expired error manual_review : DealState

pub data AffiliateCandidateState : Type 0 where
  pending_affiliate validating awaiting_affiliate_generation : AffiliateCandidateState
  generating_affiliate affiliate_generated enriched : AffiliateCandidateState
  failed_retryable failed_permanent manual_review : AffiliateCandidateState

pub data DeliveryState : Type 0 where
  pending sending sent failed_retryable failed_permanent : DeliveryState
  delivery_ambiguous manual_review : DeliveryState

pub data DeliveryPurpose : Type 0 where
  internal_review external_disclosure : DeliveryPurpose

pub data ReviewState : Type 0 where
  awaiting_internal_review manually_approved rejected : ReviewState
  external_disclosure_pending externally_disclosed : ReviewState

pub data SourceMessageState : Type 0 where
  received processing completed failed_retryable failed_permanent : SourceMessageState

pub data LinkSource : Type 0 where
  text entity_url entity_text_url button : LinkSource

pub data RelayLinkState : Type 0 where
  received pending_affiliate manual_review ignored rejected : RelayLinkState
