-- ===== src/Domain/Transitions.antt =====
-- src/promo_bot/domain/state_machines.py. A transition mapping is a function from a state to the
-- states that may follow it, empty where the mapping has no entry.
pub mod Paths
use promo_bot.Base.{Bool, true, false, List, [], ◌∷◌, Result, require, String}
use promo_bot.Domain.Enums.{
  DealState, AffiliateCandidateState, DeliveryState, ReviewState, SourceMessageState,
}

-- `invalid {workflow} transition: {current} -> {new}`
pub data StateTransitionError (S : Type 0) : Type 0 where
  invalid : (workflow : String) → (current new : S) → StateTransitionError S

abbrev pub source_message_transitions : SourceMessageState → List SourceMessageState
source_message_transitions SourceMessageState.received =
    SourceMessageState.processing ∷ SourceMessageState.failed_permanent ∷ []
source_message_transitions SourceMessageState.processing =
    SourceMessageState.completed ∷ SourceMessageState.failed_retryable
    ∷ SourceMessageState.failed_permanent ∷ []
source_message_transitions SourceMessageState.failed_retryable =
    SourceMessageState.processing ∷ SourceMessageState.failed_permanent ∷ []
source_message_transitions _ = []

abbrev pub affiliate_candidate_transitions : AffiliateCandidateState → List AffiliateCandidateState
affiliate_candidate_transitions AffiliateCandidateState.pending_affiliate =
    AffiliateCandidateState.validating ∷ []
affiliate_candidate_transitions AffiliateCandidateState.validating =
    AffiliateCandidateState.awaiting_affiliate_generation ∷ AffiliateCandidateState.enriched
    ∷ AffiliateCandidateState.failed_retryable ∷ AffiliateCandidateState.failed_permanent
    ∷ AffiliateCandidateState.manual_review ∷ []
affiliate_candidate_transitions AffiliateCandidateState.awaiting_affiliate_generation =
    AffiliateCandidateState.generating_affiliate ∷ AffiliateCandidateState.failed_permanent
    ∷ AffiliateCandidateState.manual_review ∷ []
affiliate_candidate_transitions AffiliateCandidateState.generating_affiliate =
    AffiliateCandidateState.enriched ∷ AffiliateCandidateState.failed_retryable
    ∷ AffiliateCandidateState.failed_permanent ∷ AffiliateCandidateState.manual_review ∷ []
affiliate_candidate_transitions AffiliateCandidateState.failed_retryable =
    AffiliateCandidateState.validating ∷ AffiliateCandidateState.failed_permanent ∷ []
affiliate_candidate_transitions AffiliateCandidateState.manual_review =
    AffiliateCandidateState.pending_affiliate ∷ []
affiliate_candidate_transitions _ = []

abbrev pub review_transitions : ReviewState → List ReviewState
review_transitions ReviewState.awaiting_internal_review =
    ReviewState.manually_approved ∷ ReviewState.rejected ∷ []
review_transitions ReviewState.manually_approved =
    ReviewState.external_disclosure_pending ∷ ReviewState.rejected ∷ []
review_transitions ReviewState.external_disclosure_pending =
    ReviewState.externally_disclosed ∷ ReviewState.rejected ∷ []
review_transitions _ = []

abbrev pub deal_transitions : DealState → List DealState
deal_transitions DealState.discovered =
    DealState.ready ∷ DealState.discarded ∷ DealState.error ∷ DealState.manual_review ∷ []
deal_transitions DealState.ready =
    DealState.stale ∷ DealState.expired ∷ DealState.discarded ∷ DealState.error ∷ []
deal_transitions DealState.stale =
    DealState.ready ∷ DealState.expired ∷ DealState.discarded ∷ DealState.error
    ∷ DealState.manual_review ∷ []
deal_transitions DealState.error =
    DealState.discovered ∷ DealState.discarded ∷ DealState.manual_review ∷ []
deal_transitions DealState.manual_review = DealState.ready ∷ DealState.discarded ∷ []
deal_transitions _ = []

abbrev pub delivery_transitions : DeliveryState → List DeliveryState
delivery_transitions DeliveryState.pending =
    DeliveryState.sending ∷ DeliveryState.failed_permanent ∷ []
delivery_transitions DeliveryState.sending =
    DeliveryState.sent ∷ DeliveryState.failed_retryable ∷ DeliveryState.failed_permanent
    ∷ DeliveryState.delivery_ambiguous ∷ []
delivery_transitions DeliveryState.failed_retryable =
    DeliveryState.sending ∷ DeliveryState.failed_permanent ∷ []
delivery_transitions DeliveryState.delivery_ambiguous = DeliveryState.manual_review ∷ []
delivery_transitions DeliveryState.manual_review =
    DeliveryState.sent ∷ DeliveryState.failed_permanent ∷ []
delivery_transitions _ = []

-- The value of a member tells the members of one enumeration apart.
abbrev pub is_in : {S : Type 0} → Discrete S → S → List S → Bool
is_in dec s [] = false
is_in dec s (t ∷ ts) = elim (dec s t) [ yes e ↦ true | no n ↦ is_in dec s ts ]

pub SourceMessageState-discrete : Discrete SourceMessageState
SourceMessageState-discrete = hlevel

pub AffiliateCandidateState-discrete : Discrete AffiliateCandidateState
AffiliateCandidateState-discrete = hlevel

pub ReviewState-discrete : Discrete ReviewState
ReviewState-discrete = hlevel

pub DealState-discrete : Discrete DealState
DealState-discrete = hlevel

pub DeliveryState-discrete : Discrete DeliveryState
DeliveryState-discrete = hlevel

-- `_ensure_transition`
abbrev pub ensure_transition :
    {S : Type 0}
    → String
    → Discrete S
    → S
    → S
    → (S → List S)
    → Result (StateTransitionError S) (Unit {0})
ensure_transition workflow dec current new transitions =
    require (is_in dec new (transitions current)) (invalid workflow current new)

unfoldable pub ensure_source_message_transition :
    SourceMessageState
    → SourceMessageState
    → Result (StateTransitionError SourceMessageState) (Unit {0})
unfolding SourceMessageState-discrete
ensure_source_message_transition current new =
    ensure_transition "source message" SourceMessageState-discrete current new
      source_message_transitions

unfoldable pub ensure_affiliate_candidate_transition :
    AffiliateCandidateState
    → AffiliateCandidateState
    → Result (StateTransitionError AffiliateCandidateState) (Unit {0})
unfolding AffiliateCandidateState-discrete
ensure_affiliate_candidate_transition current new =
    ensure_transition "affiliate candidate" AffiliateCandidateState-discrete current new
      affiliate_candidate_transitions

unfoldable pub ensure_deal_transition :
    DealState → DealState → Result (StateTransitionError DealState) (Unit {0})
unfolding DealState-discrete
ensure_deal_transition current new =
    ensure_transition "deal" DealState-discrete current new deal_transitions

unfoldable pub ensure_delivery_transition :
    DeliveryState → DeliveryState → Result (StateTransitionError DeliveryState) (Unit {0})
unfolding DeliveryState-discrete
ensure_delivery_transition current new =
    ensure_transition "delivery" DeliveryState-discrete current new delivery_transitions

unfoldable pub ensure_review_transition :
    ReviewState → ReviewState → Result (StateTransitionError ReviewState) (Unit {0})
unfolding ReviewState-discrete
ensure_review_transition current new =
    ensure_transition "review" ReviewState-discrete current new review_transitions
