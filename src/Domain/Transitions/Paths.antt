-- ===== src/Domain/Transitions/Paths.antt =====
-- src/promo_bot/domain/state_machines.py: what holds of every sequence of states whose steps the
-- `ensure_*_transition` functions accept.
use promo_bot.Base.{◌≡◌, ◌≢◌, List, [], ◌∷◌, ok, Result, arith, inl, inr, ◌⊎◌, sym}
use mathlib.Core.List.{Memᴰ}
use promo_bot.Domain.Enums.{DeliveryState, ReviewState}
use promo_bot.Domain.Transitions.{
  StateTransitionError, ensure_delivery_transition, ensure_review_transition,
}

module _ {S : Type 0} (ensure : S → S → Result (StateTransitionError S) (Unit {0})) where
  -- From `s` through the states of the list, each step accepted.
  abbrev pub Follows : S → List S → Type 0
  Follows s [] = Unit
  Follows s (t ∷ ts) = (ensure s t ≡ ok tt) × Follows t ts

  abbrev pub last : S → List S → S
  last s [] = s
  last s (t ∷ ts) = last t ts

abbrev pub IsSettled : DeliveryState → Type 0
IsSettled s =
    (s ≢ DeliveryState.pending) × (s ≢ DeliveryState.sending) × (s ≢ DeliveryState.failed_retryable)

IsSettled-step :
    (s t : DeliveryState) → ensure_delivery_transition s t ≡ ok tt → IsSettled s → IsSettled t
unfolding ensure_delivery_transition
IsSettled-step s t e h = ground arith

settled_stays :
    (s : DeliveryState) (ts : List DeliveryState)
    → Follows ensure_delivery_transition s ts
    → IsSettled s
    → ¬ Memᴰ DeliveryState.sending ts
settled_stays s [] f h m = elim m [ ]
settled_stays s (t ∷ ts) (e, f) h (Memᴰ.head p) = (IsSettled-step s t e h).1 (sym p)
settled_stays s (t ∷ ts) (e, f) h (Memᴰ.tail m) = settled_stays t ts f (IsSettled-step s t e h) m

-- A delivery whose outcome is ambiguous is not sent again: no sequence of accepted transitions from
-- DELIVERY_AMBIGUOUS has SENDING in it.
pub ambiguous_not_resent :
    (ts : List DeliveryState)
    → Follows ensure_delivery_transition DeliveryState.delivery_ambiguous ts
    → ¬ Memᴰ DeliveryState.sending ts
ambiguous_not_resent ts f =
    settled_stays DeliveryState.delivery_ambiguous ts f (λ e. cc, λ e. cc, λ e. cc)

-- Where each accepted step from a `Before` state is to the gate or to a `Before` state, no sequence
-- reaches a state that is not `Before` without passing the gate.
module _ {S : Type 0} (ensure : S → S → Result (StateTransitionError S) (Unit {0}))
    (Before : S → Type 0) (gate : S)
    (step : (s t : S) → ensure s t ≡ ok tt → Before s → (t ≡ gate) ⊎ Before t) where
  passes_gate :
      (s : S) (ts : List S)
      → Follows ensure s ts
      → Before s
      → ¬ Before (last ensure s ts)
      → Memᴰ gate ts
  passes_gate s [] f h out = absurd (out h)
  passes_gate s (t ∷ ts) (e, f) h out = elim (step s t e h) [
    | inl p ↦ Memᴰ.head (sym p)
    | inr q ↦ Memᴰ.tail (passes_gate t ts f q out)
  ]

abbrev Unapproved : ReviewState → Type 0
Unapproved s = (s ≡ ReviewState.awaiting_internal_review) ⊎ (s ≡ ReviewState.rejected)

Unapproved-step :
    (s t : ReviewState)
    → ensure_review_transition s t ≡ ok tt
    → Unapproved s
    → (t ≡ ReviewState.manually_approved) ⊎ Unapproved t
unfolding ensure_review_transition
Unapproved-step s t e h = ground arith

-- A deal is disclosed externally only after a human approval: every accepted sequence of review
-- states from AWAITING_INTERNAL_REVIEW to EXTERNALLY_DISCLOSED has MANUALLY_APPROVED in it.
pub disclosure_needs_approval :
    (ts : List ReviewState)
    → Follows ensure_review_transition ReviewState.awaiting_internal_review ts
    → last ensure_review_transition ReviewState.awaiting_internal_review ts
      ≡ ReviewState.externally_disclosed
    → Memᴰ ReviewState.manually_approved ts
disclosure_needs_approval ts f reached =
    passes_gate ensure_review_transition Unapproved ReviewState.manually_approved Unapproved-step
      ReviewState.awaiting_internal_review ts f (ground arith) (λ h. ground arith)

abbrev Unsent : DeliveryState → Type 0
Unsent s = (s ≡ DeliveryState.pending) ⊎ (s ≡ DeliveryState.failed_permanent)

Unsent-step :
    (s t : DeliveryState)
    → ensure_delivery_transition s t ≡ ok tt
    → Unsent s
    → (t ≡ DeliveryState.sending) ⊎ Unsent t
unfolding ensure_delivery_transition
Unsent-step s t e h = ground arith

-- A delivery counts as sent only if a send was begun: every accepted sequence of delivery states
-- from PENDING to SENT has SENDING in it.
pub sent_needs_sending :
    (ts : List DeliveryState)
    → Follows ensure_delivery_transition DeliveryState.pending ts
    → last ensure_delivery_transition DeliveryState.pending ts ≡ DeliveryState.sent
    → Memᴰ DeliveryState.sending ts
sent_needs_sending ts f reached =
    passes_gate ensure_delivery_transition Unsent DeliveryState.sending Unsent-step
      DeliveryState.pending ts f (ground arith) (λ h. ground arith)
