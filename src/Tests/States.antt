-- ===== src/Tests/States.antt =====
-- Sequences of states that src/promo_bot/domain/state_machines.py accepts.
use promo_bot.Base.{refl, List, [], ◌∷◌}
use mathlib.Core.List.{Memᴰ}
use promo_bot.Domain.Enums.{DeliveryState}
use promo_bot.Domain.Transitions.{ensure_delivery_transition}
use promo_bot.Domain.Transitions.Paths.{Follows, ambiguous_not_resent}

abbrev reviewed : List DeliveryState
reviewed = DeliveryState.manual_review ∷ DeliveryState.sent ∷ []

reviewed-Follows : Follows ensure_delivery_transition DeliveryState.delivery_ambiguous reviewed
unfolding ensure_delivery_transition
reviewed-Follows = (refl, (refl, tt))

reviewed_not_resent : ¬ Memᴰ DeliveryState.sending reviewed
reviewed_not_resent = ambiguous_not_resent reviewed reviewed-Follows
