-- ===== src/Delivery/Requests/Safety.antt =====
-- src/promo_bot/database/delivery_repository.py: what holds of a delivery over any sequence of
-- repository calls, in any order and at any times.
use promo_bot.Base.{ℕ, ◌≡◌, ◌≢◌, ◌⊎◌, ◌≤◌, inl, refl, some, none, List, [], ◌∷◌, arith, ok}
use promo_bot.Domain.Enums.{DeliveryState}
use promo_bot.Domain.Transitions.{ensure_delivery_transition}
use promo_bot.Sql.Rows.{Sql}
use promo_bot.Sql.Keys.{UniqueKeys, find}
use promo_bot.Delivery.Model.{Delivery, delivery_id}
use promo_bot.Delivery.Repository.{Deliveries}
use promo_bot.Delivery.Requests.{Request, take, ensure, act, act_all, perform, perform_all}
use promo_bot.Delivery.Requests.Refinement.{find-perform, find-perform_all}

abbrev pub Conforms : DeliveryState → DeliveryState → Type 0
Conforms s s' = (s' ≡ s) ⊎ (ensure_delivery_transition s s' ≡ ok tt)

act-Conforms : (q : Request) (d : Delivery) → Conforms d.state (act q d).state
unfolding act ensure_delivery_transition
act-Conforms (ensure deal token chat purpose) d = inl refl
act-Conforms _ d = ground arith

-- SENT, FAILED_PERMANENT and DELIVERY_AMBIGUOUS
abbrev pub IsFinal : DeliveryState → Type 0
IsFinal s =
    (s ≡ DeliveryState.sent)
    ⊎ (s ≡ DeliveryState.failed_permanent)
    ⊎ (s ≡ DeliveryState.delivery_ambiguous)

act_final : (q : Request) (d : Delivery) → IsFinal d.state → act q d ≡ d
unfolding act
act_final (ensure deal token chat purpose) d h = refl
act_final _ d h = ground arith

act_all_final : (qs : List Request) (d : Delivery) → IsFinal d.state → act_all qs d ≡ d
unfolding act_all
act_all_final [] d h = refl
act_all_final (q ∷ qs) d h = rw (act_final q d h) (act_all_final qs d h)

-- The attempts that the claims of a request may reach.
abbrev pub ClaimsWithin : ℕ → Request → Type 0
ClaimsWithin limit (take i now lease_until max_attempts) = max_attempts ≤ limit
ClaimsWithin limit _ = Unit

abbrev pub AllClaimsWithin : ℕ → List Request → Type 0
AllClaimsWithin limit [] = Unit
AllClaimsWithin limit (q ∷ qs) = ClaimsWithin limit q × AllClaimsWithin limit qs

pub act-attempts :
    (limit : ℕ) (q : Request) (d : Delivery)
    → ClaimsWithin limit q
    → d.attempt_count ≤ limit
    → (act q d).attempt_count ≤ limit
unfolding act
act-attempts limit (ensure deal token chat purpose) d w h = h
act-attempts limit _ d w h = ground arith

-- A lease is held exactly while the message is being sent.
abbrev pub LeaseHeld : Delivery → Type 0
LeaseHeld d =
    (d.state ≡ DeliveryState.sending → d.lease_until ≢ none)
    × (d.state ≢ DeliveryState.sending → d.lease_until ≡ none)

act-LeaseHeld : (q : Request) (d : Delivery) → LeaseHeld d → LeaseHeld (act q d)
unfolding act
act-LeaseHeld (ensure deal token chat purpose) d h = h
act-LeaseHeld _ d h = grind arith

module _ (sql : Sql Delivery delivery_id) where
  -- Every repository call moves every delivery along an edge of the delivery state machine, or
  -- leaves its state: for each row that is there, under unique keys, the row of its key afterwards
  -- has the same state, or one that `ensure_delivery_transition` accepts from the state before.
  pub perform-Conforms :
      (q : Request) (t : Deliveries) (j : ℕ) (d : Delivery)
      → UniqueKeys delivery_id t
      → find delivery_id j t ≡ some d
      → (d' : Delivery) × (find delivery_id j (perform sql q t) ≡ some d')
        × Conforms d.state d'.state
  perform-Conforms q t j d u e = (act q d, find-perform sql t u q j d e, act-Conforms q d)

  -- An ambiguous delivery is never retried: under unique keys, once a row is SENT, FAILED_PERMANENT
  -- or DELIVERY_AMBIGUOUS, no sequence of repository calls, with whatever times and arguments,
  -- changes any column of it.
  pub final_row_frozen :
      (qs : List Request) (t : Deliveries) (j : ℕ) (d : Delivery)
      → UniqueKeys delivery_id t
      → find delivery_id j t ≡ some d
      → IsFinal d.state
      → find delivery_id j (perform_all sql qs t) ≡ some d
  final_row_frozen qs t j d u e h = rw (← act_all_final qs d h) (find-perform_all sql qs t j d u e)

act_all-kept :
    (limit : ℕ) (qs : List Request) (d : Delivery)
    → AllClaimsWithin limit qs
    → d.attempt_count ≤ limit
    → LeaseHeld d
    → ((act_all qs d).attempt_count ≤ limit) × LeaseHeld (act_all qs d)
unfolding act_all
act_all-kept limit [] d w h l = (h, l)
act_all-kept limit (q ∷ qs) d (w, ws) h l =
    act_all-kept limit qs (act q d) ws (act-attempts limit q d w h) (act-LeaseHeld q d l)

module _ (sql : Sql Delivery delivery_id) where
  -- Invariant: if no claim is made with more than `limit` attempts, a delivery that is within the
  -- limit and holds a lease exactly while it is SENDING stays so, through every sequence of
  -- repository calls.
  pub perform_all-attempts_and_lease :
      (limit : ℕ) (qs : List Request) (t : Deliveries) (j : ℕ) (d : Delivery)
      → UniqueKeys delivery_id t
      → AllClaimsWithin limit qs
      → find delivery_id j t ≡ some d
      → d.attempt_count ≤ limit
      → LeaseHeld d
      → (d' : Delivery) × (find delivery_id j (perform_all sql qs t) ≡ some d')
        × (d'.attempt_count ≤ limit)
        × LeaseHeld d'
  perform_all-attempts_and_lease limit qs t j d u w e h l =
      let (within, leased) = act_all-kept limit qs d w h l in
      (act_all qs d, find-perform_all sql qs t j d u e, within, leased)
