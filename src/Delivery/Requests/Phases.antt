-- ===== src/Delivery/Requests/Phases.antt =====
-- What the outbox of src/promo_bot/database/delivery_repository.py promises of one delivery: a machine of
-- three phases, which the repository's statements refine.
use promo_bot.Base.{
  ℕ, ◌+◌, ◌≡◌, ◌∙◌, refl, ap, true, false, Bool, ◌&&◌, Option, none, some, List, [], ◌∷◌, ◌==◌, ltb,
  leb, if◌then◌else◌, has_text, arith,
}
use promo_bot.Domain.Enums.{DeliveryState}
use promo_bot.Sql.Rows.{Sql}
use promo_bot.Sql.Keys.{UniqueKeys, find, find-key}
use promo_bot.Delivery.Model.{Delivery, delivery_id}
use promo_bot.Delivery.Repository.{Deliveries}
use promo_bot.Delivery.Requests.{
  Request, ensure, take, sent, retryable, ambiguous, permanent, recover, act, act_all, perform_all,
}
use promo_bot.Delivery.Requests.Refinement.{find-perform_all}

-- To be sent, from a time on if there is one; being sent, until a lease ends; or done with.
pub data Phase : Type 0 where
  waiting : (attempts : ℕ) (due : Option ℕ) → Phase
  held : (attempts : ℕ) (until : Option ℕ) → Phase
  closed : (attempts : ℕ) (state : DeliveryState) → Phase

abbrev pub phase_of : DeliveryState → (attempts : ℕ) (next lease : Option ℕ) → Phase
phase_of DeliveryState.pending attempts next lease = waiting attempts none
phase_of DeliveryState.failed_retryable attempts next lease = waiting attempts next
phase_of DeliveryState.sending attempts next lease = held attempts lease
phase_of DeliveryState.sent attempts next lease = closed attempts DeliveryState.sent
phase_of DeliveryState.failed_permanent attempts next lease =
    closed attempts DeliveryState.failed_permanent
phase_of DeliveryState.delivery_ambiguous attempts next lease =
    closed attempts DeliveryState.delivery_ambiguous
phase_of DeliveryState.manual_review attempts next lease =
    closed attempts DeliveryState.manual_review

-- The phase of a row.
abbrev pub phase : Delivery → Phase
phase d = phase_of d.state d.attempt_count d.next_attempt_at d.lease_until

-- A claim of an open delivery that is due and has attempts left counts one and holds it.
abbrev pub claims : (now lease_until max_attempts : ℕ) → Phase → Phase
claims now lease_until max_attempts (waiting attempts none) =
    if ltb attempts max_attempts
    then held (attempts + 1) (some lease_until)
    else waiting attempts none
claims now lease_until max_attempts (waiting attempts (some due)) =
    if ltb attempts max_attempts && leb due now
    then held (attempts + 1) (some lease_until)
    else waiting attempts (some due)
claims now lease_until max_attempts p = p

-- An outcome counts only for a delivery that is held, before the lease ends.
abbrev pub ends : (at : ℕ) → (ℕ → Phase) → Phase → Phase
ends at next (held attempts (some until)) =
    if ltb at until then next attempts else held attempts (some until)
ends at next p = p

-- A lease that has ended leaves it open whether the message was sent.
abbrev pub lapses : (now : ℕ) → Phase → Phase
lapses now (held attempts (some until)) =
    if leb until now
    then closed attempts DeliveryState.delivery_ambiguous
    else held attempts (some until)
lapses now p = p

abbrev pub only : Bool → (Phase → Phase) → Phase → Phase
only true f p = f p
only false f p = p

-- What a request does to the phase of the delivery `j`.
abbrev pub handle : (j : ℕ) → Request → Phase → Phase
handle j (ensure deal token chat purpose) p = p
handle j (take i now lease_until max_attempts) p =
    only (j == i) (claims now lease_until max_attempts) p
handle j (sent i message_id at) p =
    only (j == i && has_text message_id) (ends at (λ n. closed n DeliveryState.sent)) p
handle j (retryable i at next code) p = only (j == i) (ends at (λ n. waiting n (some next))) p
handle j (ambiguous i at code) p =
    only (j == i) (ends at (λ n. closed n DeliveryState.delivery_ambiguous)) p
handle j (permanent i at code) p =
    only (j == i) (ends at (λ n. closed n DeliveryState.failed_permanent)) p
handle j (recover now) p = lapses now p

abbrev pub handle_all : (j : ℕ) → List Request → Phase → Phase
handle_all j [] p = p
handle_all j (q ∷ qs) p = handle_all j qs (handle j q p)

act-id : (q : Request) (d : Delivery) → (act q d).id ≡ d.id
unfolding act
act-id (ensure deal token chat purpose) d = refl
act-id (take i now l m) d = ground arith
act-id (sent i message_id at) d = ground arith
act-id (retryable i at next code) d = ground arith
act-id (ambiguous i at code) d = ground arith
act-id (permanent i at code) d = ground arith
act-id (recover now) d = ground arith

phase-act : (q : Request) (d : Delivery) → phase (act q d) ≡ handle d.id q (phase d)
unfolding act
phase-act (ensure deal token chat purpose) d = refl
phase-act (take i now l m) d = ground arith
phase-act (sent i message_id at) d = ground arith
phase-act (retryable i at next code) d = ground arith
phase-act (ambiguous i at code) d = ground arith
phase-act (permanent i at code) d = ground arith
phase-act (recover now) d = ground arith

phase-act_all :
    (qs : List Request) (d : Delivery) → phase (act_all qs d) ≡ handle_all d.id qs (phase d)
unfolding act_all
phase-act_all [] d = refl
phase-act_all (q ∷ qs) d =
    phase-act_all qs (act q d) ∙ rw (act-id q d) (ap (handle_all d.id qs) (phase-act q d))

module _ (sql : Sql Delivery delivery_id) where
  -- Refinement: under unique keys, whatever the requests, the row of a delivery that is there is
  -- afterwards in the phase that the machine of the phases reaches from the row's phase: it is claimed
  -- only while it is open, due and has attempts left, which counts an attempt; an outcome counts only
  -- while it is held and its lease lasts; and a lease that has ended makes it ambiguous.
  pub deliveries_in_phase :
      (qs : List Request) (t : Deliveries) (j : ℕ) (d : Delivery)
      → UniqueKeys delivery_id t
      → find delivery_id j t ≡ some d
      → (d' : Delivery) × (find delivery_id j (perform_all sql qs t) ≡ some d')
        × (phase d' ≡ handle_all j qs (phase d))
  deliveries_in_phase qs t j d u e =
      let here : d.id ≡ j = find-key delivery_id j t e in
      (act_all qs d, find-perform_all sql qs t j d u e, rw (← here) (phase-act_all qs d))
