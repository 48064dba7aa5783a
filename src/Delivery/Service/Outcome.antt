-- ===== src/Delivery/Service/Outcome.antt =====
-- src/promo_bot/delivery/service.py: what the result of a send says, and what becomes of a send that
-- the transport breaks off.
use promo_bot.Base.{
  ℕ, ◌+◌, ◌*◌, ◌≡◌, inl, inr, refl, Bool, true, false, Option, some, none, [], ◌∷◌, ◌++◌, ok,
  raised, Result, arith, Bool-cases, has_text, String,
}
use promo_bot.Domain.Enums.{DeliveryState}
use promo_bot.Sql.Rows.{Sql}
use promo_bot.Sql.Keys.{UniqueKeys, find}
use promo_bot.Delivery.Model.{Delivery, Deal, AffiliateLinkProof, delivery_id}
use promo_bot.Delivery.Repository.{
  Deliveries, DeliveryError, claim, mark_sent, finished, sent_outcome,
}
use promo_bot.Delivery.Requests.Claiming.{mark_sent_stored}
use promo_bot.Delivery.Service.{
  Service, Answer, returned, rate_limited, retry_before_send, ambiguous, permanent, crashed, World,
  RenderedMessage, SendError, deal_id, proof_id, settled, admit, record_answer, hand_over,
  send_admitted, send, minute,
}

settled-true :
    (w : World) (b : Bool) (r : Result DeliveryError Deliveries)
    → (settled w b r).1 ≡ ok true
    → (b ≡ true)
      × ((t : Deliveries) × (r ≡ ok t) × ((settled w b r).0 ≡ record w { deliveries = t }))
settled-true w b (ok t) h = (ground arith, (t, refl, refl))
settled-true w b (raised e) h = absurd (cc)

module _ (sql : Sql Delivery delivery_id) (deals : Sql Deal deal_id)
    (proofs : Sql AffiliateLinkProof proof_id) where
  -- A recorded success: the transport returned a message id that is not blank, and it was stored.
  abbrev Recorded : ℕ → ℕ → Answer → (w w' : World) → Type 0
  Recorded i later answer w w' =
      (message_id : String) × (t : Deliveries) × (answer ≡ returned message_id)
      × (has_text message_id ≡ true)
      × (mark_sent sql i message_id later w.deliveries ≡ ok t)
      × (w' ≡ record w { deliveries = t })

  record_answer-true :
      (s : Service) (i later : ℕ) (answer : Answer) (w : World)
      → (record_answer sql deals proofs s i later answer w).1 ≡ ok true
      → Recorded i later answer w (record_answer sql deals proofs s i later answer w).0
  unfolding record_answer
  record_answer-true s i later (returned message_id) w h = elim (Bool-cases (has_text message_id)) [
    | inl named ↦
        let (done, (t, stored, same)) =
          settled-true w true (mark_sent sql i message_id later w.deliveries) (rw named at h) in
        (message_id, t, refl, named, stored, rw named same)
    | inr blank ↦ let (done, found) = settled-true w false _ (rw blank at h) in absurd (cc)
  ]
  record_answer-true s i later (rate_limited after) w h =
      let (done, found) = settled-true w false _ h in absurd (cc)
  record_answer-true s i later (retry_before_send code) w h =
      let (done, found) = settled-true w false _ h in absurd (cc)
  record_answer-true s i later (ambiguous code) w h =
      let (done, found) = settled-true w false _ h in absurd (cc)
  record_answer-true s i later (permanent code) w h =
      let (done, found) = settled-true w false _ h in absurd (cc)
  record_answer-true s i later crashed w h = absurd (cc)

  module _ (s : Service) (i now later : ℕ) (rendered : RenderedMessage) (answer : Answer)
      (w : World) (u : UniqueKeys delivery_id w.deliveries) where
    abbrev pub SentRow : World → Type 0
    SentRow w' =
        (message_id : String) × (d : Delivery) × (answer ≡ returned message_id)
        × (has_text message_id ≡ true)
        × (find delivery_id i w'.deliveries ≡ some d)
        × (d.state ≡ DeliveryState.sent)
        × (d.telegram_message_id ≡ some message_id)
        × (w'.given ≡ w.given ++ (i, rendered) ∷ [])

    hand_over-true :
        (c : Deliveries × Option Delivery)
        → claim sql i now (now + s.lease_minutes * minute) s.max_attempts w.deliveries ≡ c
        → (hand_over sql deals proofs s i later rendered answer w c).1 ≡ ok true
        → SentRow (hand_over sql deals proofs s i later rendered answer w c).0
    hand_over-true (t, none) q h = absurd (cc)
    hand_over-true (t, some d) q h =
        let (m, t', e, named, stored, same) =
          record_answer-true s i later answer
            (record w { deliveries = t; given = w.given ++ (i, rendered) ∷ [] }) h in
        let l = now + s.lease_minutes * minute in
        let this : (claim sql i now l s.max_attempts w.deliveries).1 ≡ some d = rw q in
        let row =
          mark_sent_stored sql i now l s.max_attempts later m w.deliveries t' d u this named
            (rw q stored) in
        (m, finished (sent_outcome m later) d, e, named, rw same row, refl, refl, rw same)

    -- `send` tells the truth: under unique keys, where it returns True, the transport was given the
    -- message once and returned a message id that is not blank, and the row of the delivery is SENT
    -- with that id.
    pub send-true :
        (send sql deals proofs s i now later rendered answer w).1 ≡ ok true
        → SentRow (send sql deals proofs s i now later rendered answer w).0
    unfolding send
    send-true = after (admit sql deals proofs s i w)
      where
        after :
            (a : Result SendError (Unit {0}))
            → (send_admitted sql deals proofs s i now later rendered answer w a).1 ≡ ok true
            → SentRow (send_admitted sql deals proofs s i now later rendered answer w a).0
        after (raised e) h = absurd (cc)
        after (ok _) h =
            hand_over-true
              (claim sql i now (now + s.lease_minutes * minute) s.max_attempts w.deliveries) refl h
