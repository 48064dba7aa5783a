-- ===== src/Delivery/Service/Calls.antt =====
-- src/promo_bot/delivery/service.py: how often the transport is given a delivery.
use promo_bot.Base.{
  ℕ, suc, ◌+◌, ◌*◌, ◌≤◌, ◌<◌, ◌≡◌, refl, sym, ◌∙◌, Bool, true, false, List, [], ◌∷◌, ◌++◌, Option,
  some, none, ◌==◌, if◌then◌else◌, Result, ok, raised, arith, ==_iff, Bool-cases, Option-cases, inl,
  inr, has_text, ◌⊎◌,
}
use mathlib.Core.Path.{subst}
use promo_bot.Sql.Rows.{Sql}
use promo_bot.Sql.Keys.{UniqueKeys, find, find-key}
use promo_bot.Delivery.Model.{Delivery, Deal, AffiliateLinkProof, delivery_id}
use promo_bot.Delivery.Repository.{Deliveries, DeliveryError, claim}
use promo_bot.Delivery.Requests.{Request, take, perform, perform_all, act, act_all, committed}
use promo_bot.Delivery.Requests.Refinement.{find-perform, find-perform_all, perform-UniqueKeys}
use promo_bot.Delivery.Requests.Safety.{act-attempts}
use promo_bot.Delivery.Requests.Claiming.{claim-granted, granted}
use promo_bot.Delivery.Service.{
  Service, Answer, returned, rate_limited, retry_before_send, ambiguous, permanent, crashed, World,
  RenderedMessage, SendError, deal_id, proof_id, settled, record_answer, send_admitted, hand_over,
  send, admit, retry_wait, second, minute,
}

-- How often the transport was given the delivery `i`.
abbrev pub calls : ℕ → List (ℕ × RenderedMessage) → ℕ
calls i [] = 0
calls i ((j, m) ∷ g) = let rest = calls i g in if j == i then suc rest else rest

calls-append : (i : ℕ) (g h : List (ℕ × RenderedMessage)) → calls i (g ++ h) ≡ calls i g + calls i h
calls-append i [] h = omega arith
calls-append i ((j, m) ∷ g) h = ground (arith, calls-append i g h)

-- The repository call by which an answer is recorded.
abbrev pub answer_request : Service → (i later : ℕ) → Answer → List Request
answer_request s i later (returned message_id) =
    (if has_text message_id
      then Request.sent i message_id later
      else Request.ambiguous i later "TELEGRAM_RESPONSE_WITHOUT_MESSAGE_ID")
    ∷ []
answer_request s i later (rate_limited after) =
    Request.retryable i later (later + retry_wait s.settings after) "TELEGRAM_RATE_LIMITED" ∷ []
answer_request s i later (retry_before_send code) =
    Request.retryable i later (later + 2 * second) code ∷ []
answer_request s i later (ambiguous code) = Request.ambiguous i later code ∷ []
answer_request s i later (permanent code) = Request.permanent i later code ∷ []
answer_request s i later crashed = []

settled-deliveries :
    (w : World) (b : Bool) (r : Result DeliveryError Deliveries)
    → ((settled w b r).0.deliveries ≡ committed w.deliveries r)
      × ((settled w b r).0.given ≡ w.given)
settled-deliveries w b (ok t) = (refl, refl)
settled-deliveries w b (raised e) = (refl, refl)

module _ (sql : Sql Delivery delivery_id) (deals : Sql Deal deal_id)
    (proofs : Sql AffiliateLinkProof proof_id) where
  record_answer-deliveries :
      (s : Service) (i later : ℕ) (answer : Answer) (w : World)
      → ((record_answer sql deals proofs s i later answer w).0.deliveries
          ≡ perform_all sql (answer_request s i later answer) w.deliveries)
        × ((record_answer sql deals proofs s i later answer w).0.given ≡ w.given)
  unfolding record_answer perform_all perform
  record_answer-deliveries s i later (returned message_id) w =
      elim (Bool-cases (has_text message_id)) [
        | inl named ↦ rw named (settled-deliveries w true _)
        | inr blank ↦ rw blank (settled-deliveries w false _)
      ]
  record_answer-deliveries s i later (rate_limited after) w = settled-deliveries w false _
  record_answer-deliveries s i later (retry_before_send code) w = settled-deliveries w false _
  record_answer-deliveries s i later (ambiguous code) w = settled-deliveries w false _
  record_answer-deliveries s i later (permanent code) w = settled-deliveries w false _
  record_answer-deliveries s i later crashed w = (refl, refl)

  -- A send changes nothing, or claims in vain, or claims, gives the message out once and records the
  -- answer.
  abbrev pub Trace :
      Service → (i now later : ℕ) → RenderedMessage → Answer → (w w' : World) → Type 0
  Trace s i now later rendered answer w w' =
      let claiming = take i now (now + s.lease_minutes * minute) s.max_attempts in
      ((w'.deliveries ≡ w.deliveries) × (w'.given ≡ w.given))
      ⊎ ((w'.deliveries ≡ perform sql claiming w.deliveries) × (w'.given ≡ w.given))
      ⊎ ((d : Delivery) × ((claim sql i now (now + s.lease_minutes * minute) s.max_attempts
              w.deliveries).1
            ≡ some d)
          × (w'.deliveries
              ≡ perform_all sql (claiming ∷ answer_request s i later answer) w.deliveries)
          × (w'.given ≡ w.given ++ (i, rendered) ∷ []))

  module _ (s : Service) (i now later : ℕ) (rendered : RenderedMessage) (answer : Answer)
      (w : World) where
    hand_over-none :
        (c : Deliveries × Option Delivery)
        → c.1 ≡ none
        → ((hand_over sql deals proofs s i later rendered answer w c).0.deliveries ≡ c.0)
          × ((hand_over sql deals proofs s i later rendered answer w c).0.given ≡ w.given)
    hand_over-none (t, none) h = (refl, refl)
    hand_over-none (t, some d) h = absurd (cc)

    hand_over-some :
        (c : Deliveries × Option Delivery) (d : Delivery)
        → c.1 ≡ some d
        → ((hand_over sql deals proofs s i later rendered answer w c).0.deliveries
            ≡ perform_all sql (answer_request s i later answer) c.0)
          × ((hand_over sql deals proofs s i later rendered answer w c).0.given
              ≡ w.given ++ (i, rendered) ∷ [])
    hand_over-some (t, none) d h = absurd (cc)
    hand_over-some (t, some d') d h =
        record_answer-deliveries s i later answer
          (record w { deliveries = t; given = w.given ++ (i, rendered) ∷ [] })

    hand_over-Trace :
        Trace s i now later rendered answer w
          (hand_over sql deals proofs s i later rendered answer w
            (claim sql i now (now + s.lease_minutes * minute) s.max_attempts w.deliveries)).0
    unfolding perform perform_all
    hand_over-Trace =
        let c = claim sql i now (now + s.lease_minutes * minute) s.max_attempts w.deliveries in
        elim (Option-cases c.1) [
          | inl denied ↦ inr (inl (hand_over-none c denied))
          | inr (d, given) ↦
              let (rows, messages) = hand_over-some c d given in
              inr (inr (d, given, rows, messages))
        ]

    pub send-Trace :
        Trace s i now later rendered answer w
          (send sql deals proofs s i now later rendered answer w).0
    unfolding send
    send-Trace = after_admission (admit sql deals proofs s i w)
      where
        after_admission :
            (a : Result SendError (Unit {0}))
            → Trace s i now later rendered answer w
                (send_admitted sql deals proofs s i now later rendered answer w a).0
        after_admission (raised e) = inl (refl, refl)
        after_admission (ok _) = hand_over-Trace

act-attempts_mono : (q : Request) (d : Delivery) → d.attempt_count ≤ (act q d).attempt_count
unfolding act
act-attempts_mono (Request.ensure deal token chat purpose) d = omega arith
act-attempts_mono _ d = ground arith

act_all-attempts_mono :
    (qs : List Request) (d : Delivery) → d.attempt_count ≤ (act_all qs d).attempt_count
unfolding act_all
act_all-attempts_mono [] d = omega arith
act_all-attempts_mono (q ∷ qs) d =
    omega (arith, act-attempts_mono q d, act_all-attempts_mono qs (act q d))

act-answer_attempts :
    (s : Service) (i later : ℕ) (answer : Answer) (d : Delivery)
    → (act_all (answer_request s i later answer) d).attempt_count ≡ d.attempt_count
unfolding act_all act
act-answer_attempts s i later crashed d = refl
act-answer_attempts s i later _ d = ground arith

-- the claim of a row counts one attempt
granted_attempt :
    (i now lease_until max_attempts : ℕ) (d : Delivery) {d' : Delivery}
    → d.id ≡ i
    → granted now lease_until max_attempts (some d) ≡ some d'
    → ((act (take i now lease_until max_attempts) d).attempt_count ≡ suc d.attempt_count)
      × (d.attempt_count < max_attempts)
unfolding act
granted_attempt i now l m d this e = ground arith

-- What is kept of the delivery `j`: the transport was given it at most once per counted attempt, and
-- the attempts are within the limit.
abbrev pub Bounded : ℕ → ℕ → World → Type 0
Bounded limit j w =
    UniqueKeys delivery_id w.deliveries
    × ((d : Delivery) × (find delivery_id j w.deliveries ≡ some d)
        × (calls j w.given ≤ d.attempt_count)
        × (d.attempt_count ≤ limit))

-- The calls of the service and of the recovery, in any order.
pub data Event : Type 0 where
  sending : (i now later : ℕ) → RenderedMessage → Answer → Event
  recovery : ℕ → Event

module _ (sql : Sql Delivery delivery_id) (deals : Sql Deal deal_id)
    (proofs : Sql AffiliateLinkProof proof_id) (s : Service) where
  unfoldable pub happen : Event → World → World
  happen (sending i now later rendered answer) w =
      (send sql deals proofs s i now later rendered answer w).0
  happen (recovery now) w = record w { deliveries = perform sql (Request.recover now) w.deliveries }

  unfoldable pub happen_all : List Event → World → World
  happen_all [] w = w
  happen_all (e ∷ es) w = happen_all es (happen e w)

  perform_all-UniqueKeys :
      (qs : List Request) (t : Deliveries)
      → UniqueKeys delivery_id t
      → UniqueKeys delivery_id (perform_all sql qs t)
  unfolding perform_all
  perform_all-UniqueKeys [] t u = u
  perform_all-UniqueKeys (q ∷ qs) t u =
      perform_all-UniqueKeys qs (perform sql q t) (perform-UniqueKeys sql t u q)

  -- A granted claim pays for the message that follows it.
  granted_call :
      (i now lease_until j : ℕ) (rendered : RenderedMessage) (w : World) (d : Delivery)
      {d' : Delivery}
      → UniqueKeys delivery_id w.deliveries
      → find delivery_id j w.deliveries ≡ some d
      → calls j w.given ≤ d.attempt_count
      → (claim sql i now lease_until s.max_attempts w.deliveries).1 ≡ some d'
      → calls j (w.given ++ (i, rendered) ∷ [])
        ≤ (act (take i now lease_until s.max_attempts) d).attempt_count
  granted_call i now l j rendered w d {d'} u e few given =
      let count = calls-append j w.given ((i, rendered) ∷ []) in
      elim (Bool-cases (i == j)) [
        | inl same ↦
            let this = find-key delivery_id j w.deliveries e in
            let here : d.id ≡ i = ground arith in
            let found : find delivery_id i w.deliveries ≡ some d =
              subst (λ k. find delivery_id k w.deliveries ≡ some d) (sym ((==_iff i j).0 same)) e in
            let paid : granted now l s.max_attempts (some d) ≡ some d' =
              rw found at (sym (claim-granted sql i now l s.max_attempts w.deliveries u) ∙ given) in
            ground (arith, granted_attempt i now l s.max_attempts d {d' = d'} here paid, count)
        | inr other ↦ ground (arith, act-attempts_mono (take i now l s.max_attempts) d, count)
      ]

  sent-Bounded :
      (i now later : ℕ) (rendered : RenderedMessage) (answer : Answer) (j : ℕ) (w w' : World)
      → Trace sql deals proofs s i now later rendered answer w w'
      → Bounded s.max_attempts j w
      → Bounded s.max_attempts j w'
  unfolding act_all
  sent-Bounded i now later rendered answer j w w' (inl (same, quiet)) (u, (d, e, few, within)) =
      (rw same u, (d, rw same e, rw quiet few, within))
  sent-Bounded i now later rendered answer j w w' (inr (inl (tried, quiet)))
        (u, (d, e, few, within)) =
      let q = take i now (now + s.lease_minutes * minute) s.max_attempts in
      let more = act-attempts_mono q d in
      (
        rw tried (perform-UniqueKeys sql w.deliveries u q),
        (
          act q d,
          rw tried (find-perform sql w.deliveries u q j d e),
          rw quiet (omega arith),
          act-attempts s.max_attempts q d (omega arith) within,
        ),
      )
  sent-Bounded i now later rendered answer j w w' (inr (inr (d', given, done, said)))
        (u, (d, e, few, within)) =
      let l = now + s.lease_minutes * minute in
      let q = take i now l s.max_attempts in
      let qs = answer_request s i later answer in
      let same = act-answer_attempts s i later answer (act q d) in
      let paid = granted_call i now l j rendered w d u e few given in
      let kept = act-attempts s.max_attempts q d (omega arith) within in
      (
        rw done (perform_all-UniqueKeys (q ∷ qs) w.deliveries u),
        (
          act_all qs (act q d),
          rw done (find-perform_all sql (q ∷ qs) w.deliveries j d u e),
          rw said (omega arith),
          omega arith,
        ),
      )

  happen-Bounded :
      (ev : Event) (j : ℕ) (w : World)
      → Bounded s.max_attempts j w
      → Bounded s.max_attempts j (happen ev w)
  unfolding happen
  happen-Bounded (sending i now later rendered answer) j w b =
      sent-Bounded i now later rendered answer j w
        (send sql deals proofs s i now later rendered answer w).0
        (send-Trace sql deals proofs s i now later rendered answer w) b
  happen-Bounded (recovery now) j w (u, (d, e, few, within)) =
      let q = Request.recover now in
      let more = act-attempts_mono q d in
      (
        perform-UniqueKeys sql w.deliveries u q,
        (
          act q d,
          find-perform sql w.deliveries u q j d e,
          omega arith,
          act-attempts s.max_attempts q d tt within,
        ),
      )

  -- The transport is given a delivery at most `max_attempts` times: under unique keys, from a row
  -- within the limit whose counted attempts cover the messages given out for it so far, through every
  -- sequence of `send`s (of any delivery, at any times, with any answers of the transport, crashes
  -- included) and recoveries.
  pub calls-Bounded :
      (es : List Event) (j : ℕ) (w : World)
      → Bounded s.max_attempts j w
      → calls j (happen_all es w).given ≤ s.max_attempts
  unfolding happen_all
  calls-Bounded [] j w (u, (d, e, few, within)) = omega arith
  calls-Bounded (ev ∷ es) j w b = calls-Bounded es j (happen ev w) (happen-Bounded ev j w b)
