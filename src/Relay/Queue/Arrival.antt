-- ===== src/Relay/Queue/Arrival.antt =====
-- What `persist` of src/promo_bot/relay/queue.py promises of the message that it answers for.
use mathlib.Core.Path.{subst}
use promo_bot.Base.{
  ℕ, ◌≡◌, refl, Bool, true, false, not, ◌||◌, ok, bind-ok, ok-injective, Bool-cases, inl, inr,
  arith,
}
use promo_bot.Sql.Rows.{Sql}
use promo_bot.Relay.SourceRows.{Message, message_key, ReceiveResult}
use promo_bot.Relay.Messages.{receive}
use promo_bot.Relay.Queue.{
  Queue, contains, enqueue, PersistedMessage, Incoming, ShadowRows, Intake, persisted,
  persist_without_enqueue, schedule, persist, has_shadow_preview_or_terminal_delivery,
}
use promo_bot.Relay.Queue.Order.{IsOrderly, IsScheduled, enqueue-IsOrderly, known-IsScheduled}
use promo_bot.Relay.Queue.Recovery.{enqueue-adds}

-- What is marked for the queue is neither a duplicate nor another content.
IsSound : PersistedMessage → Type 0
IsSound p = p.queued ≡ true → (p.completed_duplicate ≡ false) × (p.content_matches ≡ true)

wanted : (c m f : Bool) → not (c || not m || f) ≡ true → (c ≡ false) × (m ≡ true)
wanted true m f h = absurd (cc)
wanted false false f h = absurd (cc)
wanted false true f h = (refl, refl)

persisted-IsSound : (r : ReceiveResult) (safe history : Bool) → IsSound (persisted r safe history)
unfolding persisted IsSound
persisted-IsSound r safe history = elim (Bool-cases r.legacy_content_matches) [
  | inl legacy ↦ rw legacy (λ queued. absurd (cc))
  | inr plain ↦ rw plain (λ queued. wanted _ _ _ queued)
]

enqueue-unchanged : (i : ℕ) (q : Queue) → (enqueue i q).1 ≡ false → (enqueue i q).0 ≡ q
unfolding enqueue
enqueue-unchanged i q h = ground arith

module _ (sql : Sql Message message_key) where
  -- The queue after the message, and what is answered of it.
  abbrev Keeps : Queue → Intake × Queue × PersistedMessage → Type 0
  Keeps q r =
      (r.2.queued ≡ true → contains r.1.enqueued r.2.internal_id ≡ true)
      × (r.2.queued ≡ false → r.1 ≡ q)

  schedule-Keeps :
      (s : Intake) (p : PersistedMessage) (q : Queue) → IsSound p → Keeps q (schedule sql (s, p) q)
  unfolding IsSound
  schedule-Keeps s p q sound =
      elim (Bool-cases (p.completed_duplicate || not p.content_matches || not p.queued)) [
        | inl skip ↦ rw skip (λ queued. absurd (ground (arith, sound queued)), λ refused. refl)
        | inr go ↦ rw go (
          λ queued. enqueue-adds p.internal_id q queued,
          λ refused. enqueue-unchanged p.internal_id q refused,
        )
      ]

  schedule-IsOrderly :
      {n : ℕ} (s : Intake) (p : PersistedMessage) (q : Queue)
      → IsOrderly n q
      → IsOrderly n (schedule sql (s, p) q).1
  schedule-IsOrderly s p q o =
      elim (Bool-cases (p.completed_duplicate || not p.content_matches || not p.queued)) [
        | inl skip ↦ rw skip o
        | inr go ↦ rw go (enqueue-IsOrderly p.internal_id q o)
      ]

  module _ (rows : ShadowRows) (m : Incoming) (s : Intake) (q : Queue) {max_size : ℕ}
      (orderly : IsOrderly max_size q) {r : Intake × Queue × PersistedMessage}
      (answered : persist sql rows m s q ≡ ok r) where
    -- If `persist`, called with a queue in which what is in the set waits or is worked on, as it always
    -- does, says that its message is queued, the message waits in the queue or is in the hands of a
    -- worker; if it says that it is not, the queue is as it was.
    pub persist_keeps_word :
        (r.2.queued ≡ true → IsScheduled r.1 r.2.internal_id) × (r.2.queued ≡ false → r.1 ≡ q)
    unfolding persist persist_without_enqueue
    persist_keeps_word =
        let (a, first, e1) = bind-ok (persist_without_enqueue sql rows m s) _ answered in
        let ((t, got), _, e2) = bind-ok (receive sql m.received s.messages) _ first in
        let history = has_shadow_preview_or_terminal_delivery rows got.message.id in
        let sound : IsSound a.1 =
          subst (λ (a : Intake × PersistedMessage). IsSound a.1) (ok-injective e2)
            (persisted-IsSound got m.is_safe_plain_text history) in
        let kept : Keeps q r = subst (Keeps q) (ok-injective e1) (schedule-Keeps a.0 a.1 q sound) in
        let orderly' : IsOrderly max_size r.1 =
          subst (λ (r : Intake × Queue × PersistedMessage). IsOrderly max_size r.1)
            (ok-injective e1) (schedule-IsOrderly a.0 a.1 q orderly) in
        (λ queued. known-IsScheduled r.1 r.2.internal_id orderly' (kept.0 queued), kept.1)
