-- ===== src/Relay/Queue/Recovery.antt =====
-- What a round of recovery (src/promo_bot/relay/queue.py) leaves in the queue.
use mathlib.Core.Path.{subst}
use promo_bot.Base.{
  ℕ, ◌≡◌, ◌<◌, ◌≤◌, ◌⊎◌, refl, ap, sym, Bool, true, false, List, [], ◌∷◌, arith, length, Bool-cases,
  inl, inr, All, All-map,
}
use promo_bot.Sql.Rows.{Sql}
use promo_bot.Relay.SourceRows.{Message, Messages, message_key}
use promo_bot.Relay.Messages.{recoverable, mark_exhausted}
use promo_bot.Relay.Queue.Order.{IsOrderly, IsScheduled, enqueue-IsOrderly, known-IsScheduled}
use promo_bot.Relay.Queue.{
  Queue, counted, contains, is_full, enqueue, enqueue_all, ids, recover_once,
}

-- What is in the set stays there.
enqueue-keeps :
    (i j : ℕ) (q : Queue)
    → contains q.enqueued j ≡ true
    → contains (enqueue i q).0.enqueued j ≡ true
unfolding enqueue
enqueue-keeps i j q h = ground arith

pub enqueue-adds :
    (i : ℕ) (q : Queue) → (enqueue i q).1 ≡ true → contains (enqueue i q).0.enqueued i ≡ true
unfolding enqueue
enqueue-adds i q h = ground arith

enqueue-refuses : (i : ℕ) (q : Queue) → (enqueue i q).1 ≡ false → is_full (enqueue i q).0 ≡ true
unfolding enqueue
enqueue-refuses i q h = ground arith

enqueue_all-keeps :
    (is : List ℕ) (j : ℕ) (q : Queue)
    → contains q.enqueued j ≡ true
    → contains (enqueue_all is q).0.enqueued j ≡ true
unfolding enqueue_all
enqueue_all-keeps [] j q h = h
enqueue_all-keeps (i ∷ is) j q h = elim (Bool-cases (enqueue i q).1) [
  | inl b ↦ rw b (enqueue_all-keeps is j (enqueue i q).0 (enqueue-keeps i j q h))
  | inr b ↦ rw b (enqueue-keeps i j q h)
]

-- Each is in the set and all were counted, or the queue is full.
abbrev Reaches : List ℕ → Queue × ℕ → Type 0
Reaches is r =
    (All (λ i. contains r.0.enqueued i ≡ true) is × (r.1 ≡ length is)) ⊎ (is_full r.0 ≡ true)

enqueue_all-Reaches : (is : List ℕ) (q : Queue) → Reaches is (enqueue_all is q)
unfolding enqueue_all
enqueue_all-Reaches [] q = inl (tt, refl)
enqueue_all-Reaches (i ∷ is) q =
    let q' = (enqueue i q).0 in
    let done = λ (b : Bool). counted b q' (enqueue_all is q') in
    elim (Bool-cases (enqueue i q).1) [
      | inl b ↦ subst (Reaches (i ∷ is)) (sym (ap done b)) (elim (enqueue_all-Reaches is q') [
        | inl (all, n) ↦
            inl ((enqueue_all-keeps is i q' (enqueue-adds i q b), all), omega (arith, n))
        | inr full ↦ inr full
      ])
      | inr b ↦ subst (Reaches (i ∷ is)) (sym (ap done b)) (inr (enqueue-refuses i q b))
    ]

enqueue_all-IsOrderly :
    {m : ℕ} (is : List ℕ) (q : Queue) → IsOrderly m q → IsOrderly m (enqueue_all is q).0
unfolding enqueue_all
enqueue_all-IsOrderly [] q o = o
enqueue_all-IsOrderly (i ∷ is) q o = elim (Bool-cases (enqueue i q).1) [
  | inl b ↦ rw b (enqueue_all-IsOrderly is (enqueue i q).0 (enqueue-IsOrderly i q o))
  | inr b ↦ rw b (enqueue-IsOrderly i q o)
]

full_bound : (q : Queue) → is_full q ≡ true → (0 < q.max_size) × (q.max_size ≤ length q.waiting)
full_bound q h = (ground arith, ground arith)

-- Each waits or is worked on and all were counted, or the queue is full.
abbrev pub IsServed : List ℕ → Queue × ℕ → Type 0
IsServed is r =
    (All (IsScheduled r.0) is × (r.1 ≡ length is))
    ⊎ ((0 < r.0.max_size) × (r.0.max_size ≤ length r.0.waiting))

module _ (sql : Sql Message message_key) (now max_attempts batch : ℕ) (t : Messages)
    (q : Queue) where
  -- After a round of recovery of a queue in which what is in the set waits or is worked on, as it
  -- always does, this is still so, and each message of the batch, the recoverable ones of the table in
  -- the order in which they occurred, waits in the queue or is in the hands of a worker, and the round
  -- counts them all; or the queue is full. A round fails to schedule a message only for want of room.
  pub recovery_schedules :
      {max_size : ℕ}
      → IsOrderly max_size q
      → let (t', q', n) = recover_once sql now max_attempts batch t q in
        IsOrderly max_size q'
        × IsServed
            (ids (recoverable sql now max_attempts batch (mark_exhausted sql max_attempts t).0))
            (q', n)
  unfolding recover_once
  recovery_schedules o =
      let is = ids (recoverable sql now max_attempts batch (mark_exhausted sql max_attempts t).0) in
      let o' = enqueue_all-IsOrderly is q o in
      (
        o',
        elim (enqueue_all-Reaches is q) [
          | inl (all, n) ↦ inl (All-map is (λ i h. known-IsScheduled _ i o' h) all, n)
          | inr full ↦ inr (full_bound (enqueue_all is q).0 full)
        ],
      )
