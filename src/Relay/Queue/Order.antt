-- ===== src/Relay/Queue/Order.antt =====
-- The queue of src/promo_bot/relay/queue.py under any interleaving of its callers and workers.
use promo_bot.Base.{
  ℕ, ◌+◌, ◌≤◌, ◌<◌, ◌≡◌, ◌⊎◌, ap, refl, true, false, List, [], ◌∷◌, ◌++◌, ◌==◌, arith, length,
  if◌then◌else◌, Bool-cases, inl, inr,
}
use promo_bot.Relay.Queue.{
  Queue, contains, discard, remove_one, is_full, put, enqueue, start_first, start_work, end_work,
}

abbrev pub count : ℕ → List ℕ → ℕ
count i [] = 0
count i (x ∷ xs) = (if x == i then 1 else 0) + count i xs

count-concat : (j i : ℕ) (xs : List ℕ) → count j (xs ++ i ∷ []) ≡ count j xs + count j (i ∷ [])
count-concat j i [] = omega arith
count-concat j i (x ∷ xs) = ground (arith, count-concat j i xs)

length-concat : (i : ℕ) (xs : List ℕ) → length (xs ++ i ∷ []) ≡ length xs + 1
length-concat i [] = omega arith
length-concat i (x ∷ xs) = ground (arith, length-concat i xs)

count_absent : (i : ℕ) (xs : List ℕ) → contains xs i ≡ false → count i xs ≡ 0
count_absent i [] h = refl
count_absent i (x ∷ xs) h = ground (arith, count_absent i xs)

count_there : (i : ℕ) (xs : List ℕ) → contains xs i ≡ true → 1 ≤ count i xs
count_there i [] h = absurd (cc)
count_there i (x ∷ xs) h = ground (arith, count_there i xs)

count-discard :
    (j i : ℕ) (xs : List ℕ) → count j (discard i xs) ≡ (if j == i then 0 else count j xs)
count-discard j i [] = ground arith
count-discard j i (x ∷ xs) = ground (arith, count-discard j i xs)

count-remove_one :
    (j i : ℕ) (xs : List ℕ)
    → contains xs i ≡ true
    → count j (remove_one i xs) + (if j == i then 1 else 0) ≡ count j xs
count-remove_one j i [] h = absurd (cc)
count-remove_one j i (x ∷ xs) h = ground (arith, count-remove_one j i xs)

-- What the callers and the workers do, in any order: a worker ends the work that it has started.
pub data Step : Queue → Queue → Type 0 where
  enqueues : (q : Queue) (i : ℕ) → Step q (enqueue i q).0
  starts : (q : Queue) → Step q (start_work q)
  ends : (q : Queue) (i : ℕ) → contains q.working i ≡ true → Step q (end_work i q)

pub data Reach (start : Queue) : Queue → Type 0 where
  here : Reach start start
  next : {q r : Queue} → Reach start q → Step q r → Reach start r

abbrev pub empty : ℕ → Queue
empty max_size = record { waiting = []; max_size = max_size; enqueued = []; working = [] }

-- A message is in the set as often as it waits or is worked on, and once at most.
pub record IsOrderly (max_size : ℕ) (q : Queue) : Type 0 where
  pub bound : q.max_size ≡ max_size
  pub within : 0 < max_size → length q.waiting ≤ max_size
  pub known : (i : ℕ) → count i q.waiting + count i q.working ≡ count i q.enqueued
  pub once : (i : ℕ) → count i q.enqueued ≤ 1

put-IsOrderly :
    {m : ℕ} (i : ℕ) (q : Queue)
    → contains q.enqueued i ≡ false
    → is_full q ≡ false
    → IsOrderly m q
    → IsOrderly m (put i q)
put-IsOrderly {m} i q new room o = record {
  bound = o.bound;
  within = λ positive. ground (arith, length-concat i q.waiting, o.bound, o.within);
  known = λ j. omega (arith, count-concat j i q.waiting, o.known j);
  once = λ j. ground (arith, count_absent j q.enqueued, o.once j);
}

pub enqueue-IsOrderly : {m : ℕ} (i : ℕ) (q : Queue) → IsOrderly m q → IsOrderly m (enqueue i q).0
unfolding enqueue
enqueue-IsOrderly i q o = elim (Bool-cases (contains q.enqueued i)) [
  | inl old ↦ rw old o
  | inr new ↦ elim (Bool-cases (is_full q)) [
    | inl full ↦ rw (new, full) o
    | inr room ↦ rw (new, room) (put-IsOrderly i q new room o)
  ]
]

start_first-IsOrderly :
    {m : ℕ} (w : List ℕ) (q : Queue) → w ≡ q.waiting → IsOrderly m q → IsOrderly m (start_first w q)
start_first-IsOrderly [] q e o = o
start_first-IsOrderly (i ∷ rest) q e o = record {
  bound = o.bound;
  within = λ positive. omega (arith, ap length e, o.within positive);
  known = λ j. omega (arith, ap (count j) e, o.known j);
  once = o.once;
}

end_work-IsOrderly :
    {m : ℕ} (i : ℕ) (q : Queue)
    → contains q.working i ≡ true
    → IsOrderly m q
    → IsOrderly m (end_work i q)
unfolding end_work
end_work-IsOrderly i q busy o = record {
  bound = o.bound;
  within = o.within;
  known = λ j. ground (
    arith,
    count-discard j i q.enqueued,
    count-remove_one j i q.working,
    o.known j,
    o.once j,
    count_there j q.working,
  );
  once = λ j. ground (arith, count-discard j i q.enqueued, o.once j);
}

count-Mem : (i : ℕ) (xs : List ℕ) → 1 ≤ count i xs → contains xs i ≡ true
count-Mem i [] h = absurd (omega arith)
count-Mem i (x ∷ xs) h = ground (arith, count-Mem i xs)

-- In the queue itself, or in the hands of a worker.
abbrev pub IsScheduled : Queue → ℕ → Type 0
IsScheduled q i = (contains q.waiting i ≡ true) ⊎ (contains q.working i ≡ true)

-- What is in the set of an orderly queue waits or is worked on.
pub known-IsScheduled :
    {m : ℕ} (q : Queue) (i : ℕ) → IsOrderly m q → contains q.enqueued i ≡ true → IsScheduled q i
known-IsScheduled q i o h = elim (Bool-cases (contains q.waiting i)) [
  | inl waits ↦ inl waits
  | inr absent ↦ inr (
      count-Mem i q.working
        (omega (arith, count_there i q.enqueued h, count_absent i q.waiting absent, o.known i)))
]

step-IsOrderly : {m : ℕ} {q r : Queue} → Step q r → IsOrderly m q → IsOrderly m r
unfolding start_work
step-IsOrderly (enqueues q i) o = enqueue-IsOrderly i q o
step-IsOrderly (starts q) o = start_first-IsOrderly q.waiting q refl o
step-IsOrderly (ends q i busy) o = end_work-IsOrderly i q busy o

-- However calls of `_enqueue` and the turns of the workers interleave, the queue that starts empty
-- keeps to its bound, and a message that is in the set either waits, once, or is in the hands of one
-- worker: no message is queued twice, and no two workers of the queue process the same message.
pub queue-IsOrderly : (max_size : ℕ) {q : Queue} → Reach (empty max_size) q → IsOrderly max_size q
queue-IsOrderly max_size here = record {
  bound = refl;
  within = λ positive. omega arith;
  known = λ i. refl;
  once = λ i. omega arith;
}
queue-IsOrderly max_size (next before step) = step-IsOrderly step (queue-IsOrderly max_size before)
