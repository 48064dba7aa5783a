-- ===== src/Tests/Queueing.antt =====
-- Messages that are persisted, queued and recovered as src/promo_bot/relay/queue.py does it.
use promo_bot.Base.{ℕ, ◌≡◌, refl, true, false, none, [], ◌∷◌, ok}
use promo_bot.Relay.SourceRows.{ReceiveResult, receive_result}
use promo_bot.Relay.Messages.{receive, mark_exhausted, recoverable}
use promo_bot.Relay.Checkpoints.{record_persisted}
use promo_bot.Relay.Queue.{
  Queue, contains, enqueue, start_work, end_work, Incoming, ShadowRows, Intake, persisted,
  persist_without_enqueue, persist, has_shadow_preview_or_terminal_delivery, recover_once, ids,
}
use promo_bot.Relay.Queue.Order.{
  enqueues, starts, ends, Reach, here, next, empty, IsOrderly, IsScheduled, queue-IsOrderly,
}
use promo_bot.Relay.Queue.Recovery.{IsServed, recovery_schedules}
use promo_bot.Relay.Queue.Arrival.{persist_keeps_word}
use promo_bot.Tests.Intake.{received_1, message_1, engine}

abbrev start : ℕ
start = 2

-- Two messages arrive, a worker takes the first, a third arrives twice, and the first is done.
abbrev q1 : Queue
q1 = (enqueue 7 (empty start)).0

abbrev q2 : Queue
q2 = start_work (enqueue 8 q1).0

abbrev q3 : Queue
q3 = (enqueue 9 (enqueue 9 q2).0).0

abbrev trace : Reach (empty start) q3
trace =
    next
      (next
        (next (next (next here (enqueues (empty start) 7)) (enqueues q1 8))
          (starts (enqueue 8 q1).0))
        (enqueues q2 9))
      (enqueues (enqueue 9 q2).0 9)

busy : contains q3.working 7 ≡ true
unfolding enqueue start_work
busy = refl

queue-IsOrderly_example : IsOrderly 2 (end_work 7 q3)
queue-IsOrderly_example = queue-IsOrderly 2 (next trace (ends q3 7 busy))

q1-IsOrderly : IsOrderly 2 q1
q1-IsOrderly = queue-IsOrderly 2 (next here (enqueues (empty start) 7))

empty-IsOrderly : IsOrderly 2 (empty start)
empty-IsOrderly = queue-IsOrderly 2 here

recovery_schedules_example :
    let (t', q', n) = recover_once engine 5000 3 10 (message_1 ∷ []) q1 in
    IsOrderly 2 q'
    × IsServed
        (ids (recoverable engine 5000 3 10 (mark_exhausted engine 3 (message_1 ∷ [])).0))
        (q', n)
recovery_schedules_example = recovery_schedules engine 5000 3 10 (message_1 ∷ []) q1 q1-IsOrderly

abbrev incoming : Incoming
incoming = record { received = received_1; message_id = 501; is_safe_plain_text = true }

abbrev no_rows : ShadowRows
no_rows = record { previews = []; deliveries = [] }

abbrev nothing : Intake
nothing = record { messages = []; checkpoints = λ c. none }

abbrev first_result : ReceiveResult
first_result = receive_result received_1 1 message_1

abbrev stored : Intake
stored = record {
  messages = message_1 ∷ [];
  checkpoints =
      record_persisted "-100" (record { message_id = 501; occurred_at = 1000; catch_up_at = none })
        nothing.checkpoints;
}

first_persisted :
    persist engine no_rows incoming nothing (empty start)
    ≡ ok (stored, (enqueue 1 (empty start)).0, persisted first_result true false)
unfolding persist persist_without_enqueue receive persisted enqueue
    has_shadow_preview_or_terminal_delivery
first_persisted = refl

persist_keeps_word_example :
    ((persisted first_result true false).queued ≡ true
      → IsScheduled (enqueue 1 (empty start)).0 (persisted first_result true false).internal_id)
    × ((persisted first_result true false).queued ≡ false
        → (enqueue 1 (empty start)).0 ≡ empty start)
persist_keeps_word_example =
    persist_keeps_word engine no_rows incoming nothing (empty start) empty-IsOrderly first_persisted
