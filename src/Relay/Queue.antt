-- ===== src/Relay/Queue.antt =====
-- `DurableRelayQueue` of src/promo_bot/relay/queue.py: the queue in memory and the set of the messages
-- that are in it or in the hands of a worker. A worker's turn is two steps, the `get` and what follows
-- the processing; between them any other step may happen. The rows of the surrounding tables are read
-- through two lists: the messages with a preview, and the deliveries with their states.
pub mod Order
pub mod Recovery
pub mod Arrival
use promo_bot.Base.{
  ℕ, zero, suc, ◌+◌, Bool, true, false, not, ◌&&◌, ◌||◌, Option, none, some, String, List, [], ◌∷◌,
  ◌++◌, ◌==◌, ltb, leb, any, if◌then◌else◌, length, Result, ok, raised, ◌>>=◌, str_eq, is_none,
}
use promo_bot.Domain.Enums.{SourceMessageState}
use promo_bot.Sql.Rows.{Sql}
use promo_bot.Relay.SourceRows.{
  Message, Messages, MessageError, message_key, Received, ReceiveResult, is_state,
}
use promo_bot.Relay.Messages.{
  receive, mark_content_mismatch, mark_exhausted, recoverable, defer_queue_full,
}
use promo_bot.Relay.Checkpoints.{Checkpoints, record_persisted}

pub record Queue : Type 0 where
  -- `asyncio.Queue`, its first element first; a size of 0 stands for no bound
  pub waiting : List ℕ
  pub max_size : ℕ
  pub enqueued : List ℕ
  -- the messages that a worker has taken and not finished
  pub working : List ℕ

abbrev pub contains : List ℕ → ℕ → Bool
contains xs i = any (λ x. x == i) xs

-- `set.discard`
abbrev pub discard : ℕ → List ℕ → List ℕ
discard i [] = []
discard i (x ∷ xs) = let rest = discard i xs in if x == i then rest else x ∷ rest

abbrev pub remove_one : ℕ → List ℕ → List ℕ
remove_one i [] = []
remove_one i (x ∷ xs) = let rest = x ∷ remove_one i xs in if x == i then xs else rest

-- `Queue.full`
abbrev pub is_full : Queue → Bool
is_full q = ltb 0 q.max_size && leb q.max_size (length q.waiting)

abbrev pub put : ℕ → Queue → Queue
put i q = record q { waiting = q.waiting ++ i ∷ []; enqueued = i ∷ q.enqueued }

-- `_enqueue`, but for the row that it marks where the queue is full
unfoldable pub enqueue : ℕ → Queue → Queue × Bool
enqueue i q =
    if contains q.enqueued i then (q, true) else if is_full q then (q, false) else (put i q, true)

abbrev pub start_first : List ℕ → Queue → Queue
start_first [] q = q
start_first (i ∷ rest) q = record q { waiting = rest; working = i ∷ q.working }

-- `_worker`: it waits for a message and takes the first
unfoldable pub start_work : Queue → Queue
start_work q = start_first q.waiting q

-- the `finally` of `_worker`, however the processing ended
unfoldable pub end_work : ℕ → Queue → Queue
end_work i q = record q { working = remove_one i q.working; enqueued = discard i q.enqueued }

abbrev pub ids : Messages → List ℕ
ids [] = []
ids (m ∷ ms) = m.id ∷ ids ms

abbrev pub counted : Bool → Queue → Queue × ℕ → Queue × ℕ
counted true q rest = (rest.0, rest.1 + 1)
counted false q rest = (q, 0)

-- The loop of `recover_once`, up to the first message that finds the queue full.
unfoldable pub enqueue_all : List ℕ → Queue → Queue × ℕ
enqueue_all [] q = (q, 0)
enqueue_all (i ∷ is) q = counted (enqueue i q).1 (enqueue i q).0 (enqueue_all is (enqueue i q).0)

pub record PersistedMessage : Type 0 where
  pub internal_id : ℕ
  pub created : Bool
  pub completed_duplicate : Bool
  pub queued : Bool
  pub content_matches : Bool
  pub legacy_compatible : Bool
  pub legacy_rejection_code : Option String

-- What is read of an `IncomingMessage`.
pub record Incoming : Type 0 where
  pub received : Received
  pub message_id : ℕ
  pub is_safe_plain_text : Bool

-- The rows that name a message: previews, and shadow deliveries with their states.
pub record ShadowRows : Type 0 where
  pub previews : List ℕ
  pub deliveries : List (ℕ × String)

abbrev pub is_terminal_delivery : ℕ → ℕ × String → Bool
is_terminal_delivery i d =
    d.0 == i && (str_eq d.1 "sent" || str_eq d.1 "failed_safe" || str_eq d.1 "uncertain")

unfoldable pub has_shadow_preview_or_terminal_delivery : ShadowRows → ℕ → Bool
has_shadow_preview_or_terminal_delivery rows i =
    contains rows.previews i || any (is_terminal_delivery i) rows.deliveries

abbrev pub is_completed : Message → Bool
is_completed m = is_state m.processing_status SourceMessageState.completed

abbrev pub legacy_rejection : (safe legacy_history : Bool) → Option String
legacy_rejection false legacy_history = some "ALIEXPRESS_MESSAGE_SURFACE_UNSAFE"
legacy_rejection true false = some "TELEGRAM_LEGACY_SOURCE_UNVALIDATED"
legacy_rejection true true = none

-- What `persist_without_enqueue` answers, from the result of `receive` and the history.
unfoldable pub persisted : ReceiveResult → (safe history : Bool) → PersistedMessage
persisted r safe history =
    let state = r.message.processing_status in
    let completed_duplicate = not r.created && r.content_matches && is_completed r.message in
    let legacy_history = is_completed r.message || history in
    if r.legacy_content_matches
    then record {
      internal_id = r.message.id;
      created = r.created;
      completed_duplicate = legacy_history && safe;
      queued = false;
      content_matches = false;
      legacy_compatible = true;
      legacy_rejection_code = legacy_rejection safe legacy_history;
    }
    else record {
      internal_id = r.message.id;
      created = r.created;
      completed_duplicate = completed_duplicate;
      queued = not (
          completed_duplicate
          || not r.content_matches
          || is_state state SourceMessageState.failed_permanent);
      content_matches = r.content_matches;
      legacy_compatible = false;
      legacy_rejection_code = none;
    }

-- The tables of the messages and of the checkpoints.
pub record Intake : Type 0 where
  pub messages : Messages
  pub checkpoints : Checkpoints

module _ (sql : Sql Message message_key) where
  abbrev pub checked : ReceiveResult → Messages → Messages
  checked r t =
      if not r.content_matches && not r.legacy_content_matches
      then mark_content_mismatch sql r.message.id t
      else t

  abbrev pub received_into :
      ShadowRows → Incoming → Intake → Messages × ReceiveResult → Intake × PersistedMessage
  received_into rows m s (t, r) = (
    record {
      messages = checked r t;
      checkpoints =
          record_persisted m.received.channel_id
            (record {
              message_id = m.message_id;
              occurred_at = m.received.occurred_at;
              catch_up_at = none;
            })
            s.checkpoints;
    },
    persisted r m.is_safe_plain_text (has_shadow_preview_or_terminal_delivery rows r.message.id),
  )

  unfoldable pub persist_without_enqueue :
      ShadowRows → Incoming → Intake → Result MessageError (Intake × PersistedMessage)
  persist_without_enqueue rows m s =
      receive sql m.received s.messages >>= λ r. ok (received_into rows m s r)

  abbrev pub deferred_if : Bool → ℕ → Messages → Messages
  deferred_if true i t = t
  deferred_if false i t = defer_queue_full sql i t

  abbrev pub scheduled :
      Queue × Bool → Intake → PersistedMessage → Intake × Queue × PersistedMessage
  scheduled (q, queued) s p = (
    record s { messages = deferred_if queued p.internal_id s.messages },
    q,
    record p { queued = queued; legacy_compatible = false; legacy_rejection_code = none },
  )

  abbrev pub schedule : Intake × PersistedMessage → Queue → Intake × Queue × PersistedMessage
  schedule (s, p) q =
      if p.completed_duplicate || not p.content_matches || not p.queued
      then (s, q, p)
      else scheduled (enqueue p.internal_id q) s p

  unfoldable pub persist :
      ShadowRows
      → Incoming
      → Intake
      → Queue
      → Result MessageError (Intake × Queue × PersistedMessage)
  persist rows m s q = persist_without_enqueue rows m s >>= λ r. ok (schedule r q)

  unfoldable pub recover_once :
      (now max_attempts batch : ℕ) → Messages → Queue → Messages × Queue × ℕ
  recover_once now max_attempts batch t q =
      let t' = (mark_exhausted sql max_attempts t).0 in
      let r = enqueue_all (ids (recoverable sql now max_attempts batch t')) q in (t', r.0, r.1)
