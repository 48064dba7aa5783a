-- ===== src/Tests/Intake.antt =====
-- A Telegram message taken in, claimed, retried and completed, as src/promo_bot/database/repositories.py
-- and src/promo_bot/relay do it.
use mathlib.Core.List.{Perm}
use promo_bot.Base.{
  ◌⊎◌, ℕ, ◌+◌, ◌*◌, ◌≤◌, ◌<◌, ◌≡◌, ◌++◌, refl, true, false, none, some, Option, String, List, [],
  ◌∷◌, ok, raised, arith, All, length, str_eq, if◌then◌else◌, ltb, ◌==◌,
}
use promo_bot.Domain.Enums.{SourceMessageState}
use promo_bot.Sql.Rows.{Sql}
use promo_bot.Sql.Keys.{find-key, UniqueKeys, find}
use promo_bot.Sql.Engine.{list_engine}
use promo_bot.Relay.SourceRows.{
  Message, Messages, message_key, Received, ReceiveResult, new_message, receive_result, Failure,
  claimed,
}
use promo_bot.Relay.Messages.{claim, renew_lease, receive, fail}
use promo_bot.Relay.Messages.Life.{
  Call, renewing, act, find-perform, perform-UniqueKeys, claiming, failing, completing, perform,
  perform_all,
}
use promo_bot.Relay.Messages.Life.Phases.{phase, handle_all, messages_in_phase}
use promo_bot.Relay.Messages.Life.Rules.{
  Conforms, Leased, message-Conforms, message-Leased, fail_after_complete,
}
use promo_bot.Relay.Messages.Intake.{receive_again, message_claim_lease}
use promo_bot.Relay.Processor.{LinkOutcome, processed, processing_error, Processor, process}
use promo_bot.Relay.Processor.Settles.{Settled, LeavesRunning, first_failure, process_settles}
use promo_bot.Relay.Backoff.{
  BackoffPolicy, attempt_not_positive, next_attempt_at, second, backoff_bounds, wait,
}
use promo_bot.Relay.Checkpoints.{Checkpoints}
use promo_bot.Relay.Checkpoints.Newest.{
  Write, persisted, failed, checkpoint, write_all, checkpoint-newest,
}
use promo_bot.Relay.CatchUp.{
  Incoming, IsDue, IsAscending, select_catch_up_messages, catch_up_selects,
}

abbrev pub received_1 : Received
received_1 = record {
  platform = "telegram";
  message_id = "501";
  channel_id = "-100";
  occurred_at = 1000;
  original_text = "promo";
  links = "https://shopee.com.br/a" ∷ "https://amzn.to/b" ∷ [];
  legacy_unknown = false;
  content_hash = "h1";
  legacy_content_hash = none;
}

abbrev edited_1 : Received
edited_1 = record received_1 { original_text = "promo!"; content_hash = "h2" }

abbrev pub message_1 : Message
message_1 = new_message received_1 1

abbrev messages : Messages
messages = message_1 ∷ []

abbrev pub engine : Sql Message message_key
engine = list_engine message_key

no_cut : Option String → Option String
no_cut s = s

messages-UniqueKeys : UniqueKeys message_key messages
messages-UniqueKeys = (tt, tt)

abbrev failure : Failure
failure = record {
  retryable = true;
  max_attempts = 5;
  next_attempt_at = some 9000;
  error_code = "HTTP_503";
  error_summary = none;
}

abbrev calls : List Call
calls =
    claiming 1 2000 302000 5
    ∷ failing 1 failure
    ∷ claiming 1 9000 309000 5
    ∷ completing 1 10000
    ∷ []

messages_in_phase_example :
    (m' : Message) × (find message_key 1 (perform_all no_cut engine calls messages) ≡ some m')
    × (phase m' ≡ handle_all 1 calls (phase message_1))
messages_in_phase_example =
    messages_in_phase no_cut engine calls messages 1 message_1 messages-UniqueKeys refl

message-Conforms_example :
    (m' : Message) × (find message_key 1 (perform no_cut engine (claiming 1 2000 302000 5) messages)
      ≡ some m')
    × Conforms SourceMessageState.received m'.processing_status
message-Conforms_example =
    message-Conforms no_cut engine (claiming 1 2000 302000 5) messages 1 message_1
      messages-UniqueKeys refl tt

message-Leased_example :
    (m' : Message) × (find message_key 1 (perform_all no_cut engine calls messages) ≡ some m')
    × Leased 5 m'
message-Leased_example =
    message-Leased no_cut engine 5 calls messages 1 message_1 messages-UniqueKeys
      (omega arith, (tt, (omega arith, (tt, tt)))) refl (omega arith, (λ s. absurd (cc)), λ s. refl)

abbrev completed_1 : Message
completed_1 = record message_1 {
  processing_status = SourceMessageState.completed;
  attempt_count = 1;
}

fail_after_complete_example :
    (t' : Messages) × (s : SourceMessageState) × (m' : Message) × (fail engine no_cut 1 failure
        (completed_1 ∷ [])
      ≡ ok (t', s))
    × (find message_key 1 t' ≡ some m')
    × (m'.processing_status ≡ s)
    × ¬ Conforms SourceMessageState.completed m'.processing_status
fail_after_complete_example =
    fail_after_complete no_cut engine 1 failure (completed_1 ∷ []) completed_1 refl refl

received_once : receive engine received_1 [] ≡ ok (messages, receive_result received_1 1 message_1)
unfolding receive
received_once = refl

receive_again_example :
    (b : ReceiveResult) × (receive engine edited_1 messages ≡ ok (messages, b))
    × (b.message ≡ message_1)
    × (b.created ≡ false)
    × (b.content_matches ≡ str_eq "h1" "h2")
receive_again_example =
    receive_again engine received_1 edited_1 [] messages (receive_result received_1 1 message_1)
      received_once (refl, refl, refl)

claimed_1 : (claim engine 1 2000 302000 5 messages).1 ≡ some (claimed 2000 302000 message_1)
unfolding claim
claimed_1 = refl

message_claim_lease_example :
    let t' = (claim engine 1 2000 302000 5 messages).0 in
    let m = claimed 2000 302000 message_1 in
    (m0 : Message) × (find message_key 1 messages ≡ some m0)
    × (find message_key 1 t' ≡ some m)
    × (m.processing_status ≡ SourceMessageState.processing)
    × (m.attempt_count ≡ m0.attempt_count + 1)
    × ((now' lease_until' max_attempts' : ℕ)
        → now' < 302000
        → (claim engine 1 now' lease_until' max_attempts' t').1 ≡ none)
    × ((now' lease_until' max_attempts' : ℕ)
        → 302000 ≤ now'
        → (claim engine 1 now' lease_until' max_attempts' t').1 ≡ (
            if ltb m.attempt_count max_attempts' then some (claimed now' lease_until' m) else none))
message_claim_lease_example =
    message_claim_lease engine 1 2000 302000 5 messages messages-UniqueKeys claimed_1

abbrev outcomes : ℕ → String → LinkOutcome
outcomes k link = if k == 0 then processed else processing_error true "HTTP_503" none

abbrev policy : BackoffPolicy
policy = record { initial_seconds = 30; maximum_seconds = 900 }

abbrev processor : Processor
processor = record {
  stale_after_minutes = 5;
  max_attempts = 5;
  policy = policy;
  cut = no_cut;
  outcome = outcomes;
  clock = λ k. 2000 + k;
  jitter = 1000000;
  others = λ k t. renew_lease engine 2 (9000 + k) t;
}

-- Meanwhile the lease of another message is renewed.
others-LeavesRunning : LeavesRunning processor 1
unfolding perform act
others-LeavesRunning k t m n u e (s, a) =
    let q = renewing 2 (9000 + k) in
    let here = find-key message_key 1 t e in
    (
      perform-UniqueKeys no_cut engine t u q,
      (act no_cut q m, find-perform no_cut engine t u q 1 m e, (ground arith, ground arith)),
    )

process_settles_example :
    (t' : Messages) × (m' : Message) × (process engine processor 1 2000 5000 messages ≡ ok t')
    × (find message_key 1 t' ≡ some m')
    × (m'.attempt_count ≡ 0 + 1)
    × Settled processor 5000 (first_failure processor 0 message_1.links) m'
process_settles_example =
    process_settles engine processor 1 2000 5000 messages message_1 others-LeavesRunning
      messages-UniqueKeys refl refl

backoff_bounds_example :
    (next_attempt_at policy 2000 0 1000000 ≡ raised attempt_not_positive)
    × ((k : ℕ)
        → (at : ℕ) × (next_attempt_at policy 2000 (k + 1) 1000000 ≡ ok at)
          × (2000 + wait policy k ≤ at)
          × (at ≤ 2000 + wait policy k + 1000000)
          × (at ≤ 2000 + policy.maximum_seconds * second))
backoff_bounds_example = backoff_bounds policy 2000 1000000

abbrev writes : List Write
writes =
    persisted "-100" (record { message_id = 7; occurred_at = 70; catch_up_at = none })
    ∷ failed "-100" "NETWORK"
    ∷ persisted "-200" (record { message_id = 90; occurred_at = 75; catch_up_at = none })
    ∷ persisted "-100" (record { message_id = 5; occurred_at = 50; catch_up_at = some 80 })
    ∷ []

abbrev no_checkpoints : Checkpoints
no_checkpoints c = none

checkpoint-newest_example : checkpoint (write_all writes no_checkpoints "-100") ≡ some 7
checkpoint-newest_example = checkpoint-newest "-100" writes no_checkpoints

abbrev backlog : List Incoming
backlog =
    record { message_id = 9; occurred_at = 7200000009 }
    ∷ record { message_id = 8; occurred_at = 7200000008 }
    ∷ record { message_id = 3; occurred_at = 7200000003 }
    ∷ record { message_id = 7; occurred_at = 7200000007 }
    ∷ []

catch_up_selects_example :
    let selected = select_catch_up_messages backlog 7200000010 1 2 (some 4) in
    (left_out : List Incoming) × (passed_over : List Incoming) × Perm backlog
      ((left_out ++ selected) ++ passed_over)
    × All (IsDue 7200000010 1 (some 4)) selected
    × All (IsDue 7200000010 1 (some 4)) left_out
    × All (λ m. ¬ IsDue 7200000010 1 (some 4) m) passed_over
    × (length selected ≤ 2)
    × ((left_out ≡ []) ⊎ (length selected ≡ 2))
    × All (λ o. All (λ m. o.message_id ≤ m.message_id) selected) left_out
    × IsAscending selected
catch_up_selects_example = catch_up_selects backlog 7200000010 1 2 (some 4) (omega arith)
