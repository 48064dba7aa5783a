-- ===== src/Relay/Messages/Life/Rules.antt =====
-- `SourceMessageRepository` of src/promo_bot/database/repositories.py against the source message state
-- machine of src/promo_bot/domain/state_machines.py.
use promo_bot.Base.{
  ℕ, ◌≡◌, ◌≢◌, ◌⊎◌, ◌≤◌, inl, inr, refl, Option, some, none, String, List, [], ◌∷◌, ok, arith,
}
use promo_bot.Domain.Enums.{SourceMessageState}
use promo_bot.Domain.Transitions.{ensure_source_message_transition}
use promo_bot.Sql.Rows.{Sql}
use promo_bot.Sql.Keys.{UniqueKeys, find}
use promo_bot.Relay.SourceRows.{Message, Messages, message_key, Failure, failed, failure_state}
use promo_bot.Relay.Messages.{fail}
use promo_bot.Relay.Messages.Life.{
  Call, receiving, claiming, completing, renewing, failing, mismatching, deferring, exhausting,
  expiring, act, act_all, perform, perform_all, fail-found, find-perform, messages_refined,
}

abbrev pub Conforms : SourceMessageState → SourceMessageState → Type 0
Conforms s s' = (s' ≡ s) ⊎ (ensure_source_message_transition s s' ≡ ok tt)

-- Where the two statements without a test of the state are meant: `fail` on a message in processing,
-- `mark_content_mismatch` on one that is not completed.
abbrev pub MeantFor : Call → Message → Type 0
MeantFor (failing i f) m = m.id ≡ i → m.processing_status ≡ SourceMessageState.processing
MeantFor (mismatching i) m = m.id ≡ i → m.processing_status ≢ SourceMessageState.completed
MeantFor _ m = Unit

act-Conforms :
    (cut : Option String → Option String) (c : Call) (m : Message)
    → MeantFor c m
    → Conforms m.processing_status (act cut c m).processing_status
unfolding act ensure_source_message_transition
act-Conforms cut (receiving r) m h = inl refl
act-Conforms cut (claiming i now l n) m h = ground arith
act-Conforms cut (completing i now) m h = ground arith
act-Conforms cut (renewing i l) m h = ground arith
act-Conforms cut (failing i f) m h = ground arith
act-Conforms cut (mismatching i) m h = ground arith
act-Conforms cut (deferring i) m h = ground arith
act-Conforms cut (exhausting n) m h = ground arith
act-Conforms cut (expiring now) m h = ground arith

-- A lease is held exactly while the message is in processing, and the attempts stay in a limit.
abbrev pub Leased : ℕ → Message → Type 0
Leased limit m =
    (m.attempt_count ≤ limit)
    × (m.processing_status ≡ SourceMessageState.processing → m.processing_lease_until ≢ none)
    × (m.processing_status ≢ SourceMessageState.processing → m.processing_lease_until ≡ none)

abbrev pub ClaimsWithin : ℕ → Call → Type 0
ClaimsWithin limit (claiming i now lease_until max_attempts) = max_attempts ≤ limit
ClaimsWithin limit _ = Unit

abbrev pub AllClaimsWithin : ℕ → List Call → Type 0
AllClaimsWithin limit [] = Unit
AllClaimsWithin limit (c ∷ cs) = ClaimsWithin limit c × AllClaimsWithin limit cs

act-Leased :
    (cut : Option String → Option String) (limit : ℕ) (c : Call) (m : Message)
    → ClaimsWithin limit c
    → Leased limit m
    → Leased limit (act cut c m)
unfolding act
act-Leased cut limit (receiving r) m w h = h
act-Leased cut limit (claiming i now l n) m w h = grind arith
act-Leased cut limit (completing i now) m w h = grind arith
act-Leased cut limit (renewing i l) m w h = grind arith
act-Leased cut limit (failing i f) m w h = grind arith
act-Leased cut limit (mismatching i) m w h = grind arith
act-Leased cut limit (deferring i) m w h = grind arith
act-Leased cut limit (exhausting n) m w h = grind arith
act-Leased cut limit (expiring now) m w h = grind arith

act_all-Leased :
    (cut : Option String → Option String) (limit : ℕ) (cs : List Call) (m : Message)
    → AllClaimsWithin limit cs
    → Leased limit m
    → Leased limit (act_all cut cs m)
unfolding act_all
act_all-Leased cut limit [] m w h = h
act_all-Leased cut limit (c ∷ cs) m (w, ws) h =
    act_all-Leased cut limit cs (act cut c m) ws (act-Leased cut limit c m w h)

module _ (cut : Option String → Option String) (sql : Sql Message message_key) where
  -- Every call of the repository leaves the state of every message, or moves it along an edge of
  -- SOURCE_MESSAGE_TRANSITIONS, under unique ids, provided that `fail` is called for a message in
  -- PROCESSING and `mark_content_mismatch` for one that is not COMPLETED; the others need no proviso.
  pub message-Conforms :
      (c : Call) (t : Messages) (j : ℕ) (m : Message)
      → UniqueKeys message_key t
      → find message_key j t ≡ some m
      → MeantFor c m
      → (m' : Message) × (find message_key j (perform cut sql c t) ≡ some m')
        × Conforms m.processing_status m'.processing_status
  message-Conforms c t j m u e h =
      (act cut c m, find-perform cut sql t u c j m e, act-Conforms cut c m h)

  -- If no claim is made with more than `limit` attempts, a message with at most `limit` attempts that
  -- holds a lease exactly while it is PROCESSING stays so through every sequence of repository calls.
  pub message-Leased :
      (limit : ℕ) (cs : List Call) (t : Messages) (j : ℕ) (m : Message)
      → UniqueKeys message_key t
      → AllClaimsWithin limit cs
      → find message_key j t ≡ some m
      → Leased limit m
      → (m' : Message) × (find message_key j (perform_all cut sql cs t) ≡ some m') × Leased limit m'
  message-Leased limit cs t j m u w e h =
      (act_all cut cs m, messages_refined cut sql cs t j m u e, act_all-Leased cut limit cs m w h)

  -- `fail` has no test of the state: called for a message that is COMPLETED, it succeeds, and the
  -- message is afterwards in a state that the transition mapping does not allow after COMPLETED.
  pub fail_after_complete :
      (i : ℕ) (f : Failure) (t : Messages) (m : Message)
      → find message_key i t ≡ some m
      → m.processing_status ≡ SourceMessageState.completed
      → (t' : Messages) × (s : SourceMessageState) × (m' : Message) × (fail sql cut i f t
          ≡ ok (t', s))
        × (find message_key i t' ≡ some m')
        × (m'.processing_status ≡ s)
        × ¬ Conforms m.processing_status m'.processing_status
  unfolding ensure_source_message_transition
  fail_after_complete i f t m e done =
      let (t', result, row) = fail-found cut sql i f t m e in
      (
        t',
        failure_state f m.attempt_count,
        failed cut f m.attempt_count m,
        result,
        row,
        refl,
        λ c. elim c [ inl same ↦ grind arith | inr allowed ↦ grind arith ],
      )
