-- ===== src/Relay/Messages/Life/Phases.antt =====
-- What `SourceMessageRepository` of src/promo_bot/database/repositories.py promises of one message: a
-- machine of four phases, which the calls of the repository refine.
use promo_bot.Base.{
  ℕ, ◌+◌, ◌≡◌, ◌∙◌, refl, ap, true, false, Bool, ◌&&◌, Option, none, some, String, List, [], ◌∷◌,
  ◌==◌, ltb, leb, if◌then◌else◌, arith,
}
use promo_bot.Domain.Enums.{SourceMessageState}
use promo_bot.Sql.Rows.{Sql}
use promo_bot.Sql.Keys.{UniqueKeys, find, find-key}
use promo_bot.Relay.SourceRows.{Message, Messages, message_key, Failure}
use promo_bot.Relay.Messages.Life.{
  Call, receiving, claiming, completing, renewing, failing, mismatching, deferring, exhausting,
  expiring, act, act_all, perform_all, messages_refined,
}

-- To be processed, from a time on if there is one; in processing, until a lease ends; or done with.
pub data Phase : Type 0 where
  ready : (attempts : ℕ) (due : Option ℕ) → Phase
  held : (attempts : ℕ) (until : Option ℕ) → Phase
  finished : (attempts : ℕ) → Phase
  given_up : (attempts : ℕ) → Phase

abbrev pub phase_of : SourceMessageState → (attempts : ℕ) (next lease : Option ℕ) → Phase
phase_of SourceMessageState.received attempts next lease = ready attempts none
phase_of SourceMessageState.failed_retryable attempts next lease = ready attempts next
phase_of SourceMessageState.processing attempts next lease = held attempts lease
phase_of SourceMessageState.completed attempts next lease = finished attempts
phase_of SourceMessageState.failed_permanent attempts next lease = given_up attempts

-- The phase of a row.
abbrev pub phase : Message → Phase
phase m = phase_of m.processing_status m.attempt_count m.next_attempt_at m.processing_lease_until

abbrev pub attempts_of : Phase → ℕ
attempts_of (ready attempts due) = attempts
attempts_of (held attempts until) = attempts
attempts_of (finished attempts) = attempts
attempts_of (given_up attempts) = attempts

-- A claim of a message that is ready and due, or held under a lease that has ended, with attempts left,
-- counts one and holds it.
abbrev pub claims : (now lease_until max_attempts : ℕ) → Phase → Phase
claims now lease_until max_attempts (ready attempts none) =
    if ltb attempts max_attempts
    then held (attempts + 1) (some lease_until)
    else ready attempts none
claims now lease_until max_attempts (ready attempts (some due)) =
    if ltb attempts max_attempts && leb due now
    then held (attempts + 1) (some lease_until)
    else ready attempts (some due)
claims now lease_until max_attempts (held attempts (some until)) =
    if ltb attempts max_attempts && leb until now
    then held (attempts + 1) (some lease_until)
    else held attempts (some until)
claims now lease_until max_attempts p = p

-- What is done only to a message that is held.
abbrev pub of_held : (ℕ → Phase) → Phase → Phase
of_held next (held attempts until) = next attempts
of_held next p = p

-- A failure puts the message back if it can be retried and attempts are left.
abbrev pub fails : Failure → Phase → Phase
fails f p =
    if f.retryable && ltb (attempts_of p) f.max_attempts
    then ready (attempts_of p) f.next_attempt_at
    else given_up (attempts_of p)

-- Without attempts left, a message that is not done with is given up.
abbrev pub exhausts : (max_attempts : ℕ) → Phase → Phase
exhausts max_attempts (ready attempts due) =
    if ltb attempts max_attempts then ready attempts due else given_up attempts
exhausts max_attempts (held attempts until) =
    if ltb attempts max_attempts then held attempts until else given_up attempts
exhausts max_attempts p = p

abbrev pub lapses : (now : ℕ) → Phase → Phase
lapses now (held attempts (some until)) =
    if leb until now then given_up attempts else held attempts (some until)
lapses now p = p

abbrev pub only : Bool → (Phase → Phase) → Phase → Phase
only true f p = f p
only false f p = p

-- What a call does to the phase of the message `j`.
abbrev pub handle : (j : ℕ) → Call → Phase → Phase
handle j (receiving r) p = p
handle j (claiming i now lease_until max_attempts) p =
    only (j == i) (claims now lease_until max_attempts) p
handle j (completing i now) p = only (j == i) (of_held (λ n. finished n)) p
handle j (renewing i lease_until) p = only (j == i) (of_held (λ n. held n (some lease_until))) p
handle j (failing i f) p = only (j == i) (fails f) p
handle j (mismatching i) p = only (j == i) (λ q. given_up (attempts_of q)) p
handle j (deferring i) p = p
handle j (exhausting max_attempts) p = exhausts max_attempts p
handle j (expiring now) p = lapses now p

abbrev pub handle_all : (j : ℕ) → List Call → Phase → Phase
handle_all j [] p = p
handle_all j (c ∷ cs) p = handle_all j cs (handle j c p)

module _ (cut : Option String → Option String) where
  act-id : (c : Call) (m : Message) → (act cut c m).id ≡ m.id
  unfolding act
  act-id (receiving r) m = refl
  act-id (claiming i now l n) m = ground arith
  act-id (completing i now) m = ground arith
  act-id (renewing i l) m = ground arith
  act-id (failing i f) m = ground arith
  act-id (mismatching i) m = ground arith
  act-id (deferring i) m = ground arith
  act-id (exhausting n) m = ground arith
  act-id (expiring now) m = ground arith

  phase-act : (c : Call) (m : Message) → phase (act cut c m) ≡ handle m.id c (phase m)
  unfolding act
  phase-act (receiving r) m = refl
  phase-act (claiming i now l n) m = ground arith
  phase-act (completing i now) m = ground arith
  phase-act (renewing i l) m = ground arith
  phase-act (failing i f) m = ground arith
  phase-act (mismatching i) m = ground arith
  phase-act (deferring i) m = ground arith
  phase-act (exhausting n) m = ground arith
  phase-act (expiring now) m = ground arith

  phase-act_all :
      (cs : List Call) (m : Message) → phase (act_all cut cs m) ≡ handle_all m.id cs (phase m)
  unfolding act_all
  phase-act_all [] m = refl
  phase-act_all (c ∷ cs) m =
      phase-act_all cs (act cut c m) ∙ rw (act-id c m) (ap (handle_all m.id cs) (phase-act c m))

  -- Refinement: in a table of unique ids, whatever the calls of the repository and the clocks they read,
  -- a message that is there is afterwards in the phase that the machine of the phases reaches from the
  -- message's phase: it is claimed only while it is ready and due, or held under a lease that has
  -- ended, and has attempts left, which counts an attempt; only a held message is completed or has its
  -- lease renewed; a failure puts it back only if it can be retried and attempts are left.
  pub messages_in_phase :
      (sql : Sql Message message_key) (cs : List Call) (t : Messages) (j : ℕ) (m : Message)
      → UniqueKeys message_key t
      → find message_key j t ≡ some m
      → (m' : Message) × (find message_key j (perform_all cut sql cs t) ≡ some m')
        × (phase m' ≡ handle_all j cs (phase m))
  messages_in_phase sql cs t j m u e =
      let here : m.id ≡ j = find-key message_key j t e in
      (act_all cut cs m, messages_refined cut sql cs t j m u e, rw (← here) (phase-act_all cs m))
