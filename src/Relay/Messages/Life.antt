-- ===== src/Relay/Messages/Life.antt =====
-- `SourceMessageRepository` of src/promo_bot/database/repositories.py: what any sequence of its calls
-- does to one message. A call is a session of its own; one that raises leaves the table as it is.
pub mod Rules
pub mod Phases
use promo_bot.Base.{
  ℕ, ◌≡◌, ◌++◌, refl, sym, Bool, true, false, ◌&&◌, Option, some, none, String, List, [], ◌∷◌, ◌==◌,
  ok, raised, Result, if◌then◌else◌, arith, Bool-cases, Option-cases, inl, inr, any, ==_iff, ◌∙◌,
}
use mathlib.Core.Path.{subst}
use promo_bot.Domain.Enums.{SourceMessageState}
use promo_bot.Sql.Rows.{Sql, get, map_where, count_where, first}
use promo_bot.Sql.Keys.{
  UniqueKeys, find, at_key, find-update, update-UniqueKeys, find-key, insert_outcome,
  insert-UniqueKeys, find-concat_old, UniqueKeys-concat-one,
}
use promo_bot.Relay.SourceRows.{
  Message, Messages, message_key, MessageError, ReceiveResult, Received, Failure, same_source,
  new_message, is_state, is_processing, claimable, claimed, done_at, with_lease, failed,
  failure_state, mismatched, deferred, exhausted, given_up, pilot_expired, result_row,
}
use promo_bot.Relay.Messages.{
  read_back, receive, claim, complete, renew_lease, fail, fail_row, mark_content_mismatch,
  defer_queue_full, mark_exhausted, expire_pilot_processing,
}

pub data Call : Type 0 where
  receiving : Received → Call
  claiming : (i now lease_until max_attempts : ℕ) → Call
  completing : (i now : ℕ) → Call
  renewing : (i lease_until : ℕ) → Call
  failing : (i : ℕ) → Failure → Call
  mismatching : (i : ℕ) → Call
  deferring : (i : ℕ) → Call
  exhausting : (max_attempts : ℕ) → Call
  expiring : (now : ℕ) → Call

abbrev pub committed : {A : Type 0} → Messages → Result MessageError (Messages × A) → Messages
committed t (ok (t', a)) = t'
committed t (raised e) = t

module _ (cut : Option String → Option String) where
  -- What a call does to a row that is there.
  unfoldable pub act : Call → Message → Message
  act (receiving r) m = m
  act (claiming i now lease_until max_attempts) m =
      if at_key message_key i (claimable now max_attempts) m then claimed now lease_until m else m
  act (completing i now) m = if at_key message_key i is_processing m then done_at now m else m
  act (renewing i lease_until) m =
      if at_key message_key i is_processing m then with_lease lease_until m else m
  act (failing i f) m = if m.id == i then failed cut f m.attempt_count m else m
  act (mismatching i) m = if m.id == i then mismatched m else m
  act (deferring i) m =
      if at_key message_key i (λ r. is_state r.processing_status SourceMessageState.received) m
      then deferred m
      else m
  act (exhausting max_attempts) m =
      if exhausted max_attempts m then given_up "RETRY_EXHAUSTED" m else m
  act (expiring now) m =
      if pilot_expired now m then given_up "SHADOW_PILOT_OUTCOME_UNCERTAIN" m else m

  unfoldable pub act_all : List Call → Message → Message
  act_all [] m = m
  act_all (c ∷ cs) m = act_all cs (act c m)

  module _ (sql : Sql Message message_key) where
    unfoldable pub perform : Call → Messages → Messages
    perform (receiving r) t = committed t (receive sql r t)
    perform (claiming i now lease_until max_attempts) t =
        (claim sql i now lease_until max_attempts t).0
    perform (completing i now) t = complete sql i now t
    perform (renewing i lease_until) t = renew_lease sql i lease_until t
    perform (failing i f) t = committed t (fail sql cut i f t)
    perform (mismatching i) t = mark_content_mismatch sql i t
    perform (deferring i) t = defer_queue_full sql i t
    perform (exhausting max_attempts) t = (mark_exhausted sql max_attempts t).0
    perform (expiring now) t = (expire_pilot_processing sql now t).0

    unfoldable pub perform_all : List Call → Messages → Messages
    perform_all [] t = t
    perform_all (c ∷ cs) t = perform_all cs (perform c t)

module _ (sql : Sql Message message_key) where
  -- The table after a claim is the one after its UPDATE, whether the claim is granted or not.
  pub claim-table :
      (i now lease_until max_attempts : ℕ) (t : Messages)
      → (claim sql i now lease_until max_attempts t).0
        ≡ (sql.update
            (at_key message_key i (claimable now max_attempts))
            (claimed now lease_until)
            t).0
  unfolding claim
  claim-table i now l m t =
      rw sql.update_lem
        (elim (Bool-cases (count_where (at_key message_key i (claimable now m)) t == 1)) [
          | inl one ↦ rw one
          | inr other ↦ rw other
        ])

  -- After `receive` the table is the one before, or has the new row at its end.
  after-receive :
      (P : Messages → Type 0) (r : Received) (t : Messages)
      → P t
      → P (t ++ new_message r (sql.fresh t) ∷ [])
      → P (committed t (receive sql r t))
  unfolding receive
  after-receive P r t p q =
      elim (Option-cases (sql.insert (same_source r) (λ m. false) (new_message r) t)) [
        | inl fails ↦ rw fails p
        | inr ((t', n), done) ↦
            elim (insert_outcome message_key sql (same_source r) (λ m. false) (new_message r) t
              done) [
                | inl kept ↦ rw done (read t' n (subst P (sym kept.1) p))
                | inr added ↦ rw done (read t' n (subst P (sym added.1) q))
              ]
      ]
    where
      read :
          (t' : Messages) (n : ℕ)
          → P t'
          → P (committed t (result_row r n t' (first (sql.select (same_source r) t'))))
      read t' n p' = elim (Option-cases (first (sql.select (same_source r) t'))) [
        | inl none' ↦ rw none' p
        | inr (m, found) ↦ rw found p'
      ]

module _ (cut : Option String → Option String) (sql : Sql Message message_key) (t : Messages)
    (u : UniqueKeys message_key t) where
  claim-step :
      (i now lease_until max_attempts j : ℕ) (m : Message)
      → find message_key j t ≡ some m
      → find message_key j (claim sql i now lease_until max_attempts t).0
        ≡ some (act cut (claiming i now lease_until max_attempts) m)
  unfolding act
  claim-step i now l n j m e = rw claim-table (
      rw
        (
          find-update message_key {f = claimed now l} (λ x. refl) sql j
              (at_key message_key i (claimable now n)) t,
          e,
        )
        refl)

  receive-step :
      (r : Received) (j : ℕ) (m : Message)
      → find message_key j t ≡ some m
      → find message_key j (committed t (receive sql r t)) ≡ some m
  receive-step r j m e =
      after-receive sql (λ t'. find message_key j t' ≡ some m) r t e
        (find-concat_old message_key j t (new_message r (sql.fresh t)) e)

  -- The row that `fail` reads is the one it writes.
  fail-step :
      (i : ℕ) (f : Failure) (j : ℕ) (m : Message)
      → find message_key j t ≡ some m
      → find message_key j (committed t (fail sql cut i f t)) ≡ some (act cut (failing i f) m)
  unfolding act fail
  fail-step i f j m e = elim (Bool-cases (m.id == i)) [
    | inl here ↦
        let same : i ≡ j = sym ((==_iff m.id i).0 here) ∙ find-key message_key j t e in
        rw sql.select_lem (
          rw (same, e)
            (rw
              (
                find-update message_key {f = failed cut f m.attempt_count} (λ x. refl) sql j
                    (at_key message_key j (λ r. true)) t,
                e,
              )
              (ground arith)))
    | inr away ↦ rw sql.select_lem (elim (Option-cases (find message_key i t)) [
      | inl absent ↦ rw absent (rw (e, away) refl)
      | inr (m', found) ↦ rw found (
          rw
            (
              find-update message_key {f = failed cut f m'.attempt_count} (λ x. refl) sql j
                  (at_key message_key i (λ r. true)) t,
              e,
              away,
            )
            refl)
    ])
  ]

  -- Each call does to every row that is there what `act` says.
  pub find-perform :
      (c : Call) (j : ℕ) (m : Message)
      → find message_key j t ≡ some m
      → find message_key j (perform cut sql c t) ≡ some (act cut c m)
  unfolding perform act complete renew_lease mark_content_mismatch defer_queue_full mark_exhausted
      expire_pilot_processing
  find-perform (receiving r) j m e = receive-step r j m e
  find-perform (claiming i now l n) j m e = claim-step i now l n j m e
  find-perform (completing i now) j m e =
      rw (find-update message_key {f = done_at now} (λ x. refl) sql j _ t, e) refl
  find-perform (renewing i l) j m e =
      rw (find-update message_key {f = with_lease l} (λ x. refl) sql j _ t, e) refl
  find-perform (failing i f) j m e = fail-step i f j m e
  find-perform (mismatching i) j m e =
      rw (find-update message_key {f = mismatched} (λ x. refl) sql j _ t, e) (ground arith)
  find-perform (deferring i) j m e =
      rw (find-update message_key {f = deferred} (λ x. refl) sql j _ t, e) refl
  find-perform (exhausting n) j m e =
      rw (find-update message_key {f = given_up "RETRY_EXHAUSTED"} (λ x. refl) sql j _ t, e) refl
  find-perform (expiring now) j m e =
      rw
        (
          find-update message_key {f = given_up "SHADOW_PILOT_OUTCOME_UNCERTAIN"} (λ x. refl) sql j
              _ t,
          e,
        )
        refl

  fail-UniqueKeys :
      (i : ℕ) (f : Failure) → UniqueKeys message_key (committed t (fail sql cut i f t))
  unfolding fail
  fail-UniqueKeys i f = elim (Option-cases (get sql i t)) [
    | inl absent ↦ rw absent u
    | inr (m, found) ↦
        rw found
          (update-UniqueKeys message_key {f = failed cut f m.attempt_count} (λ x. refl) sql _ t u)
  ]

  -- No call makes two rows of one key.
  pub perform-UniqueKeys : (c : Call) → UniqueKeys message_key (perform cut sql c t)
  unfolding perform complete renew_lease mark_content_mismatch defer_queue_full mark_exhausted
      expire_pilot_processing
  perform-UniqueKeys (receiving r) =
      after-receive sql (UniqueKeys message_key) r t u
        (UniqueKeys-concat-one message_key t (new_message r (sql.fresh t)) u (sql.fresh_new t))
  perform-UniqueKeys (claiming i now l n) =
      rw claim-table (update-UniqueKeys message_key {f = claimed now l} (λ x. refl) sql _ t u)
  perform-UniqueKeys (completing i now) =
      update-UniqueKeys message_key {f = done_at now} (λ x. refl) sql _ t u
  perform-UniqueKeys (renewing i l) =
      update-UniqueKeys message_key {f = with_lease l} (λ x. refl) sql _ t u
  perform-UniqueKeys (failing i f) = fail-UniqueKeys i f
  perform-UniqueKeys (mismatching i) =
      update-UniqueKeys message_key {f = mismatched} (λ x. refl) sql _ t u
  perform-UniqueKeys (deferring i) =
      update-UniqueKeys message_key {f = deferred} (λ x. refl) sql _ t u
  perform-UniqueKeys (exhausting n) =
      update-UniqueKeys message_key {f = given_up "RETRY_EXHAUSTED"} (λ x. refl) sql _ t u
  perform-UniqueKeys (expiring now) =
      update-UniqueKeys message_key {f = given_up "SHADOW_PILOT_OUTCOME_UNCERTAIN"} (λ x. refl) sql
        _ t u

-- `fail` of a message that is there.
pub fail-found :
    (cut : Option String → Option String) (sql : Sql Message message_key) (i : ℕ) (f : Failure)
    (t : Messages) (m : Message)
    → find message_key i t ≡ some m
    → (t' : Messages) × (fail sql cut i f t ≡ ok (t', failure_state f m.attempt_count))
      × (find message_key i t' ≡ some (failed cut f m.attempt_count m))
unfolding fail
fail-found cut sql i f t m e =
    let g = at_key message_key i (λ r. true) in
    let f' = failed cut f m.attempt_count in
    let here = find-key message_key i t e in
    (
      (sql.update g f' t).0,
      rw sql.select_lem (rw e refl),
      rw (find-update message_key {f = f'} (λ x. refl) sql i g t, e) (ground arith),
    )

-- Refinement: in a table of unique ids, whatever the calls of the repository and the clocks they read,
-- the message of an id is afterwards what `act_all` makes of the message before.
pub messages_refined :
    (cut : Option String → Option String) (sql : Sql Message message_key) (cs : List Call)
    (t : Messages) (j : ℕ) (m : Message)
    → UniqueKeys message_key t
    → find message_key j t ≡ some m
    → find message_key j (perform_all cut sql cs t) ≡ some (act_all cut cs m)
unfolding perform_all act_all
messages_refined cut sql [] t j m u e = e
messages_refined cut sql (c ∷ cs) t j m u e =
    messages_refined cut sql cs (perform cut sql c t) j (act cut c m)
      (perform-UniqueKeys cut sql t u c) (find-perform cut sql t u c j m e)
