-- ===== src/Relay/Processor/Settles.antt =====
-- `RelayProcessor.process` of src/promo_bot/relay/service.py: a message that it claims is settled.
use promo_bot.Base.{
  ℕ, suc, ◌+◌, ◌-◌, ◌*◌, ◌≤◌, ◌≡◌, ◌∙◌, refl, true, not, ◌&&◌, Option, none, some, String, List, [],
  ◌∷◌, leb, if◌then◌else◌, Result, ok, arith, Bool-cases, Option-cases, inl, inr,
}
use mathlib.Core.Path.{subst}
use promo_bot.Domain.Enums.{SourceMessageState}
use promo_bot.Sql.Rows.{Sql}
use promo_bot.Sql.Keys.{UniqueKeys, find, find-key}
use promo_bot.Relay.Backoff.{backoff_bounds}
use promo_bot.Relay.SourceRows.{
  Message, Messages, message_key, Failure, failure_state, claimable, claimed,
}
use promo_bot.Relay.Messages.{claim, complete, renew_lease}
use promo_bot.Relay.Messages.Life.{
  completing, renewing, act, perform, fail-found, find-perform, perform-UniqueKeys,
}
use promo_bot.Relay.Messages.Intake.{claim-granted, claim-UniqueKeys, find-granted}
use promo_bot.Relay.Processor.{
  LinkFailure, link_failure, Processor, ProcessError, minute, retry_at, run_links, fail_with,
  settled, claimed_process, process,
}

-- The first link that fails, from a position on.
abbrev pub first_failure : Processor → ℕ → List String → Option LinkFailure
first_failure p k [] = none
first_failure p k (link ∷ links) =
    earlier (link_failure (p.outcome k link)) (first_failure p (suc k) links)
  where
    earlier : Option LinkFailure → Option LinkFailure → Option LinkFailure
    earlier none rest = rest
    earlier (some f) rest = some f

-- In processing, with so many attempts.
abbrev pub Running : ℕ → Message → Type 0
Running attempts m =
    (m.processing_status ≡ SourceMessageState.processing) × (m.attempt_count ≡ attempts)

-- What the other calls do meanwhile leaves the message in processing, with its attempts: none of them
-- settles it, and none claims it again.
abbrev pub LeavesRunning : Processor → ℕ → Type 0
LeavesRunning p i =
    (k : ℕ) (t : Messages) (m : Message) (attempts : ℕ)
    → UniqueKeys message_key t
    → find message_key i t ≡ some m
    → Running attempts m
    → UniqueKeys message_key (p.others k t)
      × ((m' : Message) × (find message_key i (p.others k t) ≡ some m') × Running attempts m')

module _ (sql : Sql Message message_key) (p : Processor) where
  renew-Running :
      (i lease attempts : ℕ) (t : Messages) (m : Message)
      → UniqueKeys message_key t
      → find message_key i t ≡ some m
      → Running attempts m
      → UniqueKeys message_key (renew_lease sql i lease t)
        × ((m' : Message) × (find message_key i (renew_lease sql i lease t) ≡ some m')
            × Running attempts m')
  unfolding perform act
  renew-Running i lease attempts t m u e (s, a) =
      let q = renewing i lease in
      let here = find-key message_key i t e in
      (
        perform-UniqueKeys p.cut sql t u q,
        (act p.cut q m, find-perform p.cut sql t u q i m e, (ground arith, ground arith)),
      )

  -- The loop ends with the first failure, and the message still in processing.
  run_links-Running :
      (i k attempts : ℕ) (links : List String) (t : Messages) (m : Message)
      → LeavesRunning p i
      → UniqueKeys message_key t
      → find message_key i t ≡ some m
      → Running attempts m
      → ((run_links sql p i k links t).1 ≡ first_failure p k links)
        × UniqueKeys message_key (run_links sql p i k links t).0
        × ((m' : Message) × (find message_key i (run_links sql p i k links t).0 ≡ some m')
            × Running attempts m')
  unfolding run_links
  run_links-Running i k attempts [] t m apart u e r =
      let (u', row) = apart k t m attempts u e r in (refl, u', row)
  run_links-Running i k attempts (link ∷ links) t m apart u e r =
      let lease = p.clock k + p.stale_after_minutes * minute in
      let (u0, (m0, e0, r0)) = apart k t m attempts u e r in
      let (u', (m', e', r')) = renew-Running i lease attempts (p.others k t) m0 u0 e0 r0 in
      let t' = renew_lease sql i lease (p.others k t) in
      elim (Option-cases (link_failure (p.outcome k link))) [
        | inl fine ↦ rw fine (run_links-Running i (suc k) attempts links t' m' apart u' e' r')
        | inr (f, fails) ↦
            let (u2, row) = apart (suc k) t' m' attempts u' e' r' in rw fails (refl, u2, row)
      ]

-- What the message is in the end, by the first link that failed.
abbrev pub Settled : Processor → (later : ℕ) → Option LinkFailure → Message → Type 0
Settled p later none m = m.processing_status ≡ SourceMessageState.completed
Settled p later (some f) m =
    (m.processing_status ≡ (
      if f.retryable && not (leb p.max_attempts m.attempt_count)
      then SourceMessageState.failed_retryable
      else SourceMessageState.failed_permanent))
    × (m.processing_status ≡ SourceMessageState.failed_retryable
        → (at : ℕ) × (m.next_attempt_at ≡ some at)
          × (later ≤ at)
          × (at ≤ later + p.policy.maximum_seconds * 1000000))

was_retryable :
    (f : Failure) (n : ℕ)
    → failure_state f n ≡ SourceMessageState.failed_retryable
    → f.retryable ≡ true
was_retryable f n h = ground arith

-- A message with the result of the call that leaves it so.
abbrev Ends :
    Processor
    → Sql Message message_key
    → (i later attempts : ℕ) → Option LinkFailure
    → Result ProcessError Messages
    → Type 0
Ends p sql i later attempts failure r =
    (t' : Messages) × (m' : Message) × (r ≡ ok t')
    × (find message_key i t' ≡ some m')
    × (m'.attempt_count ≡ attempts)
    × Settled p later failure m'

module _ (sql : Sql Message message_key) (p : Processor) (i later attempts : ℕ) (t : Messages)
    (m : Message) (u : UniqueKeys message_key t) (e : find message_key i t ≡ some m)
    (running : Running attempts m) where
  complete-Ends : Ends p sql i later attempts none (ok (complete sql i later t))
  unfolding perform act
  complete-Ends =
      let q = completing i later in
      let here = find-key message_key i t e in
      let (s, a) = running in
      (
        perform p.cut sql q t,
        act p.cut q m,
        refl,
        find-perform p.cut sql t u q i m e,
        ground arith,
        ground arith,
      )

  failed-Ends :
      (f : LinkFailure) (at : Option ℕ)
      → ((b : f.retryable ≡ true)
          → (n : ℕ) × (at ≡ some n)
            × (later ≤ n)
            × (n ≤ later + p.policy.maximum_seconds * 1000000))
      → retry_at p later attempts f.retryable ≡ ok at
      → Ends p sql i later attempts (some f) (fail_with sql p i attempts later f t)
  failed-Ends f at due h =
      let f' : Failure = record {
        retryable = f.retryable;
        max_attempts = p.max_attempts;
        next_attempt_at = at;
        error_code = f.code;
        error_summary = f.summary;
      } in
      let (t', result, row) = fail-found p.cut sql i f' t m e in
      (
        t',
        _,
        rw h (rw result refl),
        row,
        running.1,
        (
          rw running.1 refl,
          λ retried.
              let (n, same, low, high) = due (was_retryable f' m.attempt_count retried) in
              (n, rw retried same, low, high),
        ),
      )

  -- The time of the next attempt can be worked out from the first attempt on.
  failure-Ends :
      (f : LinkFailure)
      → 1 ≤ attempts
      → Ends p sql i later attempts (some f) (fail_with sql p i attempts later f t)
  failure-Ends f first = elim (Bool-cases f.retryable) [
    | inl again ↦
        let (at, worked, low, jittered, high) =
          (backoff_bounds p.policy later p.jitter).1 (attempts - 1) in
        let counted : attempts - 1 + 1 ≡ attempts = omega arith in
        let worked' = rw counted at worked in
        failed-Ends f (some at) (λ b. (at, refl, omega arith, high)) (rw again (rw worked' refl))
    | inr never ↦ failed-Ends f none (λ b. absurd (cc)) (rw never refl)
  ]

module _ (sql : Sql Message message_key) (p : Processor) where
  settled-Ends :
      (i later attempts : ℕ) (r : Messages × Option LinkFailure) (m : Message)
      → UniqueKeys message_key r.0
      → find message_key i r.0 ≡ some m
      → Running attempts m
      → 1 ≤ attempts
      → Ends p sql i later attempts r.1 (settled sql p i attempts later r)
  settled-Ends i later attempts (t, none) m u e running first =
      complete-Ends sql p i later attempts t m u e running
  settled-Ends i later attempts (t, some f) m u e running first =
      failure-Ends sql p i later attempts t m u e running f first

  claimed-Ends :
      (i later attempts : ℕ) (failure : Option LinkFailure) (c : Messages × Option Message)
      (m : Message)
      → c.1 ≡ some m
      → Ends p sql i later attempts failure
          (settled sql p i m.attempt_count later (run_links sql p i 0 m.links c.0))
      → Ends p sql i later attempts failure (claimed_process sql p i later c)
  claimed-Ends i later attempts failure (t, none) m h done = absurd (cc)
  claimed-Ends i later attempts failure (t, some m') m h done =
      let same : m ≡ m' = cc in
      subst
        (λ x.
          Ends p sql i later attempts failure
            (settled sql p i x.attempt_count later (run_links sql p i 0 x.links t)))
        same done

  -- A message that can be claimed is settled by `process`: under unique ids, whatever the links do and
  -- whatever the clock reads, and whatever the other calls do between the transactions of `process` that
  -- leaves the message in PROCESSING with its attempts, `process` does not raise, counts one attempt, and leaves the message
  -- COMPLETED if no link fails; else, by the first link that fails, FAILED_RETRYABLE if the failure can
  -- be retried and attempts are left, to be tried again not before the time of the failure and within
  -- the maximum of the policy, and otherwise FAILED_PERMANENT.
  pub process_settles :
      (i now later : ℕ) (t : Messages) (m : Message)
      → LeavesRunning p i
      → UniqueKeys message_key t
      → find message_key i t ≡ some m
      → claimable now p.max_attempts m ≡ true
      → (t' : Messages) × (m' : Message) × (process sql p i now later t ≡ ok t')
        × (find message_key i t' ≡ some m')
        × (m'.attempt_count ≡ m.attempt_count + 1)
        × Settled p later (first_failure p 0 m.links) m'
  unfolding process
  process_settles i now later t m apart u e free =
      let lease = now + p.stale_after_minutes * minute in
      let t1 = (claim sql i now lease p.max_attempts t).0 in
      let u1 = claim-UniqueKeys sql i now lease p.max_attempts t u in
      let e1 = find-granted sql i now lease p.max_attempts t u m e free in
      let given : (claim sql i now lease p.max_attempts t).1 ≡ some (claimed now lease m) =
        claim-granted sql i now lease p.max_attempts t u ∙ rw (e, free) refl in
      let n = m.attempt_count + 1 in
      let (failure, u2, (m2, e2, r2)) =
        run_links-Running sql p i 0 n m.links t1 (claimed now lease m) apart u1 e1 (refl, refl) in
      let done =
        settled-Ends i later n (run_links sql p i 0 m.links t1) m2 u2 e2 r2 (omega arith) in
      claimed-Ends i later n (first_failure p 0 m.links) (claim sql i now lease p.max_attempts t)
        (claimed now lease m) given
        (subst
          (λ o. Ends p sql i later n o (settled sql p i n later (run_links sql p i 0 m.links t1)))
          failure done)
