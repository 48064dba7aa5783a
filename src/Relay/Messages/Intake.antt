-- ===== src/Relay/Messages/Intake.antt =====
-- `receive`, `claim` and `recoverable` of src/promo_bot/database/repositories.py: a source message is
-- stored once, and worked on by one worker at a time.
use promo_bot.Base.{
  ℕ, zero, suc, ◌≡◌, ◌≤◌, ◌<◌, ◌++◌, ◌∙◌, ap, refl, sym, Bool, true, false, Option, some, none,
  List, [], ◌∷◌, ok, if◌then◌else◌, arith, Bool-cases, Option-cases, inl, inr, any, take, length,
  All, str_eq, eq_refl, ltb, ◌+◌,
}
use promo_bot.Sql.Rows.{Sql, where_rows, precedes, insert_sorted, sort_rows, first}
use promo_bot.Sql.Keys.{
  UniqueKeys, find, at_key, insert_outcome, find-update, update-UniqueKeys, update_one,
  find-map_where, find-key,
}
use promo_bot.Domain.Enums.{SourceMessageState}
use promo_bot.Relay.SourceRows.{
  Message, Messages, message_key, ReceiveResult, Received, same_source, new_message, receive_result,
  claimable, claimed, occurred,
}
use promo_bot.Relay.Messages.{receive, claim, recoverable}
use promo_bot.Relay.Messages.Life.{claim-table}

module _ {A : Type 0} (P : A → Type 0) where
  All-where_rows :
      (p : A → Bool) (t : List A) → ((r : A) → p r ≡ true → P r) → All P (where_rows p t)
  All-where_rows p [] h = tt
  All-where_rows p (r ∷ t) h = elim (Bool-cases (p r)) [
    | inl yes' ↦ rw yes' (h r yes', All-where_rows p t h)
    | inr no' ↦ rw no' (All-where_rows p t h)
  ]

  All-insert_sorted :
      (column key : A → ℕ) (r : A) (t : List A)
      → P r
      → All P t
      → All P (insert_sorted column key r t)
  All-insert_sorted column key r [] p h = (p, tt)
  All-insert_sorted column key r (s ∷ t) p (q, h) = elim (Bool-cases (precedes column key r s)) [
    | inl before ↦ rw before (p, (q, h))
    | inr after ↦ rw after (q, All-insert_sorted column key r t p h)
  ]

  All-sort_rows : (column key : A → ℕ) (t : List A) → All P t → All P (sort_rows column key t)
  All-sort_rows column key [] h = tt
  All-sort_rows column key (r ∷ t) (p, h) =
      All-insert_sorted column key r (sort_rows column key t) p (All-sort_rows column key t h)

  All-take : (n : ℕ) (t : List A) → All P t → All P (take n t)
  All-take zero t h = tt
  All-take (suc n) [] h = tt
  All-take (suc n) (r ∷ t) (p, h) = (p, All-take n t h)

length-take : {A : Type 0} (n : ℕ) (t : List A) → length (take n t) ≤ n
length-take zero t = omega arith
length-take (suc n) [] = omega arith
length-take (suc n) (r ∷ t) = omega (arith, length-take n t)

any-concat :
    {A : Type 0} (p : A → Bool) (t : List A) (r : A) → p r ≡ true → any p (t ++ r ∷ []) ≡ true
any-concat p [] r h = ground arith
any-concat p (s ∷ t) r h = ground (arith, any-concat p t r h)

any_never : {A : Type 0} (t : List A) → any (λ m. false) t ≡ false
any_never [] = refl
any_never (r ∷ t) = any_never t

-- Two deliveries of one source message.
abbrev pub SameSource : Received → Received → Type 0
SameSource r r' =
    (r'.platform ≡ r.platform) × (r'.message_id ≡ r.message_id) × (r'.channel_id ≡ r.channel_id)

module _ (sql : Sql Message message_key) where
  -- A message that `receive` has stored or found is in the table, and is the one that it returns.
  received_row :
      (r : Received) (t t' : Messages) (a : ReceiveResult)
      → receive sql r t ≡ ok (t', a)
      → (any (same_source r) t' ≡ true) × (first (where_rows (same_source r) t') ≡ some a.message)
  unfolding receive
  received_row r t t' a e =
      elim (Option-cases (sql.insert (same_source r) (λ m. false) (new_message r) t)) [
        | inl fails ↦ let e' = rw fails at e in absurd (cc)
        | inr ((t1, n), done) ↦
            let e1 = rw (done, sql.select_lem) at e in
            elim (Option-cases (first (where_rows (same_source r) t1))) [
              | inl none' ↦ let e2 = rw none' at e1 in absurd (cc)
              | inr (m, found) ↦
                  let e2 = rw found at e1 in
                  let same : t1 ≡ t' = grind arith in
                  let row : m ≡ a.message = grind arith in
                  let there : any (same_source r) t1 ≡ true =
                    elim (insert_outcome message_key sql (same_source r) (λ m. false)
                      (new_message r) t done) [
                        | inl kept ↦ rw kept.1 kept.0
                        | inr added ↦ rw added.1 (
                            any-concat (same_source r) t (new_message r (sql.fresh t)) (
                              rw (eq_refl r.platform, eq_refl r.message_id, eq_refl r.channel_id)
                                refl))
                      ] in
                  (rw (← same) there, rw (← same) (found ∙ ap some row))
            ]
      ]

  -- `receive` is idempotent: once it has returned a message, receiving a message of the same platform,
  -- channel and message id again succeeds, leaves the table as it is, creates nothing and returns the
  -- same message; the contents match exactly if the hash received is the hash stored.
  pub receive_again :
      (r r' : Received) (t t' : Messages) (a : ReceiveResult)
      → receive sql r t ≡ ok (t', a)
      → SameSource r r'
      → (b : ReceiveResult) × (receive sql r' t' ≡ ok (t', b))
        × (b.message ≡ a.message)
        × (b.created ≡ false)
        × (b.content_matches ≡ str_eq a.message.content_hash r'.content_hash)
  unfolding receive
  receive_again r r' t t' a e (p, i, c) =
      let (there, row) = received_row r t t' a e in
      let same : same_source r' ≡ same_source r = rw (p, i, c) in
      let row' : first (where_rows (same_source r') t') ≡ some a.message = rw same row in
      let there' : any (same_source r') t' ≡ true = rw same there in
      (
        receive_result r' 0 a.message,
        rw
            (
              sql.insert_conflict (same_source r') (λ m. false) (new_message r') t' there'
                  (any_never t'),
              sql.select_lem,
              row',
            )
            refl,
        refl,
        refl,
        refl,
      )

  -- What a message is recovered for, it can be claimed for: `recoverable` returns at most `limit`
  -- messages, each of them with attempts left, and each received, due for a retry, or in processing
  -- under a lease that has run out.
  pub recoverable-claimable :
      (now max_attempts limit : ℕ) (t : Messages)
      → All (λ m. claimable now max_attempts m ≡ true) (recoverable sql now max_attempts limit t)
        × (length (recoverable sql now max_attempts limit t) ≤ limit)
  unfolding recoverable
  recoverable-claimable now n limit t =
      let P = λ (m : Message). claimable now n m ≡ true in
      let chosen = where_rows (claimable now n) t in
      (
        rw (sql.select_lem, sql.ordered_lem)
            (All-take P limit (sort_rows occurred message_key chosen) (
              All-sort_rows P occurred message_key chosen
                (All-where_rows P (claimable now n) t (λ m h. h)))),
        length-take limit (sql.ordered occurred (sql.select (claimable now n) t)),
      )

-- What a claim of the message found gives.
abbrev pub granted : (now lease_until max_attempts : ℕ) → Option Message → Option Message
granted now lease_until max_attempts none = none
granted now lease_until max_attempts (some m) =
    if claimable now max_attempts m then some (claimed now lease_until m) else none

granted-some :
    (now lease_until max_attempts : ℕ) (m0 : Message) {m : Message}
    → granted now lease_until max_attempts (some m0) ≡ some m
    → (claimable now max_attempts m0 ≡ true) × (claimed now lease_until m0 ≡ m)
granted-some now l n m0 e = elim (Bool-cases (claimable now n m0)) [
  | inl free ↦ let e' = rw free at e in (free, cc)
  | inr busy ↦ let e' = rw busy at e in absurd (cc)
]

module _ (sql : Sql Message message_key) (i now lease_until max_attempts : ℕ) (t : Messages)
    (u : UniqueKeys message_key t) where
  pub claim-granted :
      (claim sql i now lease_until max_attempts t).1
      ≡ granted now lease_until max_attempts (find message_key i t)
  unfolding claim
  claim-granted =
      let g = claimable now max_attempts in
      let f = claimed now lease_until in
      elim (update_one message_key sql i g f t u) [
        | inl (r, found, free, q) ↦ rw q (
            rw (sql.select_lem, find-map_where message_key {f = f} (λ x. refl) i i g t)
              (ground arith))
        | inr (none_hit, q) ↦ rw q (elim (Option-cases (find message_key i t)) [
          | inl absent ↦ rw absent
          | inr (m, e) ↦ rw e (ground arith)
        ])
      ]

  pub claim-UniqueKeys : UniqueKeys message_key (claim sql i now lease_until max_attempts t).0
  claim-UniqueKeys =
      rw claim-table
        (update-UniqueKeys message_key {f = claimed now lease_until} (λ x. refl) sql _ t u)

  pub find-granted :
      (m : Message)
      → find message_key i t ≡ some m
      → claimable now max_attempts m ≡ true
      → find message_key i (claim sql i now lease_until max_attempts t).0
        ≡ some (claimed now lease_until m)
  find-granted m e free =
      let here = find-key message_key i t e in
      rw claim-table (
        rw
          (
            find-update message_key {f = claimed now lease_until} (λ x. refl) sql i
                (at_key message_key i (claimable now max_attempts)) t,
            e,
          )
          (ground arith))

module _ (sql : Sql Message message_key) (i now lease_until max_attempts : ℕ) (t : Messages)
    (u : UniqueKeys message_key t) where
  later :
      {m : Message}
      → find message_key i (claim sql i now lease_until max_attempts t).0 ≡ some m
      → (now' lease_until' max_attempts' : ℕ)
      → (claim sql i now' lease_until' max_attempts'
          (claim sql i now lease_until max_attempts t).0).1
        ≡ granted now' lease_until' max_attempts' (some m)
  later after now' l' n' =
      claim-granted sql i now' l' n' (claim sql i now lease_until max_attempts t).0
        (claim-UniqueKeys sql i now lease_until max_attempts t u)
      ∙ rw after refl

  -- A claim of a message holds for the lease: under unique ids, if a claim has returned the message,
  -- it is the row stored, in PROCESSING, with one attempt more; directly after it, with no other call
  -- between, every claim of it before the lease has run out returns `None`, and one after that returns
  -- it again exactly if attempts are left.
  pub message_claim_lease :
      {m : Message}
      → (claim sql i now lease_until max_attempts t).1 ≡ some m
      → let t' = (claim sql i now lease_until max_attempts t).0 in
        (m0 : Message) × (find message_key i t ≡ some m0)
        × (find message_key i t' ≡ some m)
        × (m.processing_status ≡ SourceMessageState.processing)
        × (m.attempt_count ≡ m0.attempt_count + 1)
        × ((now' lease_until' max_attempts' : ℕ)
            → now' < lease_until
            → (claim sql i now' lease_until' max_attempts' t').1 ≡ none)
        × ((now' lease_until' max_attempts' : ℕ)
            → lease_until ≤ now'
            → (claim sql i now' lease_until' max_attempts' t').1 ≡ (
                if ltb m.attempt_count max_attempts'
                then some (claimed now' lease_until' m)
                else none))
  message_claim_lease {m} h =
      let given = sym (claim-granted sql i now lease_until max_attempts t u) ∙ h in
      elim (Option-cases (find message_key i t)) [
        | inl absent ↦ let denied = rw absent at given in absurd (cc)
        | inr (m0, e) ↦
            let given' = rw e at given in
            let (free, same) = granted-some now lease_until max_attempts m0 given' in
            let here = find-key message_key i t e in
            let after =
              find-granted sql i now lease_until max_attempts t u m0 e free ∙ ap some same in
            (
              m0,
              e,
              after,
              ap (λ x. x.processing_status) (sym same),
              ap (λ x. x.attempt_count) (sym same),
              λ now' lease_until' max_attempts' early.
                  later after now' lease_until' max_attempts' ∙ ground arith,
              λ now' lease_until' max_attempts' late.
                  later after now' lease_until' max_attempts' ∙ ground arith,
            )
      ]
