-- ===== src/Delivery/Requests/Claiming.antt =====
-- src/promo_bot/database/delivery_repository.py: who gets a delivery, and who may finish it.
use promo_bot.Base.{
  ok-injective, ℕ, ◌≡◌, ◌∙◌, sym, String, has_text, ◌≤◌, ◌<◌, refl, Option, some, none, true, false,
  Option-cases, inl, inr, arith, if◌then◌else◌, ok, raised,
}
use native.Mathlib.Decide.{dec_lt}
use mathlib.Core.Path.{subst}
use promo_bot.Domain.Enums.{DeliveryState}
use promo_bot.Sql.Rows.{Sql, map_where}
use promo_bot.Sql.Keys.{UniqueKeys, find, find-key, find-map_where, update_one, at_key}
use promo_bot.Delivery.Model.{Delivery, delivery_id}
use promo_bot.Delivery.Requests.{act, perform, take}
use promo_bot.Delivery.Requests.Refinement.{find-perform, perform-UniqueKeys}
use promo_bot.Delivery.Repository.{
  Deliveries, Outcome, claimable, claimed, mark_sent, sent_outcome, claim, finish, leased, finished,
  transition_conflict,
}

-- What a claim of the row found gives.
abbrev pub granted : (now lease_until max_attempts : ℕ) → Option Delivery → Option Delivery
granted now lease_until max_attempts none = none
granted now lease_until max_attempts (some d) =
    if claimable now max_attempts d then some (claimed now lease_until d) else none

module _ (now lease_until max_attempts : ℕ) {d : Delivery} where
  pub granted_lease :
      (o : Option Delivery)
      → granted now lease_until max_attempts o ≡ some d
      → (d.state ≡ DeliveryState.sending) × (d.lease_until ≡ some lease_until)
  granted_lease none e = absurd (cc)
  granted_lease (some d0) e = ground arith

module _ (sql : Sql Delivery delivery_id) where
  pub claim-keeps_keys :
      (i now lease_until max_attempts : ℕ) (t : Deliveries)
      → UniqueKeys delivery_id t
      → UniqueKeys delivery_id (claim sql i now lease_until max_attempts t).0
  unfolding perform
  claim-keeps_keys i now l m t u = perform-UniqueKeys sql t u (take i now l m)

  -- The result.
  pub claim-granted :
      (i now lease_until max_attempts : ℕ) (t : Deliveries)
      → UniqueKeys delivery_id t
      → (claim sql i now lease_until max_attempts t).1
        ≡ granted now lease_until max_attempts (find delivery_id i t)
  unfolding claim
  claim-granted i now l m t u =
      let g = claimable now m in
      let f = claimed now l in
      elim (update_one delivery_id sql i g f t u) [
        | inl (r, found, free, q) ↦ rw q (
            rw (sql.select_lem, find-map_where delivery_id {f = f} (λ x. refl) i i g t)
              (ground arith))
        | inr (none_hit, q) ↦ rw q (elim (Option-cases (find delivery_id i t)) [
          | inl absent ↦ rw absent
          | inr (d, e) ↦ rw e (ground arith)
        ])
      ]

  pub find-claim_self :
      (i now lease_until max_attempts : ℕ) (t : Deliveries)
      → UniqueKeys delivery_id t
      → {d : Delivery} → (claim sql i now lease_until max_attempts t).1 ≡ some d
      → find delivery_id i (claim sql i now lease_until max_attempts t).0 ≡ some d
  find-claim_self i now l m t u {d} h =
      let given = claim-granted i now l m t u in
      elim (Option-cases (find delivery_id i t)) [
        | inl absent ↦ let denied = rw absent at given in absurd (cc)
        | inr (d0, e) ↦
            let this = find-key delivery_id i t e in
            let after = find-perform sql t u (take i now l m) i d0 e in
            let given' = rw e at given in unfold perform act in (after ∙ ground arith)
      ]

  -- A claim is exclusive: under unique keys, on the table that a successful claim of a delivery
  -- leaves, with no other call between, every further claim of it, at any time and with any number of
  -- attempts allowed, returns `None`.
  pub claim_exclusive :
      (i now lease_until max_attempts now' lease_until' max_attempts' : ℕ) (t : Deliveries)
      → UniqueKeys delivery_id t
      → {d : Delivery} → (claim sql i now lease_until max_attempts t).1 ≡ some d
      → (claim sql i now' lease_until' max_attempts'
          (claim sql i now lease_until max_attempts t).0).1
        ≡ none
  claim_exclusive i now l m now' l' m' t u h =
      let t' = (claim sql i now l m t).0 in
      let u' = claim-keeps_keys i now l m t u in
      let busy =
        granted_lease now l m (find delivery_id i t) (sym (claim-granted i now l m t u) ∙ h) in
      claim-granted i now' l' m' t' u' ∙ rw (find-claim_self i now l m t u h) (ground arith)

  finish_found :
      (i at : ℕ) (o : Outcome) (t : Deliveries) (d : Delivery)
      → UniqueKeys delivery_id t
      → find delivery_id i t ≡ some d
      → leased at d ≡ true
      → (t' : Deliveries) × (finish sql i o at t ≡ ok t')
        × (find delivery_id i t' ≡ some (finished o d))
  unfolding finish
  finish_found i at o t d u e h =
      let g = leased at in
      let f = finished o in
      let this = find-key delivery_id i t e in
      elim (update_one delivery_id sql i g f t u) [
        | inl (r, found, free, q) ↦ (
          map_where (at_key delivery_id i g) f t,
          rw q,
          rw (find-map_where delivery_id {f = f} (λ x. refl) i i g t, e) (ground arith),
        )
        | inr (none_hit, q) ↦ let none_hit' = rw (e, h) at none_hit in absurd (omega arith)
      ]

  finish_late :
      (i at : ℕ) (o : Outcome) (t : Deliveries) (d : Delivery)
      → UniqueKeys delivery_id t
      → find delivery_id i t ≡ some d
      → leased at d ≡ false
      → finish sql i o at t ≡ raised transition_conflict
  unfolding finish
  finish_late i at o t d u e h = elim (update_one delivery_id sql i (leased at) (finished o) t u) [
    | inl (r, found, free, q) ↦ let same : d ≡ r = ground arith in absurd (cc)
    | inr (none_hit, q) ↦ rw q
  ]

  -- The lease decides whether a send counts: under unique keys, after a successful claim with a lease
  -- up to `lease_until`, `mark_sent` with a message id that is not blank records the delivery as SENT
  -- under that id if it comes before `lease_until`, and otherwise raises
  -- `DeliveryTransitionConflict`.
  pub claim-mark_sent :
      (i now lease_until max_attempts at : ℕ) (message_id : String) (t : Deliveries) (d : Delivery)
      → UniqueKeys delivery_id t
      → (claim sql i now lease_until max_attempts t).1 ≡ some d
      → has_text message_id ≡ true
      → let t1 = (claim sql i now lease_until max_attempts t).0 in
        (at < lease_until
          → (t' : Deliveries) × (mark_sent sql i message_id at t1 ≡ ok t')
            × (find delivery_id i t' ≡ some (finished (sent_outcome message_id at) d)))
        × (lease_until ≤ at → mark_sent sql i message_id at t1 ≡ raised transition_conflict)
  unfolding mark_sent
  claim-mark_sent i now l m at message_id t d u h named =
      let t1 = (claim sql i now l m t).0 in
      let u1 = claim-keeps_keys i now l m t u in
      let e1 = find-claim_self i now l m t u h in
      let until =
        granted_lease now l m (find delivery_id i t) (sym (claim-granted i now l m t u) ∙ h) in
      let o = sent_outcome message_id at in
      (
        λ early. rw named (finish_found i at o t1 d u1 e1 (ground arith)),
        λ late. rw named (finish_late i at o t1 d u1 e1 (ground arith)),
      )

  -- What `mark_sent` stores for a claimed delivery, where it does not raise.
  pub mark_sent_stored :
      (i now lease_until max_attempts at : ℕ) (message_id : String) (t t' : Deliveries)
      (d : Delivery)
      → UniqueKeys delivery_id t
      → (claim sql i now lease_until max_attempts t).1 ≡ some d
      → has_text message_id ≡ true
      → mark_sent sql i message_id at (claim sql i now lease_until max_attempts t).0 ≡ ok t'
      → find delivery_id i t' ≡ some (finished (sent_outcome message_id at) d)
  mark_sent_stored i now l m at message_id t t' d u h named stored =
      let (early, late) = claim-mark_sent i now l m at message_id t d u h named in
      elim (dec_lt at l) [
        | yes p ↦
            let (x, done, row) = early p in
            let same : x ≡ t' = ok-injective (sym done ∙ stored) in
            subst (λ t''. find delivery_id i t'' ≡ some (finished (sent_outcome message_id at) d))
              same row
        | no n ↦ let conflict = late (omega arith) in absurd (cc)
      ]
