-- ===== src/Delivery/Requests/Refinement.antt =====
-- The statements of the repository do to each row what `act` says, and keep the keys apart.
use promo_bot.Base.{
  ◌≡◌, ℕ, ◌++◌, not, ◌||◌, str_eq, has_text, sym, ◌==◌, Option, some, none, List, [], ◌∷◌, arith,
  refl, Bool-cases, Option-cases, String, inl, inr,
}
use promo_bot.Domain.Enums.{DeliveryPurpose}
use mathlib.Core.Path.{subst}
use promo_bot.Sql.Rows.{Sql, map_where, count_where, first}
use promo_bot.Sql.Keys.{
  update_one, find-key, UniqueKeys, find, at_key, find-map_where, find-map_where_all,
  map_where-UniqueKeys, insert_outcome, find-concat_old, UniqueKeys-concat-one,
}
use promo_bot.Delivery.Model.{Delivery, delivery_id}
use promo_bot.Delivery.Repository.{
  Deliveries, Outcome, sent_outcome, stale, expired, same_slot, same_token, new_delivery,
  identified, claimable, claimed, leased, finished, claim, finish, ensure_pending, mark_sent,
  mark_retryable, mark_ambiguous, mark_permanent, mark_stale_sending_ambiguous,
}
use promo_bot.Delivery.Requests.{
  act_all, perform_all, Request, ensure, take, sent, retryable, ambiguous, permanent, recover,
  perform, act, committed, committed_row, finish_row,
}

module _ (sql : Sql Delivery delivery_id) where
  -- After `ensure_pending` the table is the one before, or has the new row at its end.
  committed-identified :
      (P : Deliveries → Type 0) (t t' : Deliveries) (token chat : String) (o : Option Delivery)
      → P t
      → P t'
      → P (committed_row t (identified token chat t' o))
  committed-identified P t t' token chat none p q = p
  committed-identified P t t' token chat (some d) p q =
      elim (Bool-cases
        (not (str_eq d.idempotency_key token) || not (str_eq d.target_chat_id chat))) [
          | inl differs ↦ rw differs p
          | inr same ↦ rw same q
        ]

  after-ensure_pending :
      (t : Deliveries) (P : Deliveries → Type 0) (deal : ℕ) (token chat : String)
      (purpose : DeliveryPurpose)
      → P t
      → P (t ++ new_delivery deal token chat purpose (sql.fresh t) ∷ [])
      → P (committed_row t (ensure_pending sql deal token chat purpose t))
  unfolding ensure_pending
  after-ensure_pending t P deal token chat purpose p q =
      let v = new_delivery deal token chat purpose in
      let o = sql.insert (same_slot deal purpose) (same_token token) v t in
      let back = λ (t' : Deliveries).
        committed-identified P t t' token chat (first (sql.select (same_slot deal purpose) t')) p in
      elim (Option-cases o) [
        | inl fails ↦ rw fails p
        | inr ((t', n), done) ↦
            elim (insert_outcome delivery_id sql (same_slot deal purpose) (same_token token) v t
              done) [
                | inl kept ↦ rw done (back t' (subst P (sym kept.1) p))
                | inr added ↦ rw done (back t' (subst P (sym added.1) q))
              ]
      ]

  module _ (j : ℕ) (t : Deliveries) (u : UniqueKeys delivery_id t) (d : Delivery)
      (e : find delivery_id j t ≡ some d) where
    find-claim :
        (i now lease_until max_attempts : ℕ)
        → find delivery_id j (claim sql i now lease_until max_attempts t).0
          ≡ some (act (take i now lease_until max_attempts) d)
    unfolding claim act
    find-claim i now l m =
        let g = claimable now m in
        let f = claimed now l in
        let this = find-key delivery_id j t e in
        elim (update_one delivery_id sql i g f t u) [
          | inl (r, found, free, q) ↦
              rw q (rw (find-map_where delivery_id {f = f} (λ x. refl) j i g t, e) (ground arith))
          | inr (none_hit, q) ↦ rw q (ground arith)
        ]

    find-finish :
        (i at : ℕ) (o : Outcome)
        → find delivery_id j (committed t (finish sql i o at t)) ≡ some (finish_row i o at d)
    unfolding finish
    find-finish i at o =
        let g = leased at in
        let f = finished o in
        let this = find-key delivery_id j t e in
        elim (update_one delivery_id sql i g f t u) [
          | inl (r, found, free, q) ↦
              rw q (rw (find-map_where delivery_id {f = f} (λ x. refl) j i g t, e) (ground arith))
          | inr (none_hit, q) ↦ rw q (ground arith)
        ]

    find-ensure_pending :
        (deal : ℕ) (token chat : String) (purpose : DeliveryPurpose)
        → find delivery_id j (committed_row t (ensure_pending sql deal token chat purpose t))
          ≡ some d
    find-ensure_pending deal token chat purpose =
        after-ensure_pending t (λ t'. find delivery_id j t' ≡ some d) deal token chat purpose e
          (find-concat_old delivery_id j t (new_delivery deal token chat purpose (sql.fresh t)) e)

  recovered :
      (now : ℕ) (t : Deliveries)
      → (mark_stale_sending_ambiguous sql now t).0 ≡ map_where (stale now) expired t
  unfolding mark_stale_sending_ambiguous
  recovered now t = rw sql.update_lem

  -- The keys stay apart.
  module _ (t : Deliveries) (u : UniqueKeys delivery_id t) where
    claim-UniqueKeys :
        (i now lease_until max_attempts : ℕ)
        → UniqueKeys delivery_id (claim sql i now lease_until max_attempts t).0
    unfolding claim
    claim-UniqueKeys i now l m =
        let kept =
          map_where-UniqueKeys delivery_id {f = claimed now l} (λ x. refl)
            (at_key delivery_id i (claimable now m)) t u in
        rw sql.update_lem
          (elim (Bool-cases (count_where (at_key delivery_id i (claimable now m)) t == 1)) [
            | inl one ↦ rw one kept
            | inr other ↦ rw other kept
          ])

    finish-UniqueKeys :
        (i at : ℕ) (o : Outcome) → UniqueKeys delivery_id (committed t (finish sql i o at t))
    unfolding finish
    finish-UniqueKeys i at o =
        let kept =
          map_where-UniqueKeys delivery_id {f = finished o} (λ x. refl)
            (at_key delivery_id i (leased at)) t u in
        rw sql.update_lem
          (elim (Bool-cases (count_where (at_key delivery_id i (leased at)) t == 1)) [
            | inl one ↦ rw one kept
            | inr other ↦ rw other u
          ])

    ensure-UniqueKeys :
        (deal : ℕ) (token chat : String) (purpose : DeliveryPurpose)
        → UniqueKeys delivery_id (committed_row t (ensure_pending sql deal token chat purpose t))
    ensure-UniqueKeys deal token chat purpose =
        after-ensure_pending t (UniqueKeys delivery_id) deal token chat purpose u (
          UniqueKeys-concat-one delivery_id t (new_delivery deal token chat purpose (sql.fresh t)) u
            (sql.fresh_new t))

    -- No request makes two rows of one key.
    pub perform-UniqueKeys : (q : Request) → UniqueKeys delivery_id (perform sql q t)
    unfolding perform mark_sent mark_retryable mark_ambiguous mark_permanent
    perform-UniqueKeys (ensure deal token chat purpose) = ensure-UniqueKeys deal token chat purpose
    perform-UniqueKeys (take i now l m) = claim-UniqueKeys i now l m
    perform-UniqueKeys (sent i message_id at) = elim (Bool-cases (has_text message_id)) [
      | inl named ↦ rw named (finish-UniqueKeys i at (sent_outcome message_id at))
      | inr blank ↦ rw blank u
    ]
    perform-UniqueKeys (retryable i at next code) = finish-UniqueKeys i at _
    perform-UniqueKeys (ambiguous i at code) = finish-UniqueKeys i at _
    perform-UniqueKeys (permanent i at code) = finish-UniqueKeys i at _
    perform-UniqueKeys (recover now) =
        subst (UniqueKeys delivery_id) (sym (recovered now t))
          (map_where-UniqueKeys delivery_id {f = expired} (λ x. refl) (stale now) t u)

    -- Each request does to every row that is there what `act` says.
    pub find-perform :
        (q : Request) (j : ℕ) (d : Delivery)
        → find delivery_id j t ≡ some d
        → find delivery_id j (perform sql q t) ≡ some (act q d)
    unfolding perform act mark_sent mark_retryable mark_ambiguous mark_permanent
    find-perform (ensure deal token chat purpose) j d e =
        find-ensure_pending j t u d e deal token chat purpose
    find-perform (take i now l m) j d e = find-claim j t u d e i now l m
    find-perform (sent i message_id at) j d e = elim (Bool-cases (has_text message_id)) [
      | inl named ↦ rw named (find-finish j t u d e i at (sent_outcome message_id at))
      | inr blank ↦ rw blank e
    ]
    find-perform (retryable i at next code) j d e = find-finish j t u d e i at _
    find-perform (ambiguous i at code) j d e = find-finish j t u d e i at _
    find-perform (permanent i at code) j d e = find-finish j t u d e i at _
    find-perform (recover now) j d e =
        subst (λ t'. find delivery_id j t' ≡ some (act (recover now) d)) (sym (recovered now t))
          (rw (find-map_where_all delivery_id {f = expired} (λ x. refl) j (stale now) t, e))

  -- Under unique keys, whatever the requests, the row of a key that is there is what `act_all` makes of
  -- it.
  pub find-perform_all :
      (qs : List Request) (t : Deliveries) (j : ℕ) (d : Delivery)
      → UniqueKeys delivery_id t
      → find delivery_id j t ≡ some d
      → find delivery_id j (perform_all sql qs t) ≡ some (act_all qs d)
  unfolding perform_all act_all
  find-perform_all [] t j d u e = e
  find-perform_all (q ∷ qs) t j d u e =
      find-perform_all qs (perform sql q t) j (act q d) (perform-UniqueKeys t u q)
        (find-perform t u q j d e)
