-- ===== src/Shadow/Deliveries/Once.antt =====
-- How often src/promo_bot/database/shadow_delivery_repository.py lets a message be sent.
use mathlib.Core.Path.{subst}
use promo_bot.Base.{
  ℕ, ◌+◌, ◌≤◌, ◌≡◌, refl, ap, sym, ◌∙◌, Bool, true, false, not, some, String, List, [], ◌∷◌, ◌==◌,
  if◌then◌else◌, Result, ok, raised, bind-ok, ok-injective, require-passed, Bool-cases, inl, inr,
  arith,
}
use promo_bot.Sql.Rows.{Sql, get, first}
use promo_bot.Sql.Keys.{UniqueKeys, find, at_key, update_one, update-UniqueKeys, find-update}
use promo_bot.Shadow.Deliveries.{
  ShadowDelivery, ShadowDeliveries, shadow_key, Preview, Surroundings, ShadowError, Ending,
  new_shadow, same_target, same_preview, with_use, may_send, started, may_finish, finished, always,
  or_raise, preview_not_found, integrity, row_missing, transition_conflict, state_invalid, is_final,
  preview_of, used, reserve, reserve, noted, mark_sending, finish, is_official,
}
use promo_bot.Shadow.Deliveries.Budget.{
  Keeps, budget, budget-started, insert-Keeps, or_raise-ok, some-injective, update-Keeps,
}

-- A call of the repository.
pub data Call : Type 0 where
  reserving : (preview : ℕ) → (destination : String) → (now : ℕ) → Call
  sending_at : (i now : ℕ) → Call
  finishing : ℕ → Ending → Call

-- What a call leaves of the table: a call that raises leaves it as it was.
abbrev pub kept :
    {A : Type 0}
    → ShadowDeliveries
    → Result ShadowError A
    → (A → ShadowDeliveries)
    → ShadowDeliveries
kept t (ok a) f = f a
kept t (raised e) f = t

-- One, if the call lets the message be sent to the destination.
abbrev pub sends_if :
    (message : ℕ) → String → Result ShadowError (ShadowDeliveries × ShadowDelivery) → ℕ
sends_if m d (ok (t, row)) = if same_target m d row then 1 else 0
sends_if m d (raised e) = 0

kept-Keeps :
    {A : Type 0} (t : ShadowDeliveries) (r : Result ShadowError A) (f : A → ShadowDeliveries)
    → UniqueKeys shadow_key t
    → ((a : A) → r ≡ ok a → Keeps t (f a))
    → Keeps t (kept t r f)
kept-Keeps t (ok a) f u h = h a refl
kept-Keeps t (raised e) f u h = (u, λ m d. refl)

-- What a send spends, with the table that it leaves.
abbrev Spends : ShadowDeliveries → ShadowDeliveries × ShadowDelivery → Type 0
Spends t r =
    UniqueKeys shadow_key r.0
    × ((m : ℕ) (d : String)
        → budget m d r.0 + (if same_target m d r.1 then 1 else 0) ≡ budget m d t)

kept-Spends :
    (m : ℕ) (d : String) (t : ShadowDeliveries)
    (r : Result ShadowError (ShadowDeliveries × ShadowDelivery))
    → UniqueKeys shadow_key t
    → ((a : ShadowDeliveries × ShadowDelivery) → r ≡ ok a → Spends t a)
    → UniqueKeys shadow_key (kept t r (λ a. a.0))
      × (budget m d (kept t r (λ a. a.0)) + sends_if m d r ≡ budget m d t)
kept-Spends m d t (ok a) u h = let (u', spent) = h a refl in (u', spent m d)
kept-Spends m d t (raised e) u h = (u, omega arith)

same-after :
    (b : Bool) (m : ℕ) (d : String) (now : ℕ) (r row : ShadowDelivery)
    → some (if b then started now r else r) ≡ some row
    → same_target m d row ≡ same_target m d r
same-after true m d now r row e = ap (same_target m d) (sym (some-injective e))
same-after false m d now r row e = ap (same_target m d) (sym (some-injective e))

module _ (sql : Sql ShadowDelivery shadow_key) (env : Surroundings) where
  abbrev pub perform : Call → ShadowDeliveries → ShadowDeliveries
  perform (reserving preview destination now) t =
      kept t (reserve sql env preview destination now t) (λ r. r.0)
  perform (sending_at i now) t = kept t (mark_sending sql env i now t) (λ r. r.0)
  perform (finishing i e) t = kept t (finish sql env i e t) (λ t'. t')

  abbrev pub sends_by : (message : ℕ) → String → Call → ShadowDeliveries → ℕ
  sends_by m d (sending_at i now) t = sends_if m d (mark_sending sql env i now t)
  sends_by m d _ t = 0

  unfoldable pub sends : (message : ℕ) → String → List Call → ShadowDeliveries → ℕ
  sends m d [] t = 0
  sends m d (c ∷ cs) t = sends_by m d c t + sends m d cs (perform c t)

  used-Keeps :
      (p : Preview) (now : ℕ) (inserted : Bool) (row : ShadowDelivery) (t : ShadowDeliveries)
      {r : ShadowDeliveries × Bool}
      → UniqueKeys shadow_key t
      → used sql env p now inserted row t ≡ ok r
      → Keeps t r.0
  used-Keeps p now false row t u e =
      subst (λ (r : ShadowDeliveries × Bool). Keeps t r.0) (ok-injective e) (u, λ m d. refl)
  used-Keeps p now true row t u e = elim (Bool-cases (is_official p)) [
    | inl b ↦
        let (use_id, _, e1) = bind-ok (env.record_use p row now) _ (rw b at e) in
        subst (λ (r : ShadowDeliveries × Bool). Keeps t r.0) (ok-injective e1)
          (update-Keeps sql (at_key shadow_key row.id always) (with_use use_id) t (λ r. refl)
            (λ m d r. refl) (λ r. refl) u)
    | inr b ↦
        subst (λ (r : ShadowDeliveries × Bool). Keeps t r.0) (ok-injective (rw b at e))
          (u, λ m d. refl)
  ]

  reserve-Keeps :
      (preview : ℕ) (destination : String) (now : ℕ) (t : ShadowDeliveries)
      {r : ShadowDeliveries × Bool}
      → UniqueKeys shadow_key t
      → reserve sql env preview destination now t ≡ ok r
      → Keeps t r.0
  unfolding reserve
  reserve-Keeps preview destination now t u e =
      let (p, _, e1) = bind-ok (or_raise (preview_of sql env preview) preview_not_found) _ e in
      let stored =
        sql.insert (same_target p.source_message_id destination) (same_preview p.id destination)
          (new_shadow p destination now) t in
      let ((t', n), a, e2) = bind-ok (or_raise stored integrity) _ e1 in
      let (row, _, e3) =
        bind-ok
          (or_raise (first (sql.select (same_target p.source_message_id destination) t'))
            row_missing)
          _ e2 in
      let (u', k) = insert-Keeps sql p destination now t u (or_raise-ok stored integrity a) in
      let (u2, k2) = used-Keeps p now (not (n == 0)) row t' u' e3 in (u2, λ m d. k2 m d ∙ k m d)

  noted-row :
      (i now : ℕ) (t : ShadowDeliveries) {row : ShadowDelivery}
      → noted sql env i now t ≡ ok row
      → find shadow_key i t ≡ some row
  noted-row i now t e =
      let (row, a, e1) = bind-ok (or_raise (get sql i t) row_missing) _ e in
      let (p, _, e2) = bind-ok (or_raise (preview_of sql env row.preview_id) row_missing) _ e1 in
      let (_, _, e3) =
        bind-ok (if is_official p then env.transition_send row now else ok tt) _ e2 in
      sym (ap first (sql.select_lem (λ r. r.id == i) t))
      ∙ or_raise-ok (get sql i t) row_missing a
      ∙ ap some (ok-injective e3)

  sending-outcome :
      (i now : ℕ) (t : ShadowDeliveries) {r : ShadowDeliveries × ShadowDelivery}
      → UniqueKeys shadow_key t
      → mark_sending sql env i now t ≡ ok r
      → Spends t r
  unfolding mark_sending
  sending-outcome i now t u e =
      let q = at_key shadow_key i may_send in
      let after = sql.update q (started now) t in
      let (passed, e1) = require-passed (not (after.1 == 0)) transition_conflict _ e in
      let (row, noted_row, e2) = bind-ok (noted sql env i now after.0) _ e1 in
      let found' = noted-row i now after.0 noted_row in
      subst (Spends t) (ok-injective e2) (
        update-UniqueKeys shadow_key (λ r. refl) sql q t u,
        elim (update_one shadow_key sql i may_send (started now) t u) [
          | inr (_, none_written) ↦ let p' = rw none_written at passed in absurd (cc)
          | inl (r0, found, may, written_one) ↦ λ m d.
              let there = sym (find-update shadow_key (λ r. refl) sql i q t) ∙ found' in
              let e0 = rw found at there in
              let target : same_target m d row ≡ same_target m d r0 =
                same-after (q r0) m d now r0 row e0 in
              rw (target, sql.update_lem) (budget-started m d i now t u found may)
        ],
      )

  finish-Keeps :
      (i : ℕ) (end : Ending) (t : ShadowDeliveries) {t' : ShadowDeliveries}
      → UniqueKeys shadow_key t
      → finish sql env i end t ≡ ok t'
      → Keeps t t'
  unfolding finish
  finish-Keeps i end t u e =
      let q = at_key shadow_key i (may_finish end.state) in
      let after = (sql.update q (finished end) t) in
      let (_, e1) = require-passed (is_final end.state) state_invalid _ e in
      let (_, e2) = require-passed (not (after.1 == 0)) transition_conflict _ e1 in
      let (row, _, e3) = bind-ok (noted sql env i end.now after.0) _ e2 in
      subst (Keeps t) (ok-injective e3)
        (update-Keeps sql q (finished end) t (λ r. refl) (λ m d r. refl) (λ r. refl) u)

  -- A call spends what it sends, and leaves the rest.
  perform-spends :
      (c : Call) (m : ℕ) (d : String) (t : ShadowDeliveries)
      → UniqueKeys shadow_key t
      → UniqueKeys shadow_key (perform c t)
        × (budget m d (perform c t) + sends_by m d c t ≡ budget m d t)
  perform-spends (reserving preview destination now) m d t u =
      let r = reserve sql env preview destination now t in
      let (u', k) =
        kept-Keeps t r (λ a. a.0) u (λ a e. reserve-Keeps preview destination now t u e) in
      (u', omega (arith, k m d))
  perform-spends (sending_at i now) m d t u =
      kept-Spends m d t (mark_sending sql env i now t) u (λ a e. sending-outcome i now t u e)
  perform-spends (finishing i e) m d t u =
      let (u', k) =
        kept-Keeps t (finish sql env i e t) (λ a. a) u (λ a h. finish-Keeps i e t u h) in
      (u', omega (arith, k m d))

  sends-le-budget :
      (m : ℕ) (d : String) (cs : List Call) (t : ShadowDeliveries)
      → UniqueKeys shadow_key t
      → sends m d cs t ≤ budget m d t
  unfolding sends
  sends-le-budget m d [] t u = omega arith
  sends-le-budget m d (c ∷ cs) t u =
      let (u', spent) = perform-spends c m d t u in
      omega (arith, spent, sends-le-budget m d cs (perform c t) u')

  -- Whatever calls are made of the repository, in any order and with whatever the history answers, a
  -- message is sent to a destination once at most: from an empty table on, one call at most of
  -- `mark_sending` returns for a row of that message and that destination.
  pub sent_once : (m : ℕ) (d : String) (cs : List Call) → sends m d cs [] ≤ 1
  unfolding budget
  sent_once m d cs = sends-le-budget m d cs [] tt
