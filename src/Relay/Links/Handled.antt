-- ===== src/Relay/Links/Handled.antt =====
-- What the sessions of `_process_link` (src/promo_bot/relay/service.py) leave of the row of a link.
use mathlib.Core.Path.{subst}
use promo_bot.Base.{
  ℕ, ◌≡◌, refl, sym, ap, ◌∙◌, Bool, true, false, Option, none, some, List, [], ◌∷◌, ◌++◌, ◌==◌,
  ◌||◌, any, if◌then◌else◌, Result, ok, raised, bind-ok, ok-injective, Bool-cases, inl, inr, arith,
  ==_refl,
}
use promo_bot.Domain.Enums.{Store, RelayLinkState}
use promo_bot.Sql.Rows.{Sql, first, where_rows, map_where, get}
use promo_bot.Sql.Keys.{at_key, written, insert_outcome}
use promo_bot.Stores.Patterns.{Text}
use promo_bot.Stores.Urls.{CanonicalUrlResult, Web}
use promo_bot.Relay.Candidates.{Candidate, Candidates, candidate_key}
use promo_bot.Relay.Processor.{processed, LinkOutcome as Ending}
use promo_bot.Relay.Links.{
  Link, Links, link_key, LinkOutcome, LinkError, ReceivedLink, is_link, with_outcome,
  with_candidate, always, or_raise, link_of, received_link, record_received, set_outcome, attached,
  ensure_for_link, eligible_product, integrity, not_read_back, not_eligible, is_candidate,
  new_candidate, record_item, find_item, is_store,
}
use promo_bot.Relay.Links.Process.{
  Linker, LinkStore, is_received, settle, keep_if, keep_product, committed, ensure_candidate,
  is_known, or_empty, duplicate_outcome, canonical_outcome, with_links,
}

module _ {Row : Type 0} (key : Row → ℕ) (p q : Row → Bool) (f : Row → Row) where
  pub first-map_where :
      ((r : Row) → p (f r) ≡ p r)
      → (t : List Row)
      → first (where_rows p (map_where q f t)) ≡ written key q f (first (where_rows p t))
  first-map_where keeps [] = refl
  first-map_where keeps (r ∷ t) = ground (arith, keeps r, first-map_where keeps t)

pub or_raise-ok :
    {A : Type 0} (o : Option A) (e : LinkError) {a : A} → or_raise o e ≡ ok a → o ≡ some a
or_raise-ok none e h = absurd (cc)
or_raise-ok (some a) e h = ap some (ok-injective h)

module _ (sql : Sql Link link_key) (m : ℕ) (hash : Text) where
  -- The link has a row, whose state is an outcome.
  abbrev pub IsHandled : Links → Type 0
  IsHandled t = (l : Link) × (link_of sql m hash t ≡ some l) × (is_received l.state ≡ false)

  pub link_of-update :
      (q : Link → Bool) (f : Link → Link) (t : Links)
      → ((r : Link) → is_link m hash (f r) ≡ is_link m hash r)
      → link_of sql m hash (sql.update q f t).0 ≡ written link_key q f (link_of sql m hash t)
  link_of-update q f t keeps =
      rw
        (
          sql.update_lem,
          sql.select_lem (is_link m hash) t,
          sql.select_lem (is_link m hash) (map_where q f t),
        )
        (first-map_where link_key (is_link m hash) q f keeps t)

  pub set_outcome-IsHandled :
      (o : LinkOutcome) (t : Links) (l : Link)
      → link_of sql m hash t ≡ some l
      → is_received o.state ≡ false
      → IsHandled (set_outcome sql l.id o t)
  unfolding set_outcome
  set_outcome-IsHandled o t l e d = (
    with_outcome o l,
    link_of-update (at_key link_key l.id always) (with_outcome o) t (λ r. refl)
        ∙ rw (e, ==_refl l.id),
    d,
  )

  pub with_candidate-IsHandled :
      (i c : ℕ) (t : Links)
      → IsHandled t
      → IsHandled (sql.update (at_key link_key i always) (with_candidate c) t).0
  with_candidate-IsHandled i c t (l, e, d) = (
    if link_key l == i then with_candidate c l else l,
    link_of-update (at_key link_key i always) (with_candidate c) t (λ r. refl)
        ∙ rw e (ground arith),
    ground arith,
  )

  pub attached-IsHandled :
      (web : Web) (candidates : Sql Candidate candidate_key) (l : Link) (c : Candidate)
      (o : Option ℕ) (t : Links) {t' : Links}
      → IsHandled t
      → attached web sql candidates l c o t ≡ ok t'
      → IsHandled t'
  attached-IsHandled web candidates l c none t h e =
      subst IsHandled (ok-injective e) (with_candidate-IsHandled l.id c.id t h)
  attached-IsHandled web candidates l c (some i) t h e = elim (Bool-cases (i == c.id)) [
    | inl same ↦ subst IsHandled (ok-injective (rw same at e)) h
    | inr other ↦ let e' = rw other at e in absurd (cc)
  ]

  pub ensure_for_link-IsHandled :
      (web : Web) (candidates : Sql Candidate candidate_key) (now i : ℕ) (v : Text) (t : Links)
      (cs : Candidates) {r : Links × Candidates}
      → IsHandled t
      → ensure_for_link web sql candidates now i v t cs ≡ ok r
      → IsHandled r.0
  unfolding ensure_for_link
  ensure_for_link-IsHandled web candidates now i v t cs h e =
      let (l, _, e1) = bind-ok (or_raise (get sql i t) not_eligible) _ e in
      let ((store, id, url), _, e2) = bind-ok (eligible_product web l) _ e1 in
      let ((cs', n), _, e3) =
        bind-ok
          (or_raise
            (candidates.insert (is_candidate store id v) (λ c. false)
              (new_candidate store id v url now) cs)
            integrity)
          _ e2 in
      let (c, _, e4) =
        bind-ok (or_raise (first (candidates.select (is_candidate store id v) cs')) not_read_back) _
          e3 in
      let (t', a, e5) = bind-ok (attached web sql candidates l c l.affiliate_candidate_id t) _ e4 in
      subst (λ (r : Links × Candidates). IsHandled r.0) (ok-injective e5)
        (attached-IsHandled web candidates l c l.affiliate_candidate_id t h a)

module _ {Row : Type 0} (p : Row → Bool) where
  first-concat :
      (t : List Row) (s : Row) {r : Row}
      → first (where_rows p t) ≡ some r
      → first (where_rows p (t ++ s ∷ [])) ≡ some r
  first-concat [] s h = absurd (cc)
  first-concat (q ∷ t) s {r} h = ground (arith, first-concat t s {r = r})

  pub any-first : (t : List Row) {r : Row} → first (where_rows p t) ≡ some r → any p t ≡ true
  any-first [] h = absurd (cc)
  any-first (s ∷ t) {r} h = ground (arith, any-first t {r = r})

pub any-never : {Row : Type 0} (t : List Row) → any (λ r. false) t ≡ false
any-never [] = refl
any-never (r ∷ t) = any-never t

pub received_again :
    (sql : Sql Link link_key) (a : ReceivedLink) (t : Links) (l : Link)
    → link_of sql a.source_message_id a.input_hash t ≡ some l
    → record_received sql a t ≡ ok (t, l)
unfolding record_received
received_again sql a t l found =
    let is_there = is_link a.source_message_id a.input_hash in
    let there = any-first is_there t (sym (ap first (sql.select_lem is_there t)) ∙ found) in
    rw (
      sql.insert_conflict is_there (λ (l : Link). false) (received_link a) t there (any-never t),
      found,
    )

module _ (sql : Sql Link link_key) (m : ℕ) (hash : Text) where
  -- Any outcome that is recorded for the row leaves the link handled.
  abbrev pub Settles : ℕ → Links → Type 0
  Settles i t =
      (o : LinkOutcome) → is_received o.state ≡ false → IsHandled sql m hash (set_outcome sql i o t)

  pub found-Settles : (t : Links) (l : Link) → link_of sql m hash t ≡ some l → Settles l.id t
  found-Settles t l found = λ o d. set_outcome-IsHandled sql m hash o t l found d

  outcome_if :
      (b : Bool) (o : LinkOutcome) (l : Link)
      → is_received o.state ≡ false
      → is_received l.state ≡ false
      → is_received (if b then with_outcome o l else l).state ≡ false
  outcome_if true o l d k = d
  outcome_if false o l d k = k

  -- What is handled stays so, whichever row an outcome is recorded for.
  pub kept-Settles : (i : ℕ) (t : Links) → IsHandled sql m hash t → Settles i t
  unfolding set_outcome
  kept-Settles i t (l, e, k) = λ o d. (
    if at_key link_key i always l then with_outcome o l else l,
    link_of-update sql m hash (at_key link_key i always) (with_outcome o) t (λ r. refl) ∙ rw e,
    outcome_if (at_key link_key i always l) o l d k,
  )

  pub received-IsHandled :
      (a : ReceivedLink) (t : Links) {r : Links × Link}
      → IsHandled sql m hash t
      → record_received sql a t ≡ ok r
      → IsHandled sql m hash r.0
  unfolding record_received
  received-IsHandled a t (l, found, k) e =
      let p = is_link a.source_message_id a.input_hash in
      let stored = sql.insert p (λ l. false) (received_link a) t in
      let ((t', n), s, e1) = bind-ok (or_raise stored integrity) _ e in
      let (row, _, e2) =
        bind-ok (or_raise (link_of sql a.source_message_id a.input_hash t') not_read_back) _ e1 in
      let kept : IsHandled sql m hash t' =
        elim (insert_outcome link_key sql p (λ l. false) (received_link a) t
          (or_raise-ok stored integrity s)) [
            | inl (_, same, _) ↦ subst (IsHandled sql m hash) (sym same) (l, found, k)
            | inr (_, added, _) ↦ subst (IsHandled sql m hash) (sym added) (
              l,
              ap first (sql.select_lem (is_link m hash) (t ++ received_link a (sql.fresh t) ∷ []))
                  ∙ first-concat (is_link m hash) t (received_link a (sql.fresh t))
                      (sym (ap first (sql.select_lem (is_link m hash) t)) ∙ found),
              k,
            )
          ] in
      subst (λ (r : Links × Link). IsHandled sql m hash r.0) (ok-injective e2) kept

module _ (p : Linker) (m : ℕ) (hash : Text) where
  abbrev pub Handled : LinkStore → Type 0
  Handled s = IsHandled p.links m hash s.links

  pub ensure_candidate-Handled :
      (now i : ℕ) (store : Store) (v : Text) (s : LinkStore) {s' : LinkStore}
      → Handled s
      → ensure_candidate p now i store v s ≡ ok s'
      → Handled s'
  ensure_candidate-Handled now i store v s h e =
      elim (Bool-cases (is_store store Store.shopee || is_store store Store.aliexpress)) [
        | inl b ↦
            let e' = rw b at e in
            let (r, a, e1) =
              bind-ok (ensure_for_link p.web p.links p.candidates now i v s.links s.candidates) _
                e' in
            subst Handled (ok-injective e1) (
              ensure_for_link-IsHandled p.links m hash p.web p.candidates now i v s.links
                s.candidates h a)
        | inr b ↦ subst Handled (ok-injective (rw b at e)) h
      ]

  module _ (now : ℕ) (l : Link) (input url : Text) (n : ℕ) (c : CanonicalUrlResult) where
    pub keep_product-Handled :
        (store : Store) (id canonical : Text) (s : LinkStore) {s' : LinkStore}
        → Settles p.links m hash l.id s.links
        → is_received c.state ≡ false
        → keep_product p now l.id input url n c store id canonical s ≡ ok s'
        → Handled s'
    unfolding keep_product
    keep_product-Handled store id canonical s found d e =
        let v = or_empty c.variation_key in
        let h = p.sha256 canonical in
        elim (Bool-cases (is_known (find_item p.items store id v s.items) h)) [
          | inl b ↦
              ensure_candidate-Handled now l.id store v
                (with_links s (set_outcome p.links l.id (duplicate_outcome url n c) s.links))
                (found (duplicate_outcome url n c) refl) (rw b at e)
          | inr b ↦
              let e' = rw b at e in
              let (items, _, e1) =
                bind-ok
                  (record_item p.items store id v h (some RelayLinkState.pending_affiliate) s.items)
                  _ e' in
              ensure_candidate-Handled now l.id store v
                (record s {
                  links = set_outcome p.links l.id (canonical_outcome url input n c) s.links;
                  items = items;
                })
                (found (canonical_outcome url input n c) d) e1
        ]

    pub committed-Handled :
        (s : LinkStore) (r : Result LinkError LinkStore) {s' : LinkStore}
        → ((t : LinkStore) → r ≡ ok t → Handled t)
        → committed s r ≡ (s', processed)
        → Handled s'
    committed-Handled s (ok t) h e =
        subst Handled (ap (λ (r : LinkStore × Ending). r.0) e) (h t refl)
    committed-Handled s (raised x) h e = absurd (cc)

    pub settle-Handled :
        (o : LinkOutcome) (s : LinkStore) {s' : LinkStore}
        → Settles p.links m hash l.id s.links
        → is_received o.state ≡ false
        → settle p l.id o s ≡ (s', processed)
        → Handled s'
    settle-Handled o s found d e =
        subst Handled (ap (λ (r : LinkStore × Ending). r.0) e) (found o d)

    pub keep_if-Handled :
        (b : Bool) (store : Option Store) (id canonical : Option Text) (s : LinkStore)
        {s' : LinkStore}
        → Settles p.links m hash l.id s.links
        → is_received c.state ≡ false
        → keep_if p now l.id input url n c b store id canonical s ≡ (s', processed)
        → Handled s'
    keep_if-Handled true (some store) (some id) (some canonical) s found d e =
        committed-Handled s (keep_product p now l.id input url n c store id canonical s)
          (λ t k. keep_product-Handled store id canonical s found d k) e
    keep_if-Handled true (some store) (some id) none s found d e =
        settle-Handled (canonical_outcome url input n c) s found d e
    keep_if-Handled true (some store) none canonical s found d e =
        settle-Handled (canonical_outcome url input n c) s found d e
    keep_if-Handled true none id canonical s found d e =
        settle-Handled (canonical_outcome url input n c) s found d e
    keep_if-Handled false store id canonical s found d e =
        settle-Handled (canonical_outcome url input n c) s found d e
