-- ===== src/Relay/Links/Settled.antt =====
-- What `_process_link` (src/promo_bot/relay/service.py) leaves of the row of its link.
use mathlib.Core.Path.{subst}
use promo_bot.Base.{
  ℕ, ◌≡◌, ◌≢◌, refl, ap, Bool, true, false, Option, none, some, String, ◌&&◌, not, if◌then◌else◌,
  Result, ok, raised, bind-ok, ok-injective, Bool-cases, inl, inr,
}
use promo_bot.Domain.Enums.{RelayLinkState}
use promo_bot.Stores.Patterns.{Text}
use promo_bot.Stores.Urls.{
  CanonicalUrlResult, canonicalize_store_url, is_shortener_url, is_allowed_network_url,
}
use promo_bot.Stores.Urls.Outcomes.{canonicalize_decides}
use promo_bot.Relay.Processor.{processed, processing_error, crashed, LinkOutcome as Ending}
use promo_bot.Relay.Links.{
  Link, Links, LinkError, ReceivedLink, is_link, or_raise, link_of, received_link, record_received,
  integrity, not_read_back,
}
use promo_bot.Relay.Links.Process.{
  ExtractedLink, Linker, LinkStore, process_link, is_received, received_args, routed, route,
  canonicalized, after_receipt, Route, leads, settles, fails, with_links, is_pending, outcome_only,
  is_aliexpress_url, Answer, led_to, refused, transient, failed, resolved, expanded, resolve_short,
}
use promo_bot.Relay.Links.Handled.{
  Handled, IsHandled, keep_if-Handled, or_raise-ok, received_again, Settles, kept-Settles,
  found-Settles, received-IsHandled,
}

-- A route that ends the matter names an outcome, and one that fails does not count as processed.
data IsDecidedRoute : Route → Type 0 where
  open_route : (url : Text) (n : ℕ) → IsDecidedRoute (leads url n)
  outcome :
      (state : RelayLinkState) (reason : String)
      → is_received state ≡ false
      → IsDecidedRoute (settles state reason)
  failure : (e : Ending) → e ≢ processed → IsDecidedRoute (fails e)

resolved-IsDecidedRoute : (a : Answer) → IsDecidedRoute (resolved a)
resolved-IsDecidedRoute (led_to url n) = open_route url n
resolved-IsDecidedRoute (refused code) = outcome RelayLinkState.rejected code refl
resolved-IsDecidedRoute (transient code) = failure crashed (λ e. absurd (cc))
resolved-IsDecidedRoute failed = failure crashed (λ e. absurd (cc))

expanded-IsDecidedRoute : (a : Answer) → IsDecidedRoute (expanded a)
expanded-IsDecidedRoute (led_to url n) = open_route url n
expanded-IsDecidedRoute (refused code) = outcome RelayLinkState.rejected code refl
expanded-IsDecidedRoute (transient code) =
    failure (processing_error true code none) (λ e. absurd (cc))
expanded-IsDecidedRoute failed = failure crashed (λ e. absurd (cc))

resolve_short-IsDecidedRoute :
    (o : Option (Text → Answer)) (url : Text) → IsDecidedRoute (resolve_short o url)
resolve_short-IsDecidedRoute none url =
    outcome RelayLinkState.rejected "ALIEXPRESS_SHORT_URL_UNSUPPORTED" refl
resolve_short-IsDecidedRoute (some resolve) url = resolved-IsDecidedRoute (resolve url)

if-IsDecidedRoute :
    (b : Bool) (r s : Route)
    → IsDecidedRoute r
    → IsDecidedRoute s
    → IsDecidedRoute (if b then r else s)
if-IsDecidedRoute true r s h k = h
if-IsDecidedRoute false r s h k = k

is_received-false :
    (state : RelayLinkState) → state ≢ RelayLinkState.received → is_received state ≡ false
is_received-false RelayLinkState.received h = absurd (h refl)
is_received-false RelayLinkState.ignored h = refl
is_received-false state h = refl

module _ (p : Linker) where
  route-IsDecidedRoute : (url : Text) → IsDecidedRoute (route p url)
  unfolding route
  route-IsDecidedRoute url =
      if-IsDecidedRoute _ _ _ (resolve_short-IsDecidedRoute p.aliexpress_short_resolver url) (
        if-IsDecidedRoute (p.preserve_non_aliexpress && not (is_aliexpress_url p url)) _ _
          (outcome RelayLinkState.ignored "NON_ALIEXPRESS_LINK_PRESERVED" refl)
          (if-IsDecidedRoute (is_shortener_url p.web url) _ _
            (expanded-IsDecidedRoute (p.expand url))
            (if-IsDecidedRoute (not (is_allowed_network_url p.web url)) _ _
              (outcome RelayLinkState.ignored "UNSUPPORTED_DOMAIN" refl) (open_route url 0))))

  module _ (now m : ℕ) (hash : Text) (link : ExtractedLink) where
    canonicalized-Handled :
        (l : Link) (url : Text) (n : ℕ) (o : Option CanonicalUrlResult) (s : LinkStore)
        {s' : LinkStore}
        → canonicalize_store_url p.web url ≡ o
        → Settles p.links m hash l.id s.links
        → canonicalized p now l.id link.url url n o s ≡ (s', processed)
        → Handled p m hash s'
    canonicalized-Handled l url n none s read found e = absurd (cc)
    canonicalized-Handled l url n (some c) s read found e =
        keep_if-Handled p m hash now l link.url url n c (is_pending c.state) c.store
          c.external_product_id c.canonical_url s found
          (is_received-false c.state (canonicalize_decides p.web url c read)) e

    routed-Handled :
        (l : Link) (r : Route) (s : LinkStore) {s' : LinkStore}
        → IsDecidedRoute r
        → Settles p.links m hash l.id s.links
        → routed p now l.id link.url r s ≡ (s', processed)
        → Handled p m hash s'
    routed-Handled l _ s (open_route url n) found e =
        canonicalized-Handled l url n (canonicalize_store_url p.web url) s refl found e
    routed-Handled l _ s (outcome state reason d) found e =
        subst (Handled p m hash) (ap (λ (r : LinkStore × Ending). r.0) e)
          (found (outcome_only state reason) d)
    routed-Handled l _ s (failure f d) found e = absurd (d (ap (λ (r : LinkStore × Ending). r.1) e))

    after_receipt-Handled :
        (s : LinkStore) (r : Result LinkError (Links × Link)) {s' : LinkStore}
        → ((t : Links) (l : Link) → r ≡ ok (t, l) → Settles p.links m hash l.id t)
        → ((t : Links) (l : Link)
            → r ≡ ok (t, l)
            → is_received l.state ≡ false
            → IsHandled p.links m hash t)
        → after_receipt p now link s r ≡ (s', processed)
        → Handled p m hash s'
    after_receipt-Handled s (raised x) h k e = absurd (cc)
    after_receipt-Handled s (ok (t, l)) h k e = elim (Bool-cases (is_received l.state)) [
      | inl b ↦
          routed-Handled l (route p link.url) (with_links s t) (route-IsDecidedRoute link.url)
            (h t l refl) (rw b at e)
      | inr b ↦
          subst (Handled p m hash) (ap (λ (r : LinkStore × Ending). r.0) (rw b at e)) (k t l refl b)
    ]

  received-row :
      (a : ReceivedLink) (t : Links) {r : Links × Link}
      → record_received p.links a t ≡ ok r
      → link_of p.links a.source_message_id a.input_hash r.0 ≡ some r.1
  unfolding record_received
  received-row a t e =
      let ((t', n), _, e1) =
        bind-ok
          (or_raise
            (p.links.insert (is_link a.source_message_id a.input_hash) (λ l. false)
              (received_link a) t)
            integrity)
          _ e in
      let (l, a1, e2) =
        bind-ok (or_raise (link_of p.links a.source_message_id a.input_hash t') not_read_back) _
          e1 in
      subst (λ (r : Links × Link). link_of p.links a.source_message_id a.input_hash r.0 ≡ some r.1)
        (ok-injective e2) (or_raise-ok _ not_read_back a1)

  -- What is handled stays handled, whatever link is processed.
  pub link-keeps :
      (now m : ℕ) (hash : Text) (message : ℕ) (link : ExtractedLink) (s : LinkStore)
      {s' : LinkStore}
      → Handled p m hash s
      → process_link p now message link s ≡ (s', processed)
      → Handled p m hash s'
  unfolding process_link
  link-keeps now m hash message link s h done =
      let a = received_args p message link in
      after_receipt-Handled now m hash link s (record_received p.links a s.links)
        (λ t l e.
          kept-Settles p.links m hash l.id t (received-IsHandled p.links m hash a s.links h e))
        (λ t l e d. received-IsHandled p.links m hash a s.links h e) done

  module _ (now m : ℕ) (link : ExtractedLink) where
    abbrev hash_of : Text
    hash_of = p.sha256 link.url

    module _ (s : LinkStore) {s' : LinkStore}
        (done : process_link p now m link s ≡ (s', processed)) where
      -- A link that counts as processed has a row for its message and the hash of its address, and the
      -- state of that row is an outcome: whatever the network answered, no link stays RECEIVED.
      pub link_settles : IsHandled p.links m hash_of s'.links
      unfolding process_link
      link_settles =
          let a = received_args p m link in
          after_receipt-Handled now m hash_of link s (record_received p.links a s.links)
            (λ t l e. found-Settles p.links m hash_of t l (received-row a s.links e))
            (λ t l e d. (l, received-row a s.links e, d)) done

      -- Where the processing of a link has ended without a failure, processing the same link again on
      -- the tables that it left, at any time and whatever the network would answer by then, changes
      -- nothing: no table, and not the outcome.
      pub process_link_idem :
          (later : ℕ) (expand : Text → Answer) (resolver : Option (Text → Answer))
          → process_link
              (record p { expand = expand; aliexpress_short_resolver = resolver })
              later
              m
              link
              s'
            ≡ (s', processed)
      unfolding process_link
      process_link_idem later expand resolver =
          let (l, found, d) = link_settles in
          rw (received_again p.links (received_args p m link) s'.links l found, d)
