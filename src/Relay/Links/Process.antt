-- ===== src/Relay/Links/Process.antt =====
-- `RelayProcessor._process_link` of src/promo_bot/relay/service.py: one link of a message, from its row
-- to its outcome. SHA-256, the resolver of short links and the expander are parameters. A session that
-- is left by an exception is rolled back.
use promo_bot.Base.{
  ℕ, ◌+◌, Bool, true, false, not, ◌&&◌, ◌||◌, Option, none, some, String, List, [], ◌∷◌,
  if◌then◌else◌, Result, ok, raised, ◌>>=◌,
}
use promo_bot.Domain.Enums.{Store, LinkSource, RelayLinkState}
use promo_bot.Sql.Rows.{Sql}
use promo_bot.Stores.Patterns.{Text, codes, same}
use promo_bot.Stores.Urls.{
  Web, CanonicalUrlResult, canonicalize_store_url, hostname_from_url, is_shortener_url,
  is_aliexpress_redirector_url, is_allowed_network_url,
}
use promo_bot.Relay.Candidates.{Candidate, Candidates, candidate_key}
use promo_bot.Relay.Links.{
  Link, Links, link_key, ProcessedItem, item_key, ReceivedLink, LinkOutcome, LinkError, is_store,
  record_received, set_outcome, find_item, record_item, ensure_for_link,
}
use promo_bot.Relay.Processor.{LinkOutcome as Ending, processed, processing_error, crashed}

-- `ExtractedLink`
pub record ExtractedLink : Type 0 where
  pub ordinal : ℕ
  pub source : LinkSource
  pub url : Text

-- How the resolver of short links and the expander answer: with an address and a number of
-- redirects, with a refusal, with a failure that passes, or by another exception.
pub data Answer : Type 0 where
  led_to : (url : Text) → (redirect_count : ℕ) → Answer
  refused transient : (code : String) → Answer
  failed : Answer

pub record Linker : Type 0 where
  pub web : Web
  -- `hashlib.sha256(text.encode()).hexdigest()`
  pub sha256 : Text → Text
  pub aliexpress_short_resolver : Option (Text → Answer)
  pub expand : Text → Answer
  pub preserve_non_aliexpress : Bool
  pub links : Sql Link link_key
  pub items : Sql ProcessedItem item_key
  pub candidates : Sql Candidate candidate_key

-- The three tables.
pub record LinkStore : Type 0 where
  pub links : Links
  pub items : List ProcessedItem
  pub candidates : Candidates

-- `text.endswith(suffix)`
abbrev pub ends_with : Text → Text → Bool
ends_with [] suffix = same [] suffix
ends_with (c ∷ s) suffix = same (c ∷ s) suffix || ends_with s suffix

abbrev pub is_aliexpress_host : Option Text → Bool
is_aliexpress_host none = false
is_aliexpress_host (some []) = false
is_aliexpress_host (some (c ∷ s)) =
    same (c ∷ s) (codes "aliexpress.com") || ends_with (c ∷ s) (codes ".aliexpress.com")

abbrev pub outcome_only : RelayLinkState → String → LinkOutcome
outcome_only state reason = record {
  state = state;
  reason_code = reason;
  expanded_url = none;
  redirect_count = 0;
  store = none;
  external_product_id = none;
  canonical_url = none;
}

-- What becomes of the address of a link before it is canonicalized.
pub data Route : Type 0 where
  leads : (url : Text) → (redirect_count : ℕ) → Route
  settles : (state : RelayLinkState) → (reason : String) → Route
  fails : Ending → Route

-- `except AliExpressShortLinkRejected`; the resolver raises no other error of its own
abbrev pub resolved : Answer → Route
resolved (led_to url n) = leads url n
resolved (refused code) = settles RelayLinkState.rejected code
resolved (transient code) = fails crashed
resolved failed = fails crashed

-- `except TransientUrlError` and `except SafeUrlError`
abbrev pub expanded : Answer → Route
expanded (led_to url n) = leads url n
expanded (refused code) = settles RelayLinkState.rejected code
expanded (transient code) = fails (processing_error true code none)
expanded failed = fails crashed

abbrev pub resolve_short : Option (Text → Answer) → Text → Route
resolve_short none url = settles RelayLinkState.rejected "ALIEXPRESS_SHORT_URL_UNSUPPORTED"
resolve_short (some resolve) url = resolved (resolve url)

abbrev pub changed_url : (url input : Text) → Option Text
changed_url url input = if same url input then none else some url

abbrev pub or_empty : Option Text → Text
or_empty none = []
or_empty (some t) = t

abbrev pub canonical_outcome : (url input : Text) → ℕ → CanonicalUrlResult → LinkOutcome
canonical_outcome url input n c = record {
  state = c.state;
  reason_code = c.reason_code;
  expanded_url = changed_url url input;
  redirect_count = n;
  store = c.store;
  external_product_id = c.external_product_id;
  canonical_url = c.canonical_url;
}

abbrev pub duplicate_outcome : (url : Text) → ℕ → CanonicalUrlResult → LinkOutcome
duplicate_outcome url n c = record {
  state = RelayLinkState.ignored;
  reason_code = "DUPLICATE_CANONICAL";
  expanded_url = some url;
  redirect_count = n;
  store = c.store;
  external_product_id = c.external_product_id;
  canonical_url = c.canonical_url;
}

abbrev pub with_links : LinkStore → Links → LinkStore
with_links s links = record s { links = links }

abbrev pub is_known : Option ProcessedItem → Text → Bool
is_known none hash = false
is_known (some item) hash = same item.deal_hash hash

-- A session that raises leaves the tables as they were.
abbrev pub committed : LinkStore → Result LinkError LinkStore → LinkStore × Ending
committed s (ok s') = (s', processed)
committed s (raised e) = (s, crashed)

abbrev pub is_pending : RelayLinkState → Bool
is_pending RelayLinkState.pending_affiliate = true
is_pending _ = false

abbrev pub is_received : RelayLinkState → Bool
is_received RelayLinkState.received = true
is_received _ = false

abbrev pub after_link : LinkStore × Ending → (LinkStore → LinkStore × Ending) → LinkStore × Ending
after_link (s, processed) rest = rest s
after_link (s, processing_error retryable code summary) rest =
    (s, processing_error retryable code summary)
after_link (s, crashed) rest = (s, crashed)

module _ (p : Linker) where
  abbrev pub is_aliexpress_url : Text → Bool
  is_aliexpress_url url = is_aliexpress_host (hostname_from_url p.web url)

  unfoldable pub route : Text → Route
  route url =
      if is_aliexpress_redirector_url p.web url
      then resolve_short p.aliexpress_short_resolver url
      else if p.preserve_non_aliexpress && not (is_aliexpress_url url)
      then settles RelayLinkState.ignored "NON_ALIEXPRESS_LINK_PRESERVED"
      else if is_shortener_url p.web url
      then expanded (p.expand url)
      else if not (is_allowed_network_url p.web url)
      then settles RelayLinkState.ignored "UNSUPPORTED_DOMAIN"
      else leads url 0

  -- `ensure_for_link`, for the stores whose candidates are made at once
  abbrev pub ensure_candidate : (now i : ℕ) → Store → Text → LinkStore → Result LinkError LinkStore
  ensure_candidate now i store variation s =
      if is_store store Store.shopee || is_store store Store.aliexpress
      then (ensure_for_link p.web p.links p.candidates now i variation s.links s.candidates >>= λ r.
          ok (record s { links = r.0; candidates = r.1 }))
      else ok s

  -- The session that keeps a product: a known one is a duplicate, a new one is recorded.
  unfoldable pub keep_product :
      (now i : ℕ) (input url : Text) (n : ℕ) (c : CanonicalUrlResult)
      → Store
      → Text
      → Text
      → LinkStore
      → Result LinkError LinkStore
  keep_product now i input url n c store id canonical s =
      let variation = or_empty c.variation_key in
      let hash = p.sha256 canonical in
      if is_known (find_item p.items store id variation s.items) hash
      then ensure_candidate now i store variation
          (with_links s (set_outcome p.links i (duplicate_outcome url n c) s.links))
      else (record_item p.items store id variation hash (some RelayLinkState.pending_affiliate)
            s.items
          >>= λ items. ensure_candidate now i store variation (record s {
            links = set_outcome p.links i (canonical_outcome url input n c) s.links;
            items = items;
          }))

  abbrev pub settle : (i : ℕ) → LinkOutcome → LinkStore → LinkStore × Ending
  settle i o s = (with_links s (set_outcome p.links i o s.links), processed)

  abbrev pub keep_if :
      (now i : ℕ) (input url : Text) (n : ℕ) (c : CanonicalUrlResult)
      → Bool
      → Option Store
      → Option Text
      → Option Text
      → LinkStore
      → LinkStore × Ending
  keep_if now i input url n c true (some store) (some id) (some canonical) s =
      committed s (keep_product now i input url n c store id canonical s)
  keep_if now i input url n c _ _ _ _ s = settle i (canonical_outcome url input n c) s

  abbrev pub canonicalized :
      (now i : ℕ) (input url : Text)
      → ℕ
      → Option CanonicalUrlResult
      → LinkStore
      → LinkStore × Ending
  canonicalized now i input url n none s = (s, crashed)
  canonicalized now i input url n (some c) s =
      keep_if now i input url n c (is_pending c.state) c.store c.external_product_id c.canonical_url
        s

  abbrev pub routed : (now i : ℕ) (input : Text) → Route → LinkStore → LinkStore × Ending
  routed now i input (leads url n) s =
      canonicalized now i input url n (canonicalize_store_url p.web url) s
  routed now i input (settles state reason) s = settle i (outcome_only state reason) s
  routed now i input (fails e) s = (s, e)

  abbrev pub received_args : ℕ → ExtractedLink → ReceivedLink
  received_args message link = record {
    source_message_id = message;
    ordinal = link.ordinal;
    source_kind = link.source;
    input_hash = p.sha256 link.url;
    input_url = link.url;
  }

  abbrev pub after_receipt :
      (now : ℕ) (link : ExtractedLink)
      → LinkStore
      → Result LinkError (Links × Link)
      → LinkStore × Ending
  after_receipt now link s (raised e) = (s, crashed)
  after_receipt now link s (ok (t, l)) =
      if is_received l.state
      then routed now l.id link.url (route link.url) (with_links s t)
      else (with_links s t, processed)

  unfoldable pub process_link : (now message : ℕ) → ExtractedLink → LinkStore → LinkStore × Ending
  process_link now message link s =
      after_receipt now link s (record_received p.links (received_args message link) s.links)

  -- The loop of `process` over the links of a message, up to the first that fails; `clock` reads the
  -- time at each.
  unfoldable pub process_links :
      (clock : ℕ → ℕ) (message k : ℕ) → List ExtractedLink → LinkStore → LinkStore × Ending
  process_links clock message k [] s = (s, processed)
  process_links clock message k (link ∷ links) s =
      after_link (process_link (clock k) message link s) (process_links clock message (k + 1) links)
