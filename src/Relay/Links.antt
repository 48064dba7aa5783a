-- ===== src/Relay/Links.antt =====
-- The links of a message: `SourceMessageLinkRepository`, `ProcessedItemRepository` and
-- `AffiliateCandidateRepository.ensure_for_link` of src/promo_bot/database/repositories.py. A link and a
-- candidate hold their addresses as lists of code points, and a link its store as the value of `Store`
-- that the text in the column stands for.
pub mod Process
pub mod Backfill
pub mod Handled
pub mod Settled
pub mod Loop
use promo_bot.Base.{
  ℕ, Bool, true, false, not, ◌&&◌, ◌||◌, Option, none, some, String, List, [], ◌∷◌, ◌==◌, any,
  if◌then◌else◌, Result, ok, raised, ◌>>=◌, ◌>>◌, require, is_none, str_eq,
}
use promo_bot.Domain.Enums.{Store, LinkSource, RelayLinkState, AffiliateCandidateState}
use promo_bot.Sql.Rows.{Sql, get, first}
use promo_bot.Sql.Keys.{at_key}
use promo_bot.Stores.Patterns.{Text, codes, same}
use promo_bot.Stores.Urls.{Web, CanonicalUrlResult, canonicalize_store_url}
use promo_bot.Relay.Candidates.{Candidate, Candidates, candidate_key}

pub record Link : Type 0 where
  pub id : ℕ
  pub source_message_id : ℕ
  pub ordinal : ℕ
  pub source_kind : LinkSource
  pub input_hash : Text
  pub input_url : Text
  pub expanded_url : Option Text
  pub redirect_count : ℕ
  pub store : Option Store
  pub external_product_id : Option Text
  pub canonical_url : Option Text
  pub state : RelayLinkState
  pub reason_code : Option String
  pub affiliate_candidate_id : Option ℕ

abbrev pub link_key : Link → ℕ
link_key l = l.id

abbrev pub Links : Type 0
Links = List Link

pub record ProcessedItem : Type 0 where
  pub id : ℕ
  pub store : Store
  pub external_product_id : Text
  pub variation_key : Text
  pub deal_hash : Text
  pub last_sent_at : Option ℕ
  pub last_price : Option ℕ
  pub last_coupon : Option String
  pub cooldown_until : Option ℕ
  pub details : Option RelayLinkState

abbrev pub item_key : ProcessedItem → ℕ
item_key p = p.id

-- the arguments of `record_received`
pub record ReceivedLink : Type 0 where
  pub source_message_id : ℕ
  pub ordinal : ℕ
  pub source_kind : LinkSource
  pub input_hash : Text
  pub input_url : Text

-- the arguments of `set_outcome`, but the identifier
pub record LinkOutcome : Type 0 where
  pub state : RelayLinkState
  pub reason_code : String
  pub expanded_url : Option Text
  pub redirect_count : ℕ
  pub store : Option Store
  pub external_product_id : Option Text
  pub canonical_url : Option Text

pub data LinkError : Type 0 where
  -- the `ValueError`s of `ensure_for_link`
  not_eligible store_not_enabled shopee_identity mercadolivre_identity aliexpress_identity :
      LinkError
  -- its `RuntimeError`s
  not_read_back already_attached : LinkError
  -- `ValueError` of `urlsplit`, and `IntegrityError`
  unreadable_url integrity : LinkError

abbrev pub received_link : ReceivedLink → ℕ → Link
received_link a id = record {
  id = id;
  source_message_id = a.source_message_id;
  ordinal = a.ordinal;
  source_kind = a.source_kind;
  input_hash = a.input_hash;
  input_url = a.input_url;
  expanded_url = none;
  redirect_count = 0;
  store = none;
  external_product_id = none;
  canonical_url = none;
  state = RelayLinkState.received;
  reason_code = none;
  affiliate_candidate_id = none;
}

abbrev pub is_link : (message : ℕ) (hash : Text) → Link → Bool
is_link message hash l = l.source_message_id == message && same l.input_hash hash

abbrev pub with_outcome : LinkOutcome → Link → Link
with_outcome o l = record l {
  state = o.state;
  reason_code = some o.reason_code;
  expanded_url = o.expanded_url;
  redirect_count = o.redirect_count;
  store = o.store;
  external_product_id = o.external_product_id;
  canonical_url = o.canonical_url;
}

abbrev pub with_candidate : ℕ → Link → Link
with_candidate id l = record l { affiliate_candidate_id = some id }

abbrev pub always : Link → Bool
always l = true

abbrev pub or_raise : {A : Type 0} → Option A → LinkError → Result LinkError A
or_raise none e = raised e
or_raise (some a) e = ok a

module _ (sql : Sql Link link_key) where
  -- `scalar_one`, of a row that the uniqueness constraint makes the only one
  abbrev pub link_of : (message : ℕ) (hash : Text) → Links → Option Link
  link_of message hash t = first (sql.select (is_link message hash) t)

  abbrev pub received_row : ReceivedLink → Links → Result LinkError (Links × Link)
  received_row a t = do
    l ← or_raise (link_of a.source_message_id a.input_hash t) not_read_back
    ok (t, l)

  unfoldable pub record_received : ReceivedLink → Links → Result LinkError (Links × Link)
  record_received a t = do
    (t', n) ←
        or_raise
          (sql.insert (is_link a.source_message_id a.input_hash) (λ l. false) (received_link a) t)
          integrity
    received_row a t'

  unfoldable pub set_outcome : ℕ → LinkOutcome → Links → Links
  set_outcome i o t = (sql.update (at_key link_key i always) (with_outcome o) t).0

abbrev pub is_store : Store → Store → Bool
is_store Store.mercadolivre Store.mercadolivre = true
is_store Store.amazon Store.amazon = true
is_store Store.shopee Store.shopee = true
is_store Store.aliexpress Store.aliexpress = true
is_store Store.kabum Store.kabum = true
is_store _ _ = false

abbrev pub store_value : Store → String
store_value Store.mercadolivre = "mercadolivre"
store_value Store.amazon = "amazon"
store_value Store.shopee = "shopee"
store_value Store.aliexpress = "aliexpress"
store_value Store.kabum = "kabum"

-- The row of a product and its variation.
abbrev pub is_item : Store → Text → Text → ProcessedItem → Bool
is_item store id variation p =
    is_store p.store store && same p.external_product_id id && same p.variation_key variation

abbrev pub with_hash : Text → Option RelayLinkState → ProcessedItem → ProcessedItem
with_hash hash details p = record p {
  deal_hash = hash;
  last_sent_at = none;
  last_price = none;
  last_coupon = none;
  cooldown_until = none;
  details = if is_none details then p.details else details;
}

abbrev pub new_item : Store → Text → Text → Text → Option RelayLinkState → ℕ → ProcessedItem
new_item store id variation hash details key = record {
  id = key;
  store = store;
  external_product_id = id;
  variation_key = variation;
  deal_hash = hash;
  last_sent_at = none;
  last_price = none;
  last_coupon = none;
  cooldown_until = none;
  details = details;
}

module _ (sql : Sql ProcessedItem item_key) where
  abbrev pub find_item : Store → Text → Text → List ProcessedItem → Option ProcessedItem
  find_item store id variation t = first (sql.select (is_item store id variation) t)

  abbrev inserted : Option (List ProcessedItem × ℕ) → Result LinkError (List ProcessedItem)
  inserted none = raised integrity
  inserted (some (t, n)) = ok t

  abbrev recorded :
      Store
      → Text
      → Text
      → Text
      → Option RelayLinkState
      → Option ProcessedItem
      → List ProcessedItem
      → Result LinkError (List ProcessedItem)
  recorded store id variation hash details none t = inserted (
      sql.insert (λ p. false) (is_item store id variation)
        (new_item store id variation hash details) t)
  recorded store id variation hash details (some p) t =
      ok (sql.update (λ q. item_key q == p.id) (with_hash hash details) t).0

  -- `ProcessedItemRepository.record`, as it is called: with no time, price, coupon or cooldown
  unfoldable pub record_item :
      Store
      → Text
      → Text
      → Text
      → Option RelayLinkState
      → List ProcessedItem
      → Result LinkError (List ProcessedItem)
  record_item store id variation hash details t =
      recorded store id variation hash details (find_item store id variation t) t

-- The stores that have affiliate candidates, and those whose links are attached at once.
abbrev pub is_enabled : Store → Bool
is_enabled store =
    is_store store Store.shopee
    || is_store store Store.mercadolivre
    || is_store store Store.aliexpress

abbrev pub identity_error : Store → LinkError
identity_error Store.shopee = shopee_identity
identity_error Store.mercadolivre = mercadolivre_identity
identity_error _ = aliexpress_identity

abbrev pub nonempty : Option Text → Option Text
nonempty none = none
nonempty (some []) = none
nonempty (some (c ∷ s)) = some (c ∷ s)

abbrev pub is_text : Option Text → Text → Bool
is_text none t = false
is_text (some s) t = same s t

abbrev pub is_same_store : Option Store → Store → Bool
is_same_store none store = false
is_same_store (some s) store = is_store s store

abbrev pub same_product : CanonicalUrlResult → Store → Text → Bool
same_product c store id = is_same_store c.store store && is_text c.external_product_id id

abbrev pub new_candidate : Store → Text → Text → Text → (now key : ℕ) → Candidate
new_candidate store id variation url now key = record {
  id = key;
  store = store_value store;
  external_product_id = id;
  variation_key = variation;
  canonical_url = url;
  created_at = now;
  state = AffiliateCandidateState.pending_affiliate;
  attempt_count = 0;
  last_attempt_at = none;
  next_attempt_at = none;
  processing_started_at = none;
  processing_lease_until = none;
  enriched_at = none;
  error_code = none;
  error_summary = none;
  product_id = none;
  deal_id = none;
}

abbrev pub is_candidate : Store → Text → Text → Candidate → Bool
is_candidate store id variation c =
    str_eq c.store (store_value store)
    && same c.external_product_id id
    && same c.variation_key variation

-- What a link needs to have a candidate: a store, an identifier and an address that agree.
module _ (web : Web) where
  unfoldable pub eligible_product : Link → Result LinkError (Store × Text × Text)
  eligible_product l = do
    store ← or_raise l.store not_eligible
    id ← or_raise (nonempty l.external_product_id) not_eligible
    url ← or_raise (nonempty l.canonical_url) not_eligible
    require (is_enabled store) store_not_enabled
    canonical ← or_raise (canonicalize_store_url web url) unreadable_url
    require (same_product canonical store id) (identity_error store)
    require (not (is_store store Store.shopee) || any (λ c. c == 58) id) shopee_identity
    require (not (is_store store Store.aliexpress) || web.isdigit id) aliexpress_identity
    ok (store, id, url)

module _ (web : Web) (links_sql : Sql Link link_key) (sql : Sql Candidate candidate_key) where
  -- the last step: the link is attached, or is attached to this candidate already
  abbrev pub attached : Link → Candidate → Option ℕ → Links → Result LinkError Links
  attached l c none t =
      ok (links_sql.update (at_key link_key l.id always) (with_candidate c.id) t).0
  attached l c (some i) t = if i == c.id then ok t else raised already_attached

  unfoldable pub ensure_for_link :
      (now i : ℕ) (variation : Text) → Links → Candidates → Result LinkError (Links × Candidates)
  ensure_for_link now i variation links t = do
    l ← or_raise (get links_sql i links) not_eligible
    (store, id, url) ← eligible_product web l
    (t', n) ←
        or_raise
          (sql.insert (is_candidate store id variation) (λ c. false)
            (new_candidate store id variation url now) t)
          integrity
    c ← or_raise (first (sql.select (is_candidate store id variation) t')) not_read_back
    links' ← attached l c l.affiliate_candidate_id links
    ok (links', t')
