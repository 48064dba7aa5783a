-- ===== src/Stores/Urls.antt =====
-- src/promo_bot/stores/urls.py: hosts, shorteners and `canonicalize_store_url`. A text is the list of
-- its code points. `urllib.parse`, the IDNA codec, `str.casefold` and `str.isdigit` are parameters.
pub mod Groups
pub mod Products
pub mod Libraries
pub mod RoundTrip
pub mod Outcomes
use promo_bot.Base.{
  ℕ, ◌+◌, ◌≡◌, Bool, true, false, not, ◌&&◌, ◌||◌, ◌==◌, Option, none, some, String, List, [], ◌∷◌,
  ◌++◌, if◌then◌else◌, any, is_none, map,
}
use promo_bot.Domain.Enums.{RelayLinkState, Store}
use promo_bot.Stores.Patterns.{
  Text, codes, same, starts_with, or_else, search_in, upper_letter, amazon_at, mercadolivre_at,
  shopee_at, shopee_i_at, aliexpress_at, kabum_at,
}

-- What is read of the result of `urlsplit`; reading the port may raise `ValueError`, here `none`.
pub record UrlParts : Type 0 where
  pub scheme : Text
  pub netloc : Text
  pub path : Text
  pub query : Text
  pub hostname : Option Text
  pub username : Option Text
  pub password : Option Text
  pub port : Option (Option ℕ)

-- `none` stands for `ValueError`, for `idna` for `UnicodeError`.
pub record Web : Type 0 where
  pub urlsplit : Text → Option UrlParts
  -- scheme, authority, path and query, with no fragment
  pub urlunsplit : Text → Text → Text → Text → Text
  -- `parse_qsl(query, keep_blank_values=True)`
  pub parse_qsl : Text → List (Text × Text)
  -- `urlencode({key: value})`
  pub urlencode : Text → Text → Text
  pub idna : Text → Option Text
  pub casefold : Text → Text
  pub isdigit : Text → Bool

pub record CanonicalUrlResult : Type 0 where
  pub state : RelayLinkState
  pub reason_code : String
  pub store : Option Store
  pub external_product_id : Option Text
  pub variation_key : Option Text
  pub canonical_url : Option Text

abbrev pub one_of : Text → List String → Bool
one_of t names = any (λ n. same t (codes n)) names

abbrev pub amazon_hosts : List String
amazon_hosts = "amazon.com.br" ∷ "www.amazon.com.br" ∷ []

abbrev pub mercadolivre_hosts : List String
mercadolivre_hosts =
    "mercadolivre.com.br" ∷ "www.mercadolivre.com.br" ∷ "produto.mercadolivre.com.br" ∷ []

abbrev pub shopee_hosts : List String
shopee_hosts = "shopee.com.br" ∷ "www.shopee.com.br" ∷ []

abbrev pub aliexpress_hosts : List String
aliexpress_hosts =
    "aliexpress.com" ∷ "www.aliexpress.com" ∷ "pt.aliexpress.com" ∷ "de.aliexpress.com" ∷ []

abbrev pub kabum_hosts : List String
kabum_hosts = "kabum.com.br" ∷ "www.kabum.com.br" ∷ []

abbrev pub aliexpress_redirector_hosts : List String
aliexpress_redirector_hosts = "a.aliexpress.com" ∷ "s.click.aliexpress.com" ∷ []

abbrev pub shortener_hosts : List String
shortener_hosts = "amzn.to" ∷ "meli.la" ∷ "s.shopee.com.br" ∷ aliexpress_redirector_hosts

abbrev pub ambiguous_variation_keys : List String
ambiguous_variation_keys =
    "color" ∷ "colour" ∷ "model" ∷ "size" ∷ "sku" ∷ "variant" ∷ "variation" ∷ "variacao" ∷ []

abbrev pub removable_query_keys : List String
removable_query_keys =
    "ascsubtag" ∷ "awc" ∷ "creativeasin" ∷ "gatewayadapt" ∷ "linkcode" ∷ "psc" ∷ "ref"
    ∷ "share_channel_code" ∷ "sk" ∷ "smid" ∷ "sp_atk" ∷ "spm" ∷ "tag" ∷ "th" ∷ "tracking_id"
    ∷ "uls_trackid" ∷ "xptdk" ∷ []

abbrev pub removable_query_prefixes : List String
removable_query_prefixes = "aff_" ∷ "matt_" ∷ "ref_" ∷ "utm_" ∷ []

abbrev strip_dot : ℕ → Text → Text
strip_dot c [] = if c == 46 then [] else c ∷ []
strip_dot c (d ∷ s) = c ∷ d ∷ s

-- `rstrip(".")`
abbrev pub rstrip_dots : Text → Text
rstrip_dots [] = []
rstrip_dots (c ∷ s) = strip_dot c (rstrip_dots s)

-- `bool(text)` of a text that may be missing
abbrev pub present : Option Text → Bool
present none = false
present (some []) = false
present (some (c ∷ s)) = true

-- The identifier and the canonical address of the product in a path of a store.
abbrev pub named : String → Option Text → Option (Text × Text)
named prefix none = none
named prefix (some id) = some (id, codes prefix ++ id)

abbrev pub amazon_product : Option Text → Option (Text × Text)
amazon_product none = none
amazon_product (some id) = named "https://www.amazon.com.br/dp/" (some (map upper_letter id))

abbrev pub mercadolivre_product : Option Text → Option (Text × Text)
mercadolivre_product none = none
mercadolivre_product (some d) =
    some (codes "MLB" ++ d, codes "https://produto.mercadolivre.com.br/MLB-" ++ d)

abbrev pub shopee_product : Option (Text × Text) → Option (Text × Text)
shopee_product none = none
shopee_product (some (shop, item)) = some (
  shop ++ (codes ":" ++ item),
  codes "https://shopee.com.br/product/" ++ (shop ++ (codes "/" ++ item)),
)

abbrev pub aliexpress_product : Option Text → Option (Text × Text)
aliexpress_product none = none
aliexpress_product (some id) =
    some (id, codes "https://www.aliexpress.com/item/" ++ id ++ codes ".html")

unfoldable pub identify : Store → Text → Option (Text × Text)
identify Store.amazon path = amazon_product (search_in amazon_at path)
identify Store.mercadolivre path = mercadolivre_product (search_in mercadolivre_at path)
identify Store.shopee path =
    shopee_product (or_else (search_in shopee_at path) (search_in shopee_i_at path))
identify Store.aliexpress path = aliexpress_product (search_in aliexpress_at path)
identify Store.kabum path = named "https://www.kabum.com.br/produto/" (search_in kabum_at path)

-- The query by case-folded key, each with its values in order.
abbrev pub Query : Type 0
Query = List (Text × List Text)

unfoldable pub add_value : Text → Text → Query → Query
add_value k v [] = (k, v ∷ []) ∷ []
add_value k v ((j, vs) ∷ q) = if same j k then (j, vs ++ v ∷ []) ∷ q else (j, vs) ∷ add_value k v q

unfoldable pub values : Text → Query → List Text
values k [] = []
values k ((j, vs) ∷ q) = if same j k then vs else values k q

abbrev pub has_key : Query → Text → Bool
has_key q k = any (λ entry. same entry.0 k) q

abbrev pub explicit_keys : Store → List Text
explicit_keys Store.shopee = codes "variationid" ∷ []
explicit_keys Store.aliexpress = codes "sku_id" ∷ codes "skuid" ∷ []
explicit_keys _ = []

abbrev pub found_if : Text → List Text → List (Text × List Text) → List (Text × List Text)
found_if k [] rest = rest
found_if k (v ∷ vs) rest = (k, v ∷ vs) ∷ rest

-- `[(key, query[key]) for key in explicit_keys if query.get(key)]`
abbrev pub found : List Text → Query → List (Text × List Text)
found [] q = []
found (k ∷ ks) q = found_if k (values k q) (found ks q)

abbrev pub variation_name : Store → Text → Text
variation_name Store.aliexpress k = codes "sku_id"
variation_name _ k = k

abbrev pub is_known_query_key : Store → Text → Bool
is_known_query_key store key =
    one_of key ambiguous_variation_keys
    || any (same key) (explicit_keys store)
    || one_of key removable_query_keys
    || any (λ prefix. starts_with key (codes prefix)) removable_query_prefixes

-- `variation_key.split(":", 1)`
abbrev pub before_colon : Text → Text
before_colon [] = []
before_colon (c ∷ s) = if c == 58 then [] else c ∷ before_colon s

abbrev pub after_colon : Text → Text
after_colon [] = []
after_colon (c ∷ s) = if c == 58 then s else after_colon s

abbrev pub refused : RelayLinkState → String → Option Store → CanonicalUrlResult
refused state reason store = record {
  state = state;
  reason_code = reason;
  store = store;
  external_product_id = none;
  variation_key = none;
  canonical_url = none;
}

abbrev pub pending : Store → Text → Text → Text → CanonicalUrlResult
pending store id variation url = record {
  state = RelayLinkState.pending_affiliate;
  reason_code = "AFFILIATE_PROVIDER_UNAVAILABLE";
  store = some store;
  external_product_id = some id;
  variation_key = some variation;
  canonical_url = some url;
}

abbrev pub is_port : Option ℕ → Bool
is_port none = true
is_port (some p) = p == 80 || p == 443

abbrev pub text_or_empty : Option Text → Text
text_or_empty none = []
text_or_empty (some t) = t

module _ (web : Web) where
  abbrev pub ascii_host : Option Text → Text
  ascii_host none = []
  ascii_host (some t) = web.casefold t

  abbrev pub normalize_hostname : Text → Text
  normalize_hostname hostname = ascii_host (web.idna (rstrip_dots hostname))

  abbrev pub host_of_name : Option Text → Option Text
  host_of_name none = none
  host_of_name (some []) = none
  host_of_name (some (c ∷ s)) = some (normalize_hostname (c ∷ s))

  abbrev pub host_of_parts : Option UrlParts → Option Text
  host_of_parts none = none
  host_of_parts (some parts) = host_of_name parts.hostname

  unfoldable pub hostname_from_url : Text → Option Text
  hostname_from_url url = host_of_parts (web.urlsplit url)

  unfoldable pub store_for_host : Text → Option Store
  store_for_host hostname =
      let host = normalize_hostname hostname in
      if one_of host amazon_hosts
      then some Store.amazon
      else if one_of host mercadolivre_hosts
      then some Store.mercadolivre
      else if one_of host shopee_hosts
      then some Store.shopee
      else if one_of host aliexpress_hosts
      then some Store.aliexpress
      else if one_of host kabum_hosts
      then some Store.kabum
      else none

  abbrev pub is_host_in : Option Text → List String → Bool
  is_host_in none hosts = false
  is_host_in (some host) hosts = one_of host hosts

  abbrev pub is_shortener_parts : Option UrlParts → Bool
  is_shortener_parts none = false
  is_shortener_parts (some parts) =
      is_host_in (host_of_name parts.hostname) shortener_hosts
      || is_host_in (host_of_name parts.hostname) mercadolivre_hosts
        && starts_with (web.casefold parts.path) (codes "/sec/")

  unfoldable pub is_shortener_url : Text → Bool
  is_shortener_url url = is_shortener_parts (web.urlsplit url)

  unfoldable pub is_aliexpress_redirector_url : Text → Bool
  unfolding hostname_from_url
  is_aliexpress_redirector_url url = is_host_in (hostname_from_url url) aliexpress_redirector_hosts

  unfoldable pub is_allowed_network_url : Text → Bool
  unfolding hostname_from_url
  is_allowed_network_url url = is_host_in (hostname_from_url url) (
      amazon_hosts ++ mercadolivre_hosts ++ shopee_hosts ++ aliexpress_hosts ++ kabum_hosts
      ++ shortener_hosts)

  unfoldable pub gather : List (Text × Text) → Query → Query
  gather [] q = q
  gather ((k, v) ∷ ps) q = gather ps (add_value (web.casefold k) v q)

  -- The variation key, and whether it is ambiguous.
  abbrev pub variation_of : Store → List (Text × List Text) → Text × Bool
  variation_of store [] = ([], false)
  variation_of store ((k, []) ∷ more) = ([], true)
  variation_of store ((k, v ∷ []) ∷ []) =
      if web.isdigit v then (variation_name store k ++ 58 ∷ v, false) else ([], true)
  variation_of store ((k, v ∷ []) ∷ e ∷ more) = ([], true)
  variation_of store ((k, v ∷ w ∷ vs) ∷ more) = ([], true)

  unfoldable pub variation_key : Store → Query → Text × Bool
  variation_key store q =
      if any (λ key. has_key q (codes key)) ambiguous_variation_keys
      then ([], true)
      else variation_of store (found (explicit_keys store) q)

  -- `urlunsplit((*urlsplit(canonical_url)[:3], urlencode({key: value}), ""))`
  abbrev pub with_variation : Text → Option UrlParts → Option Text
  with_variation variation none = none
  with_variation variation (some parts) = some (
      web.urlunsplit parts.scheme parts.netloc parts.path
        (web.urlencode (before_colon variation) (after_colon variation)))

  abbrev pub finish_with : Store → Text → Text → Option Text → Option CanonicalUrlResult
  finish_with store id variation none = none
  finish_with store id variation (some url) = some (pending store id variation url)

  unfoldable pub finish : Store → Text → Text → Text → Option CanonicalUrlResult
  finish store id url [] = some (pending store id [] url)
  finish store id url (c ∷ s) =
      finish_with store id (c ∷ s) (with_variation (c ∷ s) (web.urlsplit url))

  abbrev pub unless_ambiguous : Store → Text → Text → Text × Bool → Option CanonicalUrlResult
  unless_ambiguous store id url (variation, true) =
      some (refused RelayLinkState.manual_review "VARIATION_AMBIGUOUS" (some store))
  unless_ambiguous store id url (variation, false) = finish store id url variation

  unfoldable pub with_query : Store → Text → Text → Query → Option CanonicalUrlResult
  with_query store id url q =
      if any (λ entry. not (is_known_query_key store entry.0)) q
      then some (refused RelayLinkState.manual_review "QUERY_SEMANTICS_UNKNOWN" (some store))
      else unless_ambiguous store id url (variation_key store q)

  abbrev pub for_product : Store → Text → Option (Text × Text) → Option CanonicalUrlResult
  for_product store query none =
      some (refused RelayLinkState.manual_review "PRODUCT_ID_NOT_FOUND" (some store))
  for_product store query (some (id, url)) =
      with_query store id url (gather (web.parse_qsl query) [])

  abbrev pub for_store : Text → UrlParts → Option Store → Option CanonicalUrlResult
  for_store host parts none = some (
      if one_of host shortener_hosts
      then refused RelayLinkState.manual_review "UNEXPANDED_SHORT_URL" none
      else refused RelayLinkState.ignored "UNSUPPORTED_DOMAIN" none)
  for_store host parts (some store) = for_product store parts.query (identify store parts.path)

  abbrev pub store_of : Option Text → Option Store
  store_of none = none
  store_of (some []) = none
  store_of (some (c ∷ s)) = store_for_host (c ∷ s)

  abbrev pub has_unsafe_authority : UrlParts → Option ℕ → Bool
  has_unsafe_authority parts port =
      not (one_of (web.casefold parts.scheme) ("http" ∷ "https" ∷ []))
      || not (is_none parts.username)
      || not (is_none parts.password)
      || not (is_port port)

  unfoldable pub for_parts : UrlParts → Option ℕ → Option CanonicalUrlResult
  for_parts parts port =
      if has_unsafe_authority parts port
      then some (refused RelayLinkState.rejected "UNSAFE_URL_AUTHORITY" none)
      else let host = host_of_name parts.hostname in
        for_store (text_or_empty host) parts (store_of host)

  abbrev pub split_port : UrlParts → Option (Option ℕ) → Option CanonicalUrlResult
  split_port parts none = some (refused RelayLinkState.rejected "INVALID_URL" none)
  split_port parts (some port) = for_parts parts port

  abbrev pub split_parts : Option UrlParts → Option CanonicalUrlResult
  split_parts none = some (refused RelayLinkState.rejected "INVALID_URL" none)
  split_parts (some parts) = split_port parts parts.port

  -- `none` where the last call of `urlsplit` raises `ValueError`
  unfoldable pub canonicalize_store_url : Text → Option CanonicalUrlResult
  canonicalize_store_url url = split_parts (web.urlsplit url)
