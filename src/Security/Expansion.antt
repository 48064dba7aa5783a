-- ===== src/Security/Expansion.antt =====
-- `SafeUrlExpander` of src/promo_bot/security/urls.py, with the host names of
-- src/promo_bot/stores/urls.py. The resolver, the requester, `urlsplit`, `urljoin`, the IDNA codec and
-- `ipaddress` are parameters. The resolver and the requester may answer differently at every hop. A
-- set is a list, in the order of its iteration.
pub mod Safety
pub mod Loop
use Prim.Native.Char.{Char, char, code, IsScalar}
use Prim.Native.Nat.{compare, Ordering}
use promo_bot.Base.{
  ℕ, zero, suc, ◌+◌, ◌≡◌, Bool, true, false, not, ◌&&◌, ◌||◌, ◌==◌, leb, Option, none, some, String,
  List, [], ◌∷◌, if◌then◌else◌, Result, ok, raised, ◌>>=◌, ◌>>◌, refl, arith, require, any, str_eq,
  is_none,
}

-- The codes of the errors.
pub data UrlCode : Type 0 where
  invalid_url unsupported_scheme missing_host url_credentials_forbidden domain_not_allowed
        port_not_allowed :
      UrlCode
  dns_resolution_failed dns_empty_result dns_invalid_address dns_non_global_address : UrlCode
  peer_ip_unverified peer_ip_invalid peer_ip_non_global peer_ip_dns_mismatch : UrlCode
  http_forbidden_or_challenge redirect_without_location too_many_redirects https_downgrade_forbidden
        invalid_redirect_url :
      UrlCode
  http : (status : ℕ) → UrlCode
  other : (code : String) → UrlCode

pub data UrlError : Type 0 where
  -- `SafeUrlError` and `TransientUrlError`
  safe : UrlCode → UrlError
  transient : UrlCode → UrlError
  -- what `urljoin` raises for an address that it cannot read
  value_error : UrlError

-- What is read of the result of `urlsplit`; reading the port may raise `ValueError`, here `none`.
pub record Parts : Type 0 where
  pub scheme : String
  pub hostname : Option String
  pub username : Option String
  pub password : Option String
  pub port : Option (Option ℕ)

-- An address of `ipaddress`: its text and `is_global`.
pub record Address : Type 0 where
  pub text : String
  pub is_global : Bool

pub record ValidatedTarget : Type 0 where
  pub url : String
  pub hostname : String
  pub port : ℕ
  pub allowed_ips : List String

pub record HopResponse : Type 0 where
  pub status_code : ℕ
  pub headers : String → Option String
  pub peer_ip : Option String

pub record UrlExpansionResult : Type 0 where
  pub url : String
  pub redirect_count : ℕ

-- The libraries and the network. `none` stands for `ValueError`, for `idna` for `UnicodeError`; the
-- number of the hop comes first where an answer may differ from hop to hop.
pub record Net : Type 0 where
  pub urlsplit : String → Option Parts
  pub urljoin : String → String → Option String
  pub idna : String → Option String
  pub ip_address : String → Option Address
  pub resolve : ℕ → String → ℕ → Result UrlError (List String)
  pub fetch : ℕ → String → List String → Result UrlError HopResponse

abbrev pub member : String → List String → Bool
member s ss = any (str_eq s) ss

-- `str.casefold`, of ASCII text as it is used here
pub lower-IsScalar : (n : ℕ) → leb n 90 ≡ true → IsScalar (n + 32)
lower-IsScalar n h = let small : compare (n + 32) 55296 ≡ Ordering.lt = ground arith in rw small tt

abbrev pub folded_char : (n : ℕ) → IsScalar n → (b : Bool) → leb n 90 ≡ b → Char
folded_char n s true h = if leb 65 n then char (n + 32) (lower-IsScalar n h) else char n s
folded_char n s false h = char n s

abbrev pub fold_char : Char → Char
fold_char (char n s) = folded_char n s (leb n 90) refl

unfoldable pub casefold : String → String
casefold String.[] = ""
casefold (String.◌∷◌ c s) = String.◌∷◌ (fold_char c) (casefold s)

-- `rstrip(".")`
unfoldable pub rstrip_dots : String → String
rstrip_dots String.[] = ""
rstrip_dots (String.◌∷◌ c s) =
    let rest = rstrip_dots s in if str_eq rest "" && code c == 46 then "" else String.◌∷◌ c rest

-- `split("%", 1)[0]`
unfoldable pub before_percent : String → String
before_percent String.[] = ""
before_percent (String.◌∷◌ c s) =
    let rest = before_percent s in if code c == 37 then "" else String.◌∷◌ c rest

abbrev pub allowed_network_hosts : List String
allowed_network_hosts =
    "amazon.com.br" ∷ "www.amazon.com.br" ∷ "mercadolivre.com.br" ∷ "www.mercadolivre.com.br"
    ∷ "produto.mercadolivre.com.br" ∷ "shopee.com.br" ∷ "www.shopee.com.br" ∷ "aliexpress.com"
    ∷ "www.aliexpress.com" ∷ "pt.aliexpress.com" ∷ "de.aliexpress.com" ∷ "kabum.com.br"
    ∷ "www.kabum.com.br" ∷ "amzn.to" ∷ "meli.la" ∷ "s.shopee.com.br" ∷ "a.aliexpress.com"
    ∷ "s.click.aliexpress.com" ∷ []

abbrev pub is_redirect_status : ℕ → Bool
is_redirect_status s = s == 301 || s == 302 || s == 303 || s == 307 || s == 308

abbrev pub is_transient_status : ℕ → Bool
is_transient_status s = s == 408 || s == 429 || s == 500 || s == 502 || s == 503 || s == 504

abbrev pub decoded : Option String → String
decoded none = ""
decoded (some s) = casefold s

-- `bool(text)` of a text that may be missing
abbrev pub present : Option String → Bool
present none = false
present (some s) = not (str_eq s "")

abbrev pub or_empty : Option String → String
or_empty none = ""
or_empty (some s) = s

-- `port or …`: port 0 counts as no port
abbrev pub port_or : Option ℕ → ℕ → ℕ
port_or none d = d
port_or (some p) d = if p == 0 then d else p

abbrev pub or_raise {ℓ} : {A : Type ℓ} → Option A → UrlError → Result UrlError A
or_raise none e = raised e
or_raise (some a) e = ok a

module _ (net : Net) where
  abbrev pub normalize_hostname : String → String
  normalize_hostname hostname = decoded (net.idna (rstrip_dots hostname))

  unfoldable pub normalized : List String → Result UrlError (List String)
  normalized [] = ok []
  normalized (a ∷ rest) = do
    parsed ← or_raise (net.ip_address a) (safe dns_invalid_address)
    require parsed.is_global (safe dns_non_global_address)
    texts ← normalized rest
    ok (parsed.text ∷ texts)

  abbrev pub is_https : Parts → Bool
  is_https parts = str_eq (casefold parts.scheme) "https"

  unfoldable pub validate_target : ℕ → String → Result UrlError ValidatedTarget
  validate_target k url = do
    parts ← or_raise (net.urlsplit url) (safe invalid_url)
    port ← or_raise parts.port (safe invalid_url)
    require (member (casefold parts.scheme) ("http" ∷ "https" ∷ [])) (safe unsupported_scheme)
    require (present parts.hostname) (safe missing_host)
    require (is_none parts.username && is_none parts.password) (safe url_credentials_forbidden)
    require (member (normalize_hostname (or_empty parts.hostname)) allowed_network_hosts)
        (safe domain_not_allowed)
    require
        (port_or port (if is_https parts then 443 else 80) == 80
          || port_or port (if is_https parts then 443 else 80) == 443)
        (safe port_not_allowed)
    addresses ←
        net.resolve k (normalize_hostname (or_empty parts.hostname))
          (port_or port (if is_https parts then 443 else 80))
    require (any (λ a. true) addresses) (transient dns_empty_result)
    texts ← normalized addresses
    ok (record {
      url = url;
      hostname = normalize_hostname (or_empty parts.hostname);
      port = port_or port (if is_https parts then 443 else 80);
      allowed_ips = texts;
    })

  unfoldable pub validate_peer : Option String → List String → Result UrlError (Unit {0})
  validate_peer peer_ip allowed_ips = do
    ip ← or_raise peer_ip (safe peer_ip_unverified)
    peer ← or_raise (net.ip_address (before_percent ip)) (safe peer_ip_invalid)
    require peer.is_global (safe peer_ip_non_global)
    require (member peer.text allowed_ips) (safe peer_ip_dns_mismatch)

  unfoldable pub is_https_downgrade : String → String → Result UrlError Bool
  is_https_downgrade current_url next_url = do
    current ← or_raise (net.urlsplit current_url) (safe invalid_redirect_url)
    next ← or_raise (net.urlsplit next_url) (safe invalid_redirect_url)
    ok (is_https current && str_eq (casefold next.scheme) "http")

  -- The loop's body for a status that redirects.
  unfoldable pub redirect :
      (max_redirects redirects : ℕ) → String → HopResponse → Bool → Result UrlError (Option String)
  redirect max_redirects redirects current response false = ok none
  redirect max_redirects redirects current response true = do
    require (present (response.headers "location")) (safe redirect_without_location)
    require (not (leb max_redirects redirects)) (safe too_many_redirects)
    next_url ← or_raise (net.urljoin current (or_empty (response.headers "location"))) value_error
    downgrade ← is_https_downgrade current next_url
    require (not downgrade) (safe https_downgrade_forbidden)
    ok (some next_url)

  -- The body of the loop of `expand` behind the request: the next address, or none where `expand`
  -- returns.
  unfoldable pub follow :
      (max_redirects redirects : ℕ)
      → String
      → ValidatedTarget
      → HopResponse
      → Result UrlError (Option String)
  follow max_redirects redirects current target response = do
    peer ← validate_peer response.peer_ip target.allowed_ips
    require (not (is_transient_status response.status_code)) (transient (http response.status_code))
    require (not (response.status_code == 403)) (safe http_forbidden_or_challenge)
    require (not (leb 400 response.status_code)) (safe (http response.status_code))
    redirect max_redirects redirects current response (is_redirect_status response.status_code)

-- What the requests were made for, in their order, and what `expand` returns or raises, or none if
-- the bound of the rounds was reached.
abbrev pub Expansion : Type 0
Expansion = List ValidatedTarget × Option (Result UrlError UrlExpansionResult)

abbrev pub requested : ValidatedTarget → Expansion → Expansion
requested target (targets, r) = (target ∷ targets, r)

abbrev pub followed :
    (String → Expansion)
    → ℕ
    → String
    → ValidatedTarget
    → Result UrlError (Option String)
    → Expansion
followed rest redirects current target (raised e) = (target ∷ [], some (raised e))
followed rest redirects current target (ok none) =
    (target ∷ [], some (ok (record { url = current; redirect_count = redirects })))
followed rest redirects current target (ok (some next_url)) = requested target (rest next_url)

module _ (net : Net) where
  abbrev pub visited :
      (String → Expansion)
      → (max_redirects redirects : ℕ) → String
      → Result UrlError ValidatedTarget
      → Expansion
  visited rest max_redirects redirects current (raised e) = ([], some (raised e))
  visited rest max_redirects redirects current (ok target) =
      followed rest redirects current target (
        net.fetch redirects target.url target.allowed_ips
        >>= follow net max_redirects redirects current target)

  -- The loop, on a bound of its rounds.
  unfoldable pub expand_from : ℕ → (max_redirects redirects : ℕ) → String → Expansion
  expand_from zero max_redirects redirects current = ([], none)
  expand_from (suc n) max_redirects redirects current =
      visited (expand_from n max_redirects (redirects + 1)) max_redirects redirects current
        (validate_target net redirects current)

  unfoldable pub expand : (max_redirects : ℕ) → String → Expansion
  expand max_redirects url = expand_from (max_redirects + 1) max_redirects 0 url
