-- ===== src/Security/Expansion/Safety.antt =====
-- `SafeUrlExpander.expand` of src/promo_bot/security/urls.py: where requests go, and how many there are.
use promo_bot.Base.{
  ℕ, zero, suc, ◌≡◌, ◌≢◌, ◌⊎◌, any, if◌then◌else◌, str_eq, Bool, true, false, not, ◌&&◌, ◌||◌, ◌==◌,
  Option, none, some, String, List, [], ◌∷◌, Result, ok, ◌>>=◌, ◌>>◌, ap, require, is_none, arith,
  refl, ok-injective, bind-ok, require-passed, leb, ◌<◌,
}
use mathlib.Core.Path.{subst}
use promo_bot.Security.Expansion.{
  UrlCode, UrlError, safe, transient, value_error, invalid_url, Parts, Address, ValidatedTarget,
  HopResponse, Net, member, casefold, allowed_network_hosts, normalize_hostname, present, or_empty,
  port_or, is_https, or_raise, is_transient_status, is_redirect_status, http,
  http_forbidden_or_challenge, normalized, validate_target, validate_peer, is_https_downgrade,
  redirect, follow,
}

-- A call that returned passed each of its steps.
or_raise-ok : {A : Type 0} (o : Option A) (e : UrlError) {a : A} → or_raise o e ≡ ok a → o ≡ some a
or_raise-ok none e h = absurd (cc)
or_raise-ok (some a) e h = ap some (ok-injective h)

not-passed : (b : Bool) → not b ≡ true → b ≡ false
not-passed b h = ground arith

not-leb : (a b : ℕ) → not (leb a b) ≡ true → b < a
not-leb a b h = ground arith

module _ (net : Net) where
  -- Each address that the resolver gave is global, and the texts are theirs, one for each in order.
  abbrev pub Vetted : List String → List String → Type 0
  Vetted [] [] = Unit
  Vetted [] (text ∷ texts) = ⊥
  Vetted (raw ∷ raws) [] = ⊥
  Vetted (raw ∷ raws) (text ∷ texts) =
      ((p : Address) × (net.ip_address raw ≡ some p) × (p.is_global ≡ true) × (text ≡ p.text))
      × Vetted raws texts

  -- The port of an address: the one given, or the default of the scheme where none is given, or 0.
  abbrev pub IsPort : Parts → Option ℕ → ℕ → Type 0
  IsPort parts none n = n ≡ (if str_eq (casefold parts.scheme) "https" then 443 else 80)
  IsPort parts (some zero) n = n ≡ (if str_eq (casefold parts.scheme) "https" then 443 else 80)
  IsPort parts (some (suc k)) n = n ≡ suc k

  -- A target that the policy allows: http or https, no credentials, a host of the list, the port of the
  -- address, which is 80 or 443, and the addresses that the resolver gave for this host and port, at
  -- least one and all global.
  abbrev pub IsAllowed : ValidatedTarget → Type 0
  IsAllowed target =
      (parts : Parts) × (net.urlsplit target.url ≡ some parts)
      × (member (casefold parts.scheme) ("http" ∷ "https" ∷ []) ≡ true)
      × (parts.username ≡ none)
      × (parts.password ≡ none)
      × (target.hostname ≡ normalize_hostname net (or_empty parts.hostname))
      × (member target.hostname allowed_network_hosts ≡ true)
      × ((given : Option ℕ) × (parts.port ≡ some given) × IsPort parts given target.port)
      × ((target.port ≡ 80) ⊎ (target.port ≡ 443))
      × ((k : ℕ) × (raws : List String) × (net.resolve k target.hostname target.port ≡ ok raws)
          × (raws ≢ [])
          × Vetted raws target.allowed_ips)

  normalized-Vetted :
      (addresses texts : List String) → normalized net addresses ≡ ok texts → Vetted addresses texts
  unfolding normalized
  normalized-Vetted [] texts h = rw (← ok-injective h) tt
  normalized-Vetted (a ∷ rest) texts h =
      let (p, e, h1) =
        bind-ok (or_raise (net.ip_address a) (safe UrlCode.dns_invalid_address)) _ h in
      let (g, h2) = require-passed p.is_global (safe UrlCode.dns_non_global_address) _ h1 in
      let (ts, e', h3) = bind-ok (normalized net rest) _ h2 in
      rw (← ok-injective h3) ((p, or_raise-ok _ _ e, g, refl), normalized-Vetted rest ts e')

  given-IsPort :
      (parts : Parts) (port : Option ℕ)
      → IsPort parts port (port_or port (if is_https net parts then 443 else 80))
  given-IsPort parts none = refl
  given-IsPort parts (some zero) = refl
  given-IsPort parts (some (suc k)) = ground arith

  nonempty : (xs : List String) → any (λ a. true) xs ≡ true → xs ≢ []
  nonempty [] h = absurd (cc)
  nonempty (x ∷ xs) h = λ e. absurd (cc)

  both : (a b : Bool) → (a && b) ≡ true → (a ≡ true) × (b ≡ true)
  both true b h = (refl, h)
  both false b h = absurd (cc)

  none-is : {A : Type 0} (o : Option A) → is_none o ≡ true → o ≡ none
  none-is none h = refl
  none-is (some a) h = absurd (cc)

  pub validate_target-IsAllowed :
      (k : ℕ) (url : String) (target : ValidatedTarget)
      → validate_target net k url ≡ ok target
      → IsAllowed target × (target.url ≡ url)
  unfolding validate_target
  validate_target-IsAllowed k url target h =
      let (parts, split, h1) = bind-ok (or_raise (net.urlsplit url) (safe invalid_url)) _ h in
      let (port, read, h2) = bind-ok (or_raise parts.port (safe invalid_url)) _ h1 in
      let (scheme, h3) = require-passed _ (safe UrlCode.unsupported_scheme) _ h2 in
      let (host, h4) = require-passed (present parts.hostname) (safe UrlCode.missing_host) _ h3 in
      let (plain, h5) =
        require-passed (is_none parts.username && is_none parts.password)
          (safe UrlCode.url_credentials_forbidden) _ h4 in
      let (listed, h6) = require-passed _ (safe UrlCode.domain_not_allowed) _ h5 in
      let (at, h7) = require-passed _ (safe UrlCode.port_not_allowed) _ h6 in
      let (addresses, resolved, h8) = bind-ok (net.resolve k _ _) _ h7 in
      let (some_address, h9) = require-passed _ (transient UrlCode.dns_empty_result) _ h8 in
      let (texts, global, h10) = bind-ok (normalized net addresses) _ h9 in
      let (user, password) = both (is_none parts.username) (is_none parts.password) plain in
      subst (λ x. IsAllowed x × (x.url ≡ url)) (ok-injective h10)
        (
          (
            parts,
            or_raise-ok _ _ split,
            scheme,
            none-is parts.username user,
            none-is parts.password password,
            refl,
            listed,
            (port, or_raise-ok _ _ read, given-IsPort parts port),
            ports _ at,
            (
              k,
              addresses,
              resolved,
              nonempty addresses some_address,
              normalized-Vetted addresses texts global,
            ),
          ),
          refl,
        )
    where
      ports : (p : ℕ) → (p == 80 || p == 443) ≡ true → (p ≡ 80) ⊎ (p ≡ 443)
      ports p h = ground arith

  abbrev onwards : String → String → Result UrlError (Option String)
  onwards current x = is_https_downgrade net current x >>= λ b.
      (require (not b) (safe UrlCode.https_downgrade_forbidden) >> ok (some x))

  -- The address that a round goes on with is no downgrade, and redirects are left.
  redirect-some :
      (max_redirects redirects : ℕ) (current : String) (response : HopResponse) (b : Bool)
      (next : String)
      → redirect net max_redirects redirects current response b ≡ ok (some next)
      → (redirects < max_redirects) × (is_https_downgrade net current next ≡ ok false)
  unfolding redirect
  redirect-some max_redirects redirects current response false next h = absurd (cc)
  redirect-some max_redirects redirects current response true next h =
      let (named, h1) =
        require-passed (present (response.headers "location"))
          (safe UrlCode.redirect_without_location) _ h in
      let (left, h2) =
        require-passed (not (leb max_redirects redirects)) (safe UrlCode.too_many_redirects) _ h1 in
      let (next_url, joined, h3) =
        bind-ok
          (or_raise (net.urljoin current (or_empty (response.headers "location"))) value_error)
          (onwards current) h2 in
      let (downgrade, e, h4) =
        bind-ok (is_https_downgrade net current next_url)
          (λ b. require (not b) (safe UrlCode.https_downgrade_forbidden) >> ok (some next_url))
          h3 in
      let (kept, h5) =
        require-passed (not downgrade) (safe UrlCode.https_downgrade_forbidden) (ok (some next_url))
          h4 in
      let same : next_url ≡ next = cc in
      (not-leb max_redirects redirects left, rw (← same, ← not-passed downgrade kept) e)

  pub follow-some :
      (max_redirects redirects : ℕ) (current : String) (target : ValidatedTarget)
      (response : HopResponse) (next : String)
      → follow net max_redirects redirects current target response ≡ ok (some next)
      → (redirects < max_redirects) × (is_https_downgrade net current next ≡ ok false)
  unfolding follow
  follow-some max_redirects redirects current target response next h =
      let (peer, valid, h1) = bind-ok (validate_peer net response.peer_ip target.allowed_ips) _ h in
      let (a, h2) =
        require-passed (not (is_transient_status response.status_code))
          (transient (http response.status_code)) _ h1 in
      let (b, h3) =
        require-passed (not (response.status_code == 403)) (safe http_forbidden_or_challenge) _
          h2 in
      let (c, h4) =
        require-passed (not (leb 400 response.status_code)) (safe (http response.status_code)) _
          h3 in
      redirect-some max_redirects redirects current response
        (is_redirect_status response.status_code) next h4

  abbrev pub Starts : String → List ValidatedTarget → Type 0
  Starts url [] = Unit
  Starts url (target ∷ targets) = target.url ≡ url

  -- No request leaves https for http.
  abbrev pub After : String → List ValidatedTarget → Type 0
  After url [] = Unit
  After url (target ∷ targets) = is_https_downgrade net url target.url ≡ ok false

  abbrev pub NoDowngrade : List ValidatedTarget → Type 0
  NoDowngrade [] = Unit
  NoDowngrade (target ∷ targets) = After target.url targets × NoDowngrade targets
