-- ===== src/Security/Expansion/Loop.antt =====
-- `SafeUrlExpander.expand` of src/promo_bot/security/urls.py: its loop ends, and what it requests.
use promo_bot.Base.{
  ℕ, zero, suc, ◌+◌, ◌≤◌, ◌<◌, ◌≡◌, Option, none, some, String, Result, ok, raised, ◌>>=◌, length,
  All, arith, refl, false, bind-ok,
}
use promo_bot.Security.Expansion.{
  UrlError, ValidatedTarget, UrlExpansionResult, Net, validate_target, is_https_downgrade, follow,
  Expansion, requested, followed, visited, expand_from, expand,
}
use promo_bot.Security.Expansion.Safety.{IsAllowed, follow-some, Starts, NoDowngrade}

module _ (net : Net) where
  abbrev Safe : String → Expansion → Type 0
  Safe url (targets, r) =
      All (IsAllowed net) targets × Starts net url targets × NoDowngrade net targets

  -- What a result says of the requests made, from the redirects counted before them.
  abbrev Counted : (max_redirects redirects : ℕ) → Expansion → Type 0
  Counted max_redirects redirects (targets, none) = ⊥
  Counted max_redirects redirects (targets, some (raised e)) =
      length targets + redirects ≤ max_redirects + 1
  Counted max_redirects redirects (targets, some (ok result)) =
      (length targets + redirects ≡ result.redirect_count + 1)
      × (result.redirect_count ≤ max_redirects)

  module _ (max_redirects redirects : ℕ) (current : String) where
    followed-Counted :
        (rest : String → Expansion)
        → ((next : String)
            → redirects < max_redirects
            → Counted max_redirects (redirects + 1) (rest next))
        → redirects ≤ max_redirects
        → (target : ValidatedTarget) → (r : Result UrlError (Option String))
        → ((next : String) → r ≡ ok (some next) → redirects < max_redirects)
        → Counted max_redirects redirects (followed rest redirects current target r)
    followed-Counted rest ih within target (raised e) d = omega arith
    followed-Counted rest ih within target (ok none) d = (omega arith, within)
    followed-Counted rest ih within target (ok (some next)) d =
        one_more target (rest next) (ih next (d next refl))
      where
        one_more :
            (target : ValidatedTarget) (x : Expansion)
            → Counted max_redirects (redirects + 1) x
            → Counted max_redirects redirects (requested target x)
        one_more target (targets, none) h = h
        one_more target (targets, some (raised e)) h = omega arith
        one_more target (targets, some (ok result)) (h, m) = (omega arith, m)

    -- What goes on after a request.
    answered :
        (target : ValidatedTarget) (next : String)
        → (net.fetch redirects target.url target.allowed_ips
            >>= follow net max_redirects redirects current target)
          ≡ ok (some next)
        → (redirects < max_redirects) × (is_https_downgrade net current next ≡ ok false)
    answered target next h =
        let (response, e, h') = bind-ok (net.fetch redirects target.url target.allowed_ips) _ h in
        follow-some net max_redirects redirects current target response next h'

    visited-Counted :
        (rest : String → Expansion)
        → ((next : String)
            → redirects < max_redirects
            → Counted max_redirects (redirects + 1) (rest next))
        → redirects ≤ max_redirects
        → (r : Result UrlError ValidatedTarget)
        → Counted max_redirects redirects (visited net rest max_redirects redirects current r)
    visited-Counted rest ih within (raised e) = omega arith
    visited-Counted rest ih within (ok target) =
        followed-Counted rest ih within target
          (net.fetch redirects target.url target.allowed_ips
            >>= follow net max_redirects redirects current target)
          (λ next h. (answered target next h).0)

  expand_from-Counted :
      (n max_redirects redirects : ℕ) (current : String)
      → redirects ≤ max_redirects
      → max_redirects < n + redirects
      → Counted max_redirects redirects (expand_from net n max_redirects redirects current)
  unfolding expand_from
  expand_from-Counted zero max_redirects redirects current within enough = omega arith
  expand_from-Counted (suc n) max_redirects redirects current within enough =
      visited-Counted max_redirects redirects current
        (expand_from net n max_redirects (redirects + 1))
        (λ next left.
          expand_from-Counted n max_redirects (redirects + 1) next (omega arith) (omega arith))
        within (validate_target net redirects current)

  -- `expand` ends, whatever the network answers: its result is a value or an error after
  -- `max_redirects + 1` requests at most, and a value counts one redirect less than it made requests,
  -- hence `max_redirects` of them at most.
  pub expand_ends :
      (max_redirects : ℕ) (url : String)
      → (r : Result UrlError UrlExpansionResult) × ((expand net max_redirects url).1 ≡ some r)
        × (length (expand net max_redirects url).0 ≤ max_redirects + 1)
        × ((result : UrlExpansionResult)
            → r ≡ ok result
            → (length (expand net max_redirects url).0 ≡ result.redirect_count + 1)
              × (result.redirect_count ≤ max_redirects))
  unfolding expand
  expand_ends max_redirects url =
      counted (expand_from net (max_redirects + 1) max_redirects 0 url)
        (expand_from-Counted (max_redirects + 1) max_redirects 0 url (omega arith) (omega arith))
    where
      counted :
          (x : Expansion)
          → Counted max_redirects 0 x
          → (r : Result UrlError UrlExpansionResult) × (x.1 ≡ some r)
            × (length x.0 ≤ max_redirects + 1)
            × ((result : UrlExpansionResult)
                → r ≡ ok result
                → (length x.0 ≡ result.redirect_count + 1)
                  × (result.redirect_count ≤ max_redirects))
      counted (targets, none) h = absurd h
      counted (targets, some (raised e)) h = (raised e, refl, omega arith, λ result e'. absurd (cc))
      counted (targets, some (ok r)) (h, m) =
          (ok r, refl, omega arith, λ result e'. (grind arith, grind arith))
