-- ===== src/Stores/Urls/RoundTrip.antt =====
-- The canonical address of a product leads back to the same product (src/promo_bot/stores/urls.py).
use mathlib.Core.Path.{subst}
use promo_bot.Base.{
  ℕ, ◌≡◌, refl, Bool, true, false, not, any, Option, none, some, List, [], ◌∷◌, ◌++◌, ◌⊎◌, inl, inr,
  All, Bool-cases, Option-cases, arith,
}
use promo_bot.Domain.Enums.{RelayLinkState, Store}
use promo_bot.Stores.Patterns.{Text, codes}
use promo_bot.Stores.Urls.{
  UrlParts, Web, CanonicalUrlResult, Query, pending, identify, add_value, values, found,
  explicit_keys, variation_name, variation_key, variation_of, has_key, gather, with_query, finish,
  for_parts, for_product, for_store, split_parts, split_port, store_of, host_of_name,
  has_unsafe_authority, text_or_empty, canonicalize_store_url, normalize_hostname, found_if,
  ambiguous_variation_keys, store_for_host, is_known_query_key, unless_ambiguous,
}
use promo_bot.Stores.Urls.Groups.{IsPlain}
use promo_bot.Stores.Urls.Products.{canonical_host, origin, identify-Names, Names}
use promo_bot.Stores.Urls.Libraries.{IsDocumented, plain_parts}

-- The key of a variation that a store's canonical addresses carry.
data Carries : Store → Text → Type 0 where
  shopee_variation : Carries Store.shopee (codes "variationid")
  aliexpress_sku : Carries Store.aliexpress (codes "sku_id")

-- Each entry stands under a key that becomes one of these.
abbrev Fits : Store → List (Text × List Text) → Type 0
Fits s found = All (λ (e : Text × List Text). Carries s (variation_name s e.0)) found

found_if-Fits :
    (s : Store) (k : Text) (vs : List Text) (rest : List (Text × List Text))
    → Carries s (variation_name s k)
    → Fits s rest
    → Fits s (found_if k vs rest)
found_if-Fits s k [] rest c f = f
found_if-Fits s k (v ∷ vs) rest c f = (c, f)

found-Fits : (s : Store) (q : Query) → Fits s (found (explicit_keys s) q)
found-Fits Store.amazon q = tt
found-Fits Store.mercadolivre q = tt
found-Fits Store.kabum q = tt
found-Fits Store.shopee q =
    found_if-Fits Store.shopee (codes "variationid") (values (codes "variationid") q) []
      shopee_variation tt
found-Fits Store.aliexpress q =
    found_if-Fits Store.aliexpress (codes "sku_id") (values (codes "sku_id") q)
      (found_if (codes "skuid") (values (codes "skuid") q) []) aliexpress_sku
      (found_if-Fits Store.aliexpress (codes "skuid") (values (codes "skuid") q) [] aliexpress_sku
        tt)

found-nil : (s : Store) → found (explicit_keys s) [] ≡ []
unfolding values
found-nil Store.amazon = refl
found-nil s = refl

module _ (web : Web) (laws : IsDocumented web) where
  normalized-host :
      (s : Store) → normalize_hostname web (codes (canonical_host s)) ≡ codes (canonical_host s)
  normalized-host Store.amazon =
      let h = codes (canonical_host Store.amazon) in
      rw (laws.ascii_host Store.amazon, laws.folded h refl)
  normalized-host s = let h = codes (canonical_host s) in rw (laws.ascii_host s, laws.folded h refl)

  store-canonical : (s : Store) → store_for_host web (codes (canonical_host s)) ≡ some s
  unfolding store_for_host
  store-canonical Store.amazon = rw (normalized-host Store.amazon)
  store-canonical s = rw (normalized-host s)

  -- An `https` address of a canonical host is judged by its path and its query.
  for_parts-canonical :
      (s : Store) (path query : Text)
      → for_parts web (plain_parts s path query) none ≡ for_product web s query (identify s path)
  unfolding for_parts
  for_parts-canonical Store.amazon path query =
      rw (
        laws.folded (codes "https") refl,
        normalized-host Store.amazon,
        store-canonical Store.amazon,
      )
  for_parts-canonical s path query =
      rw (laws.folded (codes "https") refl, normalized-host s, store-canonical s)

  -- The canonical address without a query, read again.
  again_plain :
      (s : Store) (id p : Text)
      → IsPlain p
      → identify s p ≡ some (id, origin s ++ p)
      → canonicalize_store_url web (origin s ++ p) ≡ some (pending s id [] (origin s ++ p))
  unfolding canonicalize_store_url gather with_query variation_key finish
  again_plain s id p plain named =
      rw (laws.splits s p plain, for_parts-canonical s p [], named, laws.empty_query)
        (rw (found-nil s))

  -- A variation key: none, or a key that the store carries with a number.
  abbrev Varies : Store → Text → Type 0
  Varies s v =
      (v ≡ [])
      ⊎ ((k : Text) × (n : Text) × Carries s k × (web.isdigit n ≡ true) × (v ≡ k ++ 58 ∷ n))

  variation_of-Varies :
      (s : Store) (fs : List (Text × List Text)) {v : Text}
      → Fits s fs
      → variation_of web s fs ≡ (v, false)
      → Varies s v
  variation_of-Varies s [] f h = inl (cc)
  variation_of-Varies s ((k, []) ∷ more) f h = absurd (cc)
  variation_of-Varies s ((k, n ∷ []) ∷ []) f h = elim (Bool-cases (web.isdigit n)) [
    | inl digits ↦ let h' = rw digits at h in inr (variation_name s k, n, f.0, digits, cc)
    | inr other ↦ let h' = rw other at h in absurd (cc)
  ]
  variation_of-Varies s ((k, n ∷ []) ∷ e ∷ more) f h = absurd (cc)
  variation_of-Varies s ((k, n ∷ m ∷ ns) ∷ more) f h = absurd (cc)

  variation_key-Varies :
      (s : Store) (q : Query) {v : Text} → variation_key web s q ≡ (v, false) → Varies s v
  unfolding variation_key
  variation_key-Varies s q h =
      elim (Bool-cases (any (λ key. has_key q (codes key)) ambiguous_variation_keys)) [
        | inl b ↦ let h' = rw b at h in absurd (cc)
        | inr b ↦ variation_of-Varies s (found (explicit_keys s) q) (found-Fits s q) (rw b at h)
      ]

  abbrev with_number : Store → Text → Text → Text → Text
  with_number s p k n =
      web.urlunsplit (codes "https") (codes (canonical_host s)) p (web.urlencode k n)

  finish_number :
      (s : Store) (id p k n : Text)
      → IsPlain p
      → Carries s k
      → finish web s id (origin s ++ p) (k ++ 58 ∷ n)
        ≡ some (pending s id (k ++ 58 ∷ n) (with_number s p k n))
  unfolding finish
  finish_number Store.shopee id p k n plain shopee_variation = rw (laws.splits Store.shopee p plain)
  finish_number Store.aliexpress id p k n plain aliexpress_sku =
      rw (laws.splits Store.aliexpress p plain)
  finish_number Store.amazon id p k n plain c = elim c [ ]
  finish_number Store.mercadolivre id p k n plain c = elim c [ ]
  finish_number Store.kabum id p k n plain c = elim c [ ]

  again_number :
      (s : Store) (id p k n : Text)
      → IsPlain p
      → identify s p ≡ some (id, origin s ++ p)
      → Carries s k
      → web.isdigit n ≡ true
      → canonicalize_store_url web (with_number s p k n)
        ≡ some (pending s id (k ++ 58 ∷ n) (with_number s p k n))
  unfolding canonicalize_store_url gather with_query variation_key add_value values
  again_number Store.shopee id p k n plain named shopee_variation digits =
      let key = codes "variationid" in
      rw
        (
          laws.rejoins Store.shopee p key n plain refl digits,
          for_parts-canonical Store.shopee p (web.urlencode key n),
          named,
          laws.encoded_query key n refl digits,
          laws.folded key refl,
        )
        (rw digits (finish_number Store.shopee id p key n plain shopee_variation))
  again_number Store.aliexpress id p k n plain named aliexpress_sku digits =
      let key = codes "sku_id" in
      rw
        (
          laws.rejoins Store.aliexpress p key n plain refl digits,
          for_parts-canonical Store.aliexpress p (web.urlencode key n),
          named,
          laws.encoded_query key n refl digits,
          laws.folded key refl,
        )
        (rw digits (finish_number Store.aliexpress id p key n plain aliexpress_sku))
  again_number Store.amazon id p k n plain named c digits = elim c [ ]
  again_number Store.mercadolivre id p k n plain named c digits = elim c [ ]
  again_number Store.kabum id p k n plain named c digits = elim c [ ]

  -- A result that waits for an affiliate link holds an address that gives the same result.
  abbrev Again : CanonicalUrlResult → Type 0
  Again r =
      r.state ≡ RelayLinkState.pending_affiliate
      → (u : Text) × (r.canonical_url ≡ some u) × (canonicalize_store_url web u ≡ some r)

  finish-Again :
      (s : Store) (id p v : Text) {r : CanonicalUrlResult}
      → IsPlain p
      → identify s p ≡ some (id, origin s ++ p)
      → Varies s v
      → finish web s id (origin s ++ p) v ≡ some r
      → Again r
  unfolding finish
  finish-Again s id p v plain named (inl e) h =
      let h' : some (pending s id [] (origin s ++ p)) ≡ some _ = rw e at h in
      subst Again (cc) (λ _. (origin s ++ p, refl, again_plain s id p plain named))
  finish-Again s id p v plain named (inr (k, n, c, digits, e)) h =
      let done = finish_number s id p k n plain c in
      let h' = rw (e, done) at h in
      subst Again (cc)
        (λ _. (with_number s p k n, refl, again_number s id p k n plain named c digits))

  unless-Again :
      (s : Store) (id p : Text) (q : Query) (vk : Text × Bool) {r : CanonicalUrlResult}
      → IsPlain p
      → identify s p ≡ some (id, origin s ++ p)
      → variation_key web s q ≡ vk
      → unless_ambiguous web s id (origin s ++ p) vk ≡ some r
      → Again r
  unless-Again s id p q (v, true) plain named e h = λ waits. absurd (ground arith)
  unless-Again s id p q (v, false) plain named e h =
      finish-Again s id p v plain named (variation_key-Varies s q e) h

  with_query-Again :
      (s : Store) (id url : Text) (q : Query) {r : CanonicalUrlResult}
      → Names s id url
      → with_query web s id url q ≡ some r
      → Again r
  unfolding with_query
  with_query-Again s id url q (p, e, plain, named) h =
      elim (Bool-cases (any (λ entry. not (is_known_query_key s entry.0)) q)) [
        | inl b ↦ let h' = rw b at h in λ waits. absurd (cc)
        | inr b ↦
            unless-Again s id p q (variation_key web s q) plain (rw e at named) refl
              (rw (b, e) at h)
      ]

  for_store-Again :
      (host : Text) (parts : UrlParts) (o : Option Store) {r : CanonicalUrlResult}
      → for_store web host parts o ≡ some r
      → Again r
  for_store-Again host parts none h = λ waits. absurd (ground arith)
  for_store-Again host parts (some s) h = elim (Option-cases (identify s parts.path)) [
    | inl e ↦ let h' = rw e at h in λ waits. absurd (cc)
    | inr ((id, url), e) ↦
        with_query-Again s id url (gather web (web.parse_qsl parts.query) [])
          (identify-Names s parts.path e) (rw e at h)
  ]

  for_parts-Again :
      (parts : UrlParts) (port : Option ℕ) {r : CanonicalUrlResult}
      → for_parts web parts port ≡ some r
      → Again r
  unfolding for_parts
  for_parts-Again parts port h =
      let host = host_of_name web parts.hostname in
      elim (Bool-cases (has_unsafe_authority web parts port)) [
        | inl b ↦ let h' = rw b at h in λ waits. absurd (cc)
        | inr b ↦ for_store-Again (text_or_empty host) parts (store_of web host) (rw b at h)
      ]

  split_port-Again :
      (parts : UrlParts) (port : Option (Option ℕ)) {r : CanonicalUrlResult}
      → split_port web parts port ≡ some r
      → Again r
  split_port-Again parts none h = λ waits. absurd (cc)
  split_port-Again parts (some port) h = for_parts-Again parts port h

  split_parts-Again :
      (o : Option UrlParts) {r : CanonicalUrlResult} → split_parts web o ≡ some r → Again r
  split_parts-Again none h = λ waits. absurd (cc)
  split_parts-Again (some parts) h = split_port-Again parts parts.port h

module _ (web : Web) (laws : IsDocumented web) (url : Text) (r : CanonicalUrlResult)
    (read : canonicalize_store_url web url ≡ some r)
    (waits : r.state ≡ RelayLinkState.pending_affiliate) where
  -- Where the libraries behave as documented, an address that is recognised as a product, so that it
  -- waits for an affiliate link, has a canonical address, and that address, canonicalized in turn,
  -- gives the very same result: store, product, variation and canonical address.
  pub canonicalize_again :
      (u : Text) × (r.canonical_url ≡ some u) × (canonicalize_store_url web u ≡ some r)
  unfolding canonicalize_store_url
  canonicalize_again = split_parts-Again web laws (web.urlsplit url) read waits
