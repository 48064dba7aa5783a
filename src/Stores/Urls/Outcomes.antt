-- ===== src/Stores/Urls/Outcomes.antt =====
-- The states of the results of `canonicalize_store_url` (src/promo_bot/stores/urls.py).
use promo_bot.Base.{
  ℕ, ◌≡◌, ◌≢◌, Bool, true, false, not, any, Option, none, some, [], ◌∷◌, Bool-cases, arith, inl,
  inr,
}
use promo_bot.Domain.Enums.{RelayLinkState, Store}
use promo_bot.Stores.Patterns.{Text}
use promo_bot.Stores.Urls.{
  UrlParts, Web, CanonicalUrlResult, Query, identify, variation_key, gather, with_query, finish,
  finish_with, with_variation, for_parts, for_product, for_store, split_parts, split_port, store_of,
  host_of_name, has_unsafe_authority, text_or_empty, canonicalize_store_url, is_known_query_key,
  unless_ambiguous,
}

module _ (web : Web) where
  -- A result has an outcome: its state is not that of a link that was only received.
  abbrev pub IsDecided : Option CanonicalUrlResult → Type 0
  IsDecided o = (r : CanonicalUrlResult) → o ≡ some r → r.state ≢ RelayLinkState.received

  finish_with-IsDecided :
      (s : Store) (id v : Text) (o : Option Text) → IsDecided (finish_with web s id v o)
  finish_with-IsDecided s id v none = λ r h e. absurd (cc)
  finish_with-IsDecided s id v (some u) = λ r h e. ground arith

  finish-IsDecided : (s : Store) (id url v : Text) → IsDecided (finish web s id url v)
  unfolding finish
  finish-IsDecided s id url [] = λ r h e. ground arith
  finish-IsDecided s id url (c ∷ v) =
      finish_with-IsDecided s id (c ∷ v) (with_variation web (c ∷ v) (web.urlsplit url))

  unless-IsDecided :
      (s : Store) (id url : Text) (vk : Text × Bool) → IsDecided (unless_ambiguous web s id url vk)
  unless-IsDecided s id url (v, true) = λ r h e. ground arith
  unless-IsDecided s id url (v, false) = finish-IsDecided s id url v

  with_query-IsDecided :
      (s : Store) (id url : Text) (q : Query) → IsDecided (with_query web s id url q)
  unfolding with_query
  with_query-IsDecided s id url q =
      elim (Bool-cases (any (λ entry. not (is_known_query_key s entry.0)) q)) [
        | inl b ↦ rw b (λ r h e. ground arith)
        | inr b ↦ rw b (unless-IsDecided s id url (variation_key web s q))
      ]

  for_product-IsDecided :
      (s : Store) (query : Text) (o : Option (Text × Text)) → IsDecided (for_product web s query o)
  for_product-IsDecided s query none = λ r h e. ground arith
  for_product-IsDecided s query (some (id, url)) =
      with_query-IsDecided s id url (gather web (web.parse_qsl query) [])

  for_store-IsDecided :
      (host : Text) (parts : UrlParts) (o : Option Store) → IsDecided (for_store web host parts o)
  for_store-IsDecided host parts none = λ r h e. ground arith
  for_store-IsDecided host parts (some s) =
      for_product-IsDecided s parts.query (identify s parts.path)

  for_parts-IsDecided : (parts : UrlParts) (port : Option ℕ) → IsDecided (for_parts web parts port)
  unfolding for_parts
  for_parts-IsDecided parts port =
      let host = host_of_name web parts.hostname in
      elim (Bool-cases (has_unsafe_authority web parts port)) [
        | inl b ↦ rw b (λ r h e. ground arith)
        | inr b ↦ rw b (for_store-IsDecided (text_or_empty host) parts (store_of web host))
      ]

  split_port-IsDecided :
      (parts : UrlParts) (port : Option (Option ℕ)) → IsDecided (split_port web parts port)
  split_port-IsDecided parts none = λ r h e. ground arith
  split_port-IsDecided parts (some port) = for_parts-IsDecided parts port

  split_parts-IsDecided : (o : Option UrlParts) → IsDecided (split_parts web o)
  split_parts-IsDecided none = λ r h e. ground arith
  split_parts-IsDecided (some parts) = split_port-IsDecided parts parts.port

  pub canonicalize_decides : (url : Text) → IsDecided (canonicalize_store_url web url)
  unfolding canonicalize_store_url
  canonicalize_decides url = split_parts-IsDecided (web.urlsplit url)
