-- ===== src/Providers/Images.antt =====
-- `validated_official_image_url` of src/promo_bot/providers/aliexpress/policy.py and of
-- src/promo_bot/providers/shopee/policy.py, which differ in the hosts they allow.
use promo_bot.Base.{
  ℕ, Bool, true, false, ◌&&◌, ◌==◌, Option, none, some, List, [], ◌∷◌, any, map, is_empty, is_none,
  if◌then◌else◌,
}
use promo_bot.Stores.Patterns.{Text, codes, same}
use promo_bot.Stores.Urls.{Web, UrlParts}

abbrev pub official_image_hosts : List Text
official_image_hosts = map codes ("ae01.alicdn.com" ∷ "ae-pic-a1.aliexpress-media.com" ∷ [])

abbrev pub is_default_port : Option ℕ → Bool
is_default_port none = true
is_default_port (some n) = n == 443

module _ (web : Web) (allowed_hosts : List Text) where
  abbrev pub is_allowed_host : Option Text → Bool
  is_allowed_host none = false
  is_allowed_host (some []) = false
  is_allowed_host (some (c ∷ h)) = any (same (web.casefold (c ∷ h))) allowed_hosts

  -- the tests of the parts, with the port that is read
  abbrev pub is_official : UrlParts → Option ℕ → Bool
  is_official parts port =
      same parts.scheme (codes "https")
      && is_allowed_host parts.hostname
      && is_none parts.username
      && is_none parts.password
      && is_default_port port

  abbrev pub with_port : Text → UrlParts → Option (Option ℕ) → Option Text
  with_port url parts none = none
  with_port url parts (some port) = if is_official parts port then some url else none

  abbrev pub with_parts : Text → Option UrlParts → Option Text
  with_parts url none = none
  with_parts url (some parts) = with_port url parts parts.port

-- of providers/aliexpress/policy.py
unfoldable pub aliexpress_image_url : Web → Option Text → Option Text
aliexpress_image_url web none = none
aliexpress_image_url web (some url) = with_parts web official_image_hosts url (web.urlsplit url)

-- of providers/shopee/policy.py, which first tests that there is an allowed host
unfoldable pub shopee_image_url : Web → (allowed_hosts : List Text) → Option Text → Option Text
shopee_image_url web allowed_hosts none = none
shopee_image_url web allowed_hosts (some url) =
    if is_empty allowed_hosts then none else with_parts web allowed_hosts url (web.urlsplit url)
