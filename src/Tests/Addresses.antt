-- ===== src/Tests/Addresses.antt =====
-- Addresses of products, canonicalized as src/promo_bot/stores/urls.py does it, with a small library
-- of addresses in place of `urllib.parse`.
use mathlib.Core.Path.{subst}
use promo_bot.Base.{
  ℕ, ◌+◌, ◌≡◌, refl, true, ◌&&◌, ◌==◌, leb, Option, none, some, List, [], ◌∷◌, ◌++◌, map, all,
  if◌then◌else◌, arith,
}
use promo_bot.Domain.Enums.{Store}
use promo_bot.Providers.Images.{aliexpress_image_url, shopee_image_url}
use promo_bot.Stores.Patterns.{
  Text, codes, literal, is_digit, search_in, digits_of, after_digits, aliexpress_at,
}
use promo_bot.Stores.Urls.{
  UrlParts, Web, CanonicalUrlResult, pending, canonicalize_store_url, store_for_host, for_parts,
  identify, gather, with_query, variation_key, finish, add_value, values,
}
use promo_bot.Stores.Urls.Groups.{IsPlain, is_plain}
use promo_bot.Stores.Urls.Products.{canonical_host, origin}
use promo_bot.Stores.Urls.Libraries.{IsDocumented, plain_parts, is_folded}
use promo_bot.Stores.Urls.RoundTrip.{canonicalize_again}

-- The text before and after a mark.
abbrev pub before : ℕ → Text → Text
before m [] = []
before m (c ∷ s) = if c == m then [] else c ∷ before m s

abbrev pub after : ℕ → Text → Text
after m [] = []
after m (c ∷ s) = if c == m then s else after m s

abbrev pub from_slash : Text → Text
from_slash [] = []
from_slash (c ∷ s) = if c == 47 then c ∷ s else from_slash s

abbrev pub parts_of : Text → UrlParts
parts_of rest = record {
  scheme = codes "https";
  netloc = before 47 rest;
  path = before 63 (from_slash rest);
  query = after 63 rest;
  hostname = some (before 47 rest);
  username = none;
  password = none;
  port = some none;
}

abbrev pub split_rest : Option Text → Option UrlParts
split_rest none = none
split_rest (some rest) = some (parts_of rest)

abbrev pub lower : ℕ → ℕ
lower c = if leb 65 c && leb c 90 then c + 32 else c

abbrev pub pairs_of : Text → List (Text × Text)
pairs_of [] = []
pairs_of (c ∷ s) = (before 61 (c ∷ s), after 61 (c ∷ s)) ∷ []

abbrev pub web : Web
web = record {
  urlsplit = λ url. split_rest (literal (codes "https://") url);
  urlunsplit =
      λ scheme netloc path query. scheme ++ (codes "://" ++ (netloc ++ (path ++ 63 ∷ query)));
  parse_qsl = pairs_of;
  urlencode = λ key value. key ++ 61 ∷ value;
  idna = λ host. some host;
  casefold = map lower;
  isdigit = all is_digit;
}

before-plain : (p : Text) → all is_plain p ≡ true → before 63 p ≡ p
before-plain [] h = refl
before-plain (c ∷ p) h = ground (arith, before-plain p)

after-plain : (p : Text) → all is_plain p ≡ true → after 63 p ≡ []
after-plain [] h = refl
after-plain (c ∷ p) h = ground (arith, after-plain p)

before-query : (p q : Text) → all is_plain p ≡ true → before 63 (p ++ 63 ∷ q) ≡ p
before-query [] q h = refl
before-query (c ∷ p) q h = ground (arith, before-query p q)

after-query : (p q : Text) → all is_plain p ≡ true → after 63 (p ++ 63 ∷ q) ≡ q
after-query [] q h = refl
after-query (c ∷ p) q h = ground (arith, after-query p q)

before-key : (k v : Text) → all is_folded k ≡ true → before 61 (k ++ 61 ∷ v) ≡ k
before-key [] v h = refl
before-key (c ∷ k) v h = ground (arith, before-key k v)

after-key : (k v : Text) → all is_folded k ≡ true → after 61 (k ++ 61 ∷ v) ≡ v
after-key [] v h = refl
after-key (c ∷ k) v h = ground (arith, after-key k v)

splits_path :
    (store : Store) (p : Text)
    → all is_plain p ≡ true
    → web.urlsplit (origin store ++ 47 ∷ p) ≡ some (plain_parts store (47 ∷ p) [])
splits_path Store.amazon p h = rw (before-plain p h, after-plain p h)
splits_path store p h = rw (before-plain p h, after-plain p h)

rejoins_path :
    (store : Store) (p q : Text)
    → all is_plain p ≡ true
    → web.urlsplit (web.urlunsplit (codes "https") (codes (canonical_host store)) (47 ∷ p) q)
      ≡ some (plain_parts store (47 ∷ p) q)
rejoins_path Store.amazon p q h = rw (before-query p q h, after-query p q h)
rejoins_path store p q h = rw (before-query p q h, after-query p q h)

slash : (c : ℕ) (p : Text) → IsPlain (c ∷ p) → (47 ≡ c) × (all is_plain p ≡ true)
slash c p h = (ground arith, ground arith)

splits_lem :
    (store : Store) (path : Text)
    → IsPlain path
    → web.urlsplit (origin store ++ path) ≡ some (plain_parts store path [])
splits_lem store [] h = absurd (cc)
splits_lem store (c ∷ p) h =
    let (e, rest) = slash c p h in
    subst (λ d. web.urlsplit (origin store ++ d ∷ p) ≡ some (plain_parts store (d ∷ p) [])) e
      (splits_path store p rest)

rejoins_lem :
    (store : Store) (path q : Text)
    → IsPlain path
    → web.urlsplit (web.urlunsplit (codes "https") (codes (canonical_host store)) path q)
      ≡ some (plain_parts store path q)
rejoins_lem store [] q h = absurd (cc)
rejoins_lem store (c ∷ p) q h =
    let (e, rest) = slash c p h in
    subst
      (λ d.
        web.urlsplit (web.urlunsplit (codes "https") (codes (canonical_host store)) (d ∷ p) q)
        ≡ some (plain_parts store (d ∷ p) q))
      e (rejoins_path store p q rest)

pairs_lem : (k v : Text) → all is_folded k ≡ true → pairs_of (k ++ 61 ∷ v) ≡ (k, v) ∷ []
pairs_lem [] v h = refl
pairs_lem (c ∷ k) v h = rw (before-key (c ∷ k) v h, after-key (c ∷ k) v h)

lower-folded : (t : Text) → all is_folded t ≡ true → map lower t ≡ t
lower-folded [] h = refl
lower-folded (c ∷ t) h = ground (arith, lower-folded t)

web-IsDocumented : IsDocumented web
web-IsDocumented = record {
  splits = splits_lem;
  rejoins =
      λ store path key value plain folded digits. rejoins_lem store path (key ++ 61 ∷ value) plain;
  empty_query = refl;
  encoded_query = λ key value folded digits. pairs_lem key value folded;
  ascii_host = λ store. refl;
  folded = lower-folded;
}

abbrev one_sku : Text
one_sku = codes "https://pt.aliexpress.com/item/1005001.html?SkuId=77"

abbrev product : CanonicalUrlResult
product =
    pending Store.aliexpress (codes "1005001") (codes "sku_id:77")
      (codes "https://www.aliexpress.com/item/1005001.html?sku_id=77")

product_read : canonicalize_store_url web one_sku ≡ some product
unfolding canonicalize_store_url for_parts store_for_host identify search_in aliexpress_at digits_of
    after_digits gather with_query variation_key finish add_value values
product_read = refl

canonicalize_again_example :
    (u : Text) × (product.canonical_url ≡ some u) × (canonicalize_store_url web u ≡ some product)
canonicalize_again_example =
    canonicalize_again web web-IsDocumented one_sku product product_read refl

-- An image of AliExpress, and one on another host or over http.
image_taken :
    aliexpress_image_url web (some (codes "https://ae01.alicdn.com/kf/1.jpg"))
    ≡ some (codes "https://ae01.alicdn.com/kf/1.jpg")
unfolding aliexpress_image_url
image_taken = refl

image_refused :
    map
      (λ url. aliexpress_image_url web (some (codes url)))
      ("https://example.com/kf/1.jpg" ∷ "http://ae01.alicdn.com/kf/1.jpg" ∷ [])
    ≡ none ∷ none ∷ []
unfolding aliexpress_image_url
image_refused = refl

no_host_allowed : shopee_image_url web [] (some (codes "https://ae01.alicdn.com/kf/1.jpg")) ≡ none
unfolding shopee_image_url
no_host_allowed = refl
