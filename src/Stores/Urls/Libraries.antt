-- ===== src/Stores/Urls/Libraries.antt =====
-- What src/promo_bot/stores/urls.py relies on in `urllib.parse`, the IDNA codec and `str.casefold`.
use promo_bot.Base.{ℕ, ◌≡◌, Bool, true, ◌&&◌, ◌||◌, ◌==◌, leb, none, some, [], ◌∷◌, ◌++◌, all}
use promo_bot.Domain.Enums.{Store}
use promo_bot.Stores.Patterns.{Text, codes}
use promo_bot.Stores.Urls.{UrlParts, Web}
use promo_bot.Stores.Urls.Groups.{IsPlain}
use promo_bot.Stores.Urls.Products.{canonical_host, origin}

-- Lower-case letters, digits and the marks of host names and keys: text that is folded already.
abbrev pub is_folded : ℕ → Bool
is_folded c = leb 97 c && leb c 122 || leb 48 c && leb c 57 || c == 45 || c == 46 || c == 95

-- The parts of an `https` address with a host and no user, port or fragment.
abbrev pub plain_parts : Store → Text → Text → UrlParts
plain_parts store path query = record {
  scheme = codes "https";
  netloc = codes (canonical_host store);
  path = path;
  query = query;
  hostname = some (codes (canonical_host store));
  username = none;
  password = none;
  port = some none;
}

pub record IsDocumented (web : Web) : Type 0 where
  pub splits :
      (store : Store) (path : Text)
      → IsPlain path
      → web.urlsplit (origin store ++ path) ≡ some (plain_parts store path [])
  pub rejoins :
      (store : Store) (path key value : Text)
      → IsPlain path
      → all is_folded key ≡ true
      → web.isdigit value ≡ true
      → web.urlsplit (
          web.urlunsplit
            (codes "https")
            (codes (canonical_host store))
            path
            (web.urlencode key value))
        ≡ some (plain_parts store path (web.urlencode key value))
  pub empty_query : web.parse_qsl [] ≡ []
  pub encoded_query :
      (key value : Text)
      → all is_folded key ≡ true
      → web.isdigit value ≡ true
      → web.parse_qsl (web.urlencode key value) ≡ (key, value) ∷ []
  -- each of these hosts is ASCII, in labels of 1 to 63 characters
  pub ascii_host :
      (store : Store)
      → web.idna (codes (canonical_host store)) ≡ some (codes (canonical_host store))
  pub folded : (t : Text) → all is_folded t ≡ true → web.casefold t ≡ t
