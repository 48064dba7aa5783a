-- ===== src/Tests/Links.antt =====
-- A short link that leads to a product page, as src/promo_bot/security/urls.py expands it.
use promo_bot.Base.{
  ◌+◌, ◌≤◌, ◌≡◌, refl, true, none, some, String, [], ◌∷◌, Result, ok, length, if◌then◌else◌, str_eq,
}
use promo_bot.Security.Expansion.{
  Parts, Net, HopResponse, UrlError, UrlExpansionResult, casefold, rstrip_dots, expand,
}
use promo_bot.Security.Expansion.Loop.{expand_ends}

abbrev parts_of : String → Parts
parts_of host = record {
  scheme = "https";
  hostname = some host;
  username = none;
  password = none;
  port = some none;
}

abbrev redirect_to : String → HopResponse
redirect_to url = record {
  status_code = 301;
  headers = λ h. some url;
  peer_ip = some "203.0.113.9";
}

abbrev page : HopResponse
page = record { status_code = 200; headers = λ h. none; peer_ip = some "203.0.113.9" }

abbrev net : Net
net = record {
  urlsplit = λ url.
      some (parts_of (if str_eq url "https://amzn.to/b" then "amzn.to" else "www.amazon.com.br"));
  urljoin = λ base url. some url;
  idna = λ host. some host;
  ip_address = λ text. some (record { text = text; is_global = true });
  resolve = λ k host port. ok ("203.0.113.9" ∷ []);
  fetch = λ k url ips. ok (
      if str_eq url "https://amzn.to/b"
      then redirect_to "https://www.amazon.com.br/dp/B000000000"
      else page);
}

folded : casefold "WWW.Amazon" ≡ "www.amazon"
unfolding casefold
folded = refl

stripped : rstrip_dots "amzn.to.." ≡ "amzn.to"
unfolding rstrip_dots
stripped = refl

expand_ends_example :
    (r : Result UrlError UrlExpansionResult) × ((expand net 5 "https://amzn.to/b").1 ≡ some r)
    × (length (expand net 5 "https://amzn.to/b").0 ≤ 5 + 1)
    × ((result : UrlExpansionResult)
        → r ≡ ok result
        → (length (expand net 5 "https://amzn.to/b").0 ≡ result.redirect_count + 1)
          × (result.redirect_count ≤ 5))
expand_ends_example = expand_ends net 5 "https://amzn.to/b"
