-- ===== src/Stores/Urls/Products.antt =====
-- The product patterns find the product in the path of a canonical address.
use promo_bot.Base.{◌≡◌, refl, ap, ◌∙◌, some, String, ◌++◌, map, Option-cases, inl, inr}
use mathlib.Core.Path.{subst}
use promo_bot.Domain.Enums.{Store}
use promo_bot.Stores.Patterns.{
  Text, codes, or_else, search_in, upper_letter, amazon_at, mercadolivre_at, shopee_at, shopee_i_at,
  aliexpress_at, kabum_at,
}
use promo_bot.Stores.Urls.{
  identify, amazon_product, mercadolivre_product, shopee_product, aliexpress_product, named,
}
use promo_bot.Stores.Urls.Groups.{
  IsNumber, IsPlain, aliexpress-IsNumber, aliexpress_again, all-append, amazon-group, amazon_again,
  found_at, group-upper, is_plain, kabum-IsNumber, kabum_again, mercadolivre-digits,
  mercadolivre_again, numbers-group, plain-digits, search_head, shopee_again,
}

abbrev pub canonical_host : Store → String
canonical_host Store.amazon = "www.amazon.com.br"
canonical_host Store.mercadolivre = "produto.mercadolivre.com.br"
canonical_host Store.shopee = "shopee.com.br"
canonical_host Store.aliexpress = "www.aliexpress.com"
canonical_host Store.kabum = "www.kabum.com.br"

abbrev pub origin : Store → Text
origin store = codes "https://" ++ codes (canonical_host store)

-- A path of the canonical address that names the product again.
abbrev pub Names : Store → Text → Text → Type 0
Names store id url =
    (p : Text) × (url ≡ origin store ++ p) × IsPlain p × (identify store p ≡ some (id, url))

-- The identifier and the canonical address lead to themselves.
amazon-Names :
    (s : Text) {id url : Text}
    → amazon_product (search_in amazon_at s) ≡ some (id, url)
    → Names Store.amazon id url
unfolding identify
amazon-Names s h = elim (Option-cases (search_in amazon_at s)) [
  | inl e ↦ let h' = rw e at h in absurd (cc)
  | inr (g, e) ↦
      let h' = rw e at h in
      let (t, e') = found_at amazon_at s e in
      let (ten, group) = amazon-group t e' in
      let (same_length, again, idem, plain) = group-upper g group in
      let u = map upper_letter g in
      let names : Names Store.amazon u (origin Store.amazon ++ codes "/dp/" ++ u) = (
        codes "/dp/" ++ u,
        refl,
        (refl, plain),
        ap amazon_product
              (search_head amazon_at (codes "/dp/" ++ u) (amazon_again u (same_length ∙ ten) again))
            ∙ rw idem,
      ) in
      subst (λ (m : Text × Text). Names Store.amazon m.0 m.1) (cc) names
]

mercadolivre-Names :
    (s : Text) {id url : Text}
    → mercadolivre_product (search_in mercadolivre_at s) ≡ some (id, url)
    → Names Store.mercadolivre id url
unfolding identify
mercadolivre-Names s h = elim (Option-cases (search_in mercadolivre_at s)) [
  | inl e ↦ let h' = rw e at h in absurd (cc)
  | inr (d, e) ↦
      let h' = rw e at h in
      let (t, e') = found_at mercadolivre_at s e in
      let (n, long) = mercadolivre-digits t e' in
      let names : Names Store.mercadolivre (codes "MLB" ++ d)
          (origin Store.mercadolivre ++ codes "/MLB-" ++ d) =
        (
          codes "/MLB-" ++ d,
          refl,
          (refl, plain-digits d n),
          ap mercadolivre_product (mercadolivre_again d n long),
        ) in
      subst (λ (m : Text × Text). Names Store.mercadolivre m.0 m.1) (cc) names
]

shopee-numbers :
    (s : Text) {m : Text × Text}
    → or_else (search_in shopee_at s) (search_in shopee_i_at s) ≡ some m
    → IsNumber m.0 × IsNumber m.1
unfolding shopee_at shopee_i_at
shopee-numbers s h = elim (Option-cases (search_in shopee_at s)) [
  | inl e ↦
      let (t, e') = found_at shopee_i_at s (rw e at h) in
      numbers-group (codes "-i.") (codes ".") t e'
  | inr (n, e) ↦
      let h' = rw e at h in
      let (t, e') = found_at shopee_at s e in
      subst (λ (m : Text × Text). IsNumber m.0 × IsNumber m.1) (cc)
        (numbers-group (codes "/product/") (codes "/") t e')
]

shopee-Names :
    (s : Text) {id url : Text}
    → shopee_product (or_else (search_in shopee_at s) (search_in shopee_i_at s)) ≡ some (id, url)
    → Names Store.shopee id url
unfolding identify
shopee-Names s h = elim (Option-cases (or_else (search_in shopee_at s) (search_in shopee_i_at s))) [
  | inl e ↦ let h' = rw e at h in absurd (cc)
  | inr ((a, b), e) ↦
      let h' = rw e at h in
      let (m, n) = shopee-numbers s e in
      let p = codes "/product/" ++ (a ++ (codes "/" ++ b)) in
      let names : Names Store.shopee (a ++ (codes ":" ++ b)) (origin Store.shopee ++ p) = (
        p,
        refl,
        (refl, all-append is_plain a (codes "/" ++ b) (plain-digits a m.0) (plain-digits b n.0)),
        rw (shopee_again a b m n),
      ) in
      subst (λ (q : Text × Text). Names Store.shopee q.0 q.1) (cc) names
]

aliexpress-Names :
    (s : Text) {id url : Text}
    → aliexpress_product (search_in aliexpress_at s) ≡ some (id, url)
    → Names Store.aliexpress id url
unfolding identify
aliexpress-Names s h = elim (Option-cases (search_in aliexpress_at s)) [
  | inl e ↦ let h' = rw e at h in absurd (cc)
  | inr (d, e) ↦
      let h' = rw e at h in
      let (t, e') = found_at aliexpress_at s e in
      let n = aliexpress-IsNumber t e' in
      let p = codes "/item/" ++ d ++ codes ".html" in
      let names : Names Store.aliexpress d (origin Store.aliexpress ++ p) = (
        p,
        refl,
        (refl, all-append is_plain d (codes ".html") (plain-digits d n.0) refl),
        ap aliexpress_product (aliexpress_again d n),
      ) in
      subst (λ (q : Text × Text). Names Store.aliexpress q.0 q.1) (cc) names
]

kabum-Names :
    (s : Text) {id url : Text}
    → named "https://www.kabum.com.br/produto/" (search_in kabum_at s) ≡ some (id, url)
    → Names Store.kabum id url
unfolding identify
kabum-Names s h = elim (Option-cases (search_in kabum_at s)) [
  | inl e ↦ let h' = rw e at h in absurd (cc)
  | inr (d, e) ↦
      let h' = rw e at h in
      let (t, e') = found_at kabum_at s e in
      let n = kabum-IsNumber t e' in
      let p = codes "/produto/" ++ d in
      let names : Names Store.kabum d (origin Store.kabum ++ p) = (
        p,
        refl,
        (refl, plain-digits d n.0),
        ap (named "https://www.kabum.com.br/produto/") (kabum_again d n),
      ) in
      subst (λ (q : Text × Text). Names Store.kabum q.0 q.1) (cc) names
]

pub identify-Names :
    (store : Store) (s : Text) {id url : Text}
    → identify store s ≡ some (id, url)
    → Names store id url
unfolding identify
identify-Names Store.amazon s h = amazon-Names s h
identify-Names Store.mercadolivre s h = mercadolivre-Names s h
identify-Names Store.shopee s h = shopee-Names s h
identify-Names Store.aliexpress s h = aliexpress-Names s h
identify-Names Store.kabum s h = kabum-Names s h
