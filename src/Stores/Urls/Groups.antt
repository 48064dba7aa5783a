-- ===== src/Stores/Urls/Groups.antt =====
-- What the product patterns of src/promo_bot/stores/urls.py capture, and that they capture it again in
-- the path of a canonical address.
use promo_bot.Base.{
  ℕ, zero, suc, ◌≡◌, refl, ap, ◌∙◌, Bool, true, false, not, ◌&&◌, ◌==◌, leb, Option, none, some, [],
  ◌∷◌, ◌++◌, if◌then◌else◌, length, all, map, arith, Bool-cases, Option-cases, inl, inr,
}
use mathlib.Core.Path.{subst}
use mathlib.Core.List.{append-nil}
use promo_bot.Stores.Patterns.{
  Text, codes, and_then, or_else, search_in, upper_letter, amazon_at, mercadolivre_at, shopee_at,
  aliexpress_at, kabum_at, is_digit, is_alnum, digits_of, after_digits, number, alnum, literal,
  at_end, skip_dash, two_numbers, ended, ten_alnum_ended, number_ended, five_digits, paired,
  second_number, after_first, first_number, html_ended, number_html, starts_with,
}

-- A character that ends neither a path nor an address.
abbrev pub is_plain : ℕ → Bool
is_plain c = leb 33 c && not (c == 35) && not (c == 63)

abbrev pub IsPlain : Text → Type 0
IsPlain p = (starts_with p (codes "/") ≡ true) × (all is_plain p ≡ true)

pub and_then-some :
    {A B : Type 0} (o : Option A) (f : A → Option B) {b : B}
    → and_then o f ≡ some b
    → (a : A) × (o ≡ some a) × (f a ≡ some b)
and_then-some none f h = absurd (cc)
and_then-some (some a) f h = (a, refl, h)

pub chosen :
    {A : Type 0} (c : Bool) {a b : A} → (if c then some a else none) ≡ some b → (c ≡ true) × (a ≡ b)
chosen true h = (refl, cc)
chosen false h = absurd (cc)

module _ {A : Type 0} (at : Text → Option A) where
  pub found_at : (s : Text) {a : A} → search_in at s ≡ some a → (t : Text) × (at t ≡ some a)
  unfolding search_in
  found_at [] h = ([], h)
  found_at (c ∷ s) h = elim (Option-cases (at (c ∷ s))) [
    | inl missed ↦ found_at s (rw missed at h)
    | inr (b, e) ↦ (c ∷ s, ground arith)
  ]

  pub search_head : (s : Text) {a : A} → at s ≡ some a → search_in at s ≡ some a
  unfolding search_in
  search_head [] h = h
  search_head (c ∷ s) h = rw h

pub all-append :
    (p : ℕ → Bool) (s t : Text) → all p s ≡ true → all p t ≡ true → all p (s ++ t) ≡ true
all-append p [] t h k = k
all-append p (c ∷ s) t h k = ground (arith, all-append p s t)

abbrev pub stops : Text → Bool
stops [] = true
stops (c ∷ s) = not (is_digit c)

pub all-digits_of : (s : Text) → all is_digit (digits_of s) ≡ true
unfolding digits_of
all-digits_of [] = refl
all-digits_of (c ∷ s) = elim (Bool-cases (is_digit c)) [
  | inl d ↦ rw (d, all-digits_of s) (ground arith)
  | inr d ↦ rw d
]

pub digits_of-append :
    (d r : Text) → all is_digit d ≡ true → stops r ≡ true → digits_of (d ++ r) ≡ d
unfolding digits_of
digits_of-append [] [] h k = refl
digits_of-append [] (c ∷ r) h k = ground arith
digits_of-append (c ∷ d) r h k = ground (arith, digits_of-append d r)

pub after_digits-append :
    (d r : Text) → all is_digit d ≡ true → stops r ≡ true → after_digits (d ++ r) ≡ r
unfolding after_digits
after_digits-append [] [] h k = refl
after_digits-append [] (c ∷ r) h k = ground arith
after_digits-append (c ∷ d) r h k = ground (arith, after_digits-append d r)

-- The digits of a number: at least one.
abbrev pub IsNumber : Text → Type 0
IsNumber d = (all is_digit d ≡ true) × (leb 1 (length d) ≡ true)

pub number-append : (d r : Text) → IsNumber d → stops r ≡ true → number (d ++ r) ≡ some (d, r)
number-append d r n k = rw (digits_of-append d r n.0 k, after_digits-append d r n.0 k, n.1)

pub number-IsNumber : (s : Text) {d r : Text} → number s ≡ some (d, r) → IsNumber d
number-IsNumber s h = elim (Bool-cases (leb 1 (length (digits_of s)))) [
  | inl e ↦ let same_d = rw e at h in ground (arith, all-digits_of s)
  | inr e ↦ let h' = rw e at h in absurd (cc)
]

pub plain-digits : (d : Text) → all is_digit d ≡ true → all is_plain d ≡ true
plain-digits [] h = refl
plain-digits (c ∷ d) h = ground (arith, plain-digits d)

pub alnum-group :
    (n : ℕ) (s : Text) {g r : Text}
    → alnum n s ≡ some (g, r)
    → (length g ≡ n) × (all is_alnum g ≡ true)
unfolding alnum
alnum-group zero s h = ground arith
alnum-group (suc n) [] h = absurd (cc)
alnum-group (suc n) (c ∷ s) h = elim (Option-cases (alnum n s)) [
  | inl e ↦ absurd (ground arith)
  | inr ((g, r), e) ↦ ground (arith, alnum-group n s e)
]

pub alnum-again :
    (n : ℕ) (g : Text) → length g ≡ n → all is_alnum g ≡ true → alnum n g ≡ some (g, [])
unfolding alnum
alnum-again zero [] h k = refl
alnum-again zero (c ∷ g) h k = absurd (omega arith)
alnum-again (suc n) [] h k = absurd (omega arith)
alnum-again (suc n) (c ∷ g) h k = ground (arith, alnum-again n g)

pub upper-alnum : (c : ℕ) → is_alnum c ≡ true → is_alnum (upper_letter c) ≡ true
upper-alnum c h = ground arith

pub upper_idem : (c : ℕ) → upper_letter (upper_letter c) ≡ upper_letter c
upper_idem c = ground arith

pub plain-alnum : (c : ℕ) → is_alnum c ≡ true → is_plain c ≡ true
plain-alnum c h = ground arith

pub group-upper :
    (g : Text)
    → all is_alnum g ≡ true
    → (length (map upper_letter g) ≡ length g)
      × (all is_alnum (map upper_letter g) ≡ true)
      × (map upper_letter (map upper_letter g) ≡ map upper_letter g)
      × (all is_plain (map upper_letter g) ≡ true)
group-upper [] h = (refl, refl, refl, refl)
group-upper (c ∷ g) h =
    let here : is_alnum c ≡ true = ground arith in
    let (a, b, m, d) = group-upper g (ground arith) in
    (
      omega (arith, a),
      rw (upper-alnum c here, b),
      rw (upper_idem c, m),
      rw (plain-alnum (upper_letter c) (upper-alnum c here), d),
    )

pub ended-some : (m : Text × Text) {g : Text} → ended m ≡ some g → m.0 ≡ g
ended-some m h = (chosen (at_end m.1) h).1

pub number_ended-IsNumber : (s : Text) {d : Text} → number_ended s ≡ some d → IsNumber d
number_ended-IsNumber s h =
    let (m, e, h') = and_then-some (number s) ended h in
    subst IsNumber (ended-some m h') (number-IsNumber s e)

pub amazon-group :
    (s : Text) {g : Text} → amazon_at s ≡ some g → (length g ≡ 10) × (all is_alnum g ≡ true)
unfolding amazon_at
amazon-group s h =
    let (rest, _, h1) =
      and_then-some (or_else (literal (codes "/dp/") s) (literal (codes "/gp/product/") s))
        ten_alnum_ended h in
    let (m, e, h2) = and_then-some (alnum 10 rest) ended h1 in
    subst (λ t. (length t ≡ 10) × (all is_alnum t ≡ true)) (ended-some m h2) (alnum-group 10 rest e)

pub amazon_again :
    (g : Text) → length g ≡ 10 → all is_alnum g ≡ true → amazon_at (codes "/dp/" ++ g) ≡ some g
unfolding amazon_at
amazon_again g h k = rw (alnum-again 10 g h k)

pub mercadolivre-digits :
    (s : Text) {d : Text}
    → mercadolivre_at s ≡ some d
    → (all is_digit d ≡ true) × (leb 5 (length d) ≡ true)
unfolding mercadolivre_at
mercadolivre-digits s h =
    let (rest, _, h1) = and_then-some (literal (codes "mlb") s) five_digits h in
    let (long, e) =
      chosen (leb 5 (length (digits_of (skip_dash rest)))) {a = digits_of (skip_dash rest)} h1 in
    subst (λ t. (all is_digit t ≡ true) × (leb 5 (length t) ≡ true)) e
      (all-digits_of (skip_dash rest), long)

pub second_number-paired :
    (shop : Text × Text) (s : Text) {a b : Text}
    → second_number shop s ≡ some (a, b)
    → (shop.0 ≡ a) × IsNumber b
second_number-paired shop s h =
    let (d, e, h') = and_then-some (number_ended s) (paired shop.0) h in
    (cc, subst IsNumber (cc) (number_ended-IsNumber s e))

pub numbers-group :
    (opening separator s : Text) {a b : Text}
    → two_numbers opening separator s ≡ some (a, b)
    → IsNumber a × IsNumber b
numbers-group opening separator s h =
    let (rest, _, h1) = and_then-some (literal opening s) (first_number separator) h in
    let (shop, e, h2) = and_then-some (number rest) (after_first separator) h1 in
    let (rest', _, h3) = and_then-some (literal separator shop.1) (second_number shop) h2 in
    let (q, n) = second_number-paired shop rest' h3 in
    (subst IsNumber q (number-IsNumber rest e), n)

pub aliexpress-IsNumber : (s : Text) {d : Text} → aliexpress_at s ≡ some d → IsNumber d
unfolding aliexpress_at
aliexpress-IsNumber s h =
    let (rest, _, h1) = and_then-some (literal (codes "/item/") s) number_html h in
    let (m, e, h2) = and_then-some (number rest) html_ended h1 in
    let (rest', _, h3) =
      and_then-some (literal (codes ".html") m.1) (λ (r : Text). ended (m.0, r)) h2 in
    subst IsNumber (ended-some (m.0, rest') h3) (number-IsNumber rest e)

pub kabum-IsNumber : (s : Text) {d : Text} → kabum_at s ≡ some d → IsNumber d
unfolding kabum_at
kabum-IsNumber s h =
    let (rest, _, h1) = and_then-some (literal (codes "/produto/") s) number_ended h in
    number_ended-IsNumber rest h1

pub number_plain : (d : Text) → IsNumber d → all is_plain d ≡ true
number_plain d n = plain-digits d n.0

pub number_again : (d : Text) → IsNumber d → number d ≡ some (d, [])
number_again d n = subst (λ t. number t ≡ some (d, [])) (append-nil d) (number-append d [] n refl)

pub shopee_again :
    (a b : Text)
    → IsNumber a
    → IsNumber b
    → search_in shopee_at (codes "/product/" ++ (a ++ (codes "/" ++ b))) ≡ some (a, b)
unfolding shopee_at
shopee_again a b m n = search_head shopee_at (codes "/product/" ++ (a ++ (codes "/" ++ b))) (
    ap (λ o. and_then o (after_first (codes "/"))) (number-append a (codes "/" ++ b) m refl)
    ∙ ap (λ o. and_then (and_then o ended) (paired a)) (number_again b n))

pub aliexpress_again :
    (d : Text)
    → IsNumber d
    → search_in aliexpress_at (codes "/item/" ++ d ++ codes ".html") ≡ some d
unfolding aliexpress_at
aliexpress_again d n = search_head aliexpress_at _ (rw (number-append d (codes ".html") n refl))

pub kabum_again : (d : Text) → IsNumber d → search_in kabum_at (codes "/produto/" ++ d) ≡ some d
unfolding kabum_at
kabum_again d n = search_head kabum_at _ (rw (number_again d n))

pub mercadolivre_again :
    (d : Text)
    → all is_digit d ≡ true
    → leb 5 (length d) ≡ true
    → search_in mercadolivre_at (codes "/MLB-" ++ d) ≡ some d
unfolding search_in mercadolivre_at
mercadolivre_again d h k =
    let e : digits_of d ≡ d =
      subst (λ t. digits_of t ≡ d) (append-nil d) (digits_of-append d [] h refl) in
    rw (e, k)
