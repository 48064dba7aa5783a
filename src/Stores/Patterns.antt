-- ===== src/Stores/Patterns.antt =====
-- The product patterns of src/promo_bot/stores/urls.py (lines 32 to 37) as matchers on lists of code
-- points. A pattern is searched from the left and ignores case, as `re.IGNORECASE` does: of the
-- characters beyond ASCII, U+0130, U+0131, U+017F and U+212A match an ASCII letter. No pattern can
-- match in a second way after a greedy run of digits, so a matcher does not go back.
use Prim.Native.Char.{code}
use promo_bot.Base.{
  ℕ, zero, suc, ◌+◌, ◌-◌, Bool, true, false, ◌&&◌, ◌||◌, ◌==◌, leb, Option, none, some, String,
  List, [], ◌∷◌, if◌then◌else◌, length,
}

abbrev pub Text : Type 0
Text = List ℕ

abbrev pub codes : String → Text
codes String.[] = []
codes (String.◌∷◌ c s) = code c ∷ codes s

-- `==` of two texts
abbrev pub same : Text → Text → Bool
same [] [] = true
same [] (b ∷ t) = false
same (a ∷ s) [] = false
same (a ∷ s) (b ∷ t) = a == b && same s t

-- `text.startswith(prefix)`
abbrev pub starts_with : Text → Text → Bool
starts_with s [] = true
starts_with [] (p ∷ prefix) = false
starts_with (c ∷ s) (p ∷ prefix) = c == p && starts_with s prefix

-- The lower-case letter that a character is matched as.
abbrev pub fold_letter : ℕ → ℕ
fold_letter c =
    if leb 65 c && leb c 90
    then c + 32
    else if c == 0x130 || c == 0x131
    then 105
    else if c == 0x17f
    then 115
    else if c == 0x212a
    then 107
    else c

-- `[0-9]` and `[A-Z0-9]`
abbrev pub is_digit : ℕ → Bool
is_digit c = leb 48 c && leb c 57

abbrev pub is_alnum : ℕ → Bool
is_alnum c = is_digit c || leb 97 (fold_letter c) && leb (fold_letter c) 122

-- `str.upper` of a character that `[A-Z0-9]` matches: U+0130 and U+212A are upper case already.
abbrev pub upper_letter : ℕ → ℕ
upper_letter c =
    if leb 97 c && leb c 122
    then c - 32
    else if c == 0x131
    then 73
    else if c == 0x17f
    then 83
    else c

-- The rest of the text after a literal, which is written in lower case.
abbrev pub literal : Text → Text → Option Text
literal [] s = some s
literal (p ∷ ps) [] = none
literal (p ∷ ps) (c ∷ s) = if fold_letter c == p then literal ps s else none

-- A greedy run of digits, and what follows it.
unfoldable pub digits_of : Text → Text
digits_of [] = []
digits_of (c ∷ s) = if is_digit c then c ∷ digits_of s else []

unfoldable pub after_digits : Text → Text
after_digits [] = []
after_digits (c ∷ s) = if is_digit c then after_digits s else c ∷ s

-- `([0-9]+)`: the digits and the rest
abbrev pub number : Text → Option (Text × Text)
number s = if leb 1 (length (digits_of s)) then some (digits_of s, after_digits s) else none

-- `([A-Z0-9]{n})`: the characters and the rest
unfoldable pub alnum : ℕ → Text → Option (Text × Text)
alnum zero s = some ([], s)
alnum (suc n) [] = none
alnum (suc n) (c ∷ s) = elim (alnum n s) [
  | some (g, rest) ↦ if is_alnum c then some (c ∷ g, rest) else none
  | none ↦ none
]

-- `(?:[/?]|$)`: `$` matches before a line feed at the end, too
abbrev pub at_end : Text → Bool
at_end [] = true
at_end (c ∷ []) = c == 47 || c == 63 || c == 10
at_end (c ∷ d ∷ s) = c == 47 || c == 63

-- `[-_]?`
abbrev pub skip_dash : Text → Text
skip_dash [] = []
skip_dash (c ∷ s) = if c == 45 || c == 95 then s else c ∷ s

abbrev pub and_then : {A B : Type 0} → Option A → (A → Option B) → Option B
and_then none f = none
and_then (some a) f = f a

abbrev pub or_else : {A : Type 0} → Option A → Option A → Option A
or_else none b = b
or_else (some a) b = some a

-- `pattern.search(text)` from the matcher at one place
unfoldable pub search_in : {A : Type 0} → (Text → Option A) → Text → Option A
search_in at [] = at []
search_in at (c ∷ s) = or_else (at (c ∷ s)) (search_in at s)

-- A group and the end of the pattern after it.
abbrev pub ended : Text × Text → Option Text
ended m = if at_end m.1 then some m.0 else none

abbrev pub ten_alnum_ended : Text → Option Text
ten_alnum_ended s = and_then (alnum 10 s) ended

abbrev pub number_ended : Text → Option Text
number_ended s = and_then (number s) ended

-- AMAZON_PRODUCT
unfoldable pub amazon_at : Text → Option Text
amazon_at s =
    and_then (or_else (literal (codes "/dp/") s) (literal (codes "/gp/product/") s)) ten_alnum_ended

-- MERCADOLIVRE_PRODUCT
abbrev pub five_digits : Text → Option Text
five_digits s =
    if leb 5 (length (digits_of (skip_dash s))) then some (digits_of (skip_dash s)) else none

unfoldable pub mercadolivre_at : Text → Option Text
mercadolivre_at s = and_then (literal (codes "mlb") s) five_digits

-- SHOPEE_PRODUCT and SHOPEE_I_PRODUCT
abbrev pub paired : Text → Text → Option (Text × Text)
paired shop item = some (shop, item)

abbrev pub second_number : Text × Text → Text → Option (Text × Text)
second_number shop s = and_then (number_ended s) (paired shop.0)

abbrev pub after_first : Text → Text × Text → Option (Text × Text)
after_first separator shop = and_then (literal separator shop.1) (second_number shop)

abbrev pub first_number : Text → Text → Option (Text × Text)
first_number separator s = and_then (number s) (after_first separator)

abbrev pub two_numbers : Text → Text → Text → Option (Text × Text)
two_numbers opening separator s = and_then (literal opening s) (first_number separator)

unfoldable pub shopee_at : Text → Option (Text × Text)
shopee_at s = two_numbers (codes "/product/") (codes "/") s

unfoldable pub shopee_i_at : Text → Option (Text × Text)
shopee_i_at s = two_numbers (codes "-i.") (codes ".") s

-- ALIEXPRESS_PRODUCT
abbrev pub html_ended : Text × Text → Option Text
html_ended m = and_then (literal (codes ".html") m.1) λ rest. ended (m.0, rest)

abbrev pub number_html : Text → Option Text
number_html s = and_then (number s) html_ended

unfoldable pub aliexpress_at : Text → Option Text
aliexpress_at s = and_then (literal (codes "/item/") s) number_html

-- KABUM_PRODUCT
unfoldable pub kabum_at : Text → Option Text
kabum_at s = and_then (literal (codes "/produto/") s) number_ended
