-- ===== src/Text.antt =====
-- Python's `str` as a list of code points, with the tests and methods that the sources use.
-- The tables of white space and of decimal digits are those of the Unicode data of Python 3.14.
pub mod Blank
use Prim.Native.Char.{code}
use goldy_telegram_bot.Prelude.{
  ℕ, ◌+◌, ◌≡◌, refl, ◌↔◌, Bool, true, false, ◌&&◌, ◌||◌, List, [], ◌∷◌, arith, String, leb, ◌==◌,
  if◌then◌else◌, any, is_nil,
}

abbrev pub Text : Type 0
Text = List ℕ

-- A text literal.
abbrev pub text : String → Text
text String.[] = []
text (String.◌∷◌ c s) = code c ∷ text s

-- `a == b` on texts
unfoldable pub same : Text → Text → Bool
same [] [] = true
same [] (y ∷ ys) = false
same (x ∷ xs) [] = false
same (x ∷ xs) (y ∷ ys) = x == y && same xs ys

same→eq : (a b : Text) → same a b ≡ true → a ≡ b
unfolding same
same→eq [] [] h = refl
same→eq [] (y ∷ ys) h = ground arith
same→eq (x ∷ xs) [] h = ground arith
same→eq (x ∷ xs) (y ∷ ys) h = ground (arith, same→eq xs ys)

pub same_refl : (a : Text) → same a a ≡ true
unfolding same
same_refl [] = refl
same_refl (x ∷ xs) = ground (arith, same_refl xs)

pub same_iff : (a b : Text) → (same a b ≡ true) ↔ (a ≡ b)
same_iff a b = (same→eq a b, λ e. ground (arith, same_refl a))

abbrev pub contains : ℕ → List ℕ → Bool
contains c = any (λ d. c == d)

abbrev whitespace : List ℕ
whitespace =
    9 ∷ 10 ∷ 11 ∷ 12 ∷ 13 ∷ 28 ∷ 29 ∷ 30 ∷ 31 ∷ 32 ∷ 133 ∷ 160 ∷ 5760 ∷ 8192 ∷ 8193 ∷ 8194 ∷ 8195
    ∷ 8196 ∷ 8197 ∷ 8198 ∷ 8199 ∷ 8200 ∷ 8201 ∷ 8202 ∷ 8232 ∷ 8233 ∷ 8239 ∷ 8287 ∷ 12288 ∷ []

-- `str.isspace` of one character
unfoldable pub is_space : ℕ → Bool
is_space c = contains c whitespace

-- `str.lstrip`
unfoldable pub lstrip : Text → Text
lstrip [] = []
lstrip (c ∷ cs) = let rest = lstrip cs in if is_space c then rest else c ∷ cs

keep_before : ℕ → Text → Text
keep_before c [] = if is_space c then [] else c ∷ []
keep_before c (d ∷ ds) = c ∷ d ∷ ds

-- `str.rstrip`: a character stays if it is no white space or if one after it stays.
unfoldable pub rstrip : Text → Text
unfolding keep_before
rstrip [] = []
rstrip (c ∷ cs) = keep_before c (rstrip cs)

-- `str.strip`
unfoldable pub strip : Text → Text
unfolding lstrip rstrip
strip s = lstrip (rstrip s)

-- `not s.strip()`: the text is empty or all white space.
unfoldable pub is_blank : Text → Bool
unfolding strip
is_blank s = is_nil (strip s)

-- The zeros of the decimal digits of Unicode; each stands before its one to nine.
abbrev decimal_zeros : List ℕ
decimal_zeros =
    48 ∷ 1632 ∷ 1776 ∷ 1984 ∷ 2406 ∷ 2534 ∷ 2662 ∷ 2790 ∷ 2918 ∷ 3046 ∷ 3174 ∷ 3302 ∷ 3430 ∷ 3558
    ∷ 3664 ∷ 3792 ∷ 3872 ∷ 4160 ∷ 4240 ∷ 6112 ∷ 6160 ∷ 6470 ∷ 6608 ∷ 6784 ∷ 6800 ∷ 6992 ∷ 7088
    ∷ 7232 ∷ 7248 ∷ 42528 ∷ 43216 ∷ 43264 ∷ 43472 ∷ 43504 ∷ 43600 ∷ 44016 ∷ 65296 ∷ 66720 ∷ 68912
    ∷ 68928 ∷ 69734 ∷ 69872 ∷ 69942 ∷ 70096 ∷ 70384 ∷ 70736 ∷ 70864 ∷ 71248 ∷ 71360 ∷ 71376 ∷ 71386
    ∷ 71472 ∷ 71904 ∷ 72016 ∷ 72688 ∷ 72784 ∷ 73040 ∷ 73120 ∷ 73552 ∷ 92768 ∷ 92864 ∷ 93008 ∷ 93552
    ∷ 118000 ∷ 120782 ∷ 120792 ∷ 120802 ∷ 120812 ∷ 120822 ∷ 123200 ∷ 123632 ∷ 124144 ∷ 124401
    ∷ 125264 ∷ 130032 ∷ []

-- `\d` of a `str` pattern: a decimal digit of any script
unfoldable pub is_decimal : ℕ → Bool
is_decimal c = any (λ z. leb z c && leb c (z + 9)) decimal_zeros

-- `unicodedata.category(c) == "Cc"`
unfoldable pub is_control : ℕ → Bool
is_control c = leb c 31 || (leb 127 c && leb c 159)

-- ASCII `0` to `9` and `1` to `9`
abbrev pub is_ascii_digit : ℕ → Bool
is_ascii_digit c = leb b'0' c && leb c b'9'
