-- ===== src/PhoneNumber/Scripts.antt =====
-- Phone numbers in the decimal digits of other scripts.
use goldy_telegram_bot.Text.{Text, is_decimal}
use goldy_telegram_bot.Result.{ok}
use goldy_telegram_bot.Prelude.{
  ℕ, ◌+◌, ◌-◌, ◌≤◌, ◌≡◌, refl, ap, ◌≢◌, true, [], ◌∷◌, map, arith, length, all, drop, All,
}
use goldy_telegram_bot.PhoneNumber.{make}
use goldy_telegram_bot.PhoneNumber.Canonical.{make-ok, ascii_is_decimal}

-- The same digits in the Arabic-Indic script.
abbrev pub arabic_indic : Text → Text
arabic_indic = map (λ c. c + (1632 - b'0'))

abbrev pub IsAscii : Text → Type 0
IsAscii = All (λ c. (b'0' ≤ c) × (c ≤ b'9'))

arabic_is_decimal : (c : ℕ) → b'0' ≤ c → c ≤ b'9' → is_decimal (c + 1584) ≡ true
unfolding is_decimal
arabic_is_decimal c h k = ground arith

all_ascii : (ds : Text) → IsAscii ds → all is_decimal ds ≡ true
all_ascii [] h = refl
all_ascii (d ∷ ds) h = ground (arith, all_ascii ds h.1, ascii_is_decimal d)

all_arabic : (ds : Text) → IsAscii ds → all is_decimal (arabic_indic ds) ≡ true
all_arabic [] h = refl
all_arabic (d ∷ ds) h = ground (arith, all_arabic ds h.1, arabic_is_decimal d)

length-arabic_indic : (ds : Text) → length (arabic_indic ds) ≡ length ds
length-arabic_indic [] = refl
length-arabic_indic (d ∷ ds) = omega (arith, length-arabic_indic ds)

differs : (ds : Text) → 7 ≤ length ds → arabic_indic ds ≢ ds
differs [] h = absurd (omega arith)
differs (d ∷ ds) h = λ e. ground arith

-- Every canonical number in ASCII digits has a second spelling, with the digits after the first in
-- the Arabic-Indic script, that the constructor accepts too and that is not equal to it.
pub second_spelling :
    (d : ℕ) (ds : Text)
    → b'1' ≤ d
    → d ≤ b'9'
    → IsAscii ds
    → 7 ≤ length ds
    → length ds ≤ 14
    → (make (b'+' ∷ d ∷ ds) ≡ ok (record { value = b'+' ∷ d ∷ ds }))
      × (make (b'+' ∷ d ∷ arabic_indic ds) ≡ ok (record { value = b'+' ∷ d ∷ arabic_indic ds }))
      × ((b'+' ∷ d ∷ arabic_indic ds) ≢ (b'+' ∷ d ∷ ds))
second_spelling d ds lo hi a long short = (
  make-ok _ (record {
    first = d;
    rest = ds;
    spelled = refl;
    low = lo;
    high = hi;
    digits = all_ascii ds a;
    long = long;
    short = short;
  }),
  make-ok _ (record {
    first = d;
    rest = arabic_indic ds;
    spelled = refl;
    low = lo;
    high = hi;
    digits = all_arabic ds a;
    long = omega (arith, length-arabic_indic ds);
    short = omega (arith, length-arabic_indic ds);
  }),
  λ e. differs ds long (ap (drop 2) e),
)
