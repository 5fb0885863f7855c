-- ===== src/PhoneNumber/Canonical.antt =====
-- Numbers in canonical form, and the spellings that are normalised to them.
use goldy_telegram_bot.Result.{ok}
use goldy_telegram_bot.Prelude.{
  sym, ap, ◌∙◌, ℕ, ◌≤◌, ◌≡◌, refl, true, false, [], ◌∷◌, arith, length, all,
}
use goldy_telegram_bot.Text.{is_space, Text, is_decimal, lstrip}
use goldy_telegram_bot.PhoneNumber.{PhoneNumber, make, from_raw, digits_of, starts_with}

plus_is_no_digit : is_decimal b'+' ≡ false
unfolding is_decimal
plus_is_no_digit = refl

plus_is_no_space : is_space b'+' ≡ false
unfolding is_space
plus_is_no_space = refl

-- ASCII digits are decimal digits.
pub ascii_is_decimal : (c : ℕ) → b'0' ≤ c → c ≤ b'9' → is_decimal c ≡ true
unfolding is_decimal
ascii_is_decimal c h k = ground arith

pub digits_of-all : (ds : Text) → all is_decimal ds ≡ true → digits_of ds ≡ ds
unfolding digits_of
digits_of-all [] h = refl
digits_of-all (d ∷ ds) h = ground (arith, digits_of-all ds)

all-digits_of : (cs : Text) → all is_decimal (digits_of cs) ≡ true
unfolding digits_of
all-digits_of [] = refl
all-digits_of (c ∷ cs) = ground (arith, all-digits_of cs)

no_plus : (ds : Text) → all is_decimal ds ≡ true → starts_with b'+' (lstrip ds) ≡ false
unfolding lstrip
no_plus [] h = refl
no_plus (d ∷ ds) h = ground (arith, no_plus ds, plus_is_no_digit)

-- What canonical means: a plus, a digit from 1 to 9, and 7 to 14 further decimal digits.
pub record IsCanonical (v : Text) : Type 0 where
  pub first : ℕ
  pub rest : Text
  pub spelled : v ≡ b'+' ∷ first ∷ rest
  pub low : b'1' ≤ first
  pub high : first ≤ b'9'
  pub digits : all is_decimal rest ≡ true
  pub long : 7 ≤ length rest
  pub short : length rest ≤ 14

pub make-IsCanonical : (v : Text) (n : PhoneNumber) → make v ≡ ok n → IsCanonical v × (n.value ≡ v)
unfolding make
make-IsCanonical [] n h = cc
make-IsCanonical (p ∷ []) n h = absurd (ground arith)
make-IsCanonical (p ∷ d ∷ ds) n h = (
  record {
    first = d;
    rest = ds;
    spelled = ground arith;
    low = ground arith;
    high = ground arith;
    digits = ground arith;
    long = ground arith;
    short = ground arith;
  },
  ground arith,
)

pub make-ok : (v : Text) → IsCanonical v → make v ≡ ok (record { value = v })
unfolding make
make-ok v c = rw c.spelled (ground (arith, c.low, c.high, c.digits, c.long, c.short))

lstrip-plus : (cs : Text) → lstrip (b'+' ∷ cs) ≡ b'+' ∷ cs
unfolding lstrip
lstrip-plus cs = rw plus_is_no_space

digits_of-plus : (cs : Text) → digits_of (b'+' ∷ cs) ≡ digits_of cs
unfolding digits_of
digits_of-plus cs = rw plus_is_no_digit

-- After a plus the digits are taken as they are.
pub from_raw-plus :
    (d : ℕ) (ds : Text)
    → all is_decimal (d ∷ ds) ≡ true
    → from_raw (b'+' ∷ d ∷ ds) ≡ make (b'+' ∷ d ∷ ds)
unfolding from_raw
from_raw-plus d ds h =
    let e : digits_of (b'+' ∷ d ∷ ds) ≡ d ∷ ds =
      digits_of-plus (d ∷ ds) ∙ digits_of-all (d ∷ ds) h in
    rw (e, lstrip-plus (d ∷ ds))

-- A number that the constructor accepts is normalised to itself.
pub from_raw-make : (v : Text) (n : PhoneNumber) → make v ≡ ok n → from_raw v ≡ ok n
from_raw-make v n h =
    let (c, e) = make-IsCanonical v n h in
    let d : all is_decimal (c.first ∷ c.rest) ≡ true =
      ground (arith, c.low, c.high, c.digits, ascii_is_decimal c.first) in
    rw c.spelled (from_raw-plus c.first c.rest d ∙ ap make (sym c.spelled) ∙ h)

-- Decoration does not matter: without a plus only the decimal digits count.
pub from_raw-digits_of :
    (raw : Text) → starts_with b'+' (lstrip raw) ≡ false → from_raw raw ≡ from_raw (digits_of raw)
unfolding from_raw
from_raw-digits_of raw h = rw (
  h,
  digits_of-all (digits_of raw) (all-digits_of raw),
  no_plus (digits_of raw) (all-digits_of raw),
)

russian_make :
    (ds : Text)
    → all is_decimal ds ≡ true
    → length ds ≡ 10
    → make (b'+' ∷ b'7' ∷ ds) ≡ ok (record { value = b'+' ∷ b'7' ∷ ds })
russian_make ds h k = make-ok (b'+' ∷ b'7' ∷ ds) (record {
  first = b'7';
  rest = ds;
  spelled = refl;
  low = omega arith;
  high = omega arith;
  digits = h;
  long = omega (arith, k);
  short = omega (arith, k);
})

-- A number of ten digits after the country code of Russia is the same canonical number whether it
-- is spelled with 8, with 7 or with +7.
pub three_spellings :
    (ds : Text)
    → all is_decimal ds ≡ true
    → length ds ≡ 10
    → (from_raw (b'8' ∷ ds) ≡ ok (record { value = b'+' ∷ b'7' ∷ ds }))
      × (from_raw (b'7' ∷ ds) ≡ ok (record { value = b'+' ∷ b'7' ∷ ds }))
      × (from_raw (b'+' ∷ b'7' ∷ ds) ≡ ok (record { value = b'+' ∷ b'7' ∷ ds }))
unfolding from_raw
three_spellings ds h k =
    let seven : all is_decimal (b'7' ∷ ds) ≡ true = ground (arith, h, ascii_is_decimal b'7') in
    let eight : all is_decimal (b'8' ∷ ds) ≡ true = ground (arith, h, ascii_is_decimal b'8') in
    let accepted = russian_make ds h k in
    (
      rw (digits_of-all (b'8' ∷ ds) eight, no_plus (b'8' ∷ ds) eight) (ground (arith, accepted)),
      rw (digits_of-all (b'7' ∷ ds) seven, no_plus (b'7' ∷ ds) seven) (ground (arith, accepted)),
      unfold from_raw in (from_raw-plus b'7' ds seven ∙ accepted),
    )
