-- ===== src/Decimal.antt =====
-- Python's `decimal.Decimal` (standard library): a sign, a coefficient and an exponent, so that
-- `finite s c e` is (-1)^s * c * 10^e. Infinities and NaNs are one value, `special`: the sources
-- ask of them only whether they are finite. The arithmetic is the exact one; the
-- context of the standard library rounds a result of more than 28 digits (Money/Precision).
pub mod Shift
pub mod Signed
use goldy_telegram_bot.Prelude.{
  ℕ, zero, suc, ◌+◌, ◌-◌, ◌*◌, Bool, true, false, not, ltb, ◌||◌, if◌then◌else◌,
}
use goldy_telegram_bot.Prelude.Int.{ℤ, gap, min_ℤ, neg_part}

pub data Decimal : Type 0 where
  finite : Bool → ℕ → ℤ → Decimal
  special : Decimal

-- c * 10 ^ k
unfoldable pub shift : ℕ → ℕ → ℕ
shift c zero = c
shift c (suc k) = shift (c * 10) k

abbrev pub is_finite : Decimal → Bool
is_finite (finite s c e) = true
is_finite special = false

-- The sum of two numbers with signs; an exact zero is positive unless both are negative.
abbrev add_signed : Bool → ℕ → Bool → ℕ → ℤ → Decimal
add_signed true a true b e = finite true (a + b) e
add_signed false a false b e = finite false (a + b) e
add_signed true a false b e = if ltb b a then finite true (a - b) e else finite false (b - a) e
add_signed false a true b e = if ltb a b then finite true (b - a) e else finite false (a - b) e

-- The coefficients are aligned to the smaller exponent.
unfoldable pub add : Decimal → Decimal → Decimal
unfolding shift
add (finite s c e) (finite t d f) =
    add_signed s (shift c (gap e f)) t (shift d (gap f e)) (min_ℤ e f)
add (finite s c e) special = special
add special b = special

abbrev pub negate : Decimal → Decimal
negate (finite s c e) = finite (not s) c e
negate special = special

abbrev pub sub : Decimal → Decimal → Decimal
sub a b = add a (negate b)

-- `a * n` for an `int` that is not negative
abbrev pub mul_nat : Decimal → ℕ → Decimal
mul_nat (finite s c e) n = finite s (c * n) e
mul_nat special n = special

abbrev lt_signed : Bool → ℕ → Bool → ℕ → Bool
lt_signed true a true b = ltb b a
lt_signed false a false b = ltb a b
lt_signed true a false b = ltb 0 a || ltb 0 b
lt_signed false a true b = false

-- `a < b`
unfoldable pub lt : Decimal → Decimal → Bool
unfolding shift
lt (finite s c e) (finite t d f) = lt_signed s (shift c (gap e f)) t (shift d (gap f e))
lt (finite s c e) special = false
lt special b = false

-- `-d.as_tuple().exponent` where that is above 0, and 0 for what is not finite
abbrev pub scale : Decimal → ℕ
scale (finite s c e) = neg_part e
scale special = 0
