-- ===== src/Money/Precision.antt =====
-- How many digits the exact results of the arithmetic on amounts have: the default context of
-- `decimal` keeps 28.
use goldy_telegram_bot.Money.Range.{sign_of}
use goldy_telegram_bot.Prelude.Int.{gap, min_ℤ, negsuc}
use goldy_telegram_bot.Prelude.{ℕ, ◌+◌, ◌*◌, ◌^◌, ◌≤◌, ◌<◌, arith}
use goldy_telegram_bot.Decimal
use goldy_telegram_bot.Decimal.{Decimal, finite, special, mul_nat, shift}
use goldy_telegram_bot.Decimal.Shift.{le-shift}
use goldy_telegram_bot.Decimal.Signed.{add-IsSum}
use goldy_telegram_bot.Quantity
use goldy_telegram_bot.Quantity.{Quantity}
use goldy_telegram_bot.Money.{Money, cents_of, IsAmount, IsValid}
use goldy_telegram_bot.Money.Sums.{cents-sum}

abbrev pub coefficient : Decimal → ℕ
coefficient (finite s c e) = c
coefficient special = 0

product_at :
    (a : Decimal) (n : ℕ)
    → IsAmount a
    → n ≤ 1000000
    → coefficient (mul_nat a n) ≤ 999999999999 * 1000000
product_at special n v h = absurd v
product_at (finite s c e) n v h = grind (arith, le-shift c (gap e (negsuc 1)))

sum_at :
    (a b : Decimal)
    → IsAmount a
    → IsAmount b
    → coefficient (Decimal.add a b) ≤ cents_of a + cents_of b
sum_at special b va vb = absurd va
sum_at (finite s c e) special va vb = absurd vb
sum_at (finite s c e) (finite t d f) va vb =
    let h = add-IsSum s t c d e f (sign_of s c va.0) (sign_of t d vb.0) in
    rw h.at (
      omega (
        arith,
        le-shift (shift c (gap e f) + shift d (gap f e)) (gap (min_ℤ e f) (negsuc 1)),
        cents-sum c d e f va.1 vb.1,
      ))

pub cents-le : (a : Decimal) → IsAmount a → cents_of a ≤ 999999999999
cents-le special v = absurd v
cents-le (finite s c e) v = v.2

-- The exact price of a valid quantity at a valid price, and the exact sum of two valid amounts,
-- have a coefficient of at most 28 digits, which the arithmetic of Python does not round.
pub fits_context :
    (a b : Money) (q : Quantity)
    → IsValid a
    → IsValid b
    → Quantity.IsValid q
    → (coefficient (mul_nat a.amount q.value) < 10 ^ 28)
      × (coefficient (Decimal.add a.amount b.amount) < 10 ^ 28)
fits_context a b q va vb vq = (
  omega (arith, product_at a.amount q.value va vq.high),
  omega (arith, sum_at a.amount b.amount va vb, cents-le a.amount va, cents-le b.amount vb),
)
