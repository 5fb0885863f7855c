-- ===== src/Money.antt =====
-- domain/common/values/money.py and currency.py: an amount together with its currency.
pub mod Range
pub mod Arithmetic
pub mod Sums
pub mod Precision
use goldy_telegram_bot.Prelude.{◌||◌, ◌==◌, ℕ, ◌≤◌, ◌≡◌, Bool, true, false, not, ltb}
use goldy_telegram_bot.Prelude.Int.{pos, negsuc, gap, neg_part}
use goldy_telegram_bot.Result.{
  ◌>>=◌, Result, ok, currency_mismatch, money_amount_out_of_range, negative_money_amount,
  too_precise_money_amount, raise_if, ◌>>◌,
}
use goldy_telegram_bot.Decimal
use goldy_telegram_bot.Decimal.{Decimal, finite, special, is_finite, scale, shift, mul_nat}
use goldy_telegram_bot.Quantity.{Quantity}

pub data Currency : Type 0 where
  rub usd eur : Currency

abbrev pub same_currency : Currency → Currency → Bool
same_currency rub rub = true
same_currency usd usd = true
same_currency eur eur = true
same_currency a b = false

abbrev pub money_scale : ℕ
money_scale = 2

-- Decimal("9999999999.99")
abbrev pub max_money_amount : Decimal
max_money_amount = finite false 999999999999 (negsuc 1)

pub record Money : Type 0 where
  pub amount : Decimal
  pub currency : Currency

-- `Money(amount, currency)`, with the validation that construction runs.
unfoldable pub make : Decimal → Currency → Result Money
unfolding Decimal.lt
make amount currency = do
  raise_if (not (is_finite amount)) money_amount_out_of_range
  raise_if (Decimal.lt amount (finite false 0 (pos 0))) negative_money_amount
  raise_if (Decimal.lt max_money_amount amount) money_amount_out_of_range
  raise_if (ltb money_scale (scale amount)) too_precise_money_amount
  ok (record { amount = amount; currency = currency })

-- Decimal("0.00")
unfoldable pub zero_in : Currency → Result Money
unfolding make
zero_in currency = make (finite false 0 (negsuc 1)) currency

unfoldable pub times : Money → Quantity → Result Money
unfolding make
times m q = make (mul_nat m.amount q.value) m.currency

unfoldable pub add : Money → Money → Result Money
unfolding make Decimal.add
add a b = do
  raise_if (not (same_currency b.currency a.currency)) currency_mismatch
  make (Decimal.add a.amount b.amount) a.currency

unfoldable pub sub : Money → Money → Result Money
unfolding make Decimal.add
sub a b = do
  raise_if (not (same_currency b.currency a.currency)) currency_mismatch
  make (Decimal.sub a.amount b.amount) a.currency

-- The specification: a decimal that is a whole number of hundredths from 0 to the maximum.
abbrev pub max_cents : ℕ
max_cents = 999999999999

-- The number of hundredths, where there are at most two decimal places.
abbrev pub cents_of : Decimal → ℕ
cents_of (finite s c e) = shift c (gap e (negsuc 1))
cents_of special = 0

abbrev pub cents : Money → ℕ
cents m = cents_of m.amount

-- A whole number of hundredths, at most the maximum; only zero may have a negative sign.
abbrev pub IsAmount : Decimal → Type 0
IsAmount (finite s c e) =
    ((not s || c == 0) ≡ true) × (neg_part e ≤ 2) × (cents_of (finite s c e) ≤ max_cents)
IsAmount special = ⊥

abbrev pub IsValid : Money → Type 0
IsValid m = IsAmount m.amount
