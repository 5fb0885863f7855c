-- ===== src/OrderNumber.antt =====
-- domain/orders/values/order_number.py: the number by which people call an order.
use goldy_telegram_bot.Decimal.{shift}
pub mod Symbols
pub mod Derived
use goldy_telegram_bot.Prelude.{
  ℕ, ◌+◌, ◌*◌, ◌/◌, ◌%◌, ◌^◌, Bool, ◌&&◌, not, [], ◌∷◌, ◌++◌, map, ◌==◌, length, all, take, drop,
  get_or,
}
use goldy_telegram_bot.Result.{
  ◌>>=◌, Result, ok, empty_order_number, invalid_order_number_format, raise_if, ◌>>◌,
}
use goldy_telegram_bot.Text.{Text, text, is_blank, is_decimal, contains}
use goldy_telegram_bot.Time.{Datetime}

abbrev pub crockford_alphabet : Text
crockford_alphabet = text "0123456789ABCDEFGHJKMNPQRSTVWXYZ"

abbrev pub suffix_length : ℕ
suffix_length = 6

abbrev pub suffix_bits : ℕ
suffix_bits = suffix_length * 5

pub record OrderNumber : Type 0 where
  pub value : Text

-- `^\d{6}-[ALPHABET]{6}$` as a full match, where `\d` is a decimal digit of any script
unfoldable pub matches_order_number : Text → Bool
matches_order_number v =
    (length v == 13)
    && all is_decimal (take 6 v)
    && (get_or v 6 0 == b'-')
    && all (λ c. contains c crockford_alphabet) (drop 7 v)

-- `OrderNumber(value=value)`, with the validation that construction runs.
unfoldable pub make : Text → Result OrderNumber
make value = do
  raise_if (is_blank value) empty_order_number
  raise_if (not (matches_order_number value)) invalid_order_number_format
  ok (record { value = value })

abbrev two_digits : ℕ → Text
two_digits n = (b'0' + n / 10 % 10) ∷ (b'0' + n % 10) ∷ []

-- `strftime("%y%m%d")`
abbrev pub day_of : Datetime → Text
day_of t = two_digits (t.year % 100) ++ (two_digits t.month ++ two_digits t.day)

-- `ALPHABET[(bits >> shift) & 0b11111]`; the index is below 32, so the default is never read.
abbrev pub symbol : ℕ → ℕ → ℕ
symbol bits shift = get_or crockford_alphabet (bits / 2 ^ shift % 32) 0

abbrev pub suffix_of : ℕ → Text
suffix_of bits = map (symbol bits) (25 ∷ 20 ∷ 15 ∷ 10 ∷ 5 ∷ 0 ∷ [])

-- `OrderNumber.derive`; the moment is in UTC, and the id stands for its 128-bit integer.
unfoldable pub derive : Datetime → ℕ → Result OrderNumber
unfolding make
derive placed_at order_id =
    let bits = order_id % 2 ^ suffix_bits in make (day_of placed_at ++ (b'-' ∷ suffix_of bits))
