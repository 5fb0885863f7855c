-- ===== src/Quantity.antt =====
-- domain/common/values/quantity.py: how many pieces of one product.
pub mod Limits
use goldy_telegram_bot.Prelude.{ℕ, zero, suc, ◌+◌, ◌≤◌, ltb}
use goldy_telegram_bot.Prelude.Int.{ℤ, pos, negsuc}
use goldy_telegram_bot.Result.{
  Result, ok, err, non_positive_quantity, quantity_limit_exceeded, raise_if, ◌>>=◌, ◌>>◌,
}

abbrev pub max_quantity : ℕ
max_quantity = 1000000

pub record Quantity : Type 0 where
  pub value : ℕ

-- `Quantity(value=n)`, with the validation that construction runs.
unfoldable pub make : ℤ → Result Quantity
make (negsuc n) = err non_positive_quantity
make (pos n) = do
  raise_if (ltb n 1) non_positive_quantity
  raise_if (ltb max_quantity n) quantity_limit_exceeded
  ok (record { value = n })

-- `a + b`, with the ceiling enforced by validation
unfoldable pub add : Quantity → Quantity → Result Quantity
unfolding make
add a b = make (pos (a.value + b.value))

-- `Quantity(value=q.value - 1)`
unfoldable pub one_less : Quantity → Result Quantity
unfolding make
one_less q = elim (q.value) [ zero ↦ make (negsuc 0) | suc n ↦ make (pos n) ]

pub record IsValid (q : Quantity) : Type 0 where
  pub low : 1 ≤ q.value
  pub high : q.value ≤ max_quantity
