-- ===== src/Money/Arithmetic.antt =====
-- Prices times quantities, sums and differences of amounts, in hundredths.
use native.Mathlib.Decide.{dec_le}
use goldy_telegram_bot.Prelude.{
  ◌⊎◌, ℕ, ◌*◌, ◌≤◌, ◌<◌, ◌≡◌, refl, ap, Bool, true, arith, inl, inr, Bool-cases,
}
use goldy_telegram_bot.Prelude.Int.{ℤ, negsuc, gap, neg_part}
use goldy_telegram_bot.Result.{Result, ok, err, money_amount_out_of_range}
use goldy_telegram_bot.Decimal.{Decimal, finite, special, shift}
use goldy_telegram_bot.Decimal.Shift.{zero-shift, shift-mul}
use goldy_telegram_bot.Quantity.{Quantity}
use goldy_telegram_bot.Money.{
  Money, Currency, make, times, max_cents, cents_of, cents, IsAmount, IsValid,
}
use goldy_telegram_bot.Money.Range.{sign_of, signed, make-ok, make-over}

-- The amount of `r` is `n` hundredths of the currency `cur`.
pub record Amounts (r : Result Money) (n : ℕ) (cur : Currency) : Type 0 where
  pub money : Money
  pub returned : r ≡ ok money
  pub value : cents money ≡ n
  pub currency : money.currency ≡ cur
  pub valid : IsValid money

-- The two ways in which a sum or a product ends, told by its exact value in hundredths.
abbrev pub Settles : Result Money → ℕ → Currency → Type 0
Settles r n cur =
    ((n ≤ max_cents) × Amounts r n cur) ⊎ ((max_cents < n) × (r ≡ err money_amount_out_of_range))

module _ {r : Result Money} {n : ℕ} {cur : Currency} where
  pub settle :
      (n ≤ max_cents → Amounts r n cur)
      → (max_cents < n → r ≡ err money_amount_out_of_range)
      → Settles r n cur
  settle small big = elim (dec_le n max_cents) [
    | yes h ↦ inl (h, small h)
    | no h ↦ inr (omega arith, big (omega arith))
  ]

  pub fits : Settles r n cur → n ≤ max_cents → Amounts r n cur
  fits (inl (_, a)) h = a
  fits (inr (o, _)) h = absurd (omega arith)

  pub over : Settles r n cur → max_cents < n → r ≡ err money_amount_out_of_range
  over (inl (f, _)) h = absurd (omega arith)
  over (inr (_, e)) h = e

pub make-Settles :
    (s : Bool) (c : ℕ) (e : ℤ) (cur : Currency)
    → (s ≡ true → c ≡ 0)
    → neg_part e ≤ 2
    → Settles (make (finite s c e) cur) (cents_of (finite s c e)) cur
make-Settles s c e cur z h =
    settle
      (λ small. record {
        money = record { amount = finite s c e; currency = cur };
        returned = make-ok s c e cur (signed s c z, h, small);
        value = refl;
        currency = refl;
        valid = (signed s c z, h, small);
      })
      (λ big. elim (Bool-cases s) [
        | inl neg ↦ absurd (
            omega
              (arith, zero-shift (gap e (negsuc 1)), ap (λ x. shift x (gap e (negsuc 1))) (z neg)))
        | inr nonneg ↦ make-over s c e cur nonneg h big
      ])

times_at :
    (a : Decimal) (cur : Currency) (q : Quantity)
    → IsAmount a
    → Settles (times (record { amount = a; currency = cur }) q) (cents_of a * q.value) cur
unfolding times
times_at special cur q v = absurd v
times_at (finite s c e) cur q v =
    rw (← shift-mul c q.value (gap e (negsuc 1)))
      (make-Settles s (c * q.value) e cur (λ neg. rw (sign_of s c v.0 neg) (omega arith)) v.1)

-- The price of a quantity at a valid price is exact; it is refused as out of range exactly when the
-- exact price is above the largest amount of money.
pub times-Settles :
    (m : Money) (q : Quantity) → IsValid m → Settles (times m q) (cents m * q.value) m.currency
times-Settles m q v = times_at m.amount m.currency q v
