-- ===== src/Order/Totals.antt =====
-- The total of an order beside the sum of price times quantity, in hundredths.
use goldy_telegram_bot.Decimal.Shift.{zero-shift}
use goldy_telegram_bot.Decimal.{finite}
use goldy_telegram_bot.Prelude.Int.{negsuc}
use goldy_telegram_bot.Money.Precision.{cents-le}
use goldy_telegram_bot.Result.{Error, ok, err}
use goldy_telegram_bot.Money.Arithmetic.{fits, over, Amounts, Settles, times-Settles}
use goldy_telegram_bot.Money.Sums.{add-Settles}
use goldy_telegram_bot.Money.{max_cents, cents, Currency, Money}
use goldy_telegram_bot.Prelude.{
  is_nil, inl, inr, ap, false, All, ℕ, ◌+◌, ◌*◌, ◌≡◌, refl, sym, ◌∙◌, List, [], ◌∷◌, arith,
}
use native.Mathlib.Decide.{dec_le}
use goldy_telegram_bot.Order.{line_total, OrderLine, add_lines, total_of}
use goldy_telegram_bot.Money

abbrev pub line_cents : OrderLine → ℕ
line_cents line = cents line.unit_price * line.quantity.value

abbrev pub total_cents : List OrderLine → ℕ
total_cents [] = 0
total_cents (line ∷ lines) = line_cents line + total_cents lines

-- A line with a valid price in the given currency.
abbrev pub IsPriced : Currency → OrderLine → Type 0
IsPriced cur line = Money.IsValid line.unit_price × (line.unit_price.currency ≡ cur)

-- The three ways in which a round of the loop goes.
module _ (acc : Money) (line : OrderLine) (lines : List OrderLine) where
  add_lines_step :
      (price more : Money)
      → line_total line ≡ ok price
      → Money.add acc price ≡ ok more
      → add_lines acc (line ∷ lines) ≡ add_lines more lines
  unfolding add_lines
  add_lines_step price more p q = ground arith

  add_lines_price : (e : Error) → line_total line ≡ err e → add_lines acc (line ∷ lines) ≡ err e
  unfolding add_lines
  add_lines_price e p = ground arith

  add_lines_sum :
      (price : Money) (e : Error)
      → line_total line ≡ ok price
      → Money.add acc price ≡ err e
      → add_lines acc (line ∷ lines) ≡ err e
  unfolding add_lines
  add_lines_sum price e p q = ground arith

-- `Money.zero` of a currency
abbrev no_money : Currency → Money
no_money cur = record { amount = finite false 0 (negsuc 1); currency = cur }

no_money-IsValid : (cur : Currency) → Money.IsValid (no_money cur)
no_money-IsValid cur = (refl, omega arith, omega (arith, zero-shift 0))

total_of-add_lines :
    (line : OrderLine) (lines : List OrderLine) (cur : Currency)
    → line.unit_price.currency ≡ cur
    → total_of (line ∷ lines) ≡ add_lines (no_money cur) (line ∷ lines)
unfolding total_of
total_of-add_lines line lines cur h = ap (λ c. add_lines (no_money c) (line ∷ lines)) h

module _ (cur : Currency) where
  -- The sum of the price and of what was added up before.
  add_price :
      (acc : Money) (line : OrderLine) (lines : List OrderLine)
      (price : Amounts (line_total line) (line_cents line) cur)
      → Money.IsValid acc
      → acc.currency ≡ cur
      → ((m : Money)
          → Money.IsValid m
          → m.currency ≡ cur
          → Settles (add_lines m lines) (cents m + total_cents lines) cur)
      → Settles (add_lines acc (line ∷ lines)) (cents acc + total_cents (line ∷ lines)) cur
  add_price acc line lines p va ca rest =
      let s = add-Settles acc p.money va p.valid (p.currency ∙ sym ca) in
      elim (dec_le (cents acc + cents p.money) max_cents) [
        | no high ↦
            rw (add_lines_sum acc line lines p.money _ p.returned (over s (omega arith)))
              (inr (omega (arith, p.value), refl))
        | yes low ↦
            let q = fits s low in
            let e : cents q.money + total_cents lines ≡ cents acc + total_cents (line ∷ lines) =
              omega (arith, q.value, p.value) in
            rw (add_lines_step acc line lines p.money q.money p.returned q.returned, ← e)
              (rest q.money q.valid (q.currency ∙ ca))
      ]

  pub add_lines-Settles :
      (acc : Money) (lines : List OrderLine)
      → Money.IsValid acc
      → acc.currency ≡ cur
      → All (IsPriced cur) lines
      → Settles (add_lines acc lines) (cents acc + total_cents lines) cur
  add_lines-Settles acc [] va ca vl =
      unfold add_lines in
      inl (
        omega (arith, cents-le acc.amount va),
        record { money = acc; returned = refl; value = omega arith; currency = ca; valid = va },
      )
  add_lines-Settles acc (line ∷ lines) va ca vl =
      let price = times-Settles line.unit_price line.quantity vl.0.0 in
      elim (dec_le (line_cents line) max_cents) [
        | no high ↦
            rw (add_lines_price acc line lines _ (over price (omega arith)))
              (inr (omega arith, refl))
        | yes low ↦
            let p = fits price low in
            add_price acc line lines
              (record {
                money = p.money;
                returned = p.returned;
                value = p.value;
                currency = p.currency ∙ vl.0.1;
                valid = p.valid;
              })
              va ca (λ m vm cm. add_lines-Settles m lines vm cm vl.1)
      ]

  -- The total of one or more lines with valid prices in one currency is the exact sum of price
  -- times quantity; it is refused as out of range exactly when that sum is above the largest amount
  -- of money.
  pub total_of-Settles :
      (line : OrderLine) (lines : List OrderLine)
      → All (IsPriced cur) (line ∷ lines)
      → Settles (total_of (line ∷ lines)) (total_cents (line ∷ lines)) cur
  total_of-Settles line lines vl =
      let z = no_money cur in
      let e : cents z + total_cents (line ∷ lines) ≡ total_cents (line ∷ lines) =
        omega (arith, zero-shift 0) in
      rw (total_of-add_lines line lines cur vl.0.1, ← e)
        (add_lines-Settles z (line ∷ lines) (no_money-IsValid cur) refl vl)

  pub total_of_lines :
      (os : List OrderLine)
      → is_nil os ≡ false
      → All (IsPriced cur) os
      → Settles (total_of os) (total_cents os) cur
  total_of_lines [] n h = cc
  total_of_lines (o ∷ os) n h = total_of-Settles o os h
