-- ===== src/Money/Range.antt =====
-- What the constructor of an amount of money accepts, and how it refuses the rest.
use goldy_telegram_bot.Prelude.{refl, ◌||◌, not, ◌==◌, ℕ, ◌≤◌, ◌<◌, ◌≡◌, Bool, true, false, arith}
use goldy_telegram_bot.Prelude.Int.{ℤ, pos, negsuc, gap, neg_part}
use goldy_telegram_bot.Result.{ok, err, money_amount_out_of_range, negative_money_amount}
use goldy_telegram_bot.Decimal.{finite}
use goldy_telegram_bot.Decimal.Shift.{shift_zero, zero-shift, le-shift}
use goldy_telegram_bot.Money.{Money, Currency, make, max_cents, cents_of, IsAmount}

-- The sign of an amount, as an implication.
pub sign_of : (s : Bool) (c : ℕ) → (not s || c == 0) ≡ true → s ≡ true → c ≡ 0
sign_of s c h k = ground arith

pub signed : (s : Bool) (c : ℕ) → (s ≡ true → c ≡ 0) → (not s || c == 0) ≡ true
signed true c h = ground (arith, h refl)
signed false c h = refl

-- `gap` from below hundredths is nothing for a decimal of at most two places.
gap_cents : (e : ℤ) → neg_part e ≤ 2 → gap (negsuc 1) e ≡ 0
gap_cents (pos n) h = omega arith
gap_cents (negsuc n) h = omega arith

module _ (s : Bool) (c : ℕ) (e : ℤ) (cur : Currency) where
  pub make-ok :
      IsAmount (finite s c e)
      → make (finite s c e) cur ≡ ok (record { amount = finite s c e; currency = cur })
  unfolding make
  make-ok h = ground (
    arith,
    gap_cents e h.1,
    shift_zero max_cents,
    zero-shift (gap (pos 0) e),
    zero-shift (gap e (negsuc 1)),
    zero-shift (gap e (pos 0)),
  )

  pub make-over :
      s ≡ false
      → neg_part e ≤ 2
      → max_cents < cents_of (finite s c e)
      → make (finite s c e) cur ≡ err money_amount_out_of_range
  unfolding make
  make-over sf h o = ground (arith, gap_cents e h, shift_zero max_cents, zero-shift (gap (pos 0) e))

  pub make-negative : s ≡ true → 0 < c → make (finite s c e) cur ≡ err negative_money_amount
  unfolding make
  make-negative st h = ground (arith, le-shift c (gap e (pos 0)))

  make-IsAmount :
      {m : Money}
      → make (finite s c e) cur ≡ ok m
      → IsAmount (finite s c e) × (m ≡ record { amount = finite s c e; currency = cur })
  unfolding make
  make-IsAmount h = ground (
    arith,
    gap_cents e,
    shift_zero max_cents,
    zero-shift (gap (pos 0) e),
    le-shift c (gap e (pos 0)),
    zero-shift (gap e (negsuc 1)),
  )
