-- ===== src/Money/Sums.antt =====
-- Sums and differences of amounts of money.
use goldy_telegram_bot.Prelude.{
  ◌⊎◌, inl, inr, ◌-◌, ◌<◌, ℕ, ◌+◌, ◌≤◌, ◌≡◌, ◌≢◌, refl, ap, true, false, arith, ◌∙◌,
}
use native.Mathlib.Decide.{dec_lt, dec_le}
use goldy_telegram_bot.Prelude.Int.{ℤ, negsuc, gap, neg_part, min_ℤ}
use goldy_telegram_bot.Result.{err, currency_mismatch, negative_money_amount}
use goldy_telegram_bot.Decimal
use goldy_telegram_bot.Decimal.{lt, Decimal, finite, special, shift}
use goldy_telegram_bot.Decimal.Signed.{
  IsSum, add-IsSum, sub-IsSum, sub_below, gap-gap, gap-gap_right, min_scale,
}
use goldy_telegram_bot.Decimal.Shift.{shift-add, shift-shift, shift_mono_lt, shift_mono, shift-sub}
use goldy_telegram_bot.Money.{
  Money, Currency, same_currency, make, add, sub, cents_of, cents, IsAmount, IsValid,
}
use goldy_telegram_bot.Money.Range.{sign_of, make-negative}
use goldy_telegram_bot.Money.Arithmetic.{fits, Amounts, Settles, make-Settles}

pub same_currency_refl : (c : Currency) → same_currency c c ≡ true
same_currency_refl Currency.rub = refl
same_currency_refl Currency.usd = refl
same_currency_refl Currency.eur = refl

same_currency-ne : (a b : Currency) → a ≢ b → same_currency a b ≡ false
same_currency-ne Currency.rub Currency.rub h = absurd (h refl)
same_currency-ne Currency.usd Currency.usd h = absurd (h refl)
same_currency-ne Currency.eur Currency.eur h = absurd (h refl)
same_currency-ne _ _ h = ground arith

-- The hundredths of two aligned coefficients.
module _ (c d : ℕ) (e f : ℤ) (he : neg_part e ≤ 2) (hf : neg_part f ≤ 2) where
  pub cents-left :
      shift (shift c (gap e f)) (gap (min_ℤ e f) (negsuc 1)) ≡ shift c (gap e (negsuc 1))
  cents-left =
      shift-shift c (gap e f) (gap (min_ℤ e f) (negsuc 1)) ∙ ap (shift c) (gap-gap e f he hf)

  pub cents-right :
      shift (shift d (gap f e)) (gap (min_ℤ e f) (negsuc 1)) ≡ shift d (gap f (negsuc 1))
  cents-right =
      shift-shift d (gap f e) (gap (min_ℤ e f) (negsuc 1)) ∙ ap (shift d) (gap-gap_right e f he hf)

  pub cents-sum :
      shift (shift c (gap e f) + shift d (gap f e)) (gap (min_ℤ e f) (negsuc 1))
      ≡ shift c (gap e (negsuc 1)) + shift d (gap f (negsuc 1))
  cents-sum = omega (
    arith,
    shift-add (shift c (gap e f)) (shift d (gap f e)) (gap (min_ℤ e f) (negsuc 1)),
    cents-left,
    cents-right,
  )

IsSum-Settles :
    (a : Decimal) (c : ℕ) (e : ℤ) (cur : Currency) (n : ℕ)
    → IsSum a c e
    → neg_part e ≤ 2
    → cents_of (finite false c e) ≡ n
    → Settles (make a cur) n cur
IsSum-Settles a c e cur n h k eq = rw (h.at, ← eq) (make-Settles h.negative c e cur h.sign k)

sum_at :
    (a b : Decimal) (cur : Currency)
    → IsAmount a
    → IsAmount b
    → Settles (make (Decimal.add a b) cur) (cents_of a + cents_of b) cur
sum_at special b cur va vb = absurd va
sum_at (finite s c e) special cur va vb = absurd vb
sum_at (finite s c e) (finite t d f) cur va vb =
    IsSum-Settles _ (shift c (gap e f) + shift d (gap f e)) (min_ℤ e f) cur _
      (add-IsSum s t c d e f (sign_of s c va.0) (sign_of t d vb.0)) (min_scale e f va.1 vb.1)
      (cents-sum c d e f va.1 vb.1)

-- Two valid amounts of one currency add up exactly; the sum is refused as out of range exactly when
-- it is above the largest amount of money.
pub add-Settles :
    (a b : Money)
    → IsValid a
    → IsValid b
    → b.currency ≡ a.currency
    → Settles (add a b) (cents a + cents b) a.currency
unfolding add
add-Settles a b va vb h =
    rw (h, same_currency_refl a.currency) (sum_at a.amount b.amount a.currency va vb)

-- Amounts of different currencies are neither added nor subtracted.
pub different_currencies :
    (a b : Money)
    → b.currency ≢ a.currency
    → (add a b ≡ err currency_mismatch) × (sub a b ≡ err currency_mismatch)
unfolding add sub
different_currencies a b h = (rw (same_currency-ne _ _ h), rw (same_currency-ne _ _ h))

-- Aligned coefficients stand in the order of the hundredths.
order_of_shift : (c d k : ℕ) → shift d k ≤ shift c k → d ≤ c
order_of_shift c d k h = elim (dec_lt c d) [
  | yes p ↦ absurd (omega (arith, shift_mono_lt c d k p))
  | no p ↦ omega arith
]

order_of_shift_lt : (c d k : ℕ) → shift c k < shift d k → c < d
order_of_shift_lt c d k h = elim (dec_lt c d) [
  | yes p ↦ p
  | no p ↦ absurd (omega (arith, shift_mono d c k (omega arith)))
]

difference_at :
    (a b : Decimal) (cur : Currency)
    → IsAmount a
    → IsAmount b
    → ((cents_of b ≤ cents_of a)
        × Amounts (make (Decimal.sub a b) cur) (cents_of a - cents_of b) cur)
      ⊎ ((cents_of a < cents_of b) × (make (Decimal.sub a b) cur ≡ err negative_money_amount))
difference_at special b cur va vb = absurd va
difference_at (finite s c e) special cur va vb = absurd vb
difference_at (finite s c e) (finite t d f) cur va vb =
    let k = gap (min_ℤ e f) (negsuc 1) in
    let left = cents-left c d e f va.1 vb.1 in
    let right = cents-right c d e f va.1 vb.1 in
    elim (dec_le (cents_of (finite t d f)) (cents_of (finite s c e))) [
      | yes h ↦
          let le : shift d (gap f e) ≤ shift c (gap e f) =
            order_of_shift _ _ k (rw (left, right) h) in
          let rest = shift-sub _ _ k le in
          inl (
            h,
            fits
                (IsSum-Settles _ (shift c (gap e f) - shift d (gap f e)) (min_ℤ e f) cur _
                  (sub-IsSum s t c d e f (sign_of s c va.0) (sign_of t d vb.0) le)
                  (min_scale e f va.1 vb.1) (omega (arith, rest, left, right)))
                (omega (arith, va.2)),
          )
      | no h ↦
          let lt : shift c (gap e f) < shift d (gap f e) =
            order_of_shift_lt _ _ k (rw (left, right) (omega arith)) in
          inr (
            omega arith,
            rw (sub_below s t c d e f (sign_of s c va.0) (sign_of t d vb.0) lt)
                (make-negative true _ (min_ℤ e f) cur refl (omega arith)),
          )
    ]

-- The difference of two valid amounts of one currency is exact, and refused as negative exactly
-- when the second amount is the larger one.
pub sub_cases :
    (a b : Money)
    → IsValid a
    → IsValid b
    → b.currency ≡ a.currency
    → ((cents b ≤ cents a) × Amounts (sub a b) (cents a - cents b) a.currency)
      ⊎ ((cents a < cents b) × (sub a b ≡ err negative_money_amount))
unfolding sub
sub_cases a b va vb h =
    rw (h, same_currency_refl a.currency) (difference_at a.amount b.amount a.currency va vb)
