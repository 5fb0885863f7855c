-- ===== src/Decimal/Signed.antt =====
-- Sums and differences of decimals that are not negative: zero may have either sign.
use goldy_telegram_bot.Prelude.{◌<◌, ℕ, ◌+◌, ◌-◌, ◌≤◌, ◌≡◌, refl, Bool, true, false, arith, ap, ◌∙◌}
use goldy_telegram_bot.Prelude.Int.{ℤ, negsuc, gap, min_ℤ, neg_part}
use goldy_telegram_bot.Decimal.{Decimal, finite, shift, add, sub}
use goldy_telegram_bot.Decimal.Shift.{zero-shift}

-- `d` is `c * 10^e` with a sign that only zero may have negative.
pub record IsSum (d : Decimal) (c : ℕ) (e : ℤ) : Type 0 where
  pub negative : Bool
  pub at : d ≡ finite negative c e
  pub sign : negative ≡ true → c ≡ 0

pub zero-shift_of : (c k : ℕ) → c ≡ 0 → shift c k ≡ 0
zero-shift_of c k h = ap (λ x. shift x k) h ∙ zero-shift k

pub add-IsSum :
    (s t : Bool) (c d : ℕ) (e f : ℤ)
    → (s ≡ true → c ≡ 0)
    → (t ≡ true → d ≡ 0)
    → IsSum (add (finite s c e) (finite t d f)) (shift c (gap e f) + shift d (gap f e)) (min_ℤ e f)
unfolding add
add-IsSum true true c d e f zs zt = record {
  negative = true;
  at = refl;
  sign =
      λ _. omega (arith, zero-shift_of c (gap e f) (zs refl), zero-shift_of d (gap f e) (zt refl));
}
add-IsSum false false c d e f zs zt = record {
  negative = false;
  at = refl;
  sign = λ h. ground arith;
}
add-IsSum true false c d e f zs zt = record {
  negative = false;
  at = ground (arith, zero-shift_of c (gap e f) (zs refl));
  sign = λ h. ground arith;
}
add-IsSum false true c d e f zs zt = record {
  negative = false;
  at = ground (arith, zero-shift_of d (gap f e) (zt refl));
  sign = λ h. ground arith;
}

-- The difference, where it does not fall below zero.
pub sub-IsSum :
    (s t : Bool) (c d : ℕ) (e f : ℤ)
    → (s ≡ true → c ≡ 0)
    → (t ≡ true → d ≡ 0)
    → shift d (gap f e) ≤ shift c (gap e f)
    → IsSum (sub (finite s c e) (finite t d f)) (shift c (gap e f) - shift d (gap f e)) (min_ℤ e f)
unfolding add
sub-IsSum true true c d e f zs zt h = record {
  negative = false;
  at = ground (arith, zero-shift_of c (gap e f) (zs refl), zero-shift_of d (gap f e) (zt refl));
  sign = λ h. ground arith;
}
sub-IsSum false false c d e f zs zt h = record {
  negative = false;
  at = ground arith;
  sign = λ h. ground arith;
}
sub-IsSum true false c d e f zs zt h = record {
  negative = true;
  at = ground (arith, zero-shift_of c (gap e f) (zs refl));
  sign = λ _. omega (arith, zero-shift_of c (gap e f) (zs refl));
}
sub-IsSum false true c d e f zs zt h = record {
  negative = false;
  at = ground (arith, zero-shift_of d (gap f e) (zt refl));
  sign = λ h. ground arith;
}

-- Both exponents are at least -2, so the aligned terms are worth what they were.
pub gap-gap :
    (e f : ℤ)
    → neg_part e ≤ 2
    → neg_part f ≤ 2
    → gap e f + gap (min_ℤ e f) (negsuc 1) ≡ gap e (negsuc 1)
gap-gap e f h k = ground arith

pub gap-gap_right :
    (e f : ℤ)
    → neg_part e ≤ 2
    → neg_part f ≤ 2
    → gap f e + gap (min_ℤ e f) (negsuc 1) ≡ gap f (negsuc 1)
gap-gap_right e f h k = ground arith

pub min_scale : (e f : ℤ) → neg_part e ≤ 2 → neg_part f ≤ 2 → neg_part (min_ℤ e f) ≤ 2
min_scale e f h k = ground arith

-- A difference below zero is negative.
pub sub_below :
    (s t : Bool) (c d : ℕ) (e f : ℤ)
    → (s ≡ true → c ≡ 0)
    → (t ≡ true → d ≡ 0)
    → shift c (gap e f) < shift d (gap f e)
    → sub (finite s c e) (finite t d f)
      ≡ finite true (shift d (gap f e) - shift c (gap e f)) (min_ℤ e f)
unfolding add
sub_below true true c d e f zs zt h = absurd (omega (arith, zero-shift_of d (gap f e) (zt refl)))
sub_below false true c d e f zs zt h = absurd (omega (arith, zero-shift_of d (gap f e) (zt refl)))
sub_below true false c d e f zs zt h = ground (arith, zero-shift_of c (gap e f) (zs refl))
sub_below false false c d e f zs zt h = ground arith
