-- ===== src/Decimal/Shift.antt =====
-- The laws of `shift`, so that proofs about decimals need no powers of ten.
use goldy_telegram_bot.Prelude.{◌-◌, ℕ, zero, suc, ◌+◌, ◌*◌, ◌≤◌, ◌≡◌, refl, arith, sym, ap, ◌∙◌}
use goldy_telegram_bot.Decimal.{shift}

pub shift_zero : (c : ℕ) → shift c 0 ≡ c
unfolding shift
shift_zero c = refl

pub shift-add : (c d k : ℕ) → shift (c + d) k ≡ shift c k + shift d k
unfolding shift
shift-add c d zero = refl
shift-add c d (suc k) =
    let e : (c + d) * 10 ≡ c * 10 + d * 10 = omega arith in rw e (shift-add (c * 10) (d * 10) k)

pub shift-shift : (c j k : ℕ) → shift (shift c j) k ≡ shift c (j + k)
unfolding shift
shift-shift c zero k = let e : 0 + k ≡ k = omega arith in rw e
shift-shift c (suc j) k =
    let e : suc j + k ≡ suc (j + k) = omega arith in rw e (shift-shift (c * 10) j k)

pub shift-mul : (c n k : ℕ) → shift (c * n) k ≡ shift c k * n
unfolding shift
shift-mul c n zero = refl
shift-mul c n (suc k) =
    let e : c * n * 10 ≡ c * 10 * n = omega arith in rw e (shift-mul (c * 10) n k)

pub zero-shift : (k : ℕ) → shift 0 k ≡ 0
unfolding shift
zero-shift zero = refl
zero-shift (suc k) = zero-shift k

pub le-shift : (c k : ℕ) → c ≤ shift c k
unfolding shift
le-shift c zero = omega arith
le-shift c (suc k) = omega (arith, le-shift (c * 10) k)

pub shift_mono : (c d k : ℕ) → c ≤ d → shift c k ≤ shift d k
unfolding shift
shift_mono c d zero h = h
shift_mono c d (suc k) h = shift_mono (c * 10) (d * 10) k (omega arith)

-- Also strictly: what stays in order after the shift was in order before.
pub shift_mono_lt : (c d k : ℕ) → suc c ≤ d → suc (shift c k) ≤ shift d k
unfolding shift
shift_mono_lt c d zero h = h
shift_mono_lt c d (suc k) h = shift_mono_lt (c * 10) (d * 10) k (omega arith)

pub shift-sub : (c d k : ℕ) → d ≤ c → shift (c - d) k + shift d k ≡ shift c k
shift-sub c d k h =
    let e : c - d + d ≡ c = omega arith in sym (shift-add (c - d) d k) ∙ ap (λ x. shift x k) e
