-- ===== src/Quantity/Limits.antt =====
-- What the constructor of a quantity accepts, and the sum of two quantities.
use goldy_telegram_bot.Prelude.{◌+◌, ◌-◌, ◌≤◌, ◌<◌, ◌≡◌, arith}
use goldy_telegram_bot.Prelude.Int.{ℤ, pos, negsuc}
use goldy_telegram_bot.Result.{ok, err, quantity_limit_exceeded}
use goldy_telegram_bot.Quantity.{Quantity, IsValid, max_quantity, make, add, one_less}

pub make-IsValid : (n : ℤ) {q : Quantity} → make n ≡ ok q → IsValid q
unfolding make
make-IsValid (pos n) h = ground arith
make-IsValid (negsuc n) h = ground arith

pub add-IsValid : (a b : Quantity) {q : Quantity} → add a b ≡ ok q → IsValid q
unfolding add
add-IsValid a b h = ground arith

pub value-add : (a b : Quantity) {q : Quantity} → add a b ≡ ok q → q.value ≡ a.value + b.value
unfolding add
value-add a b h = ground arith

-- Two valid quantities add up exactly while the sum is within the ceiling, and are refused above.
pub add_cases :
    (a b : Quantity)
    → IsValid a
    → IsValid b
    → (a.value + b.value ≤ max_quantity → add a b ≡ ok (record { value = a.value + b.value }))
      × (max_quantity < a.value + b.value → add a b ≡ err quantity_limit_exceeded)
unfolding add
add_cases a b va vb = (λ h. ground arith, λ h. ground arith)

-- One less than a valid quantity other than one is valid again.
pub one_less_lem :
    (q : Quantity)
    → IsValid q
    → 2 ≤ q.value
    → (r : Quantity) × (one_less q ≡ ok r) × (r.value + 1 ≡ q.value)
unfolding one_less
one_less_lem q v h = (record { value = q.value - 1 }, ground arith, omega arith)
