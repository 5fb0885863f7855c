-- ===== src/Cart/Lines.antt =====
-- The lines of a cart under each write: a lookup, the well-formedness, the length and the sum.
use goldy_telegram_bot.Catalog.{ProductId, same_id}
use goldy_telegram_bot.Prelude.{
  ◌≤◌, ◌≡◌, refl, Option, none, some, List, [], ◌∷◌, ◌++◌, arith, if◌then◌else◌, length,
}
use goldy_telegram_bot.Text.{same_iff}
use goldy_telegram_bot.Quantity
use goldy_telegram_bot.Quantity.{Quantity}
use goldy_telegram_bot.Cart.{line_for, write_quantity, remove_line, CartLine}

-- No product stands on two lines, and every quantity is one that can be ordered.
abbrev pub IsLines : List CartLine → Type 0
IsLines [] = Unit
IsLines (line ∷ lines) =
    Quantity.IsValid line.quantity × (line_for line.product_id lines ≡ none) × IsLines lines

abbrev with_quantity : Quantity → Option CartLine → Option CartLine
with_quantity q none = none
with_quantity q (some line) = some (record line { quantity = q })

abbrev pub or_line : Option CartLine → Option CartLine → Option CartLine
or_line none b = b
or_line (some a) b = some a

pub line_for-write_quantity :
    (p r : ProductId) (q : Quantity) (lines : List CartLine)
    → line_for r (write_quantity p q lines)
      ≡ (if same_id p r then with_quantity q (line_for r lines) else line_for r lines)
unfolding line_for write_quantity
line_for-write_quantity p r q [] = ground arith
line_for-write_quantity p r q (line ∷ lines) = ground (
  arith,
  line_for-write_quantity p r q lines,
  same_iff line.product_id.value p.value,
  same_iff line.product_id.value r.value,
  same_iff p.value r.value,
)

pub line_for-append :
    (r : ProductId) (lines : List CartLine) (line : CartLine)
    → line_for r (lines ++ line ∷ [])
      ≡ or_line (line_for r lines) (if same_id line.product_id r then some line else none)
unfolding line_for
line_for-append r [] line = refl
line_for-append r (l ∷ lines) line = ground (arith, line_for-append r lines line)

-- The product of the line that is found is the one looked for.
pub line_for_product :
    (p : ProductId) (lines : List CartLine) (line : CartLine)
    → line_for p lines ≡ some line
    → line.product_id ≡ p
unfolding line_for
line_for_product p [] line h = ground arith
line_for_product p (l ∷ lines) line h =
    ground (arith, line_for_product p lines line, same_iff l.product_id.value p.value)

pub line_for-remove_line :
    (p r : ProductId) (lines : List CartLine)
    → IsLines lines
    → line_for r (remove_line p lines) ≡ (if same_id p r then none else line_for r lines)
unfolding line_for remove_line
line_for-remove_line p r [] v = ground arith
line_for-remove_line p r (line ∷ lines) v = ground (
  arith,
  line_for-remove_line p r lines v.2,
  same_iff line.product_id.value p.value,
  same_iff line.product_id.value r.value,
  same_iff p.value r.value,
)

pub write_quantity-IsLines :
    (p : ProductId) (q : Quantity) (lines : List CartLine)
    → Quantity.IsValid q
    → IsLines lines
    → IsLines (write_quantity p q lines)
unfolding write_quantity
write_quantity-IsLines p q [] vq v = tt
write_quantity-IsLines p q (line ∷ lines) vq v = ground (
  arith,
  write_quantity-IsLines p q lines vq v.2,
  line_for-write_quantity p line.product_id q lines,
)

pub append-IsLines :
    (lines : List CartLine) (line : CartLine)
    → Quantity.IsValid line.quantity
    → line_for line.product_id lines ≡ none
    → IsLines lines
    → IsLines (lines ++ line ∷ [])
unfolding line_for
append-IsLines [] line vq fresh v = (vq, refl, tt)
append-IsLines (l ∷ lines) line vq fresh v = ground (
  arith,
  append-IsLines lines line vq,
  line_for-append l.product_id lines line,
  same_iff l.product_id.value line.product_id.value,
  same_iff line.product_id.value l.product_id.value,
)

pub remove_line-IsLines :
    (p : ProductId) (lines : List CartLine) → IsLines lines → IsLines (remove_line p lines)
unfolding remove_line
remove_line-IsLines p [] v = tt
remove_line-IsLines p (line ∷ lines) v =
    ground
      (arith, remove_line-IsLines p lines v.2, line_for-remove_line p line.product_id lines v.2)

pub line_for-IsValid :
    (p : ProductId) (lines : List CartLine) (line : CartLine)
    → IsLines lines
    → line_for p lines ≡ some line
    → Quantity.IsValid line.quantity
unfolding line_for
line_for-IsValid p [] line v h = ground arith
line_for-IsValid p (l ∷ lines) line v h = ground (arith, line_for-IsValid p lines line v.2)

pub length-write_quantity :
    (p : ProductId) (q : Quantity) (lines : List CartLine)
    → length (write_quantity p q lines) ≡ length lines
unfolding write_quantity
length-write_quantity p q [] = refl
length-write_quantity p q (line ∷ lines) = ground (arith, length-write_quantity p q lines)

pub length-remove_line :
    (p : ProductId) (lines : List CartLine) → length (remove_line p lines) ≤ length lines
unfolding remove_line
length-remove_line p [] = omega arith
length-remove_line p (line ∷ lines) = ground (arith, length-remove_line p lines)
