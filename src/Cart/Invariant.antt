-- ===== src/Cart/Invariant.antt =====
-- Well-formed carts under the changes of carts/entities/cart.py.
use goldy_telegram_bot.Quantity
use goldy_telegram_bot.Cart.Lines.{
  write_quantity-IsLines, append-IsLines, remove_line-IsLines, line_for-IsValid,
  length-write_quantity, length-remove_line,
}
use goldy_telegram_bot.Catalog.{ProductId}
use goldy_telegram_bot.Time.{Datetime}
use goldy_telegram_bot.Quantity.{Quantity}
use goldy_telegram_bot.Result.{ok}
use goldy_telegram_bot.Event.{Event, Session}
use goldy_telegram_bot.Prelude.{
  ℕ, ◌+◌, ◌-◌, ◌≡◌, inl, inr, List, [], ◌∷◌, arith, Option-cases, length-append, All,
}
use goldy_telegram_bot.Cart.{create, line_for, Cart}
use goldy_telegram_bot.Cart.Changes.{
  Change, put, assign, decrease, take_out, empty, apply, IsChange, IsValid,
}

put-IsValid :
    (s : Session Cart) (p : ProductId) (q : Quantity) (t u : Datetime)
    → IsValid s.entity
    → Quantity.IsValid q
    → IsValid (apply (put p q t u) s).1.entity
unfolding apply Quantity.add
put-IsValid s p q t u v vq = elim (Option-cases (line_for p s.entity.lines)) [
  | inl absent ↦ ground (
    arith,
    append-IsLines s.entity.lines (record { product_id = p; quantity = q; added_at = t }) vq absent
        v.lines,
    length-append s.entity.lines (record { product_id = p; quantity = q; added_at = t } ∷ []),
  )
  | inr (line, found) ↦ ground (
    arith,
    write_quantity-IsLines p (record { value = line.quantity.value + q.value }) s.entity.lines,
    line_for-IsValid p s.entity.lines line v.lines found,
    length-write_quantity p (record { value = line.quantity.value + q.value }) s.entity.lines,
  )
]

decrease-IsValid :
    (s : Session Cart) (p : ProductId) (now : Datetime)
    → IsValid s.entity
    → IsValid (apply (decrease p now) s).1.entity
unfolding apply Quantity.one_less
decrease-IsValid s p now v = elim (Option-cases (line_for p s.entity.lines)) [
  | inl absent ↦ ground arith
  | inr (line, found) ↦ ground (
    arith,
    line_for-IsValid p s.entity.lines line v.lines found,
    remove_line-IsLines p s.entity.lines v.lines,
    length-remove_line p s.entity.lines,
    write_quantity-IsLines p (record { value = line.quantity.value - 1 }) s.entity.lines,
    length-write_quantity p (record { value = line.quantity.value - 1 }) s.entity.lines,
  )
]

-- A change, refused or not, keeps the products on separate lines, their quantities in range and
-- their number within the limit.
pub apply-IsValid :
    (s : Session Cart) (c : Change) → IsValid s.entity → IsChange c → IsValid (apply c s).1.entity
unfolding apply
apply-IsValid s (put p q t u) v vc = put-IsValid s p q t u v vc
apply-IsValid s (assign p q now) v vc = ground (
  arith,
  write_quantity-IsLines p q s.entity.lines vc v.lines,
  length-write_quantity p q s.entity.lines,
)
apply-IsValid s (decrease p now) v vc = decrease-IsValid s p now v
apply-IsValid s (take_out p now) v vc =
    ground
      (arith, remove_line-IsLines p s.entity.lines v.lines, length-remove_line p s.entity.lines)
apply-IsValid s (empty now) v vc = ground arith

-- The changes of a cart one after another, each refused or made.
pub run : List Change → Session Cart → Session Cart
run [] s = s
run (c ∷ cs) s = run cs (apply c s).1

run-IsValid :
    (cs : List Change) (s : Session Cart)
    → IsValid s.entity
    → All IsChange cs
    → IsValid (run cs s).entity
unfolding run
run-IsValid [] s v h = v
run-IsValid (c ∷ cs) s v h = run-IsValid cs (apply c s).1 (apply-IsValid s c v h.0) h.1

-- Whatever changes with valid quantities are tried on a cart after its creation, it has one line
-- for each product, valid quantities only, and no more lines than the limit.
pub created-IsValid :
    (cart_id user_id : ℕ) (created_at updated_at : Datetime) (events : List Event)
    (s : Session Cart) (cs : List Change)
    → create cart_id user_id created_at updated_at events ≡ ok s
    → All IsChange cs
    → IsValid (run cs s).entity
unfolding create
created-IsValid cart_id user_id created_at updated_at events s cs h vcs =
    run-IsValid cs s (ground arith) vcs
