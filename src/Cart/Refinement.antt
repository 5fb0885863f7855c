-- ===== src/Cart/Refinement.antt =====
-- The changes of a cart beside the quantities of its products.
use goldy_telegram_bot.Quantity
use goldy_telegram_bot.Time.{Datetime}
use goldy_telegram_bot.Quantity.{Quantity}
use goldy_telegram_bot.Catalog.{ProductId}
use goldy_telegram_bot.Text.{same_iff}
use goldy_telegram_bot.Result.{ok, Error, err}
use goldy_telegram_bot.Quantity.Limits.{value-add, one_less_lem, add_cases}
use goldy_telegram_bot.Event.{Session}
use goldy_telegram_bot.Prelude.{◌-◌, some, ◌+◌, ◌≡◌, inl, inr, arith, Option-cases}
use goldy_telegram_bot.Cart.{CartLine, Cart, line_for}
use goldy_telegram_bot.Cart.Lines.{
  line_for-write_quantity, line_for-append, line_for-remove_line, line_for-IsValid,
}
use goldy_telegram_bot.Cart.Changes.{
  quantity_of, intended, Change, assign, decrease, take_out, empty, put, apply, IsChange, IsValid,
  outcome,
}

module _ (s : Session Cart) (v : IsValid s.entity) where
  -- In a well-formed cart, whether a change with a valid quantity is refused, and with which error,
  -- is told by the number of lines and the quantity of the named product: a new product past the
  -- limit of lines, a sum past the limit of a quantity, and any other change of an absent product
  -- are refused, and nothing else is.
  pub apply-outcome : (c : Change) → IsChange c → (apply c s).0 ≡ outcome c s.entity
  unfolding apply
  apply-outcome (put p q t u) vc = elim (Option-cases (line_for p s.entity.lines)) [
    | inl absent ↦ ground arith
    | inr (line, found) ↦
        ground
          (arith, line_for-IsValid p s.entity.lines line v.lines found, add_cases line.quantity q)
  ]
  apply-outcome (assign p q now) vc = elim (Option-cases (line_for p s.entity.lines)) [
    | inl absent ↦ ground arith
    | inr (line, found) ↦ ground (arith, line_for-IsValid p s.entity.lines line v.lines found)
  ]
  apply-outcome (take_out p now) vc = elim (Option-cases (line_for p s.entity.lines)) [
    | inl absent ↦ ground arith
    | inr (line, found) ↦ ground (arith, line_for-IsValid p s.entity.lines line v.lines found)
  ]
  apply-outcome (decrease p now) vc = elim (Option-cases (line_for p s.entity.lines)) [
    | inl absent ↦ ground arith
    | inr (line, found) ↦
        ground
          (arith, line_for-IsValid p s.entity.lines line v.lines found, one_less_lem line.quantity)
  ]
  apply-outcome (empty now) vc = ground arith

  -- In a well-formed cart, a change with a valid quantity that is refused leaves the cart and the
  -- recorded events as they were.
  pub apply_refused :
      (c : Change) → IsChange c → (e : Error) → (apply c s).0 ≡ err e → (apply c s).1 ≡ s
  unfolding apply
  apply_refused (put p q t u) vc e h = ground arith
  apply_refused (assign p q now) vc e h = ground arith
  apply_refused (take_out p now) vc e h = ground arith
  apply_refused (decrease p now) vc e h = ground arith
  apply_refused (empty now) vc e h = ground arith

  -- One piece less, or the line gone with its last piece.
  decrease_done :
      (p : ProductId) (now : Datetime) (r : ProductId) (line : CartLine)
      → line_for p s.entity.lines ≡ some line
      → quantity_of r (apply (decrease p now) s).1.entity
        ≡ intended (decrease p now) r (quantity_of r s.entity)
  unfolding apply Quantity.one_less
  decrease_done p now r line found = ground (
    arith,
    found,
    line_for-IsValid p s.entity.lines line v.lines found,
    line_for-remove_line p r s.entity.lines v.lines,
    line_for-write_quantity p r (record { value = line.quantity.value - 1 }) s.entity.lines,
    same_iff p.value r.value,
  )

  -- In a well-formed cart, a change with a valid quantity that is not refused gives every product
  -- the intended quantity: the named product has the sum, the new quantity, one piece less or none,
  -- and every other product keeps its quantity; emptying leaves none of any.
  pub apply_done :
      (c : Change)
      → IsChange c
      → (apply c s).0 ≡ ok tt
      → (r : ProductId) → quantity_of r (apply c s).1.entity ≡ intended c r (quantity_of r s.entity)
  unfolding apply Quantity.add
  apply_done (put p q t u) vc h r = elim (Option-cases (line_for p s.entity.lines)) [
    | inl absent ↦ ground (
      arith,
      line_for-append r s.entity.lines (record { product_id = p; quantity = q; added_at = t }),
      same_iff p.value r.value,
    )
    | inr (line, found) ↦ ground (
      arith,
      value-add line.quantity q,
      line_for-write_quantity p r (record { value = line.quantity.value + q.value }) s.entity.lines,
      same_iff p.value r.value,
    )
  ]
  apply_done (assign p q now) vc h r = elim (Option-cases (line_for p s.entity.lines)) [
    | inl absent ↦ ground arith
    | inr (line, found) ↦
        ground (arith, line_for-write_quantity p r q s.entity.lines, same_iff p.value r.value)
  ]
  apply_done (take_out p now) vc h r = elim (Option-cases (line_for p s.entity.lines)) [
    | inl absent ↦ ground arith
    | inr (line, found) ↦
        ground (arith, line_for-remove_line p r s.entity.lines v.lines, same_iff p.value r.value)
  ]
  apply_done (decrease p now) vc h r = elim (Option-cases (line_for p s.entity.lines)) [
    | inl absent ↦ ground arith
    | inr (line, found) ↦ decrease_done p now r line found
  ]
  apply_done (empty now) vc h r = ground arith
