-- ===== src/Cart/Announcements.antt =====
-- The events that the changes of a cart record.
use goldy_telegram_bot.Quantity
use goldy_telegram_bot.Cart.Lines.{line_for-write_quantity, line_for-append, line_for-IsValid}
use goldy_telegram_bot.Catalog.{ProductId}
use goldy_telegram_bot.Time.{before, Datetime}
use goldy_telegram_bot.Text.{same_refl}
use goldy_telegram_bot.Quantity.{Quantity}
use goldy_telegram_bot.Result.{ok}
use goldy_telegram_bot.Event.{
  Event, cart_item_added, cart_item_quantity_changed, cart_item_removed, cart_cleared, Session,
}
use mathlib.Core.List.{append-nil}
use goldy_telegram_bot.Prelude.{
  ◌+◌, ◌-◌, inl, inr, List, [], ◌∷◌, arith, ◌==◌, if◌then◌else◌, Option-cases, length, is_nil, ◌≡◌,
  ◌++◌,
}
use goldy_telegram_bot.Cart.{line_for, Cart}
use goldy_telegram_bot.Cart.Changes.{
  put, assign, decrease, take_out, empty, Change, apply, IsChange, IsValid, quantity_of,
}

-- What a change that was made has to announce, told from the cart before and after.
abbrev pub announcement : Change → Cart → Cart → List Event
announcement (put p q t u) before after =
    cart_item_added after.id after.user_id p.value (quantity_of p after) ∷ []
announcement (assign p q now) before after =
    cart_item_quantity_changed after.id after.user_id p.value (quantity_of p after) ∷ []
announcement (decrease p now) before after =
    if quantity_of p before == 1
    then cart_item_removed after.id after.user_id p.value ∷ []
    else cart_item_quantity_changed after.id after.user_id p.value (quantity_of p after) ∷ []
announcement (take_out p now) before after = cart_item_removed after.id after.user_id p.value ∷ []
announcement (empty now) before after =
    if is_nil before.lines
    then []
    else cart_cleared after.id after.user_id (length before.lines) ∷ []

module _ (s : Session Cart) (v : IsValid s.entity) where
  decrease_announces :
      (p : ProductId) (now : Datetime)
      → (apply (decrease p now) s).0 ≡ ok tt
      → (apply (decrease p now) s).1.events
        ≡ s.events ++ announcement (decrease p now) s.entity (apply (decrease p now) s).1.entity
  unfolding apply Quantity.one_less
  decrease_announces p now h = elim (Option-cases (line_for p s.entity.lines)) [
    | inl absent ↦ ground arith
    | inr (line, found) ↦ ground (
      arith,
      line_for-IsValid p s.entity.lines line v.lines found,
      line_for-write_quantity p p (record { value = line.quantity.value - 1 }) s.entity.lines,
      same_refl p.value,
    )
  ]

  -- In a well-formed cart, a change with a valid quantity that is made records one event that tells
  -- the quantity afterwards, the removal, or the number of lines emptied; emptying an empty cart
  -- records none.
  pub apply_announces :
      (c : Change)
      → IsChange c
      → (apply c s).0 ≡ ok tt
      → (apply c s).1.events ≡ s.events ++ announcement c s.entity (apply c s).1.entity
  unfolding apply Quantity.add
  apply_announces (put p q t u) vc h = elim (Option-cases (line_for p s.entity.lines)) [
    | inl absent ↦ ground (
      arith,
      line_for-append p s.entity.lines (record { product_id = p; quantity = q; added_at = t }),
      same_refl p.value,
    )
    | inr (line, found) ↦ ground (
      arith,
      line_for-write_quantity p p (record { value = line.quantity.value + q.value }) s.entity.lines,
      same_refl p.value,
    )
  ]
  apply_announces (assign p q now) vc h = elim (Option-cases (line_for p s.entity.lines)) [
    | inl absent ↦ ground arith
    | inr (line, found) ↦
        ground (arith, line_for-write_quantity p p q s.entity.lines, same_refl p.value)
  ]
  apply_announces (decrease p now) vc h = decrease_announces p now h
  apply_announces (take_out p now) vc h = ground arith
  apply_announces (empty now) vc h = ground (arith, append-nil s.events)
