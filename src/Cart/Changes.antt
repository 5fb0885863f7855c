-- ===== src/Cart/Changes.antt =====
-- A cart as the quantity of each product: what every change of a cart is meant to do, and when it
-- is refused, without lines, positions or moments.
use goldy_telegram_bot.Exec.{Exec}
use goldy_telegram_bot.Catalog.{ProductId, same_id}
use goldy_telegram_bot.Time.{Datetime}
use goldy_telegram_bot.Quantity.{Quantity}
use goldy_telegram_bot.Result.{
  Result, quantity_limit_exceeded, cart_line_not_found, cart_line_limit_exceeded, ok, err,
}
use goldy_telegram_bot.Event.{Session}
use goldy_telegram_bot.Prelude.{
  ℕ, zero, suc, ◌+◌, ◌-◌, ◌≤◌, Option, none, some, ltb, leb, if◌then◌else◌, length,
}
use goldy_telegram_bot.Cart.{
  max_cart_lines, CartLine, Cart, line_for, add_item, set_item_quantity, remove_item, decrease_item,
  clear,
}
use goldy_telegram_bot.Cart.Lines.{IsLines}
use goldy_telegram_bot.Quantity

-- The calls that change a cart, with the readings of the clock that each makes.
pub data Change : Type 0 where
  put : ProductId → Quantity → Datetime → Datetime → Change
  assign : ProductId → Quantity → Datetime → Change
  decrease take_out : ProductId → Datetime → Change
  empty : Datetime → Change

unfoldable pub apply : Change → Exec (Session Cart) Unit
unfolding add_item set_item_quantity remove_item decrease_item clear
apply (put p q added_at now) = add_item p q added_at now
apply (assign p q now) = set_item_quantity p q now
apply (decrease p now) = decrease_item p now
apply (take_out p now) = remove_item p now
apply (empty now) = clear now

-- An argument that is a quantity was validated when it was built.
abbrev pub IsChange : Change → Type 0
IsChange (put p q added_at now) = Quantity.IsValid q
IsChange (assign p q now) = Quantity.IsValid q
IsChange _ = Unit

pub record IsValid (cart : Cart) : Type 0 where
  pub lines : IsLines cart.lines
  pub few : length cart.lines ≤ max_cart_lines

-- 0 for a product that is not in the cart
abbrev quantity_in : Option CartLine → ℕ
quantity_in none = 0
quantity_in (some line) = line.quantity.value

abbrev pub quantity_of : ProductId → Cart → ℕ
quantity_of p cart = quantity_in (line_for p cart.lines)

-- The quantity of the product `r` after the change, from the quantity `n` before.
abbrev pub intended : Change → ProductId → ℕ → ℕ
intended (put p q added_at now) r n = if same_id p r then n + q.value else n
intended (assign p q now) r n = if same_id p r then q.value else n
intended (decrease p now) r n = if same_id p r then n - 1 else n
intended (take_out p now) r n = if same_id p r then 0 else n
intended (empty now) r n = 0

-- A change of a product that has to be there.
abbrev needs : ℕ → Result (Unit {0})
needs zero = err cart_line_not_found
needs (suc n) = ok tt

-- The outcome, from the number of lines and the quantity of the product that the change names.
abbrev outcome_of_put : ℕ → ℕ → ℕ → Result (Unit {0})
outcome_of_put lines zero more =
    if ltb lines max_cart_lines then ok tt else err cart_line_limit_exceeded
outcome_of_put lines (suc n) more =
    if leb (suc n + more) Quantity.max_quantity then ok tt else err quantity_limit_exceeded

abbrev pub outcome : Change → Cart → Result (Unit {0})
outcome (put p q added_at now) cart =
    outcome_of_put (length cart.lines) (quantity_of p cart) q.value
outcome (assign p q now) cart = needs (quantity_of p cart)
outcome (decrease p now) cart = needs (quantity_of p cart)
outcome (take_out p now) cart = needs (quantity_of p cart)
outcome (empty now) cart = ok tt
