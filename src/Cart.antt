-- ===== src/Cart.antt =====
-- domain/carts/entities: a cart and its lines. A session holds the cart and the events of the
-- request. `self.lines.remove(line)` and writes to the line that `line_for` found concern that one
-- object, which is the first line of its product.
pub mod Lines
pub mod Changes
pub mod Refinement
pub mod Invariant
pub mod Announcements
use goldy_telegram_bot.Exec.{raise_if, Exec, lift, gets, modify, ◌>>◌, ◌>>=◌}
use goldy_telegram_bot.Prelude.{
  ◌+◌, ◌==◌, is_nil, ℕ, Option, none, some, List, [], ◌∷◌, ◌++◌, leb, if◌then◌else◌, length,
}
use goldy_telegram_bot.Result.{
  cart_line_not_found, empty_cart, Result, ok, err, cart_line_limit_exceeded, inconsistent_time,
}
use goldy_telegram_bot.Time.{Datetime, before}
use goldy_telegram_bot.Catalog.{ProductId, same_id}
use goldy_telegram_bot.Quantity
use goldy_telegram_bot.Quantity.{Quantity}
use goldy_telegram_bot.Event.{
  cart_item_added, cart_item_quantity_changed, cart_item_removed, cart_cleared, Event, Session,
  add_event, cart_created,
}

abbrev pub max_cart_lines : ℕ
max_cart_lines = 100

pub record CartLine : Type 0 where
  pub product_id : ProductId
  pub quantity : Quantity
  pub added_at : Datetime

pub record Cart : Type 0 where
  pub id : ℕ
  pub created_at : Datetime
  pub updated_at : Datetime
  pub user_id : ℕ
  pub lines : List CartLine

-- `Cart.create`; the two moments are the readings of the two default factories, in their order,
-- and the construction refuses an update before the creation.
unfoldable pub create : ℕ → ℕ → Datetime → Datetime → List Event → Result (Session Cart)
create cart_id user_id created_at updated_at events =
    if before updated_at created_at
    then err inconsistent_time
    else ok (
        add_event (cart_created cart_id user_id) (record {
          entity = record {
            id = cart_id;
            created_at = created_at;
            updated_at = updated_at;
            user_id = user_id;
            lines = [];
          };
          events = events;
        }))

-- `Cart.line_for` over the lines
unfoldable pub line_for : ProductId → List CartLine → Option CartLine
line_for p [] = none
line_for p (line ∷ lines) = if same_id line.product_id p then some line else line_for p lines

-- `line.quantity = q` on the line that `line_for` finds
unfoldable pub write_quantity : ProductId → Quantity → List CartLine → List CartLine
write_quantity p q [] = []
write_quantity p q (line ∷ lines) =
    if same_id line.product_id p
    then record line { quantity = q } ∷ lines
    else line ∷ write_quantity p q lines

-- `self.lines.remove(line)` of the line that `line_for` finds
unfoldable pub remove_line : ProductId → List CartLine → List CartLine
remove_line p [] = []
remove_line p (line ∷ lines) =
    if same_id line.product_id p then lines else line ∷ remove_line p lines

abbrev pub set_lines : List CartLine → Datetime → Session Cart → Session Cart
set_lines lines now s = record s { entity = record (s.entity) { lines = lines; updated_at = now } }

-- The `if` of `add_item`: a new line, or a larger one. The new quantity comes back.
unfoldable pub put_line :
    ProductId
    → Quantity
    → Option CartLine
    → List CartLine
    → Datetime
    → Result (List CartLine × Quantity)
unfolding write_quantity
put_line p q none lines added_at =
    if leb max_cart_lines (length lines)
    then err cart_line_limit_exceeded
    else ok (lines ++ record { product_id = p; quantity = q; added_at = added_at } ∷ [], q)
put_line p q (some line) lines added_at = elim (Quantity.add line.quantity q) [
  | ok total ↦ ok (write_quantity p total lines, total)
  | err e ↦ err e
]

unfoldable pub add_item : ProductId → Quantity → Datetime → Datetime → Exec (Session Cart) Unit
unfolding put_line line_for
add_item p q added_at now = do
  lines ← gets (λ s. s.entity.lines)
  (lines', total) ← lift (put_line p q (line_for p lines) lines added_at)
  modify (set_lines lines' now)
  modify (λ s. add_event (cart_item_added s.entity.id s.entity.user_id p.value total.value) s)

-- `Cart._require_line`
unfoldable pub require_line : ProductId → Exec (Session Cart) CartLine
unfolding line_for
require_line p s = elim (line_for p s.entity.lines) [
  | none ↦ (err cart_line_not_found, s)
  | some line ↦ (ok line, s)
]

unfoldable pub set_item_quantity : ProductId → Quantity → Datetime → Exec (Session Cart) Unit
unfolding require_line write_quantity
set_item_quantity p q now = do
  require_line p
  modify (λ s. set_lines (write_quantity p q s.entity.lines) now s)
  modify
      (λ s. add_event (cart_item_quantity_changed s.entity.id s.entity.user_id p.value q.value) s)

unfoldable pub remove_item : ProductId → Datetime → Exec (Session Cart) Unit
unfolding require_line remove_line
remove_item p now = do
  require_line p
  modify (λ s. set_lines (remove_line p s.entity.lines) now s)
  modify (λ s. add_event (cart_item_removed s.entity.id s.entity.user_id p.value) s)

unfoldable pub decrease_item : ProductId → Datetime → Exec (Session Cart) Unit
unfolding require_line remove_item set_item_quantity
decrease_item p now = do
  line ← require_line p
  if line.quantity.value == 1
      then remove_item p now
      else do q ← lift (Quantity.one_less line.quantity); set_item_quantity p q now

unfoldable pub clear : Datetime → Exec (Session Cart) Unit
clear now s =
    if is_nil s.entity.lines
    then (ok tt, s)
    else (do
      modify (set_lines [] now)
      modify (λ t. add_event (cart_cleared t.entity.id t.entity.user_id (length s.entity.lines)) t))
        s

-- `Cart.ensure_not_empty`
unfoldable pub ensure_not_empty : Exec (Session Cart) Unit
ensure_not_empty s = raise_if (is_nil s.entity.lines) empty_cart s

abbrev pub line_count : Cart → ℕ
line_count cart = length cart.lines

-- `Cart.total_quantity` over the lines
unfoldable pub total_quantity : List CartLine → ℕ
total_quantity [] = 0
total_quantity (line ∷ lines) = line.quantity.value + total_quantity lines
