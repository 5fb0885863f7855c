-- ===== src/CartCommands.antt =====
-- application/commands/carts and application/common/services/cart_provider.py: the commands on the
-- cart of the caller. The catalog is a parameter. What other requests commit between a read and an
-- insert is a parameter of the insert.
use goldy_telegram_bot.Catalog.{ProductId, same_id, make_source_id}
use goldy_telegram_bot.Time.{Datetime}
use goldy_telegram_bot.UserValues.{ExternalAccountId}
use goldy_telegram_bot.Text.{Text}
use goldy_telegram_bot.Quantity.{Quantity}
use goldy_telegram_bot.Result.{cart_not_found, cart_already_exists, product_not_found, ok, err}
use goldy_telegram_bot.Cart.{Cart}
use goldy_telegram_bot.Request.{
  find_by, cart_by_user_id, set_carts, on_cart, get_current_user_id, Work,
}
use goldy_telegram_bot.Event.{Event, Session, cart_created}
pub mod Provider
pub mod Dispatch
pub mod Owned
pub mod Isolation
pub mod Pruning
use goldy_telegram_bot.Cart
use goldy_telegram_bot.Quantity
use goldy_telegram_bot.Prelude.Int.{ℤ}
use goldy_telegram_bot.Prelude.{
  ℕ, ◌==◌, Bool, true, false, not, Option, none, some, List, [], ◌∷◌, ◌++◌, map, any, length,
  if◌then◌else◌, is_nil,
}
use goldy_telegram_bot.Exec.{Exec, ◌>>=◌, ◌>>◌, pure, lift, gets, modify, raise_if}

-- `CatalogQueryGateway`, at one moment.
pub record Catalog : Type 0 where
  pub product_exists : ProductId → Bool
  pub read_existing_product_ids : List ProductId → List ProductId

-- What `CartFactory.create` uses: the id that is minted and the readings of the clock.
pub record Minted : Type 0 where
  pub id : ℕ
  pub created_at : Datetime
  pub updated_at : Datetime

pub record CartSummaryView : Type 0 where
  pub line_count : ℕ
  pub total_quantity : ℕ
  pub changed_product_id : Option Text

abbrev pub id_text : Option ProductId → Option Text
id_text none = none
id_text (some p) = some p.value

-- `AdaptixCartSummaryViewMapper.to_view`
unfoldable pub to_view : Option ProductId → Cart → CartSummaryView
to_view changed cart = record {
  line_count = length cart.lines;
  total_quantity = Cart.total_quantity cart.lines;
  changed_product_id = id_text changed;
}

-- `CartProvider.current`
unfoldable pub current : Option ExternalAccountId → Exec Work Cart
unfolding find_by get_current_user_id
current caller = do
  owner ← get_current_user_id caller
  found ← gets (λ w. cart_by_user_id owner w.tables.carts)
  elim found [ none ↦ lift (err cart_not_found) | some cart ↦ pure cart ]

abbrev pub is_creation_of : ℕ → Event → Bool
is_creation_of id (cart_created created user) = created == id
is_creation_of id event = false

-- `CartProvider._withdraw_creation_of`; the events of a collection differ by their ids.
unfoldable pub withdraw_creation_of : ℕ → List Event → List Event
withdraw_creation_of id [] = []
withdraw_creation_of id (event ∷ events) =
    let rest = withdraw_creation_of id events in
    if is_creation_of id event then rest else event ∷ rest

-- `SqlAlchemyCartCommandGateway.add`: the unique index on `user_id` refuses a second cart of a
-- person, and the savepoint takes the insert back. The id is fresh and the person is registered, so
-- the other constraints hold.
unfoldable pub add_cart : Cart → Exec Work Unit
unfolding find_by
add_cart cart w = elim (cart_by_user_id cart.user_id w.tables.carts) [
  | some other ↦ (err cart_already_exists, w)
  | none ↦ (ok tt, set_carts (w.tables.carts ++ cart ∷ []) w)
]

-- The reading of the cart that won, once its rival's insert was refused.
unfoldable pub take_winner : ℕ → ℕ → Exec Work Cart
unfolding find_by withdraw_creation_of
take_winner owner lost = do
  modify (λ w. record w { events = withdraw_creation_of lost w.events })
  found ← gets (λ w. cart_by_user_id owner w.tables.carts)
  elim found [ none ↦ lift (err cart_not_found) | some cart ↦ pure cart ]

-- The insert of a new cart, after what others have committed.
unfoldable pub insert_or_take : (List Cart → List Cart) → Cart → Exec Work Cart
unfolding add_cart take_winner
insert_or_take others cart w =
    let (r, w') = add_cart cart (set_carts (others w.tables.carts) w) in
    elim r [ ok tt ↦ (ok cart, w') | err e ↦ take_winner cart.user_id cart.id w' ]

-- The second half of `CartProvider.current_or_new`: a new cart, or the one that another request
-- inserted first.
unfoldable pub start : (List Cart → List Cart) → Minted → ℕ → Exec Work Cart
unfolding insert_or_take
start others minted owner w =
    elim (Cart.create minted.id owner minted.created_at minted.updated_at w.events) [
      | err e ↦ (err e, w)
      | ok s ↦ insert_or_take others s.entity (record w { events = s.events })
    ]

-- `CartProvider.current_or_new`
unfoldable pub current_or_new :
    (List Cart → List Cart) → Minted → Option ExternalAccountId → Exec Work Cart
unfolding find_by get_current_user_id start
current_or_new others minted caller = do
  owner ← get_current_user_id caller
  found ← gets (λ w. cart_by_user_id owner w.tables.carts)
  elim found [ none ↦ start others minted owner | some cart ↦ pure cart ]

-- `AddToCartHandler.handle`
unfoldable pub add_to_cart :
    Catalog
    → (List Cart → List Cart)
    → Minted
    → Option ExternalAccountId
    → Text
    → ℤ
    → Datetime
    → Datetime
    → Exec Work CartSummaryView
unfolding current_or_new
add_to_cart catalog others minted caller product quantity added_at now = do
  p ← lift (make_source_id product)
  raise_if (not (catalog.product_exists p)) product_not_found
  cart ← current_or_new others minted caller
  q ← lift (Quantity.make quantity)
  on_cart (do Cart.add_item p q added_at now; gets (λ s. to_view (some p) s.entity)) cart

-- `SetCartLineQuantityHandler.handle`
unfoldable pub set_cart_line_quantity :
    Option ExternalAccountId → Text → ℤ → Datetime → Exec Work CartSummaryView
unfolding current
set_cart_line_quantity caller product quantity now = do
  cart ← current caller
  p ← lift (make_source_id product)
  q ← lift (Quantity.make quantity)
  on_cart (do Cart.set_item_quantity p q now; gets (λ s. to_view (some p) s.entity)) cart

-- `DecreaseCartLineHandler.handle`
unfoldable pub decrease_cart_line :
    Option ExternalAccountId → Text → Datetime → Exec Work CartSummaryView
unfolding current
decrease_cart_line caller product now = do
  cart ← current caller
  p ← lift (make_source_id product)
  on_cart (do Cart.decrease_item p now; gets (λ s. to_view (some p) s.entity)) cart

-- `RemoveCartLineHandler.handle`
unfoldable pub remove_cart_line :
    Option ExternalAccountId → Text → Datetime → Exec Work CartSummaryView
unfolding current
remove_cart_line caller product now = do
  cart ← current caller
  p ← lift (make_source_id product)
  on_cart (do Cart.remove_item p now; gets (λ s. to_view (some p) s.entity)) cart

-- `ClearCartHandler.handle`
unfoldable pub clear_cart : Option ExternalAccountId → Datetime → Exec Work CartSummaryView
unfolding current
clear_cart caller now = do
  cart ← current caller
  on_cart (do Cart.clear now; gets (λ s. to_view none s.entity)) cart

-- The loop of `RemoveUnavailableCartLinesHandler.handle`
unfoldable pub remove_missing :
    List ProductId → List ProductId → Datetime → Exec (Session Cart) Unit
remove_missing existing [] now s = (ok tt, s)
remove_missing existing (p ∷ products) now s =
    if any (same_id p) existing
    then remove_missing existing products now s
    else (do Cart.remove_item p now; remove_missing existing products now) s

-- `RemoveUnavailableCartLinesHandler.handle`
unfoldable pub remove_unavailable_cart_lines :
    Catalog → Option ExternalAccountId → Datetime → Exec Work CartSummaryView
unfolding current remove_missing
remove_unavailable_cart_lines catalog caller now = do
  cart ← current caller
  let products = map (λ line. line.product_id) cart.lines
  on_cart
      (do
        if is_nil products
            then pure tt
            else remove_missing (catalog.read_existing_product_ids products) products now
        gets (λ s. to_view none s.entity))
      cart
