-- ===== src/Tests/Commands.antt =====
-- Runs of the commands on carts, people and placed orders.
use goldy_telegram_bot.Cart.Lines.{IsLines}
use goldy_telegram_bot.Tests.{morning, evening, basket, placed, bread, line_of}
use goldy_telegram_bot.Tests.Shop.{shop, by_anna, by_boss}
use goldy_telegram_bot.UserCommands
use goldy_telegram_bot.UserCommands.Dispatch as OnPeople
use goldy_telegram_bot.OrderCommands.Dispatch as OnOrders
use goldy_telegram_bot.CartCommands
use goldy_telegram_bot.CartCommands.Dispatch as OnCarts
use goldy_telegram_bot.Cart
use goldy_telegram_bot.CartCommands
use goldy_telegram_bot.Cart
use goldy_telegram_bot.UserCommands
use goldy_telegram_bot.UserCommands.Handled.{handle-Permitted}
use goldy_telegram_bot.UserCommands.Admins.{is_admin_in, admins_stay}
use goldy_telegram_bot.UserCommands.Permitted.{Permitted}
use goldy_telegram_bot.UserCommands.Dispatch.{UserCommand}
use goldy_telegram_bot.OrderCommands.Life.{Lives, orders_live}
use goldy_telegram_bot.OrderCommands.Permitted.{handle-Passed, Passed}
use goldy_telegram_bot.OrderCommands.Dispatch.{OrderCommand, withdraw, move}
use goldy_telegram_bot.CartCommands.Pruning.{available, remove_unavailable_done}
use goldy_telegram_bot.CartCommands.Isolation.{handle_isolated}
use goldy_telegram_bot.CartCommands.Provider.{start_lem, OthersKept, Quiet}
use goldy_telegram_bot.CartCommands.Dispatch.{CartCommand}
use goldy_telegram_bot.CartCommands.{start, remove_unavailable_cart_lines, Catalog, Minted}
use goldy_telegram_bot.OrderValues.{OrderStatus}
use goldy_telegram_bot.UserValues.{UserRole, ExternalAccountId}
use goldy_telegram_bot.Text.{text, same}
use goldy_telegram_bot.Result.{Error, authorization, ok, err}
use goldy_telegram_bot.Cart.{Cart}
use goldy_telegram_bot.UserCommands.{change_user_role}
use goldy_telegram_bot.Request.{
  find_by, cart_by_user_id, set_carts, get_current_user_id, require_user, current_user,
}
use goldy_telegram_bot.Access.{
  authorize, subordinate_roles, can_manage_subordinate, can_manage_role,
}
use goldy_telegram_bot.Prelude.{
  ◌≡◌, refl, ◌⊎◌, true, Option, none, some, List, [], ◌∷◌, ◌++◌, arith,
}

abbrev minted : Minted
minted = record { id = 8; created_at = morning; updated_at = morning }

abbrev rival : Cart
rival = record (basket.entity) { id = 9; user_id = 42 }

-- Another request inserts a cart of the same person first.
start_lem_example :
    start (λ carts. carts ++ rival ∷ []) minted 42 shop
    ≡ (ok rival, set_carts (basket.entity ∷ rival ∷ []) shop)
unfolding find_by
start_lem_example = start_lem (λ carts. carts ++ rival ∷ []) minted 42 shop refl tt

abbrev bread_only : Catalog
bread_only = record {
  product_exists = λ p. true;
  read_existing_product_ids = λ products. bread ∷ [];
}

abbrev quiet : Quiet (λ carts. carts) minted 41 shop
unfolding find_by
quiet = record {
  kept = λ other differs. refl;
  distinct = ((refl, tt), (tt, tt));
  forward = refl;
  unannounced = tt;
}

handle_isolated_example :
    OthersKept 41 shop
      (OnCarts.handle bread_only
        (λ carts. carts)
        minted
        by_anna
        (CartCommand.remove (text "milk") evening)
        shop).1
unfolding get_current_user_id find_by same
handle_isolated_example =
    handle_isolated bread_only (λ carts. carts) minted by_anna 41 shop
      (CartCommand.remove (text "milk") evening) refl (tt, tt) quiet

basket_lines : IsLines basket.entity.lines
unfolding Cart.line_for same
basket_lines = ground arith

remove_unavailable_done_example :
    (after : Cart) × (cart_by_user_id 41
        (remove_unavailable_cart_lines bread_only by_anna evening shop).1.tables.carts
      ≡ some after)
    × (after.lines ≡ line_of bread 2 ∷ [])
    × ((remove_unavailable_cart_lines bread_only by_anna evening shop).0
        ≡ ok (CartCommands.to_view none after))
unfolding get_current_user_id find_by same available Cart.line_for
remove_unavailable_done_example =
    remove_unavailable_done bread_only by_anna 41 evening shop basket.entity refl (tt, tt) refl
      basket_lines

-- A manager makes nobody a manager.
refused_role : (change_user_role by_boss 41 UserRole.manager evening shop).0 ≡ err authorization
unfolding change_user_role UserCommands.authorized current_user require_user get_current_user_id
    find_by same can_manage_subordinate can_manage_role subordinate_roles authorize
refused_role = refl

handle-Permitted_example :
    ((e : Error) × (OnPeople.handle by_boss (UserCommand.block 41 (text "spam") evening) shop
        ≡ (err e, shop)))
    ⊎ Permitted by_boss
        (UserCommand.block 41 (text "spam") evening)
        shop
        (OnPeople.handle by_boss (UserCommand.block 41 (text "spam") evening) shop).1
handle-Permitted_example =
    handle-Permitted by_boss shop (UserCommand.block 41 (text "spam") evening)

abbrev commands : List (Option ExternalAccountId × UserCommand)
commands =
    (by_boss, UserCommand.block 41 (text "spam") evening)
    ∷ (by_anna, UserCommand.change_role 42 UserRole.admin evening)
    ∷ []

admins_stay_example : is_admin_in 42 (OnPeople.handle_all commands shop) ≡ is_admin_in 42 shop
admins_stay_example = admins_stay commands 42 shop

handle-Passed_example :
    ((e : Error) × (OnOrders.handle by_boss (move 5 OrderStatus.confirmed none evening) shop
        ≡ (err e, shop)))
    ⊎ Passed by_boss
        (move 5 OrderStatus.confirmed none evening)
        shop
        (OnOrders.handle by_boss (move 5 OrderStatus.confirmed none evening) shop)
handle-Passed_example = handle-Passed by_boss shop (move 5 OrderStatus.confirmed none evening)

abbrev order_commands : List (Option ExternalAccountId × OrderCommand)
order_commands =
    (by_boss, move 5 OrderStatus.confirmed none evening) ∷ (by_anna, withdraw 5 evening) ∷ []

orders_live_example : Lives 5 placed.entity (OnOrders.handle_all order_commands shop)
unfolding find_by
orders_live_example = orders_live order_commands 5 placed.entity shop refl
