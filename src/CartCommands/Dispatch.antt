-- ===== src/CartCommands/Dispatch.antt =====
-- The handlers of application/commands/carts as the registry of setup/ioc/providers binds them to
-- their commands.
use goldy_telegram_bot.Exec.{Exec}
use goldy_telegram_bot.CartCommands.{
  add_to_cart, set_cart_line_quantity, decrease_cart_line, remove_cart_line, clear_cart,
  remove_unavailable_cart_lines, Catalog, Minted, CartSummaryView,
}
use goldy_telegram_bot.Time.{Datetime}
use goldy_telegram_bot.UserValues.{ExternalAccountId}
use goldy_telegram_bot.Text.{Text}
use goldy_telegram_bot.Cart.{Cart}
use goldy_telegram_bot.Request.{Work}
use goldy_telegram_bot.Prelude.Int.{ℤ}
use goldy_telegram_bot.Prelude.{Option, List}

-- A command on the caller's cart, with the readings of the clock that its handler makes.
pub data CartCommand : Type 0 where
  add : Text → ℤ → Datetime → Datetime → CartCommand
  set_quantity : Text → ℤ → Datetime → CartCommand
  decrease : Text → Datetime → CartCommand
  remove : Text → Datetime → CartCommand
  empty : Datetime → CartCommand
  remove_unavailable : Datetime → CartCommand

module _ (catalog : Catalog) (others : List Cart → List Cart) (minted : Minted) where
  unfoldable pub handle : Option ExternalAccountId → CartCommand → Exec Work CartSummaryView
  unfolding add_to_cart set_cart_line_quantity decrease_cart_line remove_cart_line clear_cart
      remove_unavailable_cart_lines
  handle caller (add product quantity added_at now) =
      add_to_cart catalog others minted caller product quantity added_at now
  handle caller (set_quantity product quantity now) =
      set_cart_line_quantity caller product quantity now
  handle caller (decrease product now) = decrease_cart_line caller product now
  handle caller (remove product now) = remove_cart_line caller product now
  handle caller (empty now) = clear_cart caller now
  handle caller (remove_unavailable now) = remove_unavailable_cart_lines catalog caller now
