-- ===== src/OrderCommands/Dispatch.antt =====
-- The handlers of application/commands/orders for placed orders as the registry of
-- setup/ioc/providers binds them to their commands.
use goldy_telegram_bot.Exec.{Exec}
use goldy_telegram_bot.OrderValues.{OrderStatus}
use goldy_telegram_bot.Time.{Datetime}
use goldy_telegram_bot.UserValues.{ExternalAccountId}
use goldy_telegram_bot.Text.{Text}
use goldy_telegram_bot.Request.{Work}
use goldy_telegram_bot.OrderCommands.{cancel_order, change_delivery_address, change_order_status}
use goldy_telegram_bot.Prelude.{Option, List, [], ◌∷◌, ℕ}

-- A command on the order with this id, with the reading of the clock that its method makes.
pub data OrderCommand : Type 0 where
  withdraw : ℕ → Datetime → OrderCommand
  redirect : ℕ → Text → Datetime → OrderCommand
  move : ℕ → OrderStatus → Option Text → Datetime → OrderCommand

unfoldable pub handle : Option ExternalAccountId → OrderCommand → Exec Work Unit
unfolding cancel_order change_delivery_address change_order_status
handle caller (withdraw id now) = cancel_order caller id now
handle caller (redirect id address now) = change_delivery_address caller id address now
handle caller (move id status reason now) = change_order_status caller id status reason now

-- The commands one after another, each with the account that sends it.
unfoldable pub handle_all : List (Option ExternalAccountId × OrderCommand) → Work → Work
unfolding handle
handle_all [] w = w
handle_all ((caller, c) ∷ commands) w = handle_all commands (handle caller c w).1
