-- ===== src/OrderCommands.antt =====
-- application/commands/orders, without the placing of orders: the commands on a placed order.
use goldy_telegram_bot.OrderStatus
use goldy_telegram_bot.Order
use goldy_telegram_bot.OrderValues.{
  make_cancellation_reason, make_delivery_address, OrderStatus, CancellationInitiator,
  CancellationReason,
}
use goldy_telegram_bot.Order.{Order}
use goldy_telegram_bot.Time.{Datetime}
use goldy_telegram_bot.UserValues.{ExternalAccountId}
use goldy_telegram_bot.Text.{Text}
use goldy_telegram_bot.Result.{Result, order_status_transition, order_not_found, ok, err}
use goldy_telegram_bot.User.{User}
use goldy_telegram_bot.Request.{find_by, order_id, order_by_id, on_order, current_user, Work}
use goldy_telegram_bot.Access.{
  Permission, authorize, is_order_owner, can_manage_orders, OrderAccessContext,
}
pub mod Dispatch
pub mod Permitted
pub mod Life
use goldy_telegram_bot.Exec.{Exec, pure, lift, ◌>>◌, ◌>>=◌}
use goldy_telegram_bot.Prelude.{Option, none, some, ℕ}

-- `order_command_gateway.by_id`, and the error for a missing order
unfoldable pub require_order : ℕ → Exec Work Order
unfolding find_by
require_order id w = elim (order_by_id id w.tables.orders) [
  | none ↦ (err order_not_found, w)
  | some order ↦ (ok order, w)
]

-- What every handler begins with: the caller, the order that the command names, and the permission.
unfoldable pub authorized :
    Option ExternalAccountId → ℕ → Permission OrderAccessContext → Exec Work (User × Order)
unfolding current_user require_order authorize
authorized caller order_id permission = do
  subject ← current_user caller
  order ← require_order order_id
  lift (authorize permission (record { subject = subject; order_customer_id = order.customer_id }))
  pure (subject, order)

-- `CancelOrderHandler.handle`
unfoldable pub cancel_order : Option ExternalAccountId → ℕ → Datetime → Exec Work Unit
unfolding authorized is_order_owner
cancel_order caller order_id now = do
  (customer, order) ← authorized caller order_id is_order_owner
  on_order (Order.cancel CancellationInitiator.customer customer.id none now) order

-- `ChangeDeliveryAddressHandler.handle`
unfoldable pub change_delivery_address :
    Option ExternalAccountId → ℕ → Text → Datetime → Exec Work Unit
unfolding authorized is_order_owner
change_delivery_address caller order_id delivery_address now = do
  (customer, order) ← authorized caller order_id is_order_owner
  address ← lift (make_delivery_address delivery_address)
  on_order (Order.change_delivery_address address now) order

-- The reason of `CancelAsStaff.apply`
abbrev pub optional_reason : Option Text → Result (Option CancellationReason)
optional_reason none = ok none
optional_reason (some reason) = elim (make_cancellation_reason reason) [
  | ok r ↦ ok (some r)
  | err e ↦ err e
]

-- `OrderMove.apply` of the strategies in `MOVES`, and the refusal of `NEW`, which has none
unfoldable pub apply_move : OrderStatus → Order → User → Option Text → Datetime → Exec Work Unit
apply_move OrderStatus.new order actor reason now = lift (err order_status_transition)
apply_move OrderStatus.confirmed order actor reason now = on_order (Order.confirm now) order
apply_move OrderStatus.shipped order actor reason now = on_order (Order.ship now) order
apply_move OrderStatus.completed order actor reason now = on_order (Order.complete now) order
apply_move OrderStatus.cancelled order actor reason now = do
  r ← lift (optional_reason reason)
  on_order (Order.cancel CancellationInitiator.manager actor.id r now) order

-- `ChangeOrderStatusHandler.handle`
unfoldable pub change_order_status :
    Option ExternalAccountId → ℕ → OrderStatus → Option Text → Datetime → Exec Work Unit
unfolding authorized can_manage_orders apply_move
change_order_status caller order_id status reason now = do
  (subject, order) ← authorized caller order_id can_manage_orders
  apply_move status order subject reason now
