-- ===== src/Order.antt =====
-- domain/orders/entities: an order and its lines, and domain/orders/placement.py. A session holds
-- the order and the events of the request.
use goldy_telegram_bot.OrderStatus
mod Lines
unfoldable pub use Lines.{add_lines, total_of}
pub use Lines.{OrderLine, line_total, single_currency}
pub mod Moves
pub mod Lifecycle
pub mod Placing
pub mod Totals
pub mod Cancellation
pub mod Announcements
pub mod Bounds
pub mod Frozen
use goldy_telegram_bot.OrderNumber
use goldy_telegram_bot.OrderStatus.{
  is_in, allowed_order_transitions, customer_cancellable_statuses, editable_order_statuses,
  terminal_order_statuses,
}
use goldy_telegram_bot.Text.{Text, same}
use goldy_telegram_bot.Event.{
  add_event, Event, Session, order_placed, order_status_changed, order_delivery_address_changed,
}
use goldy_telegram_bot.Exec.{raise_if, Exec, pure, lift, gets, modify, ◌>>◌, ◌>>=◌}
use goldy_telegram_bot.Time.{Datetime}
use goldy_telegram_bot.Result.{
  currency_mismatch, order_status_transition, empty_order, order_not_editable,
  customer_cannot_cancel_processed_order, cancellation_reason_required, err, Result, ok, err,
}
use goldy_telegram_bot.Prelude.{
  false, ◌&&◌, not, none, some, ◌++◌, if◌then◌else◌, length, is_nil, ℕ, Bool, true, Option, List,
  [], ◌∷◌, all,
}
use goldy_telegram_bot.OrderValues.{
  OrderStatus, CancellationInitiator, CancellationReason, OrderComment, DeliveryAddress, Recipient,
}
use goldy_telegram_bot.OrderNumber.{OrderNumber}
use goldy_telegram_bot.Quantity.{Quantity}
use goldy_telegram_bot.Money
use goldy_telegram_bot.Money.{Money, Currency, same_currency}
use goldy_telegram_bot.Catalog.{ProductId, PriceTypeId, Sku, ProductName, UnitOfMeasure}

-- What `Order.place` is handed.
pub record Placement : Type 0 where
  pub customer_id : ℕ
  pub lines : List OrderLine
  pub delivery_address : DeliveryAddress
  pub recipient : Recipient
  pub comment : Option OrderComment
  pub price_type_id : PriceTypeId

pub record Order : Type 0 where
  pub id : ℕ
  pub created_at : Datetime
  pub updated_at : Datetime
  pub number : OrderNumber
  pub customer_id : ℕ
  pub delivery_address : DeliveryAddress
  pub recipient : Recipient
  pub price_type_id : PriceTypeId
  pub status : OrderStatus
  pub lines : List OrderLine
  pub comment : Option OrderComment
  pub cancellation_reason : Option CancellationReason
  pub cancelled_by : Option CancellationInitiator
  pub cancelled_by_user_id : Option ℕ

-- The new order that `Order.place` constructs; both its moments are the moment of placement.
abbrev pub new_order : ℕ → OrderNumber → Placement → Datetime → Order
new_order order_id number placement placed_at = record {
  id = order_id;
  created_at = placed_at;
  updated_at = placed_at;
  number = number;
  customer_id = placement.customer_id;
  delivery_address = placement.delivery_address;
  recipient = placement.recipient;
  price_type_id = placement.price_type_id;
  status = OrderStatus.new;
  lines = placement.lines;
  comment = placement.comment;
  cancellation_reason = none;
  cancelled_by = none;
  cancelled_by_user_id = none;
}

-- `Order.place`, on the events of the request.
unfoldable pub place : ℕ → Placement → Datetime → Exec (List Event) Order
place order_id placement placed_at = do
  raise_if (is_nil placement.lines) empty_order
  raise_if (not (single_currency placement.lines)) currency_mismatch
  number ← lift (OrderNumber.derive placed_at order_id)
  let order = new_order order_id number placement placed_at
  total ← lift (total_of order.lines)
  let event =
      order_placed order_id number.value placement.customer_id placement.price_type_id.value
        total.amount total.currency (length order.lines)
  modify (λ events. events ++ event ∷ [])
  pure order

-- `Order._transition_to`
unfoldable pub transition_to : OrderStatus → Datetime → Exec (Session Order) Unit
unfolding allowed_order_transitions
transition_to status now = do
  old ← gets (λ s. s.entity.status)
  raise_if (not (is_in status (allowed_order_transitions old))) order_status_transition
  modify (λ s. record s { entity = record (s.entity) { status = status; updated_at = now } })

abbrev pub reason_text : Option CancellationReason → Option Text
reason_text none = none
reason_text (some reason) = some reason.value

-- `Order._change_status`
unfoldable pub change_status :
    OrderStatus → Option CancellationReason → Datetime → Exec (Session Order) Unit
unfolding transition_to
change_status status reason now = do
  old ← gets (λ s. s.entity.status)
  transition_to status now
  modify (λ s.
      add_event
        (order_status_changed s.entity.id s.entity.number.value s.entity.customer_id old status
          (reason_text reason))
        s)

unfoldable pub confirm : Datetime → Exec (Session Order) Unit
unfolding change_status
confirm = change_status OrderStatus.confirmed none

unfoldable pub ship : Datetime → Exec (Session Order) Unit
unfolding change_status
ship = change_status OrderStatus.shipped none

unfoldable pub complete : Datetime → Exec (Session Order) Unit
unfolding change_status
complete = change_status OrderStatus.completed none

abbrev pub is_customer : CancellationInitiator → Bool
is_customer CancellationInitiator.customer = true
is_customer CancellationInitiator.manager = false

abbrev pub is_missing : Option CancellationReason → Bool
is_missing none = true
is_missing (some reason) = false

unfoldable pub cancel :
    CancellationInitiator → ℕ → Option CancellationReason → Datetime → Exec (Session Order) Unit
unfolding change_status
cancel initiated_by cancelled_by_user_id reason now = do
  status ← gets (λ s. s.entity.status)
  raise_if (is_customer initiated_by && not (is_in status customer_cancellable_statuses))
      customer_cannot_cancel_processed_order
  raise_if (not (is_customer initiated_by) && is_missing reason) cancellation_reason_required
  change_status OrderStatus.cancelled reason now
  modify (λ s. record s {
    entity = record (s.entity) {
      cancelled_by = some initiated_by;
      cancelled_by_user_id = some cancelled_by_user_id;
      cancellation_reason = reason;
    };
  })

unfoldable pub change_delivery_address : DeliveryAddress → Datetime → Exec (Session Order) Unit
change_delivery_address address now s =
    (do
      raise_if (not (is_in s.entity.status editable_order_statuses)) order_not_editable
      if same address.value s.entity.delivery_address.value then pure tt else do
        let old = s.entity.delivery_address
        modify (λ t. record t {
          entity = record (t.entity) { delivery_address = address; updated_at = now };
        })
        modify (λ t.
            add_event
              (order_delivery_address_changed t.entity.id t.entity.number.value t.entity.customer_id
                old.value address.value)
              t))
      s

-- `Order.is_terminal` and `Order.can_customer_cancel`
abbrev pub is_terminal : Order → Bool
is_terminal order = is_in order.status terminal_order_statuses

abbrev pub can_customer_cancel : Order → Bool
can_customer_cancel order = is_in order.status customer_cancellable_statuses
