-- ===== src/Order/Moves.antt =====
-- The life of an order, told apart from the tables and the methods that implement it.
use goldy_telegram_bot.Exec.{Exec}
use goldy_telegram_bot.Time.{Datetime}
use goldy_telegram_bot.Result.{
  Result, order_status_transition, order_not_editable, customer_cannot_cancel_processed_order,
  cancellation_reason_required, ok, err,
}
use goldy_telegram_bot.Event.{Event, Session, order_status_changed}
use goldy_telegram_bot.Prelude.{ℕ, ◌+◌, Bool, true, false, Option, none, some, List, [], ◌∷◌}
use goldy_telegram_bot.OrderValues.{
  OrderStatus, CancellationInitiator, CancellationReason, DeliveryAddress,
}
use goldy_telegram_bot.Order.{Order, confirm, ship, complete, cancel, change_delivery_address}

-- The calls that change an order, with the reading of the clock that each makes.
pub data Move : Type 0 where
  accept dispatch hand_over : Datetime → Move
  stop : CancellationInitiator → ℕ → Option CancellationReason → Datetime → Move
  readdress : DeliveryAddress → Datetime → Move

unfoldable pub carry_out : Move → Exec (Session Order) Unit
unfolding confirm ship complete cancel change_delivery_address
carry_out (accept now) = confirm now
carry_out (dispatch now) = ship now
carry_out (hand_over now) = complete now
carry_out (stop initiated_by user reason now) = cancel initiated_by user reason now
carry_out (readdress address now) = change_delivery_address address now

-- The moves one after another, each refused or made.
unfoldable pub run : List Move → Session Order → Session Order
run [] s = s
run (m ∷ ms) s = run ms (carry_out m s).1

-- The stages that goods pass, and the stages at which they can be stopped.
pub data Step : OrderStatus → OrderStatus → Type 0 where
  is_confirmed : Step OrderStatus.new OrderStatus.confirmed
  is_shipped : Step OrderStatus.confirmed OrderStatus.shipped
  is_completed : Step OrderStatus.shipped OrderStatus.completed
  stops_new : Step OrderStatus.new OrderStatus.cancelled
  stops_confirmed : Step OrderStatus.confirmed OrderStatus.cancelled
  stops_shipped : Step OrderStatus.shipped OrderStatus.cancelled

pub data Reach (a : OrderStatus) : OrderStatus → Type 0 where
  here : Reach a a
  next : {b c : OrderStatus} → Reach a b → Step b c → Reach a c

-- The most moves of the status that can still follow.
abbrev pub remaining : OrderStatus → ℕ
remaining OrderStatus.new = 3
remaining OrderStatus.confirmed = 2
remaining OrderStatus.shipped = 1
remaining _ = 0

-- How often a list of events tells of a move of the status.
abbrev tells_of_move : Event → ℕ
tells_of_move (order_status_changed order_id number customer old status reason) = 1
tells_of_move _ = 0

unfoldable pub moves_told : List Event → ℕ
moves_told [] = 0
moves_told (e ∷ es) = tells_of_move e + moves_told es

-- Whether a customer, or a manager with a reason or without, may stop an order at a stage; and the
-- error if not.
abbrev pub stop_outcome : CancellationInitiator → Bool → OrderStatus → Result (Unit {0})
stop_outcome CancellationInitiator.customer reasoned OrderStatus.new = ok tt
stop_outcome CancellationInitiator.customer reasoned OrderStatus.confirmed = ok tt
stop_outcome CancellationInitiator.customer reasoned status =
    err customer_cannot_cancel_processed_order
stop_outcome CancellationInitiator.manager false status = err cancellation_reason_required
stop_outcome CancellationInitiator.manager true OrderStatus.completed = err order_status_transition
stop_outcome CancellationInitiator.manager true OrderStatus.cancelled = err order_status_transition
stop_outcome CancellationInitiator.manager true status = ok tt

abbrev pub outcome : Move → OrderStatus → Result (Unit {0})
outcome (accept now) OrderStatus.new = ok tt
outcome (accept now) status = err order_status_transition
outcome (dispatch now) OrderStatus.confirmed = ok tt
outcome (dispatch now) status = err order_status_transition
outcome (hand_over now) OrderStatus.shipped = ok tt
outcome (hand_over now) status = err order_status_transition
outcome (stop initiated_by user none now) status = stop_outcome initiated_by false status
outcome (stop initiated_by user (some reason) now) status = stop_outcome initiated_by true status
outcome (readdress address now) OrderStatus.new = ok tt
outcome (readdress address now) OrderStatus.confirmed = ok tt
outcome (readdress address now) status = err order_not_editable
