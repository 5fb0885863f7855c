-- ===== src/Order/Announcements.antt =====
-- The events that the moves of an order record.
use goldy_telegram_bot.OrderValues.{
  OrderStatus, CancellationInitiator, CancellationReason, DeliveryAddress,
}
use goldy_telegram_bot.Time.{before, Datetime}
use goldy_telegram_bot.Text.{Text, same, same_refl}
use goldy_telegram_bot.Result.{ok}
use goldy_telegram_bot.Event.{Event, Session, order_status_changed, order_delivery_address_changed}
use goldy_telegram_bot.Prelude.{ℕ, ◌≡◌, Option, none, List, [], ◌∷◌, ◌++◌, arith, if◌then◌else◌}
use mathlib.Core.List.{append-nil}
use goldy_telegram_bot.Order.{reason_text, change_status, cancel, change_delivery_address, Order}
use goldy_telegram_bot.Order.Moves.{Move, accept, dispatch, hand_over, stop, readdress, carry_out}

-- The announcement of a change of the status between two states of an order.
abbrev status_event : Order → Order → Option Text → Event
status_event before after reason =
    order_status_changed before.id before.number.value before.customer_id before.status after.status
      reason

abbrev address_event : Order → Order → List Event
address_event before after =
    if same after.delivery_address.value before.delivery_address.value
    then []
    else order_delivery_address_changed before.id before.number.value before.customer_id
        before.delivery_address.value after.delivery_address.value
      ∷ []

abbrev pub announcement : Move → Order → Order → List Event
announcement (accept now) before after = status_event before after none ∷ []
announcement (dispatch now) before after = status_event before after none ∷ []
announcement (hand_over now) before after = status_event before after none ∷ []
announcement (stop by user reason now) before after =
    status_event before after (reason_text after.cancellation_reason) ∷ []
announcement (readdress address now) before after = address_event before after

change_status_announces :
    (status : OrderStatus) (reason : Option CancellationReason) (now : Datetime) (s : Session Order)
    → (change_status status reason now s).0 ≡ ok tt
    → (change_status status reason now s).1.events
      ≡ s.events
        ++ status_event s.entity (change_status status reason now s).1.entity (reason_text reason)
          ∷ []
unfolding change_status
change_status_announces status reason now s h = ground arith

stop_announces :
    (by : CancellationInitiator) (user : ℕ) (reason : Option CancellationReason) (now : Datetime)
    (s : Session Order)
    → (cancel by user reason now s).0 ≡ ok tt
    → (cancel by user reason now s).1.events
      ≡ s.events
        ++ announcement (stop by user reason now) s.entity (cancel by user reason now s).1.entity
unfolding cancel
stop_announces by user reason now s h = ground arith

readdress_announces :
    (address : DeliveryAddress) (now : Datetime) (s : Session Order)
    → (change_delivery_address address now s).0 ≡ ok tt
    → (change_delivery_address address now s).1.events
      ≡ s.events ++ address_event s.entity (change_delivery_address address now s).1.entity
unfolding change_delivery_address
readdress_announces address now s h =
    ground (arith, append-nil s.events, same_refl s.entity.delivery_address.value)

-- A move that is made records one event with the status, or the address, before and after; a new
-- address that equals the old one records none.
pub carry_out_announces :
    (m : Move) (s : Session Order)
    → (carry_out m s).0 ≡ ok tt
    → (carry_out m s).1.events ≡ s.events ++ announcement m s.entity (carry_out m s).1.entity
unfolding carry_out
carry_out_announces (accept now) s h = change_status_announces OrderStatus.confirmed none now s h
carry_out_announces (dispatch now) s h = change_status_announces OrderStatus.shipped none now s h
carry_out_announces (hand_over now) s h = change_status_announces OrderStatus.completed none now s h
carry_out_announces (stop by user reason now) s h = stop_announces by user reason now s h
carry_out_announces (readdress address now) s h = readdress_announces address now s h
