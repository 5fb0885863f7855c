-- ===== src/Order/Bounds.antt =====
-- How many moves of the status an order announces.
use goldy_telegram_bot.OrderValues.{
  OrderStatus, CancellationInitiator, CancellationReason, DeliveryAddress,
}
use goldy_telegram_bot.Time.{Datetime}
use goldy_telegram_bot.Event.{Event, Session, order_status_changed, order_delivery_address_changed}
use goldy_telegram_bot.Prelude.{ℕ, ◌+◌, ◌≤◌, ◌≡◌, Option, none, List, [], ◌∷◌, ◌++◌, arith}
use goldy_telegram_bot.Order.{reason_text, change_status, cancel, change_delivery_address, Order}
use goldy_telegram_bot.Order.Moves.{
  Move, accept, dispatch, hand_over, stop, readdress, carry_out, run, moves_told, remaining,
}

moves_told-append :
    (xs : List Event) (e : Event) → moves_told (xs ++ e ∷ []) ≡ moves_told xs + moves_told (e ∷ [])
unfolding moves_told
moves_told-append [] e = omega arith
moves_told-append (x ∷ xs) e = omega (arith, moves_told-append xs e)

change_status_budget :
    (status : OrderStatus) (reason : Option CancellationReason) (now : Datetime) (s : Session Order)
    → moves_told (change_status status reason now s).1.events
        + remaining (change_status status reason now s).1.entity.status
      ≤ moves_told s.events + remaining s.entity.status
unfolding change_status moves_told
change_status_budget status reason now s = ground (
  arith,
  moves_told-append s.events (
      order_status_changed s.entity.id s.entity.number.value s.entity.customer_id s.entity.status
        status (reason_text reason)),
)

stop_budget :
    (by : CancellationInitiator) (user : ℕ) (reason : Option CancellationReason) (now : Datetime)
    (s : Session Order)
    → moves_told (cancel by user reason now s).1.events
        + remaining (cancel by user reason now s).1.entity.status
      ≤ moves_told s.events + remaining s.entity.status
unfolding cancel moves_told
stop_budget by user reason now s = ground (
  arith,
  moves_told-append s.events (
      order_status_changed s.entity.id s.entity.number.value s.entity.customer_id s.entity.status
        OrderStatus.cancelled (reason_text reason)),
)

readdress_budget :
    (address : DeliveryAddress) (now : Datetime) (s : Session Order)
    → moves_told (change_delivery_address address now s).1.events
        + remaining (change_delivery_address address now s).1.entity.status
      ≤ moves_told s.events + remaining s.entity.status
unfolding change_delivery_address moves_told
readdress_budget address now s = ground (
  arith,
  moves_told-append s.events (
      order_delivery_address_changed s.entity.id s.entity.number.value s.entity.customer_id
        s.entity.delivery_address.value address.value),
)

carry_out_budget :
    (m : Move) (s : Session Order)
    → moves_told (carry_out m s).1.events + remaining (carry_out m s).1.entity.status
      ≤ moves_told s.events + remaining s.entity.status
unfolding carry_out
carry_out_budget (accept now) s = change_status_budget OrderStatus.confirmed none now s
carry_out_budget (dispatch now) s = change_status_budget OrderStatus.shipped none now s
carry_out_budget (hand_over now) s = change_status_budget OrderStatus.completed none now s
carry_out_budget (stop by user reason now) s = stop_budget by user reason now s
carry_out_budget (readdress address now) s = readdress_budget address now s

run_budget :
    (ms : List Move) (s : Session Order)
    → moves_told (run ms s).events + remaining (run ms s).entity.status
      ≤ moves_told s.events + remaining s.entity.status
unfolding run
run_budget [] s = omega arith
run_budget (m ∷ ms) s = omega (arith, run_budget ms (carry_out m s).1, carry_out_budget m s)

-- However many moves are tried on an order, the announcements of a new status grow by no more than
-- the stages that were left: three for a new order, none for a finished one.
pub run_announces_few :
    (ms : List Move) (s : Session Order)
    → moves_told (run ms s).events ≤ moves_told s.events + remaining s.entity.status
run_announces_few ms s = omega (arith, run_budget ms s)
