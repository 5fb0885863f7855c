-- ===== src/Tests/Orders.antt =====
-- Runs of an order.
use goldy_telegram_bot.Order.Announcements.{carry_out_announces}
use goldy_telegram_bot.Order.Totals.{total_of-Settles}
use goldy_telegram_bot.Order.Lifecycle.{carry_out-outcome, carry_out_refused, run-Reach}
use goldy_telegram_bot.Order.Cancellation.{IsRecorded, run-IsRecorded}
use goldy_telegram_bot.Money.Arithmetic.{Settles}
use goldy_telegram_bot.OrderValues.{OrderStatus, CancellationInitiator}
use goldy_telegram_bot.Money.{Currency}
use goldy_telegram_bot.Text.{text, same}
use goldy_telegram_bot.Decimal.{shift}
use goldy_telegram_bot.Result.{
  customer_cannot_cancel_processed_order, cancellation_reason_required, err,
}
use goldy_telegram_bot.Event.{Session, order_status_changed}
use goldy_telegram_bot.Tests.{
  evening, bread, milk, rubles, ninety, elsewhere, order_line_of, placed, out_of_stock,
}
use goldy_telegram_bot.Order.Moves.{Move, Reach, accept, hand_over, stop, readdress, carry_out, run}
use goldy_telegram_bot.OrderStatus.{allowed_order_transitions}
use goldy_telegram_bot.Order.{Order, total_of}
use goldy_telegram_bot.Prelude.{arith, ◌≡◌, ◌∷◌, refl, [], List, none, some}

-- A new address, the confirmation, a customer who changes their mind, and a call too many.
abbrev moves : List Move
moves =
    readdress elsewhere evening
    ∷ accept evening
    ∷ stop CancellationInitiator.customer 41 none evening
    ∷ hand_over evening
    ∷ []

after_moves : (run moves placed).entity.status ≡ OrderStatus.cancelled
unfolding run carry_out allowed_order_transitions same
after_moves = refl

abbrev shipped : Session Order
shipped = record placed { entity = record (placed.entity) { status = OrderStatus.shipped } }

abbrev completed : Session Order
completed = record placed { entity = record (placed.entity) { status = OrderStatus.completed } }

carry_out-outcome_example :
    (carry_out (stop CancellationInitiator.customer 41 none evening) shipped).0
    ≡ err customer_cannot_cancel_processed_order
carry_out-outcome_example =
    carry_out-outcome (stop CancellationInitiator.customer 41 none evening) shipped

run-Reach_example : Reach OrderStatus.new (run moves placed).entity.status
run-Reach_example = run-Reach moves placed

carry_out_refused_example :
    (carry_out (stop CancellationInitiator.manager 3 none evening) placed).1 ≡ placed
unfolding carry_out
carry_out_refused_example =
    carry_out_refused (stop CancellationInitiator.manager 3 none evening) placed
      cancellation_reason_required refl

run-IsRecorded_example : IsRecorded (run moves placed).entity
run-IsRecorded_example = run-IsRecorded moves placed (refl, refl, refl)

carry_out_announces_example :
    (carry_out (stop CancellationInitiator.manager 3 (some out_of_stock) evening) shipped).1.events
    ≡ order_status_changed 5
        (text "250609-000005")
        41
        OrderStatus.shipped
        OrderStatus.cancelled
        (some (text "out of stock"))
      ∷ []
unfolding carry_out allowed_order_transitions
carry_out_announces_example =
    carry_out_announces (stop CancellationInitiator.manager 3 (some out_of_stock) evening) shipped
      refl

total_of-Settles_example : Settles (total_of placed.entity.lines) 11500 Currency.rub
unfolding shift
total_of-Settles_example =
    total_of-Settles Currency.rub (order_line_of 1 bread (rubles 1250) 2)
      (order_line_of 2 milk ninety 1 ∷ [])
      (((refl, omega arith, omega arith), refl), (((refl, omega arith, omega arith), refl), tt))
