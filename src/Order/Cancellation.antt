-- ===== src/Order/Cancellation.antt =====
-- The record of a cancellation beside the status.
use goldy_telegram_bot.OrderValues.{
  OrderStatus, CancellationInitiator, CancellationReason, DeliveryAddress,
}
use goldy_telegram_bot.Time.{Datetime}
use goldy_telegram_bot.Event.{Session}
use goldy_telegram_bot.Prelude.{ℕ, ◌≡◌, refl, ◌≢◌, Option, none, some, List, [], ◌∷◌, arith}
use goldy_telegram_bot.Order.{change_status, cancel, change_delivery_address, Order}
use goldy_telegram_bot.Order.Moves.{
  Move, accept, dispatch, hand_over, stop, readdress, carry_out, run,
}

-- Who stopped an order, and why, is on record exactly for a cancelled order; a manager's reason is
-- always there.
abbrev Recorded :
    OrderStatus → Option CancellationInitiator → Option ℕ → Option CancellationReason → Type 0
Recorded OrderStatus.cancelled (some CancellationInitiator.customer) (some user) reason = Unit
Recorded OrderStatus.cancelled (some CancellationInitiator.manager) (some user) (some reason) = Unit
Recorded OrderStatus.cancelled by user reason = ⊥
Recorded status by user reason = (by ≡ none) × (user ≡ none) × (reason ≡ none)

abbrev pub IsRecorded : Order → Type 0
IsRecorded o = Recorded o.status o.cancelled_by o.cancelled_by_user_id o.cancellation_reason

-- A move of the status to another stage than the last.
advance-IsRecorded :
    (status : OrderStatus) (now : Datetime) (s : Session Order)
    → status ≢ OrderStatus.cancelled
    → IsRecorded s.entity
    → IsRecorded (change_status status none now s).1.entity
unfolding change_status
advance-IsRecorded OrderStatus.new now s ne h = ground arith
advance-IsRecorded OrderStatus.confirmed now s ne h = ground arith
advance-IsRecorded OrderStatus.shipped now s ne h = ground arith
advance-IsRecorded OrderStatus.completed now s ne h = ground arith
advance-IsRecorded OrderStatus.cancelled now s ne h = absurd (ne refl)

stop-IsRecorded :
    (by : CancellationInitiator) (user : ℕ) (reason : Option CancellationReason) (now : Datetime)
    (s : Session Order)
    → IsRecorded s.entity
    → IsRecorded (cancel by user reason now s).1.entity
unfolding cancel
stop-IsRecorded CancellationInitiator.customer user reason now s h = ground arith
stop-IsRecorded CancellationInitiator.manager user none now s h = ground arith
stop-IsRecorded CancellationInitiator.manager user (some reason) now s h = ground arith

readdress-IsRecorded :
    (address : DeliveryAddress) (now : Datetime) (s : Session Order)
    → IsRecorded s.entity
    → IsRecorded (change_delivery_address address now s).1.entity
unfolding change_delivery_address
readdress-IsRecorded address now s h = ground arith

carry_out-IsRecorded :
    (m : Move) (s : Session Order) → IsRecorded s.entity → IsRecorded (carry_out m s).1.entity
unfolding carry_out
carry_out-IsRecorded (accept now) s h = advance-IsRecorded OrderStatus.confirmed now s (λ e. cc) h
carry_out-IsRecorded (dispatch now) s h = advance-IsRecorded OrderStatus.shipped now s (λ e. cc) h
carry_out-IsRecorded (hand_over now) s h =
    advance-IsRecorded OrderStatus.completed now s (λ e. cc) h
carry_out-IsRecorded (stop by user reason now) s h = stop-IsRecorded by user reason now s h
carry_out-IsRecorded (readdress address now) s h = readdress-IsRecorded address now s h

-- If the record of an order agrees with its status, it does so whatever moves are tried: who
-- cancelled is on record exactly for a cancelled order, together with the reason of a manager.
pub run-IsRecorded :
    (ms : List Move) (s : Session Order) → IsRecorded s.entity → IsRecorded (run ms s).entity
unfolding run
run-IsRecorded [] s h = h
run-IsRecorded (m ∷ ms) s h = run-IsRecorded ms (carry_out m s).1 (carry_out-IsRecorded m s h)
