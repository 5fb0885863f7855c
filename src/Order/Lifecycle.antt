-- ===== src/Order/Lifecycle.antt =====
-- The moves of an order beside its stages.
use goldy_telegram_bot.OrderStatus.{is_in, terminal_order_statuses}
use goldy_telegram_bot.Time.{Datetime}
use goldy_telegram_bot.Result.{is_ok, Error, Result, ok, err}
use goldy_telegram_bot.Event.{Session}
use goldy_telegram_bot.Prelude.{
  ℕ, Option, sym, ◌∙◌, Bool, true, false, List, [], ◌∷◌, ◌≡◌, refl, ◌⊎◌, inl, inr, none, some,
  arith,
}
use goldy_telegram_bot.OrderValues.{
  CancellationReason, DeliveryAddress, OrderStatus, CancellationInitiator,
}
use goldy_telegram_bot.Order.{change_status, cancel, change_delivery_address, is_terminal, Order}
use goldy_telegram_bot.Order.Moves.{
  run, stop_outcome, Step, Reach, is_confirmed, is_shipped, is_completed, stops_new,
  stops_confirmed, stops_shipped, here, next, Move, accept, dispatch, hand_over, stop, readdress,
  carry_out, outcome,
}

status_cases :
    (a : OrderStatus)
    → (a ≡ OrderStatus.new)
      ⊎ ((a ≡ OrderStatus.confirmed)
          ⊎ ((a ≡ OrderStatus.shipped)
              ⊎ ((a ≡ OrderStatus.completed) ⊎ (a ≡ OrderStatus.cancelled))))
status_cases OrderStatus.new = inl refl
status_cases OrderStatus.confirmed = inr (inl refl)
status_cases OrderStatus.shipped = inr (inr (inl refl))
status_cases OrderStatus.completed = inr (inr (inr (inl refl)))
status_cases OrderStatus.cancelled = inr (inr (inr (inr refl)))

-- Whether a move of an order is refused, and with which error, is told by its stage: confirming,
-- shipping and completing need the stage right before; a customer may cancel until shipping, a
-- manager until completion and with a reason only; the address may change until shipping.
pub carry_out-outcome :
    (m : Move) (s : Session Order) → (carry_out m s).0 ≡ outcome m s.entity.status
unfolding carry_out
carry_out-outcome (accept now) s = ground (arith, status_cases s.entity.status)
carry_out-outcome (dispatch now) s = ground (arith, status_cases s.entity.status)
carry_out-outcome (hand_over now) s = ground (arith, status_cases s.entity.status)
carry_out-outcome (stop CancellationInitiator.customer user none now) s =
    ground (arith, status_cases s.entity.status)
carry_out-outcome (stop CancellationInitiator.customer user (some reason) now) s =
    ground (arith, status_cases s.entity.status)
carry_out-outcome (stop CancellationInitiator.manager user none now) s =
    ground (arith, status_cases s.entity.status)
carry_out-outcome (stop CancellationInitiator.manager user (some reason) now) s =
    ground (arith, status_cases s.entity.status)
carry_out-outcome (readdress address now) s = ground (arith, status_cases s.entity.status)

change_status_refused :
    (status : OrderStatus) (reason : Option CancellationReason) (now : Datetime) (s : Session Order)
    (e : Error)
    → (change_status status reason now s).0 ≡ err e
    → (change_status status reason now s).1 ≡ s
unfolding change_status
change_status_refused status reason now s e h = ground arith

stop_refused :
    (initiated_by : CancellationInitiator) (user : ℕ) (reason : Option CancellationReason)
    (now : Datetime) (s : Session Order) (e : Error)
    → (cancel initiated_by user reason now s).0 ≡ err e
    → (cancel initiated_by user reason now s).1 ≡ s
unfolding cancel
stop_refused CancellationInitiator.customer user reason now s e h = ground arith
stop_refused CancellationInitiator.manager user none now s e h = ground arith
stop_refused CancellationInitiator.manager user (some reason) now s e h = ground arith

readdress_refused :
    (address : DeliveryAddress) (now : Datetime) (s : Session Order) (e : Error)
    → (change_delivery_address address now s).0 ≡ err e
    → (change_delivery_address address now s).1 ≡ s
unfolding change_delivery_address
readdress_refused address now s e h = ground arith

-- A refused move leaves the order and the events alone.
pub carry_out_refused :
    (m : Move) (s : Session Order) (e : Error) → (carry_out m s).0 ≡ err e → (carry_out m s).1 ≡ s
unfolding carry_out
carry_out_refused (accept now) s = change_status_refused OrderStatus.confirmed none now s
carry_out_refused (dispatch now) s = change_status_refused OrderStatus.shipped none now s
carry_out_refused (hand_over now) s = change_status_refused OrderStatus.completed none now s
carry_out_refused (stop initiated_by user reason now) s =
    stop_refused initiated_by user reason now s
carry_out_refused (readdress address now) s = readdress_refused address now s

-- What a move makes of the status: nothing, or the next stage.
target : Move → OrderStatus → OrderStatus
target (accept now) status = OrderStatus.confirmed
target (dispatch now) status = OrderStatus.shipped
target (hand_over now) status = OrderStatus.completed
target (stop initiated_by user reason now) status = OrderStatus.cancelled
target (readdress address now) status = status

status-carry_out :
    (m : Move) (s : Session Order)
    → (carry_out m s).0 ≡ ok tt
    → (carry_out m s).1.entity.status ≡ target m s.entity.status
unfolding carry_out target
status-carry_out (accept now) s h = ground arith
status-carry_out (dispatch now) s h = ground arith
status-carry_out (hand_over now) s h = ground arith
status-carry_out (stop initiated_by user reason now) s h = ground arith
status-carry_out (readdress address now) s h = ground arith

stop-Step :
    (a : OrderStatus) (by : CancellationInitiator) (reasoned : Bool)
    → stop_outcome by reasoned a ≡ ok tt
    → Step a OrderStatus.cancelled
stop-Step OrderStatus.new by reasoned h = stops_new
stop-Step OrderStatus.confirmed by reasoned h = stops_confirmed
stop-Step OrderStatus.shipped by reasoned h = stops_shipped
stop-Step OrderStatus.completed CancellationInitiator.customer reasoned h = cc
stop-Step OrderStatus.completed CancellationInitiator.manager true h = cc
stop-Step OrderStatus.completed CancellationInitiator.manager false h = cc
stop-Step OrderStatus.cancelled CancellationInitiator.customer reasoned h = cc
stop-Step OrderStatus.cancelled CancellationInitiator.manager true h = cc
stop-Step OrderStatus.cancelled CancellationInitiator.manager false h = cc

target-Reach : (m : Move) (a : OrderStatus) → outcome m a ≡ ok tt → Reach a (target m a)
unfolding target
target-Reach (accept now) OrderStatus.new h = next here is_confirmed
target-Reach (accept now) _ h = cc
target-Reach (dispatch now) OrderStatus.confirmed h = next here is_shipped
target-Reach (dispatch now) _ h = cc
target-Reach (hand_over now) OrderStatus.shipped h = next here is_completed
target-Reach (hand_over now) _ h = cc
target-Reach (stop initiated_by user none now) a h = next here (stop-Step a initiated_by false h)
target-Reach (stop initiated_by user (some reason) now) a h =
    next here (stop-Step a initiated_by true h)
target-Reach (readdress address now) a h = here

pub Reach-trans : {a b c : OrderStatus} → Reach a b → Reach b c → Reach a c
Reach-trans r here = r
Reach-trans r (next q st) = next (Reach-trans r q) st

Unit-cases : (r : Result (Unit {0})) → (r ≡ ok tt) ⊎ ((e : Error) × (r ≡ err e))
Unit-cases (ok tt) = inl refl
Unit-cases (err e) = inr (e, refl)

pub carry_out-Reach :
    (m : Move) (s : Session Order) → Reach s.entity.status (carry_out m s).1.entity.status
carry_out-Reach m s = elim (Unit-cases (carry_out m s).0) [
  | inl done ↦
      rw (status-carry_out m s done)
        (target-Reach m s.entity.status (sym (carry_out-outcome m s) ∙ done))
  | inr (e, refused) ↦ rw (carry_out_refused m s e refused) here
]

-- Whatever moves are tried on an order, its status afterwards is reached from the one before by the
-- stages of an order: confirmed, shipped, completed one after another, and cancelled from any of
-- the stages before completion.
pub run-Reach :
    (ms : List Move) (s : Session Order) → Reach s.entity.status (run ms s).entity.status
unfolding run
run-Reach [] s = here
run-Reach (m ∷ ms) s = Reach-trans (carry_out-Reach m s) (run-Reach ms (carry_out m s).1)

not-outcome-terminal :
    (m : Move) (a : OrderStatus) → is_in a terminal_order_statuses ≡ true → outcome m a ≡ ok tt → ⊥
not-outcome-terminal (accept now) a h o = ground arith
not-outcome-terminal (dispatch now) a h o = ground arith
not-outcome-terminal (hand_over now) a h o = ground arith
not-outcome-terminal (stop initiated_by user reason now) a h o = ground arith
not-outcome-terminal (readdress address now) a h o = ground arith

-- A completed or cancelled order refuses every move, and the order and the recorded events stay as
-- they were.
pub terminal_stays :
    (m : Move) (s : Session Order)
    → is_terminal s.entity ≡ true
    → (is_ok (carry_out m s).0 ≡ false) × ((carry_out m s).1 ≡ s)
terminal_stays m s h = elim (Unit-cases (carry_out m s).0) [
  | inl done ↦
      absurd (not-outcome-terminal m s.entity.status h (sym (carry_out-outcome m s) ∙ done))
  | inr (e, refused) ↦ (rw refused, carry_out_refused m s e refused)
]
