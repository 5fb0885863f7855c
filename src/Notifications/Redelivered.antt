-- ===== src/Notifications/Redelivered.antt =====
-- A message of the broker that is delivered again.
use mathlib.Core.List.{append-nil}
use goldy_telegram_bot.Event.{
  Event, order_placed, order_status_changed, order_delivery_address_changed,
}
use goldy_telegram_bot.Mediator.Atomic.{committed_after, send_command_atomic}
use goldy_telegram_bot.Notifications.{duplicate, handle, Desk, NotificationOutcome, NotifyCommand}
use goldy_telegram_bot.Notifications.Consumers.{
  command_of, consume, consume_all, on_session, send, Surroundings, Worker,
}
use goldy_telegram_bot.Notifications.Once.{
  handle_again, handle-is_claimed, handle-keeps, message_of,
}
use goldy_telegram_bot.Prelude.{
  ℕ, ◌==◌, any, ◌≡◌, ◌⊎◌, ◌∙◌, sym, refl, inl, inr, Bool, true, List, [], ◌∷◌, some, Option-cases,
  arith,
}
use goldy_telegram_bot.Request.{OutboxMessage}
use goldy_telegram_bot.Result.{Error, ok, err, Result, Result-cases}

-- The committed inbox holds the message.
abbrev is_seen : ℕ → Worker → Bool
is_seen id worker = any (λ i. i == id) worker.committed.inbox

command_of-message_of :
    (id : ℕ) (event : Event) (c : NotifyCommand) → command_of id event ≡ some c → message_of c ≡ id
unfolding command_of
command_of-message_of id (order_placed order_id number customer price_type total currency lines) c
      h =
    ground arith
command_of-message_of id (order_status_changed order_id number customer old status reason) c h =
    ground arith
command_of-message_of id (order_delivery_address_changed order_id number customer old now_at) c h =
    ground arith
command_of-message_of id _ c h = ground arith

module _ (around : Surroundings) (c : NotifyCommand) (worker : Worker) where
  abbrev desk : Desk
  desk = record { work = record { tables = worker.committed; events = [] }; sent = worker.sent }

  abbrev run : Result NotificationOutcome × Desk
  run = handle around.senders around.render around.read_order c desk

  send_lem :
      ((send around c worker).0 ≡ run.0)
      × ((send around c worker).1.committed
          ≡ committed_after around.stamp run.0 run.1.work worker.committed)
      × ((send around c worker).1.sent ≡ run.1.sent)
  unfolding send
  send_lem =
      let (answered, committed, back) =
        send_command_atomic around.stamp
          (on_session worker.sent (handle around.senders around.render around.read_order c))
          (record { committed = worker.committed; work = desk.work }) in
      (answered, committed, refl)

  send_refused :
      (e : Error)
      → (send around c worker).0 ≡ err e
      → (send around c worker).1.committed ≡ worker.committed
  send_refused e h =
      let (answered, committed, letters) = send_lem in ground (arith, committed, sym answered ∙ h)

  send-is_seen :
      (outcome : NotificationOutcome)
      → (send around c worker).0 ≡ ok outcome
      → is_seen (message_of c) (send around c worker).1 ≡ true
  send-is_seen outcome h =
      let (answered, committed, letters) = send_lem in
      ground (
        arith,
        committed,
        sym answered ∙ h,
        handle-is_claimed around.senders around.render around.read_order c desk,
      )

  send-keeps : (id : ℕ) → is_seen id worker ≡ true → is_seen id (send around c worker).1 ≡ true
  send-keeps id h =
      let (answered, committed, letters) = send_lem in
      elim (Result-cases run.0) [
        | inl (outcome, e) ↦ ground (
          arith,
          committed,
          handle-keeps around.senders around.render around.read_order c id desk h,
        )
        | inr (error, e) ↦ ground (arith, committed)
      ]

  send_again : is_seen (message_of c) worker ≡ true → send around c worker ≡ (ok duplicate, worker)
  send_again h =
      let (answered, committed, letters) = send_lem in
      ground (
        arith,
        answered,
        committed,
        letters,
        handle_again around.senders around.render around.read_order c desk h,
        append-nil worker.committed.outbox,
      )

consume-keeps :
    (around : Surroundings) (message : OutboxMessage) (id : ℕ) (worker : Worker)
    → is_seen id worker ≡ true
    → is_seen id (consume around message worker).1 ≡ true
unfolding consume
consume-keeps around message id worker h =
    elim (Option-cases (command_of message.id message.event)) [
      | inl other ↦ ground arith
      | inr (c, bound) ↦ ground (arith, send-keeps around c worker id h)
    ]

consume_all-keeps :
    (deliveries : List (Surroundings × OutboxMessage)) (id : ℕ) (worker : Worker)
    → is_seen id worker ≡ true
    → is_seen id (consume_all deliveries worker) ≡ true
unfolding consume_all
consume_all-keeps [] id worker h = h
consume_all-keeps ((around, message) ∷ deliveries) id worker h =
    consume_all-keeps deliveries id (consume around message worker).1
      (consume-keeps around message id worker h)

-- A message of the broker about an order is delivered. Either its command raises, and then the
-- committed tables, the inbox among them, stay what they were, so the message can be claimed again;
-- or it succeeds, and then, whatever else is delivered in between and whatever the surroundings are
-- by then, a redelivery of the message is answered as a duplicate, and neither sends nor commits
-- anything.
pub notify_once :
    (around around' : Surroundings) (message : OutboxMessage) (c : NotifyCommand)
    (between : List (Surroundings × OutboxMessage)) (worker : Worker)
    → command_of message.id message.event ≡ some c
    → let first = consume around message worker in
      ((e : Error) × (first.0 ≡ some (err e)) × (first.1.committed ≡ worker.committed))
      ⊎ ((outcome : NotificationOutcome) × (first.0 ≡ some (ok outcome))
          × (consume around' message (consume_all between first.1)
              ≡ (some (ok duplicate), consume_all between first.1)))
unfolding consume
notify_once around around' message c between worker bound =
    let first = consume around message worker in
    let same : consume around message worker
        ≡ (some (send around c worker).0, (send around c worker).1) =
      ground arith in
    let named = command_of-message_of message.id message.event c bound in
    elim (Result-cases (send around c worker).0) [
      | inr (e, refused) ↦
          inl (e, ground arith, ground (arith, same, send_refused around c worker e refused))
      | inl (outcome, done) ↦
          let later : Worker = consume_all between first.1 in
          let seen : is_seen (message_of c) later ≡ true =
            consume_all-keeps between (message_of c) first.1
              (ground (arith, same, send-is_seen around c worker outcome done)) in
          inr (outcome, ground arith, ground (arith, send_again around' c later seen))
    ]
