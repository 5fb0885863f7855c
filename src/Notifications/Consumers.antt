-- ===== src/Notifications/Consumers.antt =====
-- infrastructure/task_manager/consumers/order_event_consumers.py: the messages of the broker become
-- commands of notifications, each sent through the mediator in a request of its own. The senders,
-- the renderer and the view of an order are those of one delivery, since they differ from one to
-- the next. Messages carry the id of their row in the outbox.
use goldy_telegram_bot.Event.{
  Event, order_placed, order_status_changed, order_delivery_address_changed,
}
use goldy_telegram_bot.Exec.{Exec}
use goldy_telegram_bot.Mediator.{send_command, Stamp}
use goldy_telegram_bot.Notifications.{
  handle, Desk, NotificationOutcome, NotifyCommand, order_is_placed, status_is_changed,
  address_is_changed, OrderView, OutgoingNotification, Renderer, Senders,
}
use goldy_telegram_bot.Prelude.{ℕ, List, [], ◌∷◌, Option, none, some}
use goldy_telegram_bot.Request.{Database, OutboxMessage, Work}
use goldy_telegram_bot.Result.{Result}
use goldy_telegram_bot.UserValues.{MessengerPlatform}

-- What the worker keeps from one message to the next: the committed tables, and what the messengers
-- have accepted, which no rollback takes back.
pub record Worker : Type 0 where
  pub committed : Database
  pub sent : List (MessengerPlatform × OutgoingNotification)

-- What one delivery finds around it.
pub record Surroundings : Type 0 where
  pub senders : Senders
  pub render : Renderer
  pub read_order : ℕ → Option OrderView
  pub stamp : Stamp

-- The command that the subscriber of an event builds; the other events have no subscriber.
unfoldable pub command_of : ℕ → Event → Option NotifyCommand
command_of message_id (order_placed id number customer price_type total currency lines) =
    some (order_is_placed message_id id)
command_of message_id (order_status_changed id number customer old status reason) =
    some (status_is_changed message_id customer number status reason)
command_of message_id (order_delivery_address_changed id number customer old new_address) =
    some (address_is_changed message_id customer number old new_address)
command_of message_id _ = none

-- A handler works on the session of its request.
abbrev pub on_session :
    {A : Type 0} → List (MessengerPlatform × OutgoingNotification) → Exec Desk A → Exec Work A
on_session sent handler w = let (r, s) = handler (record { work = w; sent = sent }) in (r, s.work)

-- `sender.send` in the request of a message
unfoldable pub send : Surroundings → NotifyCommand → Exec Worker NotificationOutcome
unfolding send_command handle
send around c worker =
    let run = handle around.senders around.render around.read_order c in
    let w : Work = record { tables = worker.committed; events = [] } in
    let (r, scope) =
      send_command around.stamp (on_session worker.sent run)
        (record { committed = worker.committed; work = w }) in
    (
      r,
      record {
        committed = scope.committed;
        sent = (run (record { work = w; sent = worker.sent })).1.sent;
      },
    )

-- `on_order_placed`, `on_order_status_changed` and `on_order_address_changed`: the answer, if the
-- event has a subscriber.
unfoldable pub consume :
    Surroundings → OutboxMessage → Worker → Option (Result NotificationOutcome) × Worker
unfolding command_of send
consume around message worker = elim (command_of message.id message.event) [
  | none ↦ (none, worker)
  | some c ↦ let (r, after) = send around c worker in (some r, after)
]

-- One delivery after another.
unfoldable pub consume_all : List (Surroundings × OutboxMessage) → Worker → Worker
unfolding consume
consume_all [] worker = worker
consume_all ((around, message) ∷ deliveries) worker =
    consume_all deliveries (consume around message worker).1
