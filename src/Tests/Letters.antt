-- ===== src/Tests/Letters.antt =====
-- Runs of the notifications.
use goldy_telegram_bot.Event
use goldy_telegram_bot.Notifications.Consumers.{
  command_of, consume, consume_all, Surroundings, Worker,
}
use goldy_telegram_bot.Notifications.Letters.{Serves, Told, Words, dispatch_to_all_done}
use goldy_telegram_bot.Notifications.Redelivered.{notify_once}
use goldy_telegram_bot.OrderValues.{OrderStatus}
use goldy_telegram_bot.UserValues.{MessengerPlatform}
use goldy_telegram_bot.Notifications.{
  claim, order_status_changed, Senders, Renderer, duplicate, dispatch_to_all, Notification,
  OutgoingNotification, NotificationOutcome, Desk, status_is_changed,
}
use goldy_telegram_bot.Request.{OutboxMessage}
use goldy_telegram_bot.Text.{text, same}
use goldy_telegram_bot.Result.{Error, notification_render, notification_undeliverable, ok, err}
use goldy_telegram_bot.UserCommands.{UserView}
use goldy_telegram_bot.Tests.{morning}
use goldy_telegram_bot.Tests.Shop.{shop, anna_row, boss}
use goldy_telegram_bot.UserCommands
use goldy_telegram_bot.Prelude.{
  ◌+◌, ◌≡◌, ◌⊎◌, refl, false, none, some, List, [], ◌∷◌, arith, if◌then◌else◌, length,
}

-- Only one account can be reached.
abbrev senders : Senders
senders p =
    some (λ n. if same n.external_id (text "1001") then ok tt else err notification_undeliverable)

abbrev render : Renderer
render notification locale = ok (text "news")

abbrev desk : Desk
desk = record { work = shop; sent = [] }

abbrev told : Notification
told = order_status_changed (text "250609-000005") OrderStatus.shipped none

abbrev people : List UserView
people = UserCommands.to_view anna_row ∷ UserCommands.to_view boss ∷ []

senders-Serves : Serves senders
unfolding same
senders-Serves p = (
  λ n. if same n.external_id (text "1001") then ok tt else err notification_undeliverable,
  refl,
  λ n. ground arith,
)

render-Words : Words render told
render-Words locale = (text "news", refl)

dispatch_to_all_done_example :
    (letters : List (MessengerPlatform × OutgoingNotification)) × (outcome : NotificationOutcome)
    × Told senders render told people letters
    × (dispatch_to_all senders render people told desk
        ≡ (ok outcome, record desk { sent = letters }))
    × (outcome.delivered ≡ length letters)
    × (outcome.delivered + outcome.skipped ≡ 2)
dispatch_to_all_done_example =
    dispatch_to_all_done senders render told people desk senders-Serves render-Words

-- The shipping of an order, as the relay publishes it.
abbrev about_order : OutboxMessage
about_order = record {
  id = 77;
  created_at = morning;
  event =
      Event.order_status_changed 5 (text "250609-000005") 41 OrderStatus.confirmed
        OrderStatus.shipped none;
  processed_at = none;
}

abbrev about_address : OutboxMessage
about_address = record about_order {
  id = 78;
  event =
      Event.order_delivery_address_changed 5 (text "250609-000005") 41 (text "there") (text "here");
}

abbrev around : Surroundings
around = record {
  senders = senders;
  render = render;
  read_order = λ id. none;
  stamp = λ n. (n, morning);
}

-- The texts have no wording.
abbrev speechless : Surroundings
speechless = record around { render = λ notification locale. err notification_render }

abbrev worker : Worker
worker = record { committed = shop.tables; sent = [] }

customer_told :
    (consume around about_order worker).0
    ≡ some (ok (record { delivered = 1; skipped = 0; already_handled = false }))
unfolding consume claim same
customer_told = refl

failure_put_back :
    (consume speechless about_order worker ≡ (some (err notification_render), worker))
    × ((consume around about_order (consume speechless about_order worker).1).0
        ≡ some (ok (record { delivered = 1; skipped = 0; already_handled = false })))
unfolding consume claim same
failure_put_back = (refl, refl)

notify_once_example :
    let first = consume around about_order worker in
    let later = consume_all ((around, about_address) ∷ []) first.1 in
    ((e : Error) × (first.0 ≡ some (err e)) × (first.1.committed ≡ shop.tables))
    ⊎ ((outcome : NotificationOutcome) × (first.0 ≡ some (ok outcome))
        × (consume speechless about_order later ≡ (some (ok duplicate), later)))
unfolding command_of
notify_once_example =
    notify_once around speechless about_order
      (status_is_changed 77 41 (text "250609-000005") OrderStatus.shipped none)
      ((around, about_address) ∷ []) worker refl
