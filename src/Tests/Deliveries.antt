-- ===== src/Tests/Deliveries.antt =====
-- Runs of registrations, of the mediator and of the relay.
use goldy_telegram_bot.Tests.{morning, evening}
use goldy_telegram_bot.Tests.Shop.{shop, boss, anna_row, people_differ}
use goldy_telegram_bot.UserCommands
use goldy_telegram_bot.User
use goldy_telegram_bot.User
use goldy_telegram_bot.UserCommands
use goldy_telegram_bot.RegisterUser.Again.{register_again}
use goldy_telegram_bot.RegisterUser.Seeded.{promoted, seed_admins_lem}
use goldy_telegram_bot.Mediator.Atomic.{chain_order, send_command_atomic}
use goldy_telegram_bot.Outbox.Counts.{count, waits}
use goldy_telegram_bot.Outbox.Drained.{ticks, ticks_drain}
use goldy_telegram_bot.Outbox.Delivery.{
  act_all, Delivered, act_all-IsDelivered, Action, enqueue, tick,
}
use goldy_telegram_bot.RegisterUser.{is_admin, register_user, seed_admins, RegisterUser, Readings}
use goldy_telegram_bot.Outbox.{Relay}
use goldy_telegram_bot.UserValues.{make_external_account_id, MessengerPlatform}
use goldy_telegram_bot.Text.{text, same, is_space, is_blank}
use goldy_telegram_bot.Result.{is_ok, ok}
use goldy_telegram_bot.User.{User}
use goldy_telegram_bot.Mediator.{
  Stamp, Pipeline, build_pipeline_handlers, serialize, send_command, Scope,
}
use goldy_telegram_bot.UserCommands.{UserView}
use goldy_telegram_bot.Request.{find_by, save, set_carts, OutboxMessage, Work}
use goldy_telegram_bot.Event.{cart_created, cart_cleared}
use goldy_telegram_bot.Exec.{Exec, pure, modify, ◌>>◌}
use goldy_telegram_bot.Prelude.{
  ◌≡◌, refl, Bool, true, false, not, none, List, [], ◌∷◌, ◌++◌, arith, ◌==◌, length, ℕ,
}

abbrev readings : Readings
readings = record {
  id = 43;
  linked_at = evening;
  created_at = morning;
  updated_at = morning;
  now = evening;
}

abbrev from_anna : RegisterUser
from_anna = record {
  platform = MessengerPlatform.telegram;
  external_id = text "1001";
  phone_number = text "nothing";
  first_name = text "Anna";
  last_name = none;
  username = none;
  language_code = none;
}

register_again_example :
    let w' : Work = (register_user [] (λ users. users) readings from_anna shop).1 in
    (view' : UserView) × ((register_user [] (λ users. users) readings from_anna w').0 ≡ ok view')
    × (view'.id ≡ 41)
    × (length (register_user [] (λ users. users) readings from_anna w').1.tables.users
        ≡ length w'.tables.users)
unfolding register_user make_external_account_id find_by same UserCommands.change
    UserCommands.to_view User.refresh_username User.account_for User.write_username save is_blank
    is_space
register_again_example =
    register_again [] (λ users. users) readings readings from_anna from_anna
      (record { value = text "1001" }) none none (UserCommands.to_view anna_row) shop refl refl
      people_differ refl people_differ refl refl refl

seed_admins_lem_example :
    (is_ok (seed_admins (boss.phone_number ∷ []) evening shop).0 ≡ true)
    × (promoted boss.phone_number (seed_admins (boss.phone_number ∷ []) evening shop).1 ≡ true)
unfolding find_by same is_admin
seed_admins_lem_example =
    seed_admins_lem (boss.phone_number ∷ []) evening boss.phone_number shop people_differ

abbrev stamp : Stamp
stamp n = (n, morning)

abbrev opened : Scope
opened = record { committed = shop.tables; work = shop }

-- Two pipelines that note when they run.
abbrev noting : ℕ → Pipeline Unit
noting n handle_next = do
  modify
      (λ s. record s { work = record (s.work) { events = s.work.events ++ cart_created n 0 ∷ [] } })
  handle_next

chain_order_example :
    build_pipeline_handlers (pure tt) (noting 1 ∷ noting 2 ∷ []) ≡ noting 1 (noting 2 (pure tt))
chain_order_example = chain_order (pure tt) (noting 1 ∷ noting 2 ∷ [])

-- A handler that records an event and empties the table of carts.
abbrev emptying : Exec Work Unit
emptying = do
  modify (set_carts [])
  modify (λ w. record w { events = w.events ++ cart_cleared 7 41 2 ∷ [] })

send_command_atomic_example :
    ((send_command stamp emptying opened).0 ≡ ok tt)
    × ((send_command stamp emptying opened).1.committed ≡ record (shop.tables) {
      carts = [];
      outbox = serialize (0, morning) (cart_cleared 7 41 2) ∷ [];
    })
    × ((send_command stamp emptying opened).1.work.tables
        ≡ (send_command stamp emptying opened).1.committed)
send_command_atomic_example = send_command_atomic stamp emptying opened

abbrev message : ℕ → OutboxMessage
message n = serialize (n, morning) (cart_created n 41)

-- The broker refuses the first of three messages.
abbrev picky : OutboxMessage → Bool
picky m = not (m.id == 1)

abbrev queue : Relay
queue = record { outbox = message 1 ∷ message 2 ∷ message 3 ∷ []; sent = [] }

ticks_drain_example : count (waits picky) (ticks picky 2 (morning ∷ evening ∷ []) queue).outbox ≡ 0
ticks_drain_example = ticks_drain picky 2 (morning ∷ evening ∷ []) queue (omega arith) (omega arith)

abbrev actions : List Action
actions =
    enqueue 4 evening (cart_created 4 41)
    ∷ tick picky evening (λ id. id == 2) 3
    ∷ tick picky evening (λ id. false) 3
    ∷ []

act_all-IsDelivered_example : Delivered (act_all actions queue)
act_all-IsDelivered_example =
    act_all-IsDelivered actions queue ((λ h. cc), ((λ h. cc), ((λ h. cc), tt)))
