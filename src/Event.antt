-- ===== src/Event.antt =====
-- domain/carts/events.py, domain/orders/events.py, domain/users/events.py and
-- domain/common/events_collection.py: the facts that aggregates record. The identity and the
-- moment that every event is stamped with are left out, and an amount of money stands for its
-- decimal spelling.
use goldy_telegram_bot.Prelude.{ℕ, Bool, Option, List, [], ◌∷◌, ◌++◌}
use goldy_telegram_bot.Text.{Text}
use goldy_telegram_bot.Decimal.{Decimal}
use goldy_telegram_bot.Money.{Currency}
use goldy_telegram_bot.OrderValues.{OrderStatus}
use goldy_telegram_bot.UserValues.{UserRole, MessengerPlatform}

pub data Event : Type 0 where
  -- cart_id, user_id
  cart_created : ℕ → ℕ → Event
  -- cart_id, user_id, product_id, quantity
  cart_item_added : ℕ → ℕ → Text → ℕ → Event
  cart_item_quantity_changed : ℕ → ℕ → Text → ℕ → Event
  -- cart_id, user_id, product_id
  cart_item_removed : ℕ → ℕ → Text → Event
  -- cart_id, user_id, line_count
  cart_cleared : ℕ → ℕ → ℕ → Event
  -- order_id, order_number, customer_id, price_type_id, total_amount, currency, line_count
  order_placed : ℕ → Text → ℕ → Text → Decimal → Currency → ℕ → Event
  -- order_id, order_number, customer_id, old_status, new_status, reason
  order_status_changed : ℕ → Text → ℕ → OrderStatus → OrderStatus → Option Text → Event
  -- order_id, order_number, customer_id, old_address, new_address
  order_delivery_address_changed : ℕ → Text → ℕ → Text → Text → Event
  -- user_id, phone_number, platform, external_id
  user_registered : ℕ → Text → MessengerPlatform → Text → Event
  -- user_id, platform, external_id
  messenger_account_linked : ℕ → MessengerPlatform → Text → Event
  messenger_account_unlinked : ℕ → MessengerPlatform → Text → Event
  -- user_id, old, new
  user_renamed : ℕ → Text → Text → Event
  user_phone_number_changed : ℕ → Text → Text → Event
  -- user_id, notify_via, locale, marketing_consent
  user_preferences_changed : ℕ → MessengerPlatform → Text → Bool → Event
  -- user_id, old_role, new_role
  user_role_changed : ℕ → UserRole → UserRole → Event
  -- user_id, reason
  user_blocked : ℕ → Text → Event
  -- user_id
  user_unblocked : ℕ → Event

-- An aggregate together with the events collection that it holds a reference to. One collection
-- belongs to a request, and all aggregates of the request share it.
pub record Session {ℓ} (A : Type ℓ) : Type ℓ where
  pub entity : A
  pub events : List Event

-- `EventsCollection.add_event`
abbrev pub add_event {ℓ} : {A : Type ℓ} → Event → Session A → Session A
add_event e s = record s { events = s.events ++ e ∷ [] }

-- `EventsCollection.pull_events`: the events, and the collection emptied.
abbrev pub pull_events : List Event → List Event × List Event
pull_events events = (events, [])
