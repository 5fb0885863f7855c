-- ===== src/Request.antt =====
-- What a command works on: the tables as its database session sees them, and the events that it
-- collects. The gateways of infrastructure/adapters/persistence read and write whole aggregates; a
-- loaded aggregate is the object that the session writes back, so a method called on it changes its
-- row. The failures of the database itself (`RepoError`) are left out.
use goldy_telegram_bot.User.{MessengerAccount}
use goldy_telegram_bot.Order.{Order}
use goldy_telegram_bot.Time.{Datetime}
use goldy_telegram_bot.UserValues.{same_platform, MessengerPlatform, ExternalAccountId}
use goldy_telegram_bot.Text.{same}
use goldy_telegram_bot.Result.{Result, authentication, user_not_found, ok, err}
use goldy_telegram_bot.Cart.{Cart}
use goldy_telegram_bot.User.{User}
use goldy_telegram_bot.PhoneNumber.{PhoneNumber}
use goldy_telegram_bot.Event.{Event, Session}
pub mod Tables
pub mod Caller
use goldy_telegram_bot.Exec.{Exec, ◌>>◌, ◌>>=◌}
use goldy_telegram_bot.Prelude.{
  ℕ, ◌==◌, ◌&&◌, ◌||◌, Bool, true, false, Option, none, some, List, [], ◌∷◌, ◌++◌, any,
  if◌then◌else◌,
}

unfoldable pub find_by {ℓ} : {A : Type ℓ} → (A → Bool) → List A → Option A
find_by p [] = none
find_by p (row ∷ rows) = if p row then some row else find_by p rows

-- The row with the key of the given one is replaced.
unfoldable pub save {ℓ} : {A : Type ℓ} → (A → ℕ) → A → List A → List A
save key row [] = []
save key row (old ∷ rows) = if key old == key row then row ∷ rows else old ∷ save key row rows

-- A message in the outbox; it holds the event that its payload spells.
pub record OutboxMessage : Type 0 where
  pub id : ℕ
  pub created_at : Datetime
  pub event : Event
  pub processed_at : Option Datetime

pub record Database : Type 0 where
  pub users : List User
  pub carts : List Cart
  pub orders : List Order
  pub outbox : List OutboxMessage
  pub inbox : List ℕ

pub record Work : Type 0 where
  pub tables : Database
  pub events : List Event

abbrev pub user_id : User → ℕ
user_id user = user.id

abbrev pub cart_id : Cart → ℕ
cart_id cart = cart.id

abbrev pub order_id : Order → ℕ
order_id order = order.id

-- `SqlAlchemyUserCommandGateway.by_id`
abbrev pub user_by_id : ℕ → List User → Option User
user_by_id id = find_by (λ user. user.id == id)

-- `SqlAlchemyUserCommandGateway.by_phone_number`; the column is unique.
abbrev pub user_by_phone_number : PhoneNumber → List User → Option User
user_by_phone_number n = find_by (λ user. same user.phone_number.value n.value)

abbrev pub is_account : MessengerPlatform → ExternalAccountId → MessengerAccount → Bool
is_account p external_id a =
    same_platform a.platform p && same a.external_id.value external_id.value

-- `SqlAlchemyUserCommandGateway.by_messenger_account`; an account belongs to one person at most.
abbrev pub user_by_account : MessengerPlatform → ExternalAccountId → List User → Option User
user_by_account p external_id = find_by (λ user. any (is_account p external_id) user.accounts)

-- `SqlAlchemyCartCommandGateway.by_user_id`; the column is unique.
abbrev pub cart_by_user_id : ℕ → List Cart → Option Cart
cart_by_user_id id = find_by (λ cart. cart.user_id == id)

-- `SqlAlchemyOrderCommandGateway.by_id`
abbrev pub order_by_id : ℕ → List Order → Option Order
order_by_id id = find_by (λ order. order.id == id)

abbrev pub set_users : List User → Work → Work
set_users users w = record w { tables = record (w.tables) { users = users } }

abbrev pub set_carts : List Cart → Work → Work
set_carts carts w = record w { tables = record (w.tables) { carts = carts } }

abbrev pub set_orders : List Order → Work → Work
set_orders orders w = record w { tables = record (w.tables) { orders = orders } }

-- A method on a loaded aggregate; its row becomes what the method leaves, also where it raises.
abbrev pub on_user : {A : Type 0} → Exec (Session User) A → User → Work → Result A × Work
on_user method user w =
    let (r, s) = method (record { entity = user; events = w.events }) in
    (r, record (set_users (save user_id s.entity w.tables.users) w) { events = s.events })

abbrev pub on_cart : {A : Type 0} → Exec (Session Cart) A → Cart → Work → Result A × Work
on_cart method cart w =
    let (r, s) = method (record { entity = cart; events = w.events }) in
    (r, record (set_carts (save cart_id s.entity w.tables.carts) w) { events = s.events })

abbrev pub on_order : {A : Type 0} → Exec (Session Order) A → Order → Work → Result A × Work
on_order method order w =
    let (r, s) = method (record { entity = order; events = w.events }) in
    (r, record (set_orders (save order_id s.entity w.tables.orders) w) { events = s.events })

-- `TelegramIdentityProvider.get_current_user_id`, for the account that the update carries, if any.
unfoldable pub get_current_user_id : Option ExternalAccountId → Exec Work ℕ
unfolding find_by
get_current_user_id none w = (err authentication, w)
get_current_user_id (some external_id) w =
    elim (user_by_account MessengerPlatform.telegram external_id w.tables.users) [
      | none ↦ (err authentication, w)
      | some user ↦ (ok user.id, w)
    ]

-- `UserProvider.by_id` and `UserProvider.current`
unfoldable pub require_user : ℕ → Exec Work User
unfolding find_by
require_user id w = elim (user_by_id id w.tables.users) [
  | none ↦ (err user_not_found, w)
  | some user ↦ (ok user, w)
]

unfoldable pub current_user : Option ExternalAccountId → Exec Work User
unfolding get_current_user_id require_user
current_user caller = do id ← get_current_user_id caller; require_user id
