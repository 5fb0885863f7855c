-- ===== src/RegisterUser.antt =====
-- application/commands/users/register_user and seed_admins, with the registry of administrators as
-- a list of numbers: how people come into the table, and who is an administrator.
use goldy_telegram_bot.User.{MessengerAccount}
use goldy_telegram_bot.User
use goldy_telegram_bot.PhoneNumber
use goldy_telegram_bot.Time.{Datetime}
use goldy_telegram_bot.UserValues.{
  make_external_account_id, make_messenger_username, make_full_name, from_language_code, UserRole,
  MessengerPlatform, ExternalAccountId, MessengerUsername,
}
use goldy_telegram_bot.Text.{Text, same}
use goldy_telegram_bot.Result.{Result, user_already_exists, ok, err}
use goldy_telegram_bot.User.{same_role, Registration, User}
use goldy_telegram_bot.UserCommands.{to_view, change, UserView}
use goldy_telegram_bot.Request.{
  find_by, user_by_phone_number, user_by_account, set_users, on_user, Work,
}
use goldy_telegram_bot.PhoneNumber.{PhoneNumber}
pub mod Accounts
pub mod Known
pub mod Again
pub mod Seeded
use goldy_telegram_bot.Exec.{Exec, pure, lift, gets, ◌>>◌, ◌>>=◌}
use goldy_telegram_bot.Prelude.{
  ◌+◌, Bool, true, false, ◌||◌, Option, none, some, List, [], ◌∷◌, ◌++◌, if◌then◌else◌, any, ℕ,
}

pub record RegisterUser : Type 0 where
  pub platform : MessengerPlatform
  pub external_id : Text
  pub phone_number : Text
  pub first_name : Text
  pub last_name : Option Text
  pub username : Option Text
  pub language_code : Option Text

-- What the handler mints and reads of the clock.
pub record Readings : Type 0 where
  pub id : ℕ
  pub linked_at : Datetime
  pub created_at : Datetime
  pub updated_at : Datetime
  pub now : Datetime

-- `StaticAdminRegistry.is_admin`
unfoldable pub is_admin : List PhoneNumber → PhoneNumber → Bool
is_admin registry number = any (λ n. same n.value number.value) registry

abbrev pub optional_username : Option Text → Result (Option MessengerUsername)
optional_username none = ok none
optional_username (some value) = elim (make_messenger_username value) [
  | ok username ↦ ok (some username)
  | err e ↦ err e
]

abbrev pub is_found : Option User → Bool
is_found none = false
is_found (some user) = true

-- A row with the number or one of the accounts, which the unique indexes refuse to see twice.
unfoldable pub is_taken : User → List User → Bool
unfolding find_by
is_taken user rows =
    is_found (user_by_phone_number user.phone_number rows)
    || any (λ a. is_found (user_by_account a.platform a.external_id rows)) user.accounts

-- `SqlAlchemyUserCommandGateway.add`, after what other requests have committed
unfoldable pub add_user : (List User → List User) → User → Exec Work Unit
unfolding is_taken
add_user others user w =
    let rows = others w.tables.users in
    if is_taken user rows
    then (err user_already_exists, set_users rows w)
    else (ok tt, set_users (rows ++ user ∷ []) w)

-- The new person of the handler: created, promoted if their number is configured, and added.
unfoldable pub create :
    List PhoneNumber → (List User → List User) → Readings → Registration → Exec Work UserView
unfolding is_admin add_user User.register User.assign_role to_view
create registry others t registration w =
    elim (User.register t.id registration t.created_at t.updated_at w.events) [
      | err e ↦ (err e, w)
      | ok s ↦
          let (r, s') =
            (if is_admin registry registration.phone_number
              then User.assign_role UserRole.admin t.now s
              else (ok tt, s)) in
          (do add_user others s'.entity; pure (to_view s'.entity)) (record w { events = s'.events })
    ]

-- The account that the command speaks of
abbrev pub account_of :
    Readings → RegisterUser → ExternalAccountId → Option MessengerUsername → MessengerAccount
account_of t c external_id username = record {
  platform = c.platform;
  external_id = external_id;
  username = username;
  linked_at = t.linked_at;
}

-- The handler once the account is not known
unfoldable pub register_contact :
    List PhoneNumber
    → (List User → List User)
    → Readings
    → RegisterUser
    → ExternalAccountId
    → Option MessengerUsername
    → Exec Work UserView
unfolding create find_by change
register_contact registry others t c external_id username = do
  number ← lift (PhoneNumber.from_raw c.phone_number)
  known_person ← gets (λ w. user_by_phone_number number w.tables.users)
  elim known_person [
    | some user ↦ change (User.link_account (account_of t c external_id username) t.now) user
    | none ↦ (do
      full_name ← lift (make_full_name c.first_name c.last_name)
      locale ← lift (from_language_code c.language_code)
      create registry others t (record {
        account = account_of t c external_id username;
        phone_number = number;
        full_name = full_name;
        locale = locale;
      }))
  ]

-- `RegisterUserHandler.handle`
unfoldable pub register_user :
    List PhoneNumber → (List User → List User) → Readings → RegisterUser → Exec Work UserView
unfolding register_contact find_by change
register_user registry others t c = do
  external_id ← lift (make_external_account_id c.external_id)
  username ← lift (optional_username c.username)
  known_account ← gets (λ w. user_by_account c.platform external_id w.tables.users)
  elim known_account [
    | some user ↦ change (User.refresh_username c.platform username) user
    | none ↦ register_contact registry others t c external_id username
  ]

pub record SeedAdminsResponse : Type 0 where
  pub granted : ℕ
  pub already : ℕ
  pub pending : ℕ

-- One round of the loop of `SeedAdminsHandler.handle`
unfoldable pub seed_one : Datetime → PhoneNumber → SeedAdminsResponse → Exec Work SeedAdminsResponse
unfolding find_by User.assign_role
seed_one now number r w = elim (user_by_phone_number number w.tables.users) [
  | none ↦ (ok (record r { pending = r.pending + 1 }), w)
  | some user ↦
      if same_role user.role UserRole.admin
      then (ok (record r { already = r.already + 1 }), w)
      else (do
        on_user (User.assign_role UserRole.admin now) user
        pure (record r { granted = r.granted + 1 }))
          w
]

unfoldable pub seed_each :
    Datetime → List PhoneNumber → SeedAdminsResponse → Exec Work SeedAdminsResponse
unfolding seed_one
seed_each now [] r = pure r
seed_each now (number ∷ numbers) r = do r' ← seed_one now number r; seed_each now numbers r'

-- `SeedAdminsHandler.handle`
unfoldable pub seed_admins : List PhoneNumber → Datetime → Exec Work SeedAdminsResponse
unfolding seed_each
seed_admins registry now = seed_each now registry (record { granted = 0; already = 0; pending = 0 })
