-- ===== src/User.antt =====
-- domain/users/entities and domain/users/registration.py: a person and their messenger accounts.
-- A session holds the user and the events of the request. Writes to the account that `account_for`
-- found concern that one object, which is the first account of its platform.
mod Accounts
pub mod Changes
pub mod AccountList
pub mod Linking
pub mod Blocking
pub mod Reachable
unfoldable pub use Accounts.{account_for, write_username, remove_account}
pub use Accounts.{MessengerAccount}
use goldy_telegram_bot.Time.{before, Datetime}
use goldy_telegram_bot.Prelude.{
  ℕ, Bool, true, false, not, Option, none, some, List, [], ◌∷◌, ◌++◌, ◌==◌, if◌then◌else◌, length,
}
use goldy_telegram_bot.UserValues.{
  UserRole, UserStatus, MessengerPlatform, BlockReason, ExternalAccountId, MessengerUsername,
  FullName, Locale, UserPreferences, same_platform, same_full_name, same_preferences,
  show_full_name, with_notify_via,
}
use goldy_telegram_bot.PhoneNumber.{PhoneNumber}
use goldy_telegram_bot.Exec.{◌>>=◌, Exec, modify, raise_if, ◌>>◌}
use goldy_telegram_bot.Text.{same}
use goldy_telegram_bot.Event.{
  user_registered, messenger_account_linked, messenger_account_unlinked, user_renamed,
  user_phone_number_changed, user_preferences_changed, user_role_changed, user_blocked,
  user_unblocked, Event, Session, add_event,
}
use goldy_telegram_bot.Result.{
  inconsistent_time, platform_already_linked, messenger_account_not_linked, last_messenger_account,
  notification_target_not_linked, user_already_blocked, user_not_blocked, user_is_blocked, Result,
  ok, err,
}

pub record Registration : Type 0 where
  pub account : MessengerAccount
  pub phone_number : PhoneNumber
  pub full_name : FullName
  pub locale : Locale

pub record User : Type 0 where
  pub id : ℕ
  pub created_at : Datetime
  pub updated_at : Datetime
  pub phone_number : PhoneNumber
  pub full_name : FullName
  pub preferences : UserPreferences
  pub role : UserRole
  pub status : UserStatus
  pub block_reason : Option BlockReason
  pub accounts : List MessengerAccount

-- `User.register`; the two moments are the readings of the two default factories, in their order.
unfoldable pub register :
    ℕ → Registration → Datetime → Datetime → List Event → Result (Session User)
register user_id registration created_at updated_at events =
    if before updated_at created_at
    then err inconsistent_time
    else ok (
        add_event
          (user_registered user_id registration.phone_number.value registration.account.platform
            registration.account.external_id.value)
          (record {
            entity = record {
              id = user_id;
              created_at = created_at;
              updated_at = updated_at;
              phone_number = registration.phone_number;
              full_name = registration.full_name;
              preferences = record {
                notify_via = registration.account.platform;
                locale = registration.locale;
                marketing_consent = false;
              };
              role = UserRole.customer;
              status = UserStatus.active;
              block_reason = none;
              accounts = registration.account ∷ [];
            };
            events = events;
          }))

abbrev pub set_accounts : List MessengerAccount → Session User → Session User
set_accounts accounts s = record s { entity = record (s.entity) { accounts = accounts } }

-- `User._touch`
abbrev pub touch : Datetime → Session User → Session User
touch now s = record s { entity = record (s.entity) { updated_at = now } }

unfoldable pub link_account : MessengerAccount → Datetime → Exec (Session User) Unit
unfolding account_for write_username
link_account account now s = elim (account_for account.platform s.entity.accounts) [
  | some linked ↦
      if same linked.external_id.value account.external_id.value
      then (
        ok tt,
        set_accounts (write_username account.platform account.username s.entity.accounts) s,
      )
      else (err platform_already_linked, s)
  | none ↦
      (do
        modify (set_accounts (s.entity.accounts ++ account ∷ []))
        modify (touch now)
        modify (
            add_event
              (messenger_account_linked s.entity.id account.platform account.external_id.value)))
        s
]

-- The platform of the first account that remains. One always does: the last is never removed.
abbrev pub first_platform : List MessengerAccount → MessengerPlatform → MessengerPlatform
first_platform [] p = p
first_platform (a ∷ accounts) p = a.platform

-- Where notifications go once the platform is gone.
abbrev pub redirected :
    MessengerPlatform → List MessengerAccount → UserPreferences → UserPreferences
redirected p accounts preferences =
    if same_platform preferences.notify_via p
    then with_notify_via preferences (first_platform accounts preferences.notify_via)
    else preferences

unfoldable pub unlink_account : MessengerPlatform → Datetime → Exec (Session User) Unit
unfolding account_for remove_account
unlink_account p now s = elim (account_for p s.entity.accounts) [
  | none ↦ (err messenger_account_not_linked, s)
  | some account ↦
      (do
        raise_if (length s.entity.accounts == 1) last_messenger_account
        modify (set_accounts (remove_account p s.entity.accounts))
        modify (λ t. record t {
          entity = record (t.entity) {
            preferences = redirected p t.entity.accounts t.entity.preferences;
          };
        })
        modify (touch now)
        modify (add_event (messenger_account_unlinked s.entity.id p account.external_id.value)))
        s
]

unfoldable pub refresh_username :
    MessengerPlatform → Option MessengerUsername → Exec (Session User) Unit
unfolding account_for write_username
refresh_username p username s = elim (account_for p s.entity.accounts) [
  | none ↦ (ok tt, s)
  | some account ↦ (ok tt, set_accounts (write_username p username s.entity.accounts) s)
]

unfoldable pub rename : FullName → Datetime → Exec (Session User) Unit
rename full_name now s =
    if same_full_name full_name s.entity.full_name
    then (ok tt, s)
    else (do
      modify (λ t. record t { entity = record (t.entity) { full_name = full_name } })
      modify (touch now)
      modify (
          add_event (
            user_renamed s.entity.id (show_full_name s.entity.full_name)
              (show_full_name full_name))))
        s

unfoldable pub change_phone_number : PhoneNumber → Datetime → Exec (Session User) Unit
change_phone_number phone_number now s =
    if same phone_number.value s.entity.phone_number.value
    then (ok tt, s)
    else (do
      modify (λ t. record t { entity = record (t.entity) { phone_number = phone_number } })
      modify (touch now)
      modify (
          add_event
            (user_phone_number_changed s.entity.id s.entity.phone_number.value phone_number.value)))
        s

unfoldable pub change_preferences : UserPreferences → Datetime → Exec (Session User) Unit
unfolding account_for
change_preferences preferences now s = elim (account_for preferences.notify_via s.entity.accounts) [
  | none ↦ (err notification_target_not_linked, s)
  | some account ↦
      if same_preferences preferences s.entity.preferences
      then (ok tt, s)
      else (do
        modify (λ t. record t { entity = record (t.entity) { preferences = preferences } })
        modify (touch now)
        modify (
            add_event (
              user_preferences_changed s.entity.id preferences.notify_via preferences.locale.value
                preferences.marketing_consent)))
          s
]

abbrev pub same_role : UserRole → UserRole → Bool
same_role UserRole.customer UserRole.customer = true
same_role UserRole.manager UserRole.manager = true
same_role UserRole.admin UserRole.admin = true
same_role a b = false

unfoldable pub assign_role : UserRole → Datetime → Exec (Session User) Unit
assign_role role now s =
    if same_role role s.entity.role
    then (ok tt, s)
    else (do
      modify (λ t. record t { entity = record (t.entity) { role = role } })
      modify (touch now)
      modify (add_event (user_role_changed s.entity.id s.entity.role role)))
        s

abbrev pub is_blocked : UserStatus → Bool
is_blocked UserStatus.blocked = true
is_blocked UserStatus.active = false

unfoldable pub block : BlockReason → Datetime → Exec (Session User) Unit
block reason now s =
    (do
      raise_if (is_blocked s.entity.status) user_already_blocked
      modify (λ t. record t {
        entity = record (t.entity) { status = UserStatus.blocked; block_reason = some reason };
      })
      modify (touch now)
      modify (add_event (user_blocked s.entity.id reason.value)))
      s

unfoldable pub unblock : Datetime → Exec (Session User) Unit
unblock now s =
    (do
      raise_if (not (is_blocked s.entity.status)) user_not_blocked
      modify (λ t. record t {
        entity = record (t.entity) { status = UserStatus.active; block_reason = none };
      })
      modify (touch now)
      modify (add_event (user_unblocked s.entity.id)))
      s

-- `User.ensure_active`
unfoldable pub ensure_active : Exec (Session User) Unit
ensure_active s = raise_if (is_blocked s.entity.status) user_is_blocked s

-- `role in STAFF_ROLES`
abbrev pub is_staff : UserRole → Bool
is_staff UserRole.customer = false
is_staff UserRole.manager = true
is_staff UserRole.admin = true

-- `User.has_account`
unfoldable pub has_account : MessengerPlatform → ExternalAccountId → User → Bool
unfolding account_for
has_account p external_id user = elim (account_for p user.accounts) [
  | none ↦ false
  | some account ↦ same account.external_id.value external_id.value
]

-- `User.notification_account`
unfoldable pub notification_account : User → Result MessengerAccount
unfolding account_for
notification_account user = elim (account_for user.preferences.notify_via user.accounts) [
  | none ↦ err notification_target_not_linked
  | some account ↦ ok account
]
