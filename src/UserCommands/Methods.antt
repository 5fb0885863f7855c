-- ===== src/UserCommands/Methods.antt =====
-- What the methods of users/entities/user.py that commands call leave of the id and the role.
use goldy_telegram_bot.User
use goldy_telegram_bot.Exec.{Exec}
use goldy_telegram_bot.Time.{Datetime}
use goldy_telegram_bot.UserValues.{
  UserRole, MessengerPlatform, BlockReason, FullName, UserPreferences,
}
use goldy_telegram_bot.User.{User}
use goldy_telegram_bot.Event.{Session}
use goldy_telegram_bot.Prelude.{◌≡◌, arith}

abbrev pub KeepsRole : Exec (Session User) Unit → Type 0
KeepsRole method =
    (s : Session User)
    → ((method s).1.entity.id ≡ s.entity.id) × ((method s).1.entity.role ≡ s.entity.role)

pub block-KeepsRole : (r : BlockReason) (now : Datetime) → KeepsRole (User.block r now)
unfolding User.block
block-KeepsRole r now s = ground arith

pub unblock-KeepsRole : (now : Datetime) → KeepsRole (User.unblock now)
unfolding User.unblock
unblock-KeepsRole now s = ground arith

pub rename-KeepsRole : (n : FullName) (now : Datetime) → KeepsRole (User.rename n now)
unfolding User.rename
rename-KeepsRole n now s = ground arith

pub change_preferences-KeepsRole :
    (p : UserPreferences) (now : Datetime) → KeepsRole (User.change_preferences p now)
unfolding User.change_preferences
change_preferences-KeepsRole p now s = ground arith

pub unlink_account-KeepsRole :
    (p : MessengerPlatform) (now : Datetime) → KeepsRole (User.unlink_account p now)
unfolding User.unlink_account
unlink_account-KeepsRole p now s = ground arith

-- Whether the role is a new one or not, it is the one that was assigned.
pub assign_role_lem :
    (role : UserRole) (now : Datetime) (s : Session User)
    → ((User.assign_role role now s).1.entity.id ≡ s.entity.id)
      × ((User.assign_role role now s).1.entity.role ≡ role)
unfolding User.assign_role
assign_role_lem role now s = ground arith
