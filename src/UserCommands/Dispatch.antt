-- ===== src/UserCommands/Dispatch.antt =====
-- The handlers of application/commands/users as the registry of setup/ioc/providers binds them to
-- their commands, without register_user and seed_admins, which name no person by an id.
use goldy_telegram_bot.Exec.{Exec}
use goldy_telegram_bot.Time.{Datetime}
use goldy_telegram_bot.UserValues.{UserRole, MessengerPlatform, ExternalAccountId}
use goldy_telegram_bot.Text.{Text}
use goldy_telegram_bot.UserCommands.{
  block_user, unblock_user, rename_user, change_user_locale, change_notification_preferences,
  unlink_messenger_account, change_user_role, UserView,
}
use goldy_telegram_bot.Request.{Work}
use goldy_telegram_bot.Prelude.{Bool, Option, List, [], ◌∷◌, ℕ}

-- A command on the person with this id, with the reading of the clock that its method makes.
pub data UserCommand : Type 0 where
  block : ℕ → Text → Datetime → UserCommand
  unblock : ℕ → Datetime → UserCommand
  rename : ℕ → Text → Option Text → Datetime → UserCommand
  change_locale : ℕ → Text → Datetime → UserCommand
  change_preferences : ℕ → MessengerPlatform → Bool → Datetime → UserCommand
  unlink_account : ℕ → MessengerPlatform → Datetime → UserCommand
  change_role : ℕ → UserRole → Datetime → UserCommand

unfoldable pub handle : Option ExternalAccountId → UserCommand → Exec Work UserView
unfolding block_user unblock_user rename_user change_user_locale change_notification_preferences
    unlink_messenger_account change_user_role
handle caller (UserCommand.block id reason now) = block_user caller id reason now
handle caller (UserCommand.unblock id now) = unblock_user caller id now
handle caller (UserCommand.rename id first_name last_name now) =
    rename_user caller id first_name last_name now
handle caller (UserCommand.change_locale id locale now) = change_user_locale caller id locale now
handle caller (UserCommand.change_preferences id notify_via consent now) =
    change_notification_preferences caller id notify_via consent now
handle caller (UserCommand.unlink_account id p now) = unlink_messenger_account caller id p now
handle caller (UserCommand.change_role id role now) = change_user_role caller id role now

-- The commands one after another, each with the account that sends it.
unfoldable pub handle_all : List (Option ExternalAccountId × UserCommand) → Work → Work
unfolding handle
handle_all [] w = w
handle_all ((caller, c) ∷ commands) w = handle_all commands (handle caller c w).1
