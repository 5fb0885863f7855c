-- ===== src/UserCommands.antt =====
-- application/commands/users, without registration and seeding: the commands on a person. A caller
-- is the messenger account that the update carries, if any.
use goldy_telegram_bot.User
use goldy_telegram_bot.User.{MessengerAccount}
use goldy_telegram_bot.Time.{Datetime}
use goldy_telegram_bot.UserValues.{
  make_block_reason, make_full_name, make_locale, with_notify_via, with_locale,
  with_marketing_consent, UserRole, UserStatus, MessengerPlatform, BlockReason, ExternalAccountId,
}
use goldy_telegram_bot.Text.{Text}
use goldy_telegram_bot.User.{User}
use goldy_telegram_bot.Request.{user_id, on_user, require_user, current_user, Work}
use goldy_telegram_bot.Access.{
  Permission, any_of, authorize, can_manage_self, can_manage_subordinate, can_manage_role,
  UserManagementContext,
}
use goldy_telegram_bot.Event.{Session}
pub mod Dispatch
pub mod Permitted
pub mod Methods
pub mod Handled
pub mod Admins
use goldy_telegram_bot.Exec.{Exec, pure, lift, gets, ◌>>◌, ◌>>=◌}
use goldy_telegram_bot.Prelude.{Bool, Option, none, some, List, [], ◌∷◌, ℕ}

-- `UserView`; a text that names a role, a status or a platform stands for its value.
pub record UserView : Type 0 where
  pub id : ℕ
  pub phone_number : Text
  pub first_name : Text
  pub last_name : Option Text
  pub role : UserRole
  pub status : UserStatus
  pub block_reason : Option Text
  pub notify_via : MessengerPlatform
  pub locale : Text
  pub marketing_consent : Bool
  pub accounts : List MessengerAccount
  pub created_at : Datetime
  pub updated_at : Datetime

abbrev reason_text : Option BlockReason → Option Text
reason_text none = none
reason_text (some reason) = some reason.value

-- `AdaptixUserViewMapper.to_view`
unfoldable pub to_view : User → UserView
to_view user = record {
  id = user.id;
  phone_number = user.phone_number.value;
  first_name = user.full_name.first_name;
  last_name = user.full_name.last_name;
  role = user.role;
  status = user.status;
  block_reason = reason_text user.block_reason;
  notify_via = user.preferences.notify_via;
  locale = user.preferences.locale.value;
  marketing_consent = user.preferences.marketing_consent;
  accounts = user.accounts;
  created_at = user.created_at;
  updated_at = user.updated_at;
}

-- `AnyOf(CanManageSelf(), CanManageSubordinate())`
unfoldable pub self_or_subordinate : Permission UserManagementContext
unfolding any_of can_manage_self can_manage_subordinate
self_or_subordinate = any_of (can_manage_self ∷ can_manage_subordinate ∷ [])

-- What every handler begins with: the caller, the person that the command names, and the
-- permission.
unfoldable pub authorized :
    Option ExternalAccountId → ℕ → Permission UserManagementContext → Exec Work (User × User)
unfolding current_user require_user authorize
authorized caller user_id permission = do
  subject ← current_user caller
  target ← require_user user_id
  lift (authorize permission (record { subject = subject; target = target }))
  pure (subject, target)

-- A change of the target, and their view.
unfoldable pub change : Exec (Session User) Unit → User → Exec Work UserView
unfolding to_view
change method = on_user (do method; gets (λ s. to_view s.entity))

-- `BlockUserHandler.handle`
unfoldable pub block_user : Option ExternalAccountId → ℕ → Text → Datetime → Exec Work UserView
unfolding authorized can_manage_subordinate
block_user caller user_id reason now = do
  (subject, target) ← authorized caller user_id can_manage_subordinate
  r ← lift (make_block_reason reason)
  change (User.block r now) target

-- `UnblockUserHandler.handle`
unfoldable pub unblock_user : Option ExternalAccountId → ℕ → Datetime → Exec Work UserView
unfolding authorized can_manage_subordinate
unblock_user caller user_id now = do
  (subject, target) ← authorized caller user_id can_manage_subordinate
  change (User.unblock now) target

-- `RenameUserHandler.handle`
unfoldable pub rename_user :
    Option ExternalAccountId → ℕ → Text → Option Text → Datetime → Exec Work UserView
unfolding authorized self_or_subordinate
rename_user caller user_id first_name last_name now = do
  (subject, target) ← authorized caller user_id self_or_subordinate
  full_name ← lift (make_full_name first_name last_name)
  change (User.rename full_name now) target

-- `ChangeUserLocaleHandler.handle`
unfoldable pub change_user_locale :
    Option ExternalAccountId → ℕ → Text → Datetime → Exec Work UserView
unfolding authorized self_or_subordinate
change_user_locale caller user_id locale now = do
  (subject, target) ← authorized caller user_id self_or_subordinate
  l ← lift (make_locale locale)
  change (User.change_preferences (with_locale target.preferences l) now) target

-- `ChangeNotificationPreferencesHandler.handle`
unfoldable pub change_notification_preferences :
    Option ExternalAccountId → ℕ → MessengerPlatform → Bool → Datetime → Exec Work UserView
unfolding authorized self_or_subordinate
change_notification_preferences caller user_id notify_via consent now = do
  (subject, target) ← authorized caller user_id self_or_subordinate
  change
      (User.change_preferences
        (with_marketing_consent (with_notify_via target.preferences notify_via) consent) now)
      target

-- `UnlinkMessengerAccountHandler.handle`
unfoldable pub unlink_messenger_account :
    Option ExternalAccountId → ℕ → MessengerPlatform → Datetime → Exec Work UserView
unfolding authorized self_or_subordinate
unlink_messenger_account caller user_id p now = do
  (subject, target) ← authorized caller user_id self_or_subordinate
  change (User.unlink_account p now) target

-- `ChangeUserRoleHandler.handle`
unfoldable pub change_user_role :
    Option ExternalAccountId → ℕ → UserRole → Datetime → Exec Work UserView
unfolding authorized can_manage_subordinate can_manage_role authorize
change_user_role caller user_id role now = do
  (subject, target) ← authorized caller user_id can_manage_subordinate
  lift (authorize can_manage_role (record { subject = subject; target_role = role }))
  change (User.assign_role role now) target
