-- ===== src/User/Changes.antt =====
-- The calls that change a person, and what each of them is meant to allow.
use goldy_telegram_bot.Exec.{Exec}
use goldy_telegram_bot.Time.{Datetime}
use goldy_telegram_bot.PhoneNumber.{PhoneNumber}
use goldy_telegram_bot.Event.{Session}
use goldy_telegram_bot.Prelude.{◌≡◌, Bool, true, false, Option, none, some, List, [], ◌∷◌}
use goldy_telegram_bot.UserValues.{
  UserRole, UserStatus, MessengerPlatform, BlockReason, MessengerUsername, FullName,
  UserPreferences,
}
use goldy_telegram_bot.User.{
  User, MessengerAccount, account_for, link_account, unlink_account, refresh_username, rename,
  change_phone_number, change_preferences, assign_role, block, unblock,
}

pub data Change : Type 0 where
  link : MessengerAccount → Datetime → Change
  unlink : MessengerPlatform → Datetime → Change
  refresh : MessengerPlatform → Option MessengerUsername → Change
  name : FullName → Datetime → Change
  phone : PhoneNumber → Datetime → Change
  prefer : UserPreferences → Datetime → Change
  appoint : UserRole → Datetime → Change
  bar : BlockReason → Datetime → Change
  readmit : Datetime → Change

unfoldable pub apply : Change → Exec (Session User) Unit
unfolding link_account unlink_account refresh_username rename change_phone_number change_preferences
    assign_role block unblock
apply (link account now) = link_account account now
apply (unlink p now) = unlink_account p now
apply (refresh p username) = refresh_username p username
apply (name full_name now) = rename full_name now
apply (phone phone_number now) = change_phone_number phone_number now
apply (prefer preferences now) = change_preferences preferences now
apply (appoint role now) = assign_role role now
apply (bar reason now) = block reason now
apply (readmit now) = unblock now

-- The changes one after another, each refused or made.
unfoldable pub run : List Change → Session User → Session User
run [] s = s
run (c ∷ cs) s = run cs (apply c s).1

-- At most one account of each platform.
abbrev pub AreDistinct : List MessengerAccount → Type 0
AreDistinct [] = Unit
AreDistinct (a ∷ accounts) = (account_for a.platform accounts ≡ none) × AreDistinct accounts

abbrev pub is_linked : Option MessengerAccount → Bool
is_linked none = false
is_linked (some account) = true

-- A block and its reason go together.
abbrev Explained : UserStatus → Option BlockReason → Type 0
Explained UserStatus.active none = Unit
Explained UserStatus.blocked (some reason) = Unit
Explained status reason = ⊥

-- A person can be reached: the platform of their notifications is linked.
pub record IsValid (user : User) : Type 0 where
  pub distinct : AreDistinct user.accounts
  pub reachable : is_linked (account_for user.preferences.notify_via user.accounts) ≡ true
  pub explained : Explained user.status user.block_reason
