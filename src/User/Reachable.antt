-- ===== src/User/Reachable.antt =====
-- The account through which a person is notified.
use goldy_telegram_bot.Result.{ok}
use goldy_telegram_bot.User.Accounts.{remove_account}
use goldy_telegram_bot.User.AccountList.{
  length-AreDistinct, same_platform_refl, same_platform→eq, is_linked-write_username,
  write_username-AreDistinct, account_for-remove_account, remove_account-AreDistinct,
  account_for-append, append-AreDistinct,
}
use goldy_telegram_bot.Time.{Datetime}
use goldy_telegram_bot.UserValues.{
  UserRole, MessengerPlatform, BlockReason, MessengerUsername, FullName, UserPreferences,
}
use goldy_telegram_bot.PhoneNumber.{PhoneNumber}
use goldy_telegram_bot.Event.{Event, Session}
use goldy_telegram_bot.Prelude.{
  ℕ, ◌≤◌, inl, inr, Option-cases, ◌≡◌, true, false, Option, some, List, [], ◌∷◌, arith, ◌==◌,
  length, is_nil,
}
use goldy_telegram_bot.User.{
  register, notification_account, Registration, first_platform, redirected, User, MessengerAccount,
  account_for, link_account, unlink_account, refresh_username, rename, change_phone_number,
  change_preferences, assign_role, block, unblock,
}
use goldy_telegram_bot.User.Changes.{
  run, name, Change, link, unlink, refresh, phone, prefer, appoint, bar, readmit, apply, IsValid,
  AreDistinct, is_linked,
}

first_linked :
    (accounts : List MessengerAccount) (p : MessengerPlatform)
    → is_nil accounts ≡ false
    → is_linked (account_for (first_platform accounts p) accounts) ≡ true
unfolding account_for
first_linked [] p h = cc
first_linked (a ∷ accounts) p h = ground (arith, same_platform_refl a.platform)

some_left :
    (p : MessengerPlatform) (accounts : List MessengerAccount)
    → is_linked (account_for p accounts) ≡ true
    → (length accounts == 1) ≡ false
    → is_nil (remove_account p accounts) ≡ false
unfolding account_for remove_account
some_left p [] h k = cc
some_left p (a ∷ []) h k = cc
some_left p (a ∷ b ∷ accounts) h k = ground arith

-- The preferences after a platform is gone point at a platform that is linked.
redirected_linked :
    (p : MessengerPlatform) (accounts : List MessengerAccount) (preferences : UserPreferences)
    → AreDistinct accounts
    → is_linked (account_for preferences.notify_via accounts) ≡ true
    → is_nil (remove_account p accounts) ≡ false
    → is_linked (
        account_for
          (redirected p (remove_account p accounts) preferences).notify_via
          (remove_account p accounts))
      ≡ true
redirected_linked p accounts preferences d h k = ground (
  arith,
  first_linked (remove_account p accounts) preferences.notify_via k,
  account_for-remove_account p preferences.notify_via accounts d,
  same_platform→eq p preferences.notify_via,
  same_platform_refl preferences.notify_via,
)

module _ (s : Session User) (v : IsValid s.entity) where
  link-IsValid : (a : MessengerAccount) (now : Datetime) → IsValid (link_account a now s).1.entity
  unfolding link_account
  link-IsValid a now = ground (
    arith,
    write_username-AreDistinct a.platform a.username s.entity.accounts v.distinct,
    is_linked-write_username a.platform s.entity.preferences.notify_via a.username
        s.entity.accounts,
    append-AreDistinct s.entity.accounts a,
    account_for-append s.entity.preferences.notify_via s.entity.accounts a,
  )

  unlink-IsValid :
      (p : MessengerPlatform) (now : Datetime) → IsValid (unlink_account p now s).1.entity
  unfolding unlink_account
  unlink-IsValid p now = ground (
    arith,
    remove_account-AreDistinct p s.entity.accounts v.distinct,
    some_left p s.entity.accounts,
    redirected_linked p s.entity.accounts s.entity.preferences v.distinct v.reachable,
  )

  refresh-IsValid :
      (p : MessengerPlatform) (username : Option MessengerUsername)
      → IsValid (refresh_username p username s).1.entity
  unfolding refresh_username
  refresh-IsValid p username = ground (
    arith,
    write_username-AreDistinct p username s.entity.accounts v.distinct,
    is_linked-write_username p s.entity.preferences.notify_via username s.entity.accounts,
  )

  rename-IsValid : (n : FullName) (now : Datetime) → IsValid (rename n now s).1.entity
  unfolding rename
  rename-IsValid n now = ground arith

  phone-IsValid :
      (n : PhoneNumber) (now : Datetime) → IsValid (change_phone_number n now s).1.entity
  unfolding change_phone_number
  phone-IsValid n now = ground arith

  prefer-IsValid :
      (p : UserPreferences) (now : Datetime) → IsValid (change_preferences p now s).1.entity
  unfolding change_preferences
  prefer-IsValid p now = ground arith

  appoint-IsValid : (r : UserRole) (now : Datetime) → IsValid (assign_role r now s).1.entity
  unfolding assign_role
  appoint-IsValid r now = ground arith

  bar-IsValid : (r : BlockReason) (now : Datetime) → IsValid (block r now s).1.entity
  unfolding block
  bar-IsValid r now = ground arith

  readmit-IsValid : (now : Datetime) → IsValid (unblock now s).1.entity
  unfolding unblock
  readmit-IsValid now = ground arith

  -- A change, refused or made, keeps a person valid.
  pub apply-IsValid : (c : Change) → IsValid (apply c s).1.entity
  unfolding apply
  apply-IsValid (link a now) = link-IsValid a now
  apply-IsValid (unlink p now) = unlink-IsValid p now
  apply-IsValid (refresh p username) = refresh-IsValid p username
  apply-IsValid (name n now) = rename-IsValid n now
  apply-IsValid (phone n now) = phone-IsValid n now
  apply-IsValid (prefer p now) = prefer-IsValid p now
  apply-IsValid (appoint r now) = appoint-IsValid r now
  apply-IsValid (bar r now) = bar-IsValid r now
  apply-IsValid (readmit now) = readmit-IsValid now

run-IsValid : (cs : List Change) (s : Session User) → IsValid s.entity → IsValid (run cs s).entity
unfolding run
run-IsValid [] s v = v
run-IsValid (c ∷ cs) s v = run-IsValid cs (apply c s).1 (apply-IsValid s v c)

registered-IsValid :
    (user_id : ℕ) (r : Registration) (created_at updated_at : Datetime) (events : List Event)
    (s : Session User)
    → register user_id r created_at updated_at events ≡ ok s
    → IsValid s.entity
unfolding register account_for
registered-IsValid user_id r created_at updated_at events s h =
    ground (arith, same_platform_refl r.account.platform)

valid_notification :
    (user : User)
    → IsValid user
    → (account : MessengerAccount) × (notification_account user ≡ ok account)
      × (account_for user.preferences.notify_via user.accounts ≡ some account)
unfolding notification_account
valid_notification user v =
    elim (Option-cases (account_for user.preferences.notify_via user.accounts)) [
      | inl absent ↦ absurd (ground arith)
      | inr (account, found) ↦ (account, ground arith, found)
    ]

-- Whatever changes are tried on a person after registration, an account to notify them through is
-- found, no platform has two accounts, and there are at most two accounts.
pub registered_notified :
    (user_id : ℕ) (r : Registration) (created_at updated_at : Datetime) (events : List Event)
    (s : Session User) (cs : List Change)
    → register user_id r created_at updated_at events ≡ ok s
    → ((account : MessengerAccount) × (notification_account (run cs s).entity ≡ ok account))
      × AreDistinct (run cs s).entity.accounts
      × (length (run cs s).entity.accounts ≤ 2)
registered_notified user_id r created_at updated_at events s cs h =
    let v = run-IsValid cs s (registered-IsValid user_id r created_at updated_at events s h) in
    let (account, found, _) = valid_notification (run cs s).entity v in
    ((account, found), v.distinct, length-AreDistinct (run cs s).entity.accounts v.distinct)
