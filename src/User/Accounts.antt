-- ===== src/User/Accounts.antt =====
-- domain/users/entities/messenger_account.py, and the list of a person's accounts.
use goldy_telegram_bot.Time.{Datetime}
use goldy_telegram_bot.Prelude.{Option, none, some, List, [], ◌∷◌, if◌then◌else◌}
use goldy_telegram_bot.UserValues.{
  MessengerPlatform, ExternalAccountId, MessengerUsername, same_platform,
}

pub record MessengerAccount : Type 0 where
  pub platform : MessengerPlatform
  pub external_id : ExternalAccountId
  pub username : Option MessengerUsername
  pub linked_at : Datetime

-- `User.account_for` over the accounts
unfoldable pub account_for : MessengerPlatform → List MessengerAccount → Option MessengerAccount
account_for p [] = none
account_for p (a ∷ accounts) = if same_platform a.platform p then some a else account_for p accounts

-- `account.username = username` on the account that `account_for` finds
unfoldable pub write_username :
    MessengerPlatform → Option MessengerUsername → List MessengerAccount → List MessengerAccount
write_username p username [] = []
write_username p username (a ∷ accounts) =
    if same_platform a.platform p
    then record a { username = username } ∷ accounts
    else a ∷ write_username p username accounts

-- `self.accounts.remove(account)` of the account that `account_for` finds
unfoldable pub remove_account : MessengerPlatform → List MessengerAccount → List MessengerAccount
remove_account p [] = []
remove_account p (a ∷ accounts) =
    if same_platform a.platform p then accounts else a ∷ remove_account p accounts
