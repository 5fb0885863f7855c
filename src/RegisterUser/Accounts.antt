-- ===== src/RegisterUser/Accounts.antt =====
-- The accounts of a person under the methods that register_user calls.
use goldy_telegram_bot.User
use goldy_telegram_bot.User.{account_for, write_username, MessengerAccount}
use goldy_telegram_bot.User.AccountList.{same_platform_refl}
use goldy_telegram_bot.Time.{Datetime}
use goldy_telegram_bot.UserValues.{MessengerPlatform, ExternalAccountId, MessengerUsername}
use goldy_telegram_bot.Text.{same_refl, same_iff}
use goldy_telegram_bot.Result.{ok}
use goldy_telegram_bot.User.{User}
use goldy_telegram_bot.Request.{is_account}
use goldy_telegram_bot.Event.{Session}
use goldy_telegram_bot.Prelude.{
  ◌≡◌, refl, inl, inr, Bool, true, Option, some, List, [], ◌∷◌, ◌++◌, arith, Option-cases, any,
}

abbrev pub holds : MessengerPlatform → ExternalAccountId → List MessengerAccount → Bool
holds p external_id = any (is_account p external_id)

holds-write_username :
    (p q : MessengerPlatform) (external_id : ExternalAccountId)
    (username : Option MessengerUsername) (accounts : List MessengerAccount)
    → holds p external_id (write_username q username accounts) ≡ holds p external_id accounts
unfolding write_username
holds-write_username p q external_id username [] = refl
holds-write_username p q external_id username (a ∷ accounts) =
    ground (arith, holds-write_username p q external_id username accounts)

holds-append :
    (external_id : ExternalAccountId) (accounts : List MessengerAccount) (a : MessengerAccount)
    → a.external_id ≡ external_id
    → holds a.platform external_id (accounts ++ a ∷ []) ≡ true
holds-append external_id [] a h =
    ground (arith, same_platform_refl a.platform, same_refl external_id.value)
holds-append external_id (b ∷ accounts) a h = ground (arith, holds-append external_id accounts a h)

account_for-holds :
    (p : MessengerPlatform) (accounts : List MessengerAccount) (a : MessengerAccount)
    → account_for p accounts ≡ some a
    → holds p a.external_id accounts ≡ true
unfolding account_for
account_for-holds p [] a h = cc
account_for-holds p (b ∷ accounts) a h =
    ground (arith, account_for-holds p accounts a, same_refl b.external_id.value)

pub refresh_username-holds :
    (p : MessengerPlatform) (external_id : ExternalAccountId) (username : Option MessengerUsername)
    (s : Session User)
    → (holds p external_id (User.refresh_username p username s).1.entity.accounts
        ≡ holds p external_id s.entity.accounts)
      × ((User.refresh_username p username s).1.entity.id ≡ s.entity.id)
      × ((User.refresh_username p username s).0 ≡ ok tt)
unfolding User.refresh_username
refresh_username-holds p external_id username s =
    ground (arith, holds-write_username p p external_id username s.entity.accounts)

pub link_account-holds :
    (a : MessengerAccount) (now : Datetime) (s : Session User)
    → (User.link_account a now s).0 ≡ ok tt
    → (holds a.platform a.external_id (User.link_account a now s).1.entity.accounts ≡ true)
      × ((User.link_account a now s).1.entity.id ≡ s.entity.id)
unfolding User.link_account
link_account-holds a now s h = elim (Option-cases (account_for a.platform s.entity.accounts)) [
  | inl absent ↦ ground (arith, holds-append a.external_id s.entity.accounts a refl)
  | inr (linked, found) ↦ ground (
    arith,
    holds-write_username a.platform a.platform a.external_id a.username s.entity.accounts,
    account_for-holds a.platform s.entity.accounts linked found,
    same_iff linked.external_id.value a.external_id.value,
  )
]
