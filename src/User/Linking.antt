-- ===== src/User/Linking.antt =====
-- Linking and unlinking messenger accounts.
use goldy_telegram_bot.User.Accounts.{write_username}
use goldy_telegram_bot.User.AccountList.{
  same_platform_refl, same_platform→eq, account_for-remove_account,
}
use goldy_telegram_bot.Time.{Datetime}
use goldy_telegram_bot.UserValues.{same_platform, MessengerPlatform, MessengerUsername}
use goldy_telegram_bot.Text.{same_refl}
use goldy_telegram_bot.Result.{Error, platform_already_linked, ok, err}
use goldy_telegram_bot.Event.{Session}
use goldy_telegram_bot.Prelude.{
  ◌≡◌, refl, ◌⊎◌, true, false, Option, none, some, List, [], ◌∷◌, ◌++◌, arith, if◌then◌else◌,
  length,
}
use goldy_telegram_bot.User.{
  User, MessengerAccount, account_for, link_account, unlink_account, has_account,
}
use goldy_telegram_bot.User.Changes.{IsValid, is_linked}

abbrev renamed : Option MessengerUsername → Option MessengerAccount → Option MessengerAccount
renamed username none = none
renamed username (some account) = some (record account { username = username })

account_for-write_username :
    (p q : MessengerPlatform) (username : Option MessengerUsername)
    (accounts : List MessengerAccount)
    → account_for q (write_username p username accounts) ≡ (
        if same_platform p q
        then renamed username (account_for q accounts)
        else account_for q accounts)
unfolding account_for write_username
account_for-write_username p q username [] = ground arith
account_for-write_username p q username (a ∷ accounts) = ground (
  arith,
  account_for-write_username p q username accounts,
  same_platform→eq a.platform p,
  same_platform→eq a.platform q,
  same_platform→eq p q,
)

abbrev or_account : Option MessengerAccount → Option MessengerAccount → Option MessengerAccount
or_account none b = b
or_account (some a) b = some a

account_for-append_lem :
    (q : MessengerPlatform) (accounts : List MessengerAccount) (a : MessengerAccount)
    → account_for q (accounts ++ a ∷ [])
      ≡ or_account (account_for q accounts) (if same_platform a.platform q then some a else none)
unfolding account_for
account_for-append_lem q [] a = refl
account_for-append_lem q (b ∷ accounts) a = ground (arith, account_for-append_lem q accounts a)

-- The accounts' lookup after the account `a` was linked: its platform has it, under its latest
-- handle and with the date of the first linking; the others have what they had.
abbrev linked_as : MessengerAccount → Option MessengerAccount → MessengerAccount
linked_as a none = a
linked_as a (some account) = record account { username = a.username }

module _ (s : Session User) (a : MessengerAccount) (now : Datetime) where
  -- Once an account has been linked, the person has it under its latest handle, and every other
  -- platform has the account it had.
  pub link_account_done :
      (q : MessengerPlatform)
      → (link_account a now s).0 ≡ ok tt
      → (has_account a.platform a.external_id (link_account a now s).1.entity ≡ true)
        × (account_for q (link_account a now s).1.entity.accounts ≡ (
            if same_platform a.platform q
            then some (linked_as a (account_for q s.entity.accounts))
            else account_for q s.entity.accounts))
  unfolding link_account has_account
  link_account_done q h = (
    ground (
      arith,
      account_for-write_username a.platform a.platform a.username s.entity.accounts,
      account_for-append_lem a.platform s.entity.accounts a,
      same_platform_refl a.platform,
      same_refl a.external_id.value,
    ),
    ground (
      arith,
      account_for-write_username a.platform q a.username s.entity.accounts,
      account_for-append_lem q s.entity.accounts a,
      same_platform→eq a.platform q,
    ),
  )

  -- A refusal to link an account changes nothing and says that the platform is linked already: the
  -- person has an account there, and it is another one.
  pub link_account_refused :
      (e : Error)
      → (link_account a now s).0 ≡ err e
      → (e ≡ platform_already_linked)
        × ((link_account a now s).1 ≡ s)
        × (is_linked (account_for a.platform s.entity.accounts) ≡ true)
        × (has_account a.platform a.external_id s.entity ≡ false)
  unfolding link_account has_account
  link_account_refused e h = ground arith

  -- Linking an account once more after it was linked is accepted and announces nothing more.
  pub link_account_twice :
      (later : Datetime)
      → (link_account a now s).0 ≡ ok tt
      → ((link_account a later (link_account a now s).1).0 ≡ ok tt)
        × ((link_account a later (link_account a now s).1).1.events
            ≡ (link_account a now s).1.events)
  unfolding link_account
  link_account_twice later h = ground (
    arith,
    account_for-write_username a.platform a.platform a.username s.entity.accounts,
    account_for-append_lem a.platform s.entity.accounts a,
    same_platform_refl a.platform,
    same_refl a.external_id.value,
  )

module _ (s : Session User) (p : MessengerPlatform) (now : Datetime) where
  -- Once the account of a platform has been unlinked from a person with at most one account on each
  -- platform, that platform has no account and every other platform has the account it had.
  pub unlink_account_done :
      (q : MessengerPlatform)
      → IsValid s.entity
      → (unlink_account p now s).0 ≡ ok tt
      → account_for q (unlink_account p now s).1.entity.accounts
        ≡ (if same_platform p q then none else account_for q s.entity.accounts)
  unfolding unlink_account
  unlink_account_done q v h =
      ground (arith, account_for-remove_account p q s.entity.accounts v.distinct)

  -- A refusal to unlink an account changes nothing: there is none on that platform, or it is the
  -- only one of the person.
  pub unlink_account_refused :
      (e : Error)
      → (unlink_account p now s).0 ≡ err e
      → ((unlink_account p now s).1 ≡ s)
        × ((account_for p s.entity.accounts ≡ none) ⊎ (length s.entity.accounts ≡ 1))
  unfolding unlink_account
  unlink_account_refused e h = ground arith
