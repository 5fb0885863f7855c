-- ===== src/User/AccountList.antt =====
-- A list of accounts under each write.
use goldy_telegram_bot.Prelude.{
  ◌≤◌, ◌≡◌, refl, true, false, ◌||◌, Option, none, some, List, [], ◌∷◌, ◌++◌, arith, if◌then◌else◌,
  length,
}
use goldy_telegram_bot.UserValues.{MessengerPlatform, MessengerUsername, same_platform}
use goldy_telegram_bot.User.{MessengerAccount, account_for, write_username, remove_account}
use goldy_telegram_bot.User.Changes.{AreDistinct, is_linked}

pub same_platform_refl : (p : MessengerPlatform) → same_platform p p ≡ true
same_platform_refl MessengerPlatform.telegram = refl
same_platform_refl MessengerPlatform.max = refl

pub same_platform→eq : (p q : MessengerPlatform) → same_platform p q ≡ true → p ≡ q
same_platform→eq MessengerPlatform.telegram MessengerPlatform.telegram h = refl
same_platform→eq MessengerPlatform.max MessengerPlatform.max h = refl
same_platform→eq _ _ h = ground arith

pub is_linked-write_username :
    (p q : MessengerPlatform) (username : Option MessengerUsername)
    (accounts : List MessengerAccount)
    → is_linked (account_for q (write_username p username accounts))
      ≡ is_linked (account_for q accounts)
unfolding account_for write_username
is_linked-write_username p q username [] = refl
is_linked-write_username p q username (a ∷ accounts) =
    ground (arith, is_linked-write_username p q username accounts)

unlinked : (o : Option MessengerAccount) → is_linked o ≡ false → o ≡ none
unlinked none h = refl
unlinked (some a) h = cc

pub write_username-AreDistinct :
    (p : MessengerPlatform) (username : Option MessengerUsername) (accounts : List MessengerAccount)
    → AreDistinct accounts
    → AreDistinct (write_username p username accounts)
unfolding write_username
write_username-AreDistinct p username [] h = tt
write_username-AreDistinct p username (a ∷ accounts) h = ground (
  arith,
  write_username-AreDistinct p username accounts h.1,
  unlinked (account_for a.platform (write_username p username accounts)),
  is_linked-write_username p a.platform username accounts,
)

pub account_for-remove_account :
    (p q : MessengerPlatform) (accounts : List MessengerAccount)
    → AreDistinct accounts
    → account_for q (remove_account p accounts)
      ≡ (if same_platform p q then none else account_for q accounts)
unfolding account_for remove_account
account_for-remove_account p q [] h = ground arith
account_for-remove_account p q (a ∷ accounts) h = ground (
  arith,
  account_for-remove_account p q accounts h.1,
  same_platform→eq a.platform p,
  same_platform→eq a.platform q,
  same_platform→eq p q,
)

pub remove_account-AreDistinct :
    (p : MessengerPlatform) (accounts : List MessengerAccount)
    → AreDistinct accounts
    → AreDistinct (remove_account p accounts)
unfolding remove_account
remove_account-AreDistinct p [] h = tt
remove_account-AreDistinct p (a ∷ accounts) h = ground (
  arith,
  remove_account-AreDistinct p accounts h.1,
  account_for-remove_account p a.platform accounts h.1,
)

pub account_for-append :
    (q : MessengerPlatform) (accounts : List MessengerAccount) (a : MessengerAccount)
    → is_linked (account_for q (accounts ++ a ∷ []))
      ≡ (is_linked (account_for q accounts) || same_platform a.platform q)
unfolding account_for
account_for-append q [] a = ground arith
account_for-append q (b ∷ accounts) a = ground (arith, account_for-append q accounts a)

pub append-AreDistinct :
    (accounts : List MessengerAccount) (a : MessengerAccount)
    → account_for a.platform accounts ≡ none
    → AreDistinct accounts
    → AreDistinct (accounts ++ a ∷ [])
unfolding account_for
append-AreDistinct [] a fresh h = (refl, tt)
append-AreDistinct (b ∷ accounts) a fresh h = ground (
  arith,
  append-AreDistinct accounts a,
  unlinked (account_for b.platform (accounts ++ a ∷ [])),
  account_for-append b.platform accounts a,
  same_platform→eq a.platform b.platform,
  same_platform_refl a.platform,
)

-- There are two platforms, so a list of distinct accounts has at most two.
pub length-AreDistinct :
    (accounts : List MessengerAccount) → AreDistinct accounts → length accounts ≤ 2
unfolding account_for
length-AreDistinct [] h = omega arith
length-AreDistinct (a ∷ []) h = omega arith
length-AreDistinct (a ∷ b ∷ []) h = omega arith
length-AreDistinct (a ∷ b ∷ c ∷ accounts) h = ground arith
