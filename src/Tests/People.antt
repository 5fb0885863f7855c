-- ===== src/Tests/People.antt =====
-- Runs of a person's account, and of the permissions.
use goldy_telegram_bot.User.{MessengerAccount}
use goldy_telegram_bot.User.Reachable.{registered_notified}
use goldy_telegram_bot.User.Linking.{link_account_done}
use goldy_telegram_bot.Access.Hierarchy.{hierarchy_is_rank}
use goldy_telegram_bot.UserValues.{UserRole, MessengerPlatform, BlockReason}
use goldy_telegram_bot.Text.{text}
use goldy_telegram_bot.Result.{ok}
use goldy_telegram_bot.Access.{can_manage_subordinate, can_manage_role}
use goldy_telegram_bot.Event.{Session, user_registered}
use goldy_telegram_bot.Tests.{
  morning, evening, phone_number, telegram_account, max_account, with_accounts,
}
use goldy_telegram_bot.User.{
  User, Registration, register, account_for, link_account, has_account, notification_account,
}
use goldy_telegram_bot.User.Changes.{IsValid, Change, link, unlink, bar, run, AreDistinct}
use goldy_telegram_bot.Prelude.{◌≤◌, true, false, length, ◌≡◌, ◌∷◌, refl, [], List, none, some}

abbrev customer : Session User
customer = with_accounts (telegram_account ∷ [])

abbrev linked_twice : Session User
linked_twice = with_accounts (telegram_account ∷ max_account ∷ [])

linked_twice-IsValid : IsValid linked_twice.entity
unfolding account_for
linked_twice-IsValid = record { distinct = (refl, (refl, tt)); reachable = refl; explained = tt }

-- The account that notifications go to is unlinked, and then the other one cannot be.
abbrev changes : List Change
changes =
    link max_account evening
    ∷ unlink MessengerPlatform.telegram evening
    ∷ unlink MessengerPlatform.max evening
    ∷ bar (record { value = text "spam" }) evening
    ∷ []

abbrev registration : Registration
registration = record {
  account = telegram_account;
  phone_number = phone_number;
  full_name = record { first_name = text "Anna"; last_name = none };
  locale = record { value = text "ru" };
}

abbrev registered : Session User
registered = record customer {
  events = user_registered 41 phone_number.value MessengerPlatform.telegram (text "1001") ∷ [];
}

registered_notified_example :
    ((account : MessengerAccount) × (notification_account (run changes registered).entity
        ≡ ok account))
    × AreDistinct (run changes registered).entity.accounts
    × (length (run changes registered).entity.accounts ≤ 2)
unfolding register
registered_notified_example =
    registered_notified 41 registration morning morning [] registered changes refl

link_account_done_example :
    (has_account MessengerPlatform.max max_account.external_id
        (link_account max_account evening customer).1.entity
      ≡ true)
    × (account_for MessengerPlatform.max
          (link_account max_account evening customer).1.entity.accounts
        ≡ some max_account)
unfolding link_account account_for
link_account_done_example =
    link_account_done customer max_account evening MessengerPlatform.max refl

abbrev second_telegram : MessengerAccount
second_telegram = record telegram_account { external_id = record { value = text "1002" } }

abbrev spam : BlockReason
spam = record { value = text "spam" }

abbrev fraud : BlockReason
fraud = record { value = text "fraud" }

abbrev manager : User
manager = record (linked_twice.entity) { id = 3; role = UserRole.manager }

hierarchy_is_rank_example :
    (can_manage_subordinate (record { subject = manager; target = customer.entity }) ≡ true)
    × (can_manage_role (record { subject = manager; target_role = UserRole.manager }) ≡ false)
hierarchy_is_rank_example =
    hierarchy_is_rank (record { subject = manager; target = customer.entity })
      (record { subject = manager; target_role = UserRole.manager })
