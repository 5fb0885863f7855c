-- ===== src/Tests/Shop.antt =====
-- A shop with two people, a cart and an order, on which commands are run.
use goldy_telegram_bot.Tests.{with_accounts, telegram_account, basket, placed}
use goldy_telegram_bot.Request.Tables.{Distinct}
use goldy_telegram_bot.User.{MessengerAccount}
use goldy_telegram_bot.UserValues.{UserRole, ExternalAccountId}
use goldy_telegram_bot.Text.{text}
use goldy_telegram_bot.User.{User}
use goldy_telegram_bot.Request.{user_id, Work}
use goldy_telegram_bot.Prelude.{refl, Option, some, [], ◌∷◌}

abbrev pub anna_row : User
anna_row = (with_accounts (telegram_account ∷ [])).entity

abbrev pub boss_account : MessengerAccount
boss_account = record telegram_account { external_id = record { value = text "3003" } }

abbrev pub boss : User
boss = record anna_row {
  id = 42;
  phone_number = record { value = text "+79007654321" };
  role = UserRole.manager;
  accounts = boss_account ∷ [];
}

abbrev pub shop : Work
shop = record {
  tables = record {
    users = anna_row ∷ boss ∷ [];
    carts = basket.entity ∷ [];
    orders = placed.entity ∷ [];
    outbox = [];
    inbox = [];
  };
  events = [];
}

abbrev pub by_anna : Option ExternalAccountId
by_anna = some (record { value = text "1001" })

abbrev pub by_boss : Option ExternalAccountId
by_boss = some (record { value = text "3003" })

abbrev pub people_differ : Distinct user_id shop.tables.users
people_differ = ((refl, tt), (tt, tt))
