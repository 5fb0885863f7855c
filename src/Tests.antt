-- ===== src/Tests.antt =====
-- Concrete carts, orders and people, on which the operations are run.
use goldy_telegram_bot.OrderStatus
use goldy_telegram_bot.Order.{OrderLine}
use goldy_telegram_bot.User.{MessengerAccount}
use goldy_telegram_bot.OrderValues.{OrderStatus, CancellationReason, DeliveryAddress, Recipient}
use goldy_telegram_bot.Order.{Order}
use goldy_telegram_bot.Catalog.{SourceId, PricedProduct}
use goldy_telegram_bot.User.Changes.{name}
use goldy_telegram_bot.Money.{Currency, Money}
use goldy_telegram_bot.Time.{Datetime}
use goldy_telegram_bot.UserValues.{UserRole, UserStatus, MessengerPlatform}
use goldy_telegram_bot.Decimal.{finite}
use goldy_telegram_bot.Quantity.{Quantity}
use goldy_telegram_bot.Cart.{CartLine, Cart}
use goldy_telegram_bot.User.{User}
use goldy_telegram_bot.PhoneNumber.{PhoneNumber}
use goldy_telegram_bot.Event.{Session}
pub mod Values
pub mod Carts
pub mod Orders
pub mod Checkouts
pub mod People
pub mod Confirmations
pub mod Shop
pub mod Commands
pub mod Deliveries
pub mod Letters
pub mod Projections
use goldy_telegram_bot.Prelude.{ℕ, false, none, some, [], ◌∷◌, List}
use goldy_telegram_bot.Text.{text}
use goldy_telegram_bot.Prelude.Int.{pos, negsuc}

abbrev pub morning : Datetime
morning = record { year = 2025; month = 6; day = 9; microsecond_of_day = 36000000000 }

abbrev pub evening : Datetime
evening = record { year = 2025; month = 6; day = 9; microsecond_of_day = 72000000000 }

abbrev pub pieces : ℕ → Quantity
pieces n = record { value = n }

abbrev pub bread : SourceId
bread = record { value = text "bread" }

abbrev pub milk : SourceId
milk = record { value = text "milk" }

abbrev pub salt : SourceId
salt = record { value = text "salt" }

abbrev pub line_of : SourceId → ℕ → CartLine
line_of p n = record { product_id = p; quantity = pieces n; added_at = morning }

-- Two loaves and a bottle.
abbrev pub basket : Session Cart
basket = record {
  entity = record {
    id = 7;
    created_at = morning;
    updated_at = morning;
    user_id = 41;
    lines = line_of bread 2 ∷ line_of milk 1 ∷ [];
  };
  events = [];
}

abbrev pub rubles : ℕ → Money
rubles hundredths = record { amount = finite false hundredths (negsuc 1); currency = Currency.rub }

-- Decimal("9E+1")
abbrev pub ninety : Money
ninety = record { amount = finite false 9 (pos 1); currency = Currency.rub }

abbrev pub priced_at : SourceId → Money → PricedProduct
priced_at p price = record {
  product_id = p;
  sku = record { value = text "A-1" };
  name = record { value = text "goods" };
  unit = record { source_id = none; name = text "pcs" };
  unit_price = price;
}

abbrev pub prices : List PricedProduct
prices = priced_at bread (rubles 1250) ∷ priced_at milk ninety ∷ []

abbrev pub somewhere : DeliveryAddress
somewhere = record { value = 0x43c ∷ text " street 12, flat 3" }

abbrev pub elsewhere : DeliveryAddress
elsewhere = record { value = 0x43c ∷ text " street 15, flat 1" }

abbrev pub phone_number : PhoneNumber
phone_number = record { value = text "+79001234567" }

abbrev pub anna : Recipient
anna = record { first_name = text "Anna"; last_name = none; phone_number = phone_number }

abbrev pub order_line_of : ℕ → SourceId → Money → ℕ → OrderLine
order_line_of position p price n = record {
  position = position;
  product_id = p;
  sku = record { value = text "A-1" };
  name = record { value = text "goods" };
  unit = record { source_id = none; name = text "pcs" };
  unit_price = price;
  quantity = pieces n;
}

abbrev pub placed : Session Order
placed = record {
  entity = record {
    id = 5;
    created_at = morning;
    updated_at = morning;
    number = record { value = text "250609-000005" };
    customer_id = 41;
    delivery_address = somewhere;
    recipient = anna;
    price_type_id = record { value = text "retail" };
    status = OrderStatus.new;
    lines = order_line_of 1 bread (rubles 1250) 2 ∷ order_line_of 2 milk ninety 1 ∷ [];
    comment = none;
    cancellation_reason = none;
    cancelled_by = none;
    cancelled_by_user_id = none;
  };
  events = [];
}

abbrev pub out_of_stock : CancellationReason
out_of_stock = record { value = text "out of stock" }

abbrev pub telegram_account : MessengerAccount
telegram_account = record {
  platform = MessengerPlatform.telegram;
  external_id = record { value = text "1001" };
  username = none;
  linked_at = morning;
}

abbrev pub max_account : MessengerAccount
max_account = record {
  platform = MessengerPlatform.max;
  external_id = record { value = text "2002" };
  username = some (record { value = text "anna" });
  linked_at = evening;
}

abbrev pub with_accounts : List MessengerAccount → Session User
with_accounts accounts = record {
  entity = record {
    id = 41;
    created_at = morning;
    updated_at = morning;
    phone_number = phone_number;
    full_name = record { first_name = text "Anna"; last_name = none };
    preferences = record {
      notify_via = MessengerPlatform.telegram;
      locale = record { value = text "ru" };
      marketing_consent = false;
    };
    role = UserRole.customer;
    status = UserStatus.active;
    block_reason = none;
    accounts = accounts;
  };
  events = [];
}
