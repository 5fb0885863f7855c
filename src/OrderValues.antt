-- ===== src/OrderValues.antt =====
-- domain/orders/values: the texts of an order, its recipient and its enumerations.
use goldy_telegram_bot.Prelude.{ℕ, Bool, ◌&&◌, not, Option, ltb, leb, length, any, is_nil}
use goldy_telegram_bot.Result.{
  Result, ok, empty_delivery_address, too_short_delivery_address, too_long_delivery_address,
  foreign_delivery_address, incomplete_delivery_address, empty_order_comment,
  too_long_order_comment, empty_cancellation_reason, too_long_cancellation_reason, raise_if, ◌>>=◌,
  ◌>>◌,
}
use goldy_telegram_bot.Text.{Text, strip, is_blank, is_decimal}
use goldy_telegram_bot.PhoneNumber.{PhoneNumber}
use goldy_telegram_bot.UserValues.{make_full_name}

pub data OrderStatus : Type 0 where
  new confirmed shipped completed cancelled : OrderStatus

pub data CancellationInitiator : Type 0 where
  customer manager : CancellationInitiator

abbrev pub max_cancellation_reason_length : ℕ
max_cancellation_reason_length = 500

pub record CancellationReason : Type 0 where
  pub value : Text

unfoldable pub make_cancellation_reason : Text → Result CancellationReason
make_cancellation_reason value = do
  raise_if (is_blank value) empty_cancellation_reason
  raise_if (ltb max_cancellation_reason_length (length value)) too_long_cancellation_reason
  ok (record { value = value })

abbrev pub max_order_comment_length : ℕ
max_order_comment_length = 500

pub record OrderComment : Type 0 where
  pub value : Text

unfoldable pub make_order_comment : Text → Result OrderComment
make_order_comment value = do
  raise_if (is_blank value) empty_order_comment
  raise_if (ltb max_order_comment_length (length value)) too_long_order_comment
  ok (record { value = value })

abbrev pub min_delivery_address_length : ℕ
min_delivery_address_length = 10

abbrev pub max_delivery_address_length : ℕ
max_delivery_address_length = 500

pub record DeliveryAddress : Type 0 where
  pub value : Text

-- `[Ѐ-ӿ]`
abbrev pub is_cyrillic : ℕ → Bool
is_cyrillic c = leb 0x400 c && leb c 0x4ff

unfoldable pub make_delivery_address : Text → Result DeliveryAddress
make_delivery_address value = do
  let stripped = strip value
  raise_if (is_nil stripped) empty_delivery_address
  raise_if (ltb (length stripped) min_delivery_address_length) too_short_delivery_address
  raise_if (ltb max_delivery_address_length (length value)) too_long_delivery_address
  raise_if (not (any is_cyrillic stripped)) foreign_delivery_address
  raise_if (not (any is_decimal stripped)) incomplete_delivery_address
  ok (record { value = value })

pub record Recipient : Type 0 where
  pub first_name : Text
  pub last_name : Option Text
  pub phone_number : PhoneNumber

-- The name rules are those of `FullName`.
unfoldable pub make_recipient : Text → Option Text → PhoneNumber → Result Recipient
unfolding make_full_name
make_recipient first_name last_name phone_number = do
  full_name ← make_full_name first_name last_name
  ok (record { first_name = first_name; last_name = last_name; phone_number = phone_number })
