-- ===== src/Tests/Confirmations.antt =====
-- Runs of a confirmation.
use goldy_telegram_bot.OrderValues.{make_delivery_address, make_recipient}
use goldy_telegram_bot.Prelude.{false}
use goldy_telegram_bot.Cart
use goldy_telegram_bot.Decimal
use goldy_telegram_bot.Money
use goldy_telegram_bot.OrderNumber
use goldy_telegram_bot.PhoneNumber
use goldy_telegram_bot.Prelude.{List, ◌≡◌, ◌∷◌, refl, [], none, some, true, length, arith}
use goldy_telegram_bot.Prelude.Int.{pos}
use goldy_telegram_bot.PlaceOrder.{
  PricingReader, CartPricing, PlaceOrderCommand, order_from, for_cart, resolve_for,
  ensure_not_repriced, total_from, total_for, build_checkout,
}
use goldy_telegram_bot.PlaceOrder.Confirmed.{order_charges_shown, second_confirmation}
use goldy_telegram_bot.Checkout.{checkout, build_lines, price_for}
use goldy_telegram_bot.Order.{Order, place, total_of}
use goldy_telegram_bot.Money.{Currency}
use goldy_telegram_bot.Money.Arithmetic.{Amounts}
use goldy_telegram_bot.Decimal.{finite, shift}
use goldy_telegram_bot.OrderNumber.{derive, matches_order_number}
use goldy_telegram_bot.PhoneNumber.{from_raw, digits_of, matches_e164}
use goldy_telegram_bot.Text.{text, same, is_space, is_blank, strip, lstrip, rstrip, is_decimal}
use goldy_telegram_bot.Result.{Result, ok, err, empty_cart, repo}
use goldy_telegram_bot.Tests.{
  morning, evening, basket, prices, bread, milk, ninety, rubles, placed, order_line_of, somewhere,
}

abbrev retail : PricingReader
retail = record {
  read_price_type_for = λ user_id.
      some (record { price_type_id = record { value = text "retail" }; is_supported = true });
  read_cart_prices =
      λ products price_type_id. ok (record { priced_products = prices; unpriced_product_ids = [] });
}

abbrev pricing : CartPricing
pricing = record { price_type_id = record { value = text "retail" }; priced_products = prices }

-- The total on the screen is Decimal("115").
abbrev command : PlaceOrderCommand
command = record {
  delivery_address = somewhere.value;
  recipient_first_name = text "Anna";
  recipient_last_name = none;
  recipient_phone_number = text "8 900 123-45-67";
  comment = none;
  expected_total = finite false 115 (pos 0);
  expected_line_count = 2;
}

abbrev ordered : Order
ordered = record (placed.entity) {
  lines = order_line_of 1 bread (rubles 1250) 2 ∷ order_line_of 2 milk ninety 1 ∷ [];
}

confirmed : (order_from retail command 5 morning evening basket).0 ≡ ok ordered
unfolding order_from Cart.ensure_not_empty for_cart resolve_for ensure_not_repriced total_for
    total_from build_checkout checkout build_lines price_for same place total_of Money.add
    Money.make Money.times Decimal.add Decimal.lt shift Cart.clear derive OrderNumber.make
    matches_order_number is_blank is_space is_decimal from_raw PhoneNumber.make digits_of
    matches_e164 strip lstrip rstrip make_delivery_address make_recipient
confirmed = refl

order_charges_shown_example :
    (length ordered.lines ≡ 2) × Amounts (total_of ordered.lines) 11500 Currency.rub
unfolding for_cart resolve_for shift
order_charges_shown_example =
    order_charges_shown retail command 5 morning evening basket Currency.rub pricing ordered refl
      (((refl, omega arith, omega arith), refl), (((refl, omega arith, omega arith), refl), tt))
      (refl, omega arith, omega arith) confirmed

second_confirmation_example :
    order_from retail command 6 evening evening
      (order_from retail command 5 morning evening basket).1
    ≡ (err empty_cart, (order_from retail command 5 morning evening basket).1)
second_confirmation_example =
    second_confirmation retail command 5 morning evening basket ordered retail command 6 evening
      evening confirmed

-- A storage of orders whose insertion fails.
abbrev failing : Order → List Order → Result (Unit {0}) × List Order
failing order orders = (err repo, orders)
