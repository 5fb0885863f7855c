-- ===== src/Tests/Checkouts.antt =====
-- Runs of a checkout.
use goldy_telegram_bot.Checkout.Outcome.{checkout_refused, checkout_done, IsOrdered}
use goldy_telegram_bot.Checkout.Success.{checkout_succeeds}
use goldy_telegram_bot.Money.Arithmetic.{Amounts}
use goldy_telegram_bot.Money.{Currency, Money}
use goldy_telegram_bot.Text.{text, same, is_space, is_blank, is_decimal}
use goldy_telegram_bot.Decimal.{shift, Decimal}
use goldy_telegram_bot.Result.{unpriced_cart_line, ok}
use goldy_telegram_bot.OrderNumber.{OrderNumber}
use goldy_telegram_bot.Cart.{Cart}
use goldy_telegram_bot.Tests.{
  morning, evening, bread, milk, basket, rubles, ninety, priced_at, prices, somewhere, anna,
  order_line_of, placed,
}
use goldy_telegram_bot.Checkout.{Checkout, checkout, price_for, build_lines}
use goldy_telegram_bot.Cart
use goldy_telegram_bot.Decimal
use goldy_telegram_bot.Money
use goldy_telegram_bot.OrderNumber
use goldy_telegram_bot.Order.{total_of, place, Order}
use goldy_telegram_bot.Prelude.{arith, ◌≡◌, ◌∷◌, refl, [], none}

abbrev asked : Checkout
asked = record {
  priced_products = prices;
  delivery_address = somewhere;
  recipient = anna;
  comment = none;
  price_type_id = record { value = text "retail" };
}

-- With milk no longer for sale.
abbrev without_milk : Checkout
without_milk = record asked { priced_products = priced_at bread (rubles 1250) ∷ [] }

checkout_succeeds_example :
    (order : Order) × ((checkout asked 5 morning evening basket).0 ≡ ok order)
    × Amounts (total_of order.lines) 11500 Currency.rub
unfolding price_for same shift
checkout_succeeds_example =
    checkout_succeeds asked 5 morning evening basket Currency.rub refl
      ((priced_at bread (rubles 1250), refl), ((priced_at milk ninety, refl), tt))
      (((refl, omega arith, omega arith), refl), (((refl, omega arith, omega arith), refl), tt))
      (omega arith)

abbrev ordered : Order
ordered = record (placed.entity) {
  lines = order_line_of 1 bread (rubles 1250) 2 ∷ order_line_of 2 milk ninety 1 ∷ [];
}

runs : (checkout asked 5 morning evening basket).0 ≡ ok ordered
unfolding checkout build_lines price_for same place total_of Money.add Money.make Money.times
    Decimal.add Decimal.lt shift Cart.ensure_not_empty Cart.clear OrderNumber.derive
    OrderNumber.make OrderNumber.matches_order_number is_blank is_space is_decimal
runs = refl

checkout_done_example :
    IsOrdered asked 5 morning evening basket ordered (checkout asked 5 morning evening basket).1
checkout_done_example = checkout_done asked 5 morning evening basket ordered runs

checkout_refused_example : (checkout without_milk 5 morning evening basket).1 ≡ basket
unfolding checkout build_lines price_for same Cart.ensure_not_empty
checkout_refused_example =
    checkout_refused without_milk 5 morning evening basket unpriced_cart_line refl
