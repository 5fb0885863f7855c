-- ===== src/Checkout/Success.antt =====
-- The carts that a checkout accepts.
use goldy_telegram_bot.Checkout.Prices.{
  ArePrices, cart_cents, Snapshots-IsPriced, total_cents-Snapshots, single_currency-IsPriced,
}
use goldy_telegram_bot.Checkout.Snapshots.{
  build_lines-Snapshots, IsCovered, build_lines_total, Snapshots-nonempty,
}
use goldy_telegram_bot.OrderNumber.Derived.{derive-ok}
use goldy_telegram_bot.Money.Arithmetic.{fits, Amounts}
use goldy_telegram_bot.Money.{max_cents, Currency}
use goldy_telegram_bot.Time.{Datetime}
use goldy_telegram_bot.Result.{ok}
use goldy_telegram_bot.Cart.{Cart}
use goldy_telegram_bot.Event.{Session}
use goldy_telegram_bot.Prelude.{ℕ, ◌≤◌, ◌≡◌, sym, ◌∙◌, false, List, arith, is_nil}
use goldy_telegram_bot.Checkout.{Checkout, checkout, build_lines, placement_of}
use goldy_telegram_bot.Cart
use goldy_telegram_bot.Order.{total_of, OrderLine, Order, place}
use goldy_telegram_bot.Order.Placing.{place_succeeds}
use goldy_telegram_bot.Order.Totals.{total_of_lines}

module _ (c : Checkout) (order_id : ℕ) (placed_at cleared_at : Datetime) (s : Session Cart) where
  checkout_placed :
      (os : List OrderLine) (order : Order)
      → is_nil s.entity.lines ≡ false
      → build_lines 1 s.entity.lines c.priced_products ≡ ok os
      → (place order_id (placement_of c s.entity os) placed_at s.events).0 ≡ ok order
      → (checkout c order_id placed_at cleared_at s).0 ≡ ok order
  unfolding checkout Cart.ensure_not_empty Cart.clear
  checkout_placed os order n b h = ground arith

  -- A checkout of a cart that is not empty, whose products all stand in a list of valid prices of
  -- one currency, makes an order whenever the worth of the cart at these prices is at most the
  -- largest amount of money; the total of the order is exactly that worth.
  pub checkout_succeeds :
      (cur : Currency)
      → is_nil s.entity.lines ≡ false
      → IsCovered c.priced_products s.entity.lines
      → ArePrices cur c.priced_products
      → cart_cents c.priced_products s.entity.lines ≤ max_cents
      → (order : Order) × ((checkout c order_id placed_at cleared_at s).0 ≡ ok order)
        × Amounts (total_of order.lines) (cart_cents c.priced_products s.entity.lines) cur
  checkout_succeeds cur n covered prices small =
      let (os, built) = build_lines_total 1 c.priced_products s.entity.lines covered in
      let shots = build_lines-Snapshots 1 c.priced_products s.entity.lines os built in
      let priced = Snapshots-IsPriced cur 1 c.priced_products s.entity.lines os prices shots in
      let nonempty : is_nil os ≡ false =
        sym (Snapshots-nonempty 1 c.priced_products s.entity.lines os shots) ∙ n in
      let worth = total_cents-Snapshots 1 c.priced_products s.entity.lines os shots in
      let total : Amounts (total_of os) (cart_cents c.priced_products s.entity.lines) cur =
        rw (← worth) (fits (total_of_lines cur os nonempty priced) (omega (arith, worth, small))) in
      let number = derive-ok placed_at order_id in
      (
        _,
        checkout_placed os _ n built (
            place_succeeds order_id (placement_of c s.entity os) placed_at s.events _ total.money
              number nonempty (single_currency-IsPriced cur os priced) total.returned),
        total,
      )
