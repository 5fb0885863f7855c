-- ===== src/PlaceOrder/Confirmed.antt =====
-- What a customer gets who confirms an order.
use goldy_telegram_bot.Cart
use goldy_telegram_bot.Cart.{Cart}
use goldy_telegram_bot.Checkout.{Checkout, checkout, build_lines}
use goldy_telegram_bot.Checkout.Outcome.{checkout_done, checkout_refused}
use goldy_telegram_bot.Checkout.Prices.{
  ArePrices, cart_cents, Snapshots-IsPriced, total_cents-Snapshots,
}
use goldy_telegram_bot.Checkout.Snapshots.{
  Snapshots, Snapshots-nonempty, Snapshots-build_lines, length-Snapshots,
}
use goldy_telegram_bot.Decimal.{Decimal}
use goldy_telegram_bot.Money.{Money}
use goldy_telegram_bot.PlaceOrder.{same_number, is_repriced}
use goldy_telegram_bot.Prelude.{Option-cases, Bool-cases, sym, ap, ◌∙◌, none, some, true, false}
use goldy_telegram_bot.Event.{Session}
use goldy_telegram_bot.Money.{Currency, IsAmount, cents_of}
use goldy_telegram_bot.Money.Arithmetic.{Amounts, fits}
use goldy_telegram_bot.Money.Precision.{cents-le}
use goldy_telegram_bot.Order.{Order, OrderLine, total_of}
use goldy_telegram_bot.Order.Totals.{total_of_lines}
use goldy_telegram_bot.PlaceOrder.{
  PricingReader, PlaceOrderCommand, CartPricing, for_cart, total_for, ensure_not_repriced,
  build_checkout, order_from, same_number,
}
use goldy_telegram_bot.PlaceOrder.Charged.{
  same_number-cents, total_from-cents, no_total, not_repriced,
}
use goldy_telegram_bot.Prelude.{
  ◌≡◌, sym, ap, subst, ◌∙◌, inl, inr, ℕ, true, false, none, some, List, arith, length, is_nil,
}
use goldy_telegram_bot.Result.{Result, Result-cases, Error, ok, err, empty_cart}
use goldy_telegram_bot.Time.{Datetime}

build_checkout-prices :
    (command : PlaceOrderCommand) (pricing : CartPricing) (asked : Checkout)
    → build_checkout command pricing ≡ ok asked
    → asked.priced_products ≡ pricing.priced_products
unfolding build_checkout
build_checkout-prices command pricing asked h = ground arith

same_when_shown :
    (expected : Decimal) (t : Money)
    → is_repriced expected (some t) ≡ false
    → same_number t.amount expected ≡ true
same_when_shown expected t h = ground (arith, Bool-cases (same_number t.amount expected))

order_from_empty :
    (reader : PricingReader) (command : PlaceOrderCommand) (order_id : ℕ)
    (placed_at cleared_at : Datetime) (s : Session Cart)
    → is_nil s.entity.lines ≡ true
    → order_from reader command order_id placed_at cleared_at s ≡ (err empty_cart, s)
unfolding order_from Cart.ensure_not_empty
order_from_empty reader command order_id placed_at cleared_at s h = ground arith

module _ (reader : PricingReader) (command : PlaceOrderCommand) (order_id : ℕ)
    (placed_at cleared_at : Datetime) (s : Session Cart) where
  -- The answers that led to an order.
  pub record IsConfirmed (order : Order) : Type 0 where
    pub pricing : CartPricing
    pub priced : for_cart reader s.entity ≡ ok pricing
    pub not_empty : is_nil s.entity.lines ≡ false
    pub as_shown : ensure_not_repriced command s.entity pricing ≡ ok tt
    pub asked : Checkout
    pub prices : asked.priced_products ≡ pricing.priced_products
    pub placed : (checkout asked order_id placed_at cleared_at s).0 ≡ ok order
    pub after :
        order_from reader command order_id placed_at cleared_at s
        ≡ checkout asked order_id placed_at cleared_at s

  order_from-IsConfirmed :
      (order : Order)
      → (order_from reader command order_id placed_at cleared_at s).0 ≡ ok order
      → IsConfirmed order
  unfolding order_from Cart.ensure_not_empty
  order_from-IsConfirmed order h = elim (Result-cases (for_cart reader s.entity)) [
    | inr (e, bad) ↦ absurd (ground arith)
    | inl (pricing, priced) ↦ elim (Result-cases (ensure_not_repriced command s.entity pricing)) [
      | inr (e, bad) ↦ absurd (ground arith)
      | inl (tt, same) ↦ elim (Result-cases (build_checkout command pricing)) [
        | inr (e, bad) ↦ absurd (ground arith)
        | inl (asked, built) ↦ record {
          pricing = pricing;
          priced = priced;
          not_empty = ground arith;
          as_shown = same;
          asked = asked;
          prices = build_checkout-prices command pricing asked built;
          placed = ground arith;
          after = ground arith;
        }
      ]
    ]
  ]

  -- An order that is refused before its insertion leaves the cart and the recorded events as they
  -- were.
  pub order_from_refused :
      (e : Error)
      → (order_from reader command order_id placed_at cleared_at s).0 ≡ err e
      → (order_from reader command order_id placed_at cleared_at s).1 ≡ s
  unfolding order_from Cart.ensure_not_empty
  order_from_refused e h = elim (Result-cases (for_cart reader s.entity)) [
    | inr (e', bad) ↦ ground arith
    | inl (pricing, priced) ↦ elim (Result-cases (ensure_not_repriced command s.entity pricing)) [
      | inr (e', bad) ↦ ground arith
      | inl (tt, same) ↦ elim (Result-cases (build_checkout command pricing)) [
        | inr (e', bad) ↦ ground arith
        | inl (asked, built) ↦
            ground (arith, checkout_refused asked order_id placed_at cleared_at s e)
      ]
    ]
  ]

  -- A second confirmation, whatever it asks and whatever the prices are by then, meets an empty
  -- cart once the first has made an order.
  pub second_confirmation :
      (order : Order) (reader' : PricingReader) (command' : PlaceOrderCommand) (order_id' : ℕ)
      (placed_at' cleared_at' : Datetime)
      → (order_from reader command order_id placed_at cleared_at s).0 ≡ ok order
      → order_from reader' command' order_id' placed_at' cleared_at'
          (order_from reader command order_id placed_at cleared_at s).1
        ≡ (err empty_cart, (order_from reader command order_id placed_at cleared_at s).1)
  second_confirmation order reader' command' order_id' placed_at' cleared_at' h =
      let p = order_from-IsConfirmed order h in
      let d = checkout_done p.asked order_id placed_at cleared_at s order p.placed in
      order_from_empty reader' command' order_id' placed_at' cleared_at' _
        (ap is_nil (ap (λ x. x.1.entity.lines) p.after ∙ d.emptied))

  -- The worth of the cart is the total that was shown.
  shown_worth :
      (cur : Currency) (pricing : CartPricing) (os : List OrderLine)
      → ArePrices cur pricing.priced_products
      → IsAmount command.expected_total
      → is_nil s.entity.lines ≡ false
      → ensure_not_repriced command s.entity pricing ≡ ok tt
      → build_lines 1 s.entity.lines pricing.priced_products ≡ ok os
      → cart_cents pricing.priced_products s.entity.lines ≡ cents_of command.expected_total
  unfolding total_for
  shown_worth cur pricing os v ve n same built =
      let (count, total, got, shown) = not_repriced command s.entity pricing same in
      elim (Option-cases total) [
        | inl absent ↦
            let none_found = got ∙ ap ok absent in
            absurd (
              cc
                (n, (no_total none 1 pricing.priced_products s.entity.lines os none_found built).1))
        | inr (t, found) ↦
            let (worth, valid) =
              total_from-cents cur pricing.priced_products v none s.entity.lines t tt
                (got ∙ ap ok found) in
            let still : is_repriced command.expected_total (some t) ≡ false =
              sym (ap (is_repriced command.expected_total) found) ∙ shown in
            let equal = same_when_shown command.expected_total t still in
            omega (arith, worth, same_number-cents t.amount command.expected_total valid ve equal)
      ]

  -- With valid prices in one currency and a total on the screen that is an amount of money: an order
  -- that is made has the number of lines that was shown, and its total is exactly the total that
  -- was shown.
  pub order_charges_shown :
      (cur : Currency) (pricing : CartPricing) (order : Order)
      → for_cart reader s.entity ≡ ok pricing
      → ArePrices cur pricing.priced_products
      → IsAmount command.expected_total
      → (order_from reader command order_id placed_at cleared_at s).0 ≡ ok order
      → (length order.lines ≡ command.expected_line_count)
        × Amounts (total_of order.lines) (cents_of command.expected_total) cur
  order_charges_shown cur pricing order priced v ve h =
      let p = order_from-IsConfirmed order h in
      let d = checkout_done p.asked order_id placed_at cleared_at s order p.placed in
      let same : p.pricing ≡ pricing = cc (p.priced, priced) in
      let shots : Snapshots 1 pricing.priced_products s.entity.lines order.lines =
        subst (λ ps. Snapshots 1 ps s.entity.lines order.lines)
          (p.prices ∙ ap (λ x. x.priced_products) same) d.lines in
      let shown : ensure_not_repriced command s.entity pricing ≡ ok tt =
        subst (λ x. ensure_not_repriced command s.entity x ≡ ok tt) same p.as_shown in
      let worth =
        shown_worth cur pricing order.lines v ve p.not_empty shown
          (Snapshots-build_lines 1 pricing.priced_products s.entity.lines order.lines shots) in
      let cents =
        total_cents-Snapshots 1 pricing.priced_products s.entity.lines order.lines shots in
      let total =
        total_of_lines cur order.lines
          (sym (Snapshots-nonempty 1 pricing.priced_products s.entity.lines order.lines shots)
            ∙ p.not_empty)
          (Snapshots-IsPriced cur 1 pricing.priced_products s.entity.lines order.lines v shots) in
      (
        sym (length-Snapshots 1 pricing.priced_products s.entity.lines order.lines shots)
            ∙ (not_repriced command s.entity pricing shown).0,
        rw (← worth, ← cents)
            (fits total (omega (arith, cents, worth, cents-le command.expected_total ve))),
      )
