-- ===== src/PlaceOrder.antt =====
-- application/commands/orders/place_order, with common/services/cart_pricing_service.py and
-- price_type_resolver.py: the order that a customer confirms on the screen. The reader of prices
-- and the insertion of an order are the storage's, and are parameters.
use goldy_telegram_bot.OrderValues.{
  make_order_comment, make_delivery_address, make_recipient, OrderComment,
}
use goldy_telegram_bot.Order.{Order}
use goldy_telegram_bot.Catalog.{ProductId, PriceTypeId, PricedProduct}
use goldy_telegram_bot.Money.{Money}
use goldy_telegram_bot.Time.{Datetime}
use goldy_telegram_bot.Text.{Text}
use goldy_telegram_bot.Decimal.{Decimal, finite}
use goldy_telegram_bot.Result.{
  Result, cart_repriced, product_not_priced, price_type_not_configured, unsupported_price_type, ok,
  err,
}
use goldy_telegram_bot.Cart.{CartLine, Cart}
use goldy_telegram_bot.Checkout.{price_for, checkout, Checkout}
use goldy_telegram_bot.PhoneNumber.{PhoneNumber}
use goldy_telegram_bot.Event.{Session}
pub mod Charged
pub mod Confirmed
use goldy_telegram_bot.Money
use goldy_telegram_bot.Decimal
use goldy_telegram_bot.Cart
use goldy_telegram_bot.PhoneNumber
use goldy_telegram_bot.Exec.{Exec, ◌>>=◌, ◌>>◌, lift, gets, raise_if}
use goldy_telegram_bot.Prelude.{
  if◌then◌else◌, ◌&&◌, ◌==◌, ℕ, Bool, true, false, not, Option, none, some, List, [], ◌∷◌, map,
  is_nil,
}

pub record ResolvedPriceType : Type 0 where
  pub price_type_id : PriceTypeId
  pub is_supported : Bool

pub record CartPrices : Type 0 where
  pub priced_products : List PricedProduct
  pub unpriced_product_ids : List ProductId

-- `PricingReader`, at one moment.
pub record PricingReader : Type 0 where
  pub read_price_type_for : ℕ → Option ResolvedPriceType
  pub read_cart_prices : List ProductId → PriceTypeId → Result CartPrices

pub record CartPricing : Type 0 where
  pub price_type_id : PriceTypeId
  pub priced_products : List PricedProduct

pub record PlaceOrderCommand : Type 0 where
  pub delivery_address : Text
  pub recipient_first_name : Text
  pub recipient_last_name : Option Text
  pub recipient_phone_number : Text
  pub comment : Option Text
  pub expected_total : Decimal
  pub expected_line_count : ℕ

-- `PriceTypeResolver.resolve_for`
unfoldable pub resolve_for : PricingReader → ℕ → Result PriceTypeId
resolve_for reader user_id = elim (reader.read_price_type_for user_id) [
  | none ↦ err price_type_not_configured
  | some resolved ↦
      if resolved.is_supported then ok resolved.price_type_id else err unsupported_price_type
]

-- `CartPricingService.for_cart`
unfoldable pub for_cart : PricingReader → Cart → Result CartPricing
unfolding resolve_for
for_cart reader cart = elim (resolve_for reader cart.user_id) [
  | err e ↦ err e
  | ok price_type_id ↦
      elim (reader.read_cart_prices (map (λ line. line.product_id) cart.lines) price_type_id) [
        | err e ↦ err e
        | ok prices ↦
            if is_nil prices.unpriced_product_ids
            then ok
                (record { price_type_id = price_type_id; priced_products = prices.priced_products })
            else err product_not_priced
      ]
]

-- `line_total if total is None else total + line_total`
abbrev pub plus : Option Money → Money → Result Money
plus none line_total = ok line_total
plus (some total) line_total = Money.add total line_total

-- The loop of `CartPricing.total_for`, which gives up at the first line without a price.
unfoldable pub total_from :
    Option Money → List CartLine → List PricedProduct → Result (Option Money)
unfolding price_for
total_from total [] prices = ok total
total_from total (line ∷ lines) prices = elim (price_for line.product_id prices) [
  | none ↦ ok none
  | some priced ↦ elim (Money.times priced.unit_price line.quantity) [
    | err e ↦ err e
    | ok line_total ↦ elim (plus total line_total) [
      | err e ↦ err e
      | ok more ↦ total_from (some more) lines prices
    ]
  ]
]

-- `CartPricing.total_for`
unfoldable pub total_for : CartPricing → Cart → Result (Option Money)
unfolding total_from
total_for pricing cart = total_from none cart.lines pricing.priced_products

-- `a == b`; the left number is the amount of some money, which is finite.
abbrev pub same_number : Decimal → Decimal → Bool
same_number (finite s c e) (finite t d f) =
    not (Decimal.lt (finite s c e) (finite t d f)) && not (Decimal.lt (finite t d f) (finite s c e))
same_number a b = false

-- Whether there is a total, and it is not the one that was shown.
abbrev pub is_repriced : Decimal → Option Money → Bool
is_repriced expected none = false
is_repriced expected (some total) = not (same_number total.amount expected)

-- `PlaceOrderHandler._ensure_not_repriced`
unfoldable pub ensure_not_repriced : PlaceOrderCommand → Cart → CartPricing → Result (Unit {0})
unfolding total_for Decimal.lt
ensure_not_repriced command cart pricing =
    if not (Cart.line_count cart == command.expected_line_count)
    then err cart_repriced
    else elim (total_for pricing cart) [
      | err e ↦ err e
      | ok total ↦ if is_repriced command.expected_total total then err cart_repriced else ok tt
    ]

abbrev pub build_comment : Option Text → Result (Option OrderComment)
build_comment none = ok none
build_comment (some value) = elim (make_order_comment value) [
  | err e ↦ err e
  | ok comment ↦ ok (some comment)
]

-- `PlaceOrderHandler._build_checkout`
unfoldable pub build_checkout : PlaceOrderCommand → CartPricing → Result Checkout
build_checkout command pricing = elim (make_delivery_address command.delivery_address) [
  | err e ↦ err e
  | ok address ↦ elim (PhoneNumber.from_raw command.recipient_phone_number) [
    | err e ↦ err e
    | ok phone ↦
        elim (make_recipient command.recipient_first_name command.recipient_last_name phone) [
          | err e ↦ err e
          | ok recipient ↦ elim (build_comment command.comment) [
            | err e ↦ err e
            | ok comment ↦ ok (record {
              priced_products = pricing.priced_products;
              delivery_address = address;
              recipient = recipient;
              comment = comment;
              price_type_id = pricing.price_type_id;
            })
          ]
        ]
  ]
]

-- `PlaceOrderHandler.handle` up to the insertion, on the cart of the caller.
unfoldable pub order_from :
    PricingReader → PlaceOrderCommand → ℕ → Datetime → Datetime → Exec (Session Cart) Order
order_from reader command order_id placed_at cleared_at = do
  Cart.ensure_not_empty
  cart ← gets (λ s. s.entity)
  pricing ← lift (for_cart reader cart)
  lift (ensure_not_repriced command cart pricing)
  asked ← lift (build_checkout command pricing)
  checkout asked order_id placed_at cleared_at

pub record OrderPlacedView : Type 0 where
  pub order_id : ℕ
  pub order_number : Text

-- `PlaceOrderHandler.handle`; the insertion of the order works on the storage.
unfoldable pub handle :
    {Store : Type 0}
    → (Order → Store → Result (Unit {0}) × Store)
    → PricingReader
    → PlaceOrderCommand
    → ℕ
    → Datetime
    → Datetime
    → Exec (Session Cart × Store) OrderPlacedView
unfolding order_from
handle insert reader command order_id placed_at cleared_at (s, store) =
    let (r, s') = order_from reader command order_id placed_at cleared_at s in
    elim r [
      | err e ↦ (err e, (s', store))
      | ok order ↦
          let (inserted, store') = insert order store in
          elim inserted [
            | err e ↦ (err e, (s', store'))
            | ok tt ↦ (
              ok (record { order_id = order.id; order_number = order.number.value }),
              (s', store'),
            )
          ]
    ]
