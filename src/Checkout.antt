-- ===== src/Checkout.antt =====
-- domain/orders/services/checkout_service.py and domain/orders/checkout.py: a cart becomes an
-- order. The session holds the cart and the events collection, which the service and the cart
-- share within a request.
pub mod Snapshots
pub mod Success
pub mod Prices
pub mod Outcome
use goldy_telegram_bot.Time.{Datetime}
use goldy_telegram_bot.Result.{Result, unpriced_cart_line, ok, err}
use goldy_telegram_bot.Event.{Event, Session}
use goldy_telegram_bot.Prelude.{ℕ, ◌+◌, Option, none, some, List, [], ◌∷◌, if◌then◌else◌}
use goldy_telegram_bot.Exec.{Exec, pure, lift, gets, ◌>>◌, ◌>>=◌}
use goldy_telegram_bot.OrderValues.{OrderComment, DeliveryAddress, Recipient}
use goldy_telegram_bot.Catalog.{ProductId, PriceTypeId, PricedProduct, same_id}
use goldy_telegram_bot.Cart
use goldy_telegram_bot.Cart.{Cart, CartLine}
use goldy_telegram_bot.Order.{Placement, Order, OrderLine, place}

-- What the service is given beside the cart.
pub record Checkout : Type 0 where
  pub priced_products : List PricedProduct
  pub delivery_address : DeliveryAddress
  pub recipient : Recipient
  pub comment : Option OrderComment
  pub price_type_id : PriceTypeId

-- `prices.get(p)` of the dictionary that is built from the products; the last one of a key stays.
unfoldable pub price_for : ProductId → List PricedProduct → Option PricedProduct
price_for p [] = none
price_for p (priced ∷ rest) = elim (price_for p rest) [
  | some later ↦ some later
  | none ↦ if same_id priced.product_id p then some priced else none
]

abbrev pub snapshot : ℕ → CartLine → PricedProduct → OrderLine
snapshot position line priced = record {
  position = position;
  product_id = priced.product_id;
  sku = priced.sku;
  name = priced.name;
  unit = priced.unit;
  unit_price = priced.unit_price;
  quantity = line.quantity;
}

-- `CheckoutService._build_line`
unfoldable pub build_line : ℕ → CartLine → List PricedProduct → Result OrderLine
unfolding price_for
build_line position line prices = elim (price_for line.product_id prices) [
  | none ↦ err unpriced_cart_line
  | some priced ↦ ok (snapshot position line priced)
]

-- The lines of the order, numbered from `position`; the first that cannot be priced raises.
unfoldable pub build_lines : ℕ → List CartLine → List PricedProduct → Result (List OrderLine)
unfolding build_line
build_lines position [] prices = ok []
build_lines position (line ∷ lines) prices =
    let rest = build_lines (position + 1) lines prices in
    elim (build_line position line prices) [
      | err e ↦ err e
      | ok first ↦ elim rest [ err e ↦ err e | ok others ↦ ok (first ∷ others) ]
    ]

abbrev pub placement_of : Checkout → Cart → List OrderLine → Placement
placement_of c cart lines = record {
  customer_id = cart.user_id;
  lines = lines;
  delivery_address = c.delivery_address;
  recipient = c.recipient;
  comment = c.comment;
  price_type_id = c.price_type_id;
}

-- `place` on the shared events of the session
abbrev pub on_events : Exec (List Event) Order → Exec (Session Cart) Order
on_events m s = let (r, events) = m s.events in (r, record s { events = events })

-- `CheckoutService.checkout`, with the id that the generator mints and the two readings of the
-- clock.
unfoldable pub checkout : Checkout → ℕ → Datetime → Datetime → Exec (Session Cart) Order
checkout c order_id placed_at cleared_at = do
  Cart.ensure_not_empty
  cart ← gets (λ s. s.entity)
  lines ← lift (build_lines 1 cart.lines c.priced_products)
  order ← on_events (place order_id (placement_of c cart lines) placed_at)
  Cart.clear cleared_at
  pure order
