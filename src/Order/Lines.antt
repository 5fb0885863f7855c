-- ===== src/Order/Lines.antt =====
-- domain/orders/entities/order_line.py, and the sums over the lines of an order.
use goldy_telegram_bot.Catalog.{ProductId, ProductName, Sku, UnitOfMeasure}
use goldy_telegram_bot.Quantity.{Quantity}
use goldy_telegram_bot.Result.{Result, ok, err}
use goldy_telegram_bot.Prelude.{ℕ, Bool, true, List, [], ◌∷◌, all}
use goldy_telegram_bot.Money
use goldy_telegram_bot.Money.{same_currency, Currency, Money}

pub record OrderLine : Type 0 where
  pub position : ℕ
  pub product_id : ProductId
  pub sku : Sku
  pub name : ProductName
  pub unit : UnitOfMeasure
  pub unit_price : Money
  pub quantity : Quantity

-- `OrderLine.total`
abbrev pub line_total : OrderLine → Result Money
line_total line = Money.times line.unit_price line.quantity

-- Whether the set of the currencies of the lines has at most one element.
abbrev pub single_currency : List OrderLine → Bool
single_currency [] = true
single_currency (line ∷ lines) =
    all (λ l. same_currency l.unit_price.currency line.unit_price.currency) lines

-- `total += line.total` for every line
unfoldable pub add_lines : Money → List OrderLine → Result Money
add_lines total [] = ok total
add_lines total (line ∷ lines) = elim (line_total line) [
  | ok money ↦ elim (Money.add total money) [ ok more ↦ add_lines more lines | err e ↦ err e ]
  | err e ↦ err e
]

-- `Order.total` over the lines
unfoldable pub total_of : List OrderLine → Result Money
unfolding add_lines Money.zero_in
total_of [] = Money.zero_in Currency.rub
total_of (line ∷ lines) = elim (Money.zero_in line.unit_price.currency) [
  | ok zero_amount ↦ add_lines zero_amount (line ∷ lines)
  | err e ↦ err e
]
