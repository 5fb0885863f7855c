-- ===== src/Checkout/Prices.antt =====
-- The worth of a cart at the prices that a checkout is given.
use goldy_telegram_bot.Money
use goldy_telegram_bot.Order.Totals.{total_cents, IsPriced}
use goldy_telegram_bot.Checkout.Snapshots.{Snapshots}
use goldy_telegram_bot.Money.Sums.{same_currency_refl}
use goldy_telegram_bot.Catalog.{ProductId, PricedProduct}
use goldy_telegram_bot.Money.{same_currency, cents, Currency, Money}
use goldy_telegram_bot.Cart.{CartLine}
use goldy_telegram_bot.Prelude.{
  ℕ, ◌+◌, ◌*◌, ◌≡◌, refl, ap, ◌∙◌, inl, inr, true, Option, none, some, List, [], ◌∷◌, arith,
  Option-cases, all, All,
}
use goldy_telegram_bot.Checkout.{price_for}
use goldy_telegram_bot.Order.{single_currency, OrderLine}

-- Valid prices in one currency.
abbrev pub ArePrices : Currency → List PricedProduct → Type 0
ArePrices cur = All (λ priced. Money.IsValid priced.unit_price × (priced.unit_price.currency ≡ cur))

abbrev unit_cents : Option PricedProduct → ℕ
unit_cents none = 0
unit_cents (some priced) = cents priced.unit_price

-- The worth of the cart in hundredths.
abbrev pub cart_cents : List PricedProduct → List CartLine → ℕ
cart_cents prices [] = 0
cart_cents prices (line ∷ lines) =
    unit_cents (price_for line.product_id prices) * line.quantity.value + cart_cents prices lines

pub price_for-price :
    (cur : Currency) (p : ProductId) (prices : List PricedProduct) (priced : PricedProduct)
    → ArePrices cur prices
    → price_for p prices ≡ some priced
    → Money.IsValid priced.unit_price × (priced.unit_price.currency ≡ cur)
unfolding price_for
price_for-price cur p [] priced v h = absurd (ground arith)
price_for-price cur p (q ∷ prices) priced v h = elim (Option-cases (price_for p prices)) [
  | inl absent ↦ let e : q ≡ priced = ground arith in rw (← e) v.0
  | inr (later, found) ↦
      let e : later ≡ priced = ground arith in
      price_for-price cur p prices priced v.1 (found ∙ ap some e)
]

pub Snapshots-IsPriced :
    (cur : Currency) (n : ℕ) (prices : List PricedProduct) (lines : List CartLine)
    (os : List OrderLine)
    → ArePrices cur prices
    → Snapshots n prices lines os
    → All (IsPriced cur) os
Snapshots-IsPriced cur n prices [] [] v h = tt
Snapshots-IsPriced cur n prices [] (o ∷ os) v h = absurd h
Snapshots-IsPriced cur n prices (line ∷ lines) [] v h = absurd h
Snapshots-IsPriced cur n prices (line ∷ lines) (o ∷ os) v ((priced, found, e), rest) = (
  rw e (price_for-price cur line.product_id prices priced v found),
  Snapshots-IsPriced cur (n + 1) prices lines os v rest,
)

pub total_cents-Snapshots :
    (n : ℕ) (prices : List PricedProduct) (lines : List CartLine) (os : List OrderLine)
    → Snapshots n prices lines os
    → total_cents os ≡ cart_cents prices lines
total_cents-Snapshots n prices [] [] h = refl
total_cents-Snapshots n prices [] (o ∷ os) h = absurd h
total_cents-Snapshots n prices (line ∷ lines) [] h = absurd h
total_cents-Snapshots n prices (line ∷ lines) (o ∷ os) ((priced, found, e), rest) =
    let r = total_cents-Snapshots (n + 1) prices lines os rest in rw (e, found, r) refl

same_currency-of :
    (cur : Currency) (a b : Money)
    → a.currency ≡ cur
    → b.currency ≡ cur
    → same_currency a.currency b.currency ≡ true
same_currency-of cur a b p q = rw (p, q) (same_currency_refl cur)

all_same :
    (cur : Currency) (first : OrderLine) (os : List OrderLine)
    → first.unit_price.currency ≡ cur
    → All (IsPriced cur) os
    → all (λ l. same_currency l.unit_price.currency first.unit_price.currency) os ≡ true
all_same cur first [] f h = refl
all_same cur first (o ∷ os) f h =
    rw (same_currency-of cur o.unit_price first.unit_price h.0.1 f) (all_same cur first os f h.1)

pub single_currency-IsPriced :
    (cur : Currency) (os : List OrderLine) → All (IsPriced cur) os → single_currency os ≡ true
single_currency-IsPriced cur [] h = refl
single_currency-IsPriced cur (o ∷ os) h = all_same cur o os h.0.1 h.1
