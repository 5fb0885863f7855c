-- ===== src/Checkout/Snapshots.antt =====
-- The lines of an order beside the lines of the cart that they come from.
use goldy_telegram_bot.Order.{OrderLine}
use goldy_telegram_bot.Catalog.{PricedProduct}
use goldy_telegram_bot.Time.{before}
use goldy_telegram_bot.Result.{unpriced_cart_line, ok, err}
use goldy_telegram_bot.Cart.{CartLine}
use goldy_telegram_bot.Prelude.{
  ℕ, ◌+◌, ◌≡◌, refl, inl, inr, none, some, List, [], ◌∷◌, ◌++◌, arith, Option-cases, length, is_nil,
  All,
}
use goldy_telegram_bot.Checkout.{price_for, snapshot, build_line, build_lines}

-- Each line of the order copies the cart line in its place, numbered from `n`, at the price of its
-- product.
abbrev pub Snapshots : ℕ → List PricedProduct → List CartLine → List OrderLine → Type 0
Snapshots n prices [] [] = Unit
Snapshots n prices [] (o ∷ os) = ⊥
Snapshots n prices (line ∷ lines) [] = ⊥
Snapshots n prices (line ∷ lines) (o ∷ os) =
    ((priced : PricedProduct) × (price_for line.product_id prices ≡ some priced)
      × (o ≡ snapshot n line priced))
    × Snapshots (n + 1) prices lines os

build_line-snapshot :
    (n : ℕ) (prices : List PricedProduct) (line : CartLine) (o : OrderLine)
    → build_line n line prices ≡ ok o
    → (priced : PricedProduct) × (price_for line.product_id prices ≡ some priced)
      × (o ≡ snapshot n line priced)
unfolding build_line
build_line-snapshot n prices line o h = elim (Option-cases (price_for line.product_id prices)) [
  | inl unpriced ↦ absurd (ground arith)
  | inr (priced, found) ↦ (priced, found, ground arith)
]

pub build_lines-Snapshots :
    (n : ℕ) (prices : List PricedProduct) (lines : List CartLine) (os : List OrderLine)
    → build_lines n lines prices ≡ ok os
    → Snapshots n prices lines os
unfolding build_lines
build_lines-Snapshots n prices [] [] h = tt
build_lines-Snapshots n prices [] (o ∷ os) h = ground arith
build_lines-Snapshots n prices (line ∷ lines) [] h = ground arith
build_lines-Snapshots n prices (line ∷ lines) (o ∷ os) h = (
  build_line-snapshot n prices line o (ground arith),
  build_lines-Snapshots (n + 1) prices lines os (ground arith),
)

-- Every product has a price.
abbrev pub IsCovered : List PricedProduct → List CartLine → Type 0
IsCovered prices =
    All (λ line. (priced : PricedProduct) × (price_for line.product_id prices ≡ some priced))

pub build_lines_total :
    (n : ℕ) (prices : List PricedProduct) (lines : List CartLine)
    → IsCovered prices lines
    → (os : List OrderLine) × (build_lines n lines prices ≡ ok os)
unfolding build_lines
build_lines_total n prices [] h = ([], refl)
build_lines_total n prices (line ∷ lines) h =
    let (os, rest) = build_lines_total (n + 1) prices lines h.1 in
    (snapshot n line h.0.0 ∷ os, ground (arith, h.0.1))

-- A product without a price is refused.
pub build_lines_unpriced :
    (n : ℕ) (prices : List PricedProduct) (before : List CartLine) (line : CartLine)
    (after : List CartLine)
    → IsCovered prices before
    → price_for line.product_id prices ≡ none
    → build_lines n (before ++ line ∷ after) prices ≡ err unpriced_cart_line
unfolding build_lines
build_lines_unpriced n prices [] line after h u = ground arith
build_lines_unpriced n prices (b ∷ before) line after h u =
    ground (arith, build_lines_unpriced (n + 1) prices before line after h.1 u, h.0.1)

pub Snapshots-nonempty :
    (n : ℕ) (prices : List PricedProduct) (lines : List CartLine) (os : List OrderLine)
    → Snapshots n prices lines os
    → is_nil lines ≡ is_nil os
Snapshots-nonempty n prices [] [] h = refl
Snapshots-nonempty n prices [] (o ∷ os) h = absurd h
Snapshots-nonempty n prices (line ∷ lines) [] h = absurd h
Snapshots-nonempty n prices (line ∷ lines) (o ∷ os) h = refl

pub length-Snapshots :
    (n : ℕ) (prices : List PricedProduct) (lines : List CartLine) (os : List OrderLine)
    → Snapshots n prices lines os
    → length lines ≡ length os
length-Snapshots n prices [] [] h = refl
length-Snapshots n prices [] (o ∷ os) h = absurd h
length-Snapshots n prices (line ∷ lines) [] h = absurd h
length-Snapshots n prices (line ∷ lines) (o ∷ os) h =
    omega (arith, length-Snapshots (n + 1) prices lines os h.1)

pub Snapshots-build_lines :
    (n : ℕ) (prices : List PricedProduct) (lines : List CartLine) (os : List OrderLine)
    → Snapshots n prices lines os
    → build_lines n lines prices ≡ ok os
unfolding build_lines build_line
Snapshots-build_lines n prices [] [] h = refl
Snapshots-build_lines n prices [] (o ∷ os) h = absurd h
Snapshots-build_lines n prices (line ∷ lines) [] h = absurd h
Snapshots-build_lines n prices (line ∷ lines) (o ∷ os) ((priced, found, e), rest) =
    ground (arith, Snapshots-build_lines (n + 1) prices lines os rest)
