-- ===== src/PlaceOrder/Charged.antt =====
-- What is charged for an order, and what the screen showed before.
use goldy_telegram_bot.Order.{OrderLine}
use goldy_telegram_bot.Checkout.Prices.{ArePrices, cart_cents, price_for-price}
use goldy_telegram_bot.Decimal.Shift.{zero-shift}
use goldy_telegram_bot.Money.Arithmetic.{Settles, times-Settles}
use goldy_telegram_bot.Money.Sums.{cents-left, cents-right, add-Settles}
use goldy_telegram_bot.PlaceOrder.{
  plus, total_from, total_for, same_number, is_repriced, ensure_not_repriced, CartPricing,
  PlaceOrderCommand,
}
use goldy_telegram_bot.Catalog.{PricedProduct}
use goldy_telegram_bot.Money.{cents_of, cents, IsAmount, Currency, Money}
use goldy_telegram_bot.Decimal.{shift, Decimal, finite, special}
use goldy_telegram_bot.Result.{Result-cases, Result, ok}
use goldy_telegram_bot.Cart.{CartLine, Cart}
use goldy_telegram_bot.Checkout.{price_for, build_line, build_lines}
use goldy_telegram_bot.Prelude.Int.{gap, min_ℤ, ℤ, negsuc}
use goldy_telegram_bot.Money
use goldy_telegram_bot.Decimal
use goldy_telegram_bot.Prelude.{
  ◌≡◌, refl, sym, ap, ◌∙◌, inl, inr, ℕ, ◌+◌, Bool, true, false, not, ◌||◌, ◌==◌, Option, none, some,
  List, [], ◌∷◌, arith, Option-cases, length, is_nil,
}

-- The value of a sum or a product that was not refused.
pub settled :
    {r : Result Money} {n : ℕ} {cur : Currency} (m : Money)
    → Settles r n cur
    → r ≡ ok m
    → (cents m ≡ n) × Money.IsValid m × (m.currency ≡ cur)
settled m (inl (_, a)) h =
    let e : a.money ≡ m = cc (a.returned, h) in rw (← e) (a.value, a.valid, a.currency)
settled m (inr (_, refused)) h = cc

module _ (s : Bool) (c : ℕ) (e : ℤ) (t : Bool) (d : ℕ) (f : ℤ) where
  same_coefficients :
      (not s || c == 0) ≡ true
      → (not t || d == 0) ≡ true
      → same_number (finite s c e) (finite t d f) ≡ true
      → shift c (gap e f) ≡ shift d (gap f e)
  unfolding Decimal.lt
  same_coefficients hs ht h = ground (arith, zero-shift (gap e f), zero-shift (gap f e))

-- Equal amounts are the same number of hundredths.
pub same_number-cents :
    (a b : Decimal) → IsAmount a → IsAmount b → same_number a b ≡ true → cents_of a ≡ cents_of b
same_number-cents special b va vb h = absurd va
same_number-cents (finite s c e) special va vb h = absurd vb
same_number-cents (finite s c e) (finite t d f) va vb h =
    sym (cents-left c d e f va.1 vb.1)
    ∙ (ap (λ x. shift x (gap (min_ℤ e f) (negsuc 1))) (same_coefficients s c e t d f va.0 vb.0 h)
        ∙ cents-right c d e f va.1 vb.1)

module _ (cur : Currency) (prices : List PricedProduct) (v : ArePrices cur prices) where
  abbrev IsSoFar : Option Money → Type 0
  IsSoFar none = Unit
  IsSoFar (some m) = Money.IsValid m × (m.currency ≡ cur)

  abbrev so_far : Option Money → ℕ
  so_far none = 0
  so_far (some m) = cents m

  plus-cents :
      (total : Option Money) (price more : Money)
      → IsSoFar total
      → Money.IsValid price
      → price.currency ≡ cur
      → plus total price ≡ ok more
      → (cents more ≡ so_far total + cents price) × Money.IsValid more × (more.currency ≡ cur)
  plus-cents none price more a vp cp h =
      let e : price ≡ more = cc h in rw (← e) (omega arith, vp, cp)
  plus-cents (some m) price more a vp cp h =
      let (n, w, k) = settled more (add-Settles m price a.0 vp (cp ∙ sym a.1)) h in (n, w, k ∙ a.1)

  -- A total that was found is the worth of the cart.
  pub total_from-cents :
      (total : Option Money) (lines : List CartLine) (t : Money)
      → IsSoFar total
      → total_from total lines prices ≡ ok (some t)
      → (cents t ≡ so_far total + cart_cents prices lines) × Money.IsValid t
  unfolding total_from
  total_from-cents none [] t a h = cc
  total_from-cents (some m) [] t a h = let e : m ≡ t = cc h in rw (← e) (omega arith, a.0)
  total_from-cents total (line ∷ lines) t a h =
      elim (Option-cases (price_for line.product_id prices)) [
        | inl absent ↦ absurd (ground arith)
        | inr (priced, found) ↦ elim (Result-cases (Money.times priced.unit_price line.quantity)) [
          | inr (e, bad) ↦ absurd (ground arith)
          | inl (price, got) ↦ elim (Result-cases (plus total price)) [
            | inr (e, bad) ↦ absurd (ground arith)
            | inl (more, sum) ↦
                let p = price_for-price cur line.product_id prices priced v found in
                let (n, w, k) =
                  settled price (times-Settles priced.unit_price line.quantity p.0) got in
                let (n', w', k') = plus-cents total price more a w (k ∙ p.1) sum in
                let (n'', w'') = total_from-cents (some more) lines t (w', k') (ground arith) in
                rw found (omega (arith, n, n', n''), w'')
          ]
        ]
      ]

-- Without a total, either there are no lines or one of them cannot be ordered.
pub no_total :
    (total : Option Money) (n : ℕ) (prices : List PricedProduct) (lines : List CartLine)
    (os : List OrderLine)
    → total_from total lines prices ≡ ok none
    → build_lines n lines prices ≡ ok os
    → (total ≡ none) × (is_nil lines ≡ true)
unfolding total_from build_lines build_line
no_total none n prices [] os h b = (refl, refl)
no_total (some m) n prices [] os h b = cc
no_total total n prices (line ∷ lines) os h b =
    elim (Option-cases (price_for line.product_id prices)) [
      | inl absent ↦ absurd (ground arith)
      | inr (priced, found) ↦ elim (Result-cases (Money.times priced.unit_price line.quantity)) [
        | inr (e, bad) ↦ absurd (ground arith)
        | inl (price, got) ↦ elim (Result-cases (plus total price)) [
          | inr (e, bad) ↦ absurd (ground arith)
          | inl (more, sum) ↦ elim (Result-cases (build_lines (n + 1) lines prices)) [
            | inr (e, bad) ↦ absurd (ground arith)
            | inl (rest, built) ↦
                absurd (ground (arith, no_total (some more) (n + 1) prices lines rest))
          ]
        ]
      ]
    ]

pub not_repriced :
    (command : PlaceOrderCommand) (cart : Cart) (pricing : CartPricing)
    → ensure_not_repriced command cart pricing ≡ ok tt
    → (length cart.lines ≡ command.expected_line_count)
      × (total : Option Money) × (total_for pricing cart ≡ ok total)
      × (is_repriced command.expected_total total ≡ false)
unfolding ensure_not_repriced
not_repriced command cart pricing h = elim (Result-cases (total_for pricing cart)) [
  | inr (e, bad) ↦ absurd (ground arith)
  | inl (total, got) ↦ (ground arith, total, got, ground arith)
]
