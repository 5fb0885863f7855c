-- ===== src/Order/Placing.antt =====
-- When an order is placed, and what is recorded of it.
use goldy_telegram_bot.Money.{Money}
use goldy_telegram_bot.Time.{Datetime}
use goldy_telegram_bot.Result.{Result-cases, Error, ok, err}
use goldy_telegram_bot.Event.{Event, order_placed}
use goldy_telegram_bot.Prelude.{
  ℕ, ◌≡◌, inl, inr, true, false, List, [], ◌∷◌, ◌++◌, arith, length, is_nil,
}
use goldy_telegram_bot.Order.{single_currency, total_of, new_order, Order, Placement, place}
use goldy_telegram_bot.OrderNumber
use goldy_telegram_bot.OrderNumber.{OrderNumber}

module _ (order_id : ℕ) (placement : Placement) (now : Datetime) (events : List Event) where
  -- A placement that is refused records nothing.
  pub place_refused :
      (e : Error)
      → (place order_id placement now events).0 ≡ err e
      → (place order_id placement now events).1 ≡ events
  unfolding place
  place_refused e h = ground arith

  -- What is known of an order that was placed.
  pub record IsPlaced (order : Order) (after : List Event) : Type 0 where
    pub number : OrderNumber
    pub derived : OrderNumber.derive now order_id ≡ ok number
    pub is_new : order ≡ new_order order_id number placement now
    pub lines : is_nil placement.lines ≡ false
    pub one_currency : single_currency placement.lines ≡ true
    pub total : Money
    pub total_is : total_of placement.lines ≡ ok total
    pub recorded :
        after
        ≡ events
          ++ order_placed order_id number.value placement.customer_id placement.price_type_id.value
              total.amount total.currency
              (length placement.lines)
            ∷ []

  pub place-IsPlaced :
      (order : Order)
      → (place order_id placement now events).0 ≡ ok order
      → IsPlaced order (place order_id placement now events).1
  unfolding place
  place-IsPlaced order h = elim (Result-cases (OrderNumber.derive now order_id)) [
    | inr (e, bad) ↦ ground arith
    | inl (number, derived) ↦ elim (Result-cases (total_of placement.lines)) [
      | inr (e, bad) ↦ ground arith
      | inl (total, total_is) ↦ record {
        number = number;
        derived = derived;
        is_new = ground arith;
        lines = ground arith;
        one_currency = ground arith;
        total = total;
        total_is = total_is;
        recorded = ground arith;
      }
    ]
  ]

  -- A placement that meets the conditions succeeds.
  pub place_succeeds :
      (number : OrderNumber) (total : Money)
      → OrderNumber.derive now order_id ≡ ok number
      → is_nil placement.lines ≡ false
      → single_currency placement.lines ≡ true
      → total_of placement.lines ≡ ok total
      → (place order_id placement now events).0 ≡ ok (new_order order_id number placement now)
  unfolding place
  place_succeeds number total d n c t = ground arith
