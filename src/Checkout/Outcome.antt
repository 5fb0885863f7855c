-- ===== src/Checkout/Outcome.antt =====
-- What a checkout leaves behind, on success and on refusal.
use goldy_telegram_bot.Checkout.Snapshots.{Snapshots, build_lines-Snapshots}
use goldy_telegram_bot.OrderValues.{OrderStatus}
use goldy_telegram_bot.Time.{Datetime}
use goldy_telegram_bot.Result.{Result-cases, Error, ok, err}
use goldy_telegram_bot.Event.{Event, cart_cleared, Session}
use goldy_telegram_bot.Prelude.{
  sym, subst, ap, [], ◌∷◌, ◌++◌, length, ℕ, ◌≡◌, inl, inr, List, arith,
}
use goldy_telegram_bot.Checkout.{Checkout, checkout, build_lines, placement_of}
use goldy_telegram_bot.Cart
use goldy_telegram_bot.Cart.{Cart}
use goldy_telegram_bot.Order.{Order, place}
use goldy_telegram_bot.Order.Placing.{place-IsPlaced, IsPlaced, place_refused}

module _ (c : Checkout) (order_id : ℕ) (placed_at cleared_at : Datetime) (s : Session Cart) where
  -- A checkout that raises an error leaves the cart and the recorded events as they were.
  pub checkout_refused :
      (e : Error)
      → (checkout c order_id placed_at cleared_at s).0 ≡ err e
      → (checkout c order_id placed_at cleared_at s).1 ≡ s
  unfolding checkout Cart.ensure_not_empty Cart.clear
  checkout_refused e h = elim (Result-cases (build_lines 1 s.entity.lines c.priced_products)) [
    | inr (b, bad) ↦ ground arith
    | inl (os, built) ↦
        ground (arith, place_refused order_id (placement_of c s.entity os) placed_at s.events e)
  ]

  -- What is known of an order that came out of a checkout, and of the cart and events after it.
  pub record IsOrdered (order : Order) (after : Session Cart) : Type 0 where
    pub lines : Snapshots 1 c.priced_products s.entity.lines order.lines
    pub customer : order.customer_id ≡ s.entity.user_id
    pub status : order.status ≡ OrderStatus.new
    pub placed :
        (events : List Event) × IsPlaced order_id
          (placement_of c s.entity order.lines)
          placed_at
          s.events
          order
          events
        × (after.events
            ≡ events ++ cart_cleared s.entity.id s.entity.user_id (length s.entity.lines) ∷ [])
    pub emptied : after.entity.lines ≡ []
    pub same_cart : (after.entity.id ≡ s.entity.id) × (after.entity.user_id ≡ s.entity.user_id)

  -- A checkout that makes an order makes a new one for the owner of the cart, whose lines are
  -- snapshots of all lines of the cart, in their order and at the prices given; it leaves the same
  -- cart without lines, and records the placement and then the emptying.
  pub checkout_done :
      (order : Order)
      → (checkout c order_id placed_at cleared_at s).0 ≡ ok order
      → IsOrdered order (checkout c order_id placed_at cleared_at s).1
  unfolding checkout Cart.ensure_not_empty Cart.clear
  checkout_done order h = elim (Result-cases (build_lines 1 s.entity.lines c.priced_products)) [
    | inr (b, bad) ↦ absurd (ground arith)
    | inl (os, built) ↦
        let done : (place order_id (placement_of c s.entity os) placed_at s.events).0 ≡ ok order =
          ground arith in
        let p =
          place-IsPlaced order_id (placement_of c s.entity os) placed_at s.events order done in
        let e : order.lines ≡ os = ap (λ o. o.lines) p.is_new in
        record {
          lines = rw e (build_lines-Snapshots 1 c.priced_products s.entity.lines os built);
          customer = ap (λ o. o.customer_id) p.is_new;
          status = ap (λ o. o.status) p.is_new;
          placed = (
            (place order_id (placement_of c s.entity os) placed_at s.events).1,
            subst
                (λ l.
                  IsPlaced order_id (placement_of c s.entity l) placed_at s.events order
                    (place order_id (placement_of c s.entity os) placed_at s.events).1)
                (sym e) p,
            ground arith,
          );
          emptied = ground arith;
          same_cart = ground arith;
        }
  ]
