-- ===== src/OrderCommands/Life.antt =====
-- Placed orders over sequences of the commands of application/commands/orders.
use goldy_telegram_bot.Order.Frozen.{SameDeal-trans, carry_out-SameDeal, SameDeal}
use goldy_telegram_bot.Order.Lifecycle.{Reach-trans, carry_out-Reach}
use goldy_telegram_bot.Order.Moves.{carry_out, Reach}
use goldy_telegram_bot.OrderCommands.Permitted.{named_by, handle-Passed}
use goldy_telegram_bot.OrderCommands.Dispatch.{handle, handle_all, OrderCommand}
use goldy_telegram_bot.Order.{Order}
use goldy_telegram_bot.UserValues.{ExternalAccountId}
use goldy_telegram_bot.Request.{order_by_id, Work}
use goldy_telegram_bot.Event.{Session}
use goldy_telegram_bot.Prelude.{
  ◌≡◌, ap, ◌∙◌, subst, inl, inr, Option, some, List, [], ◌∷◌, arith, ◌==◌, Bool-cases, ℕ,
}
use goldy_telegram_bot.Prelude.{ℕ}

-- What becomes of an order that is in the table.
abbrev pub Lives : ℕ → Order → Work → Type 0
Lives id order w =
    (later : Order) × (order_by_id id w.tables.orders ≡ some later)
    × Reach order.status later.status
    × SameDeal order later

unmoved : (order : Order) → SameDeal order order
unmoved order = ground arith

handle-Lives :
    (caller : Option ExternalAccountId) (c : OrderCommand) (id : ℕ) (order : Order) (w : Work)
    → order_by_id id w.tables.orders ≡ some order
    → Lives id order (handle caller c w).1
handle-Lives caller c id order w found = elim (handle-Passed caller w c) [
  | inl (e, refused) ↦
      (order, ap (λ r. order_by_id id r.1.tables.orders) refused ∙ found, Reach.here, unmoved order)
  | inr p ↦ elim (Bool-cases (named_by c == id)) [
    | inr other ↦ (order, ground (arith, p.rows id), Reach.here, unmoved order)
    | inl this ↦
        let s : Session Order = record { entity = p.order; events = w.events } in
        let one : p.order ≡ order = ground (arith, p.named) in
        (
          (carry_out p.call s).1.entity,
          ground (arith, p.rows id),
          subst (λ o. Reach o.status (carry_out p.call s).1.entity.status) one
              (carry_out-Reach p.call s),
          subst (λ o. SameDeal o (carry_out p.call s).1.entity) one (carry_out-SameDeal p.call s),
        )
  ]
]

-- Whatever commands about placed orders are sent, by whomever and in whatever sequence, an order
-- that is there stays there; its status is reached from the one before by the stages of an order;
-- and its number, customer, recipient, price list, lines and comment stay as they were.
pub orders_live :
    (commands : List (Option ExternalAccountId × OrderCommand)) (id : ℕ) (order : Order) (w : Work)
    → order_by_id id w.tables.orders ≡ some order
    → Lives id order (handle_all commands w)
unfolding handle_all
orders_live [] id order w found = (order, found, Reach.here, unmoved order)
orders_live ((caller, c) ∷ commands) id order w found =
    let (later, there, reached, kept) = handle-Lives caller c id order w found in
    let (last, found_last, reached_last, kept_last) =
      orders_live commands id later (handle caller c w).1 there in
    (last, found_last, Reach-trans reached reached_last, SameDeal-trans kept kept_last)
