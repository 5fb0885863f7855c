-- ===== src/OrderCommands/Permitted.antt =====
-- Who may send a command of application/commands/orders about which order, and what it changes.
use goldy_telegram_bot.Order.Frozen.{carry_out-SameDeal}
use goldy_telegram_bot.Order.Lifecycle.{carry_out-outcome}
use goldy_telegram_bot.Order.Moves.{
  outcome, carry_out, Move, accept, dispatch, hand_over, stop, readdress,
}
use goldy_telegram_bot.Request.Tables.{find_by-holds, find_by-save}
use goldy_telegram_bot.Request.Caller.{current_user_reads}
use goldy_telegram_bot.Access.Hierarchy.{rank}
use goldy_telegram_bot.OrderValues.{
  make_delivery_address, OrderStatus, CancellationInitiator, CancellationReason, DeliveryAddress,
}
use goldy_telegram_bot.OrderCommands.Dispatch.{handle, OrderCommand, withdraw, redirect, move}
use goldy_telegram_bot.Order.{Order}
use goldy_telegram_bot.Time.{Datetime}
use goldy_telegram_bot.UserValues.{ExternalAccountId}
use goldy_telegram_bot.Text.{Text}
use goldy_telegram_bot.Result.{
  order_status_transition, Result-cases, Error, Result, authorization, order_not_found, ok, err,
}
use goldy_telegram_bot.User.{User}
use goldy_telegram_bot.Request.{order_id, order_by_id, on_order, current_user, Work}
use goldy_telegram_bot.Access.{
  Permission, authorize, staff_permission, is_order_owner, can_manage_orders, OrderAccessContext,
}
use goldy_telegram_bot.OrderCommands.{
  require_order, authorized, cancel_order, change_delivery_address, optional_reason, apply_move,
  change_order_status,
}
use goldy_telegram_bot.Event.{Session}
use goldy_telegram_bot.Prelude.{
  ◌≡◌, refl, sym, subst, ◌⊎◌, inl, inr, Bool, true, Option, none, some, arith, leb, ◌==◌,
  if◌then◌else◌, Bool-cases, Option-cases, ℕ,
}

-- The order that a command names.
abbrev pub named_by : OrderCommand → ℕ
named_by (withdraw id now) = id
named_by (redirect id address now) = id
named_by (move id status reason now) = id

-- Staff moves orders on; withdrawing an order and redirecting it are for its customer.
abbrev pub may_order : OrderCommand → User → Order → Bool
may_order (withdraw id now) subject order = subject.id == order.customer_id
may_order (redirect id address now) subject order = subject.id == order.customer_id
may_order (move id status reason now) subject order = leb 1 (rank subject.role)

-- The call of the order that a status asks for.
abbrev AsksFor : OrderStatus → Option Text → User → Datetime → Move → Type 0
AsksFor OrderStatus.new reason subject now m = ⊥
AsksFor OrderStatus.confirmed reason subject now m = m ≡ accept now
AsksFor OrderStatus.shipped reason subject now m = m ≡ dispatch now
AsksFor OrderStatus.completed reason subject now m = m ≡ hand_over now
AsksFor OrderStatus.cancelled reason subject now m =
    (r : Option CancellationReason) × (optional_reason reason ≡ ok r)
    × (m ≡ stop CancellationInitiator.manager subject.id r now)

-- The call of the order that a command of this person means.
abbrev pub Means : OrderCommand → User → Move → Type 0
Means (withdraw id now) subject m = m ≡ stop CancellationInitiator.customer subject.id none now
Means (redirect id address now) subject m =
    (a : DeliveryAddress) × (make_delivery_address address ≡ ok a) × (m ≡ readdress a now)
Means (move id status reason now) subject m = AsksFor status reason subject now m

-- The command was let through to its order, and this is what it has changed.
pub record Passed (caller : Option ExternalAccountId) (c : OrderCommand) (w : Work)
    (answer : Result (Unit {0}) × Work) : Type 0 where
  pub subject : User
  pub order : Order
  pub call : Move
  pub sent_by : current_user caller w ≡ (ok subject, w)
  pub named : order_by_id (named_by c) w.tables.orders ≡ some order
  pub allowed : may_order c subject order ≡ true
  pub meant : Means c subject call
  pub answered : answer.0 ≡ outcome call order.status
  pub rows :
      (id : ℕ)
      → order_by_id id answer.1.tables.orders ≡ (
          if named_by c == id
          then some (carry_out call (record { entity = order; events = w.events })).1.entity
          else order_by_id id w.tables.orders)
  pub users : answer.1.tables.users ≡ w.tables.users
  pub carts : answer.1.tables.carts ≡ w.tables.carts

module _ (caller : Option ExternalAccountId) (w : Work) where
  authorized-cases :
      (id : ℕ) (permission : Permission OrderAccessContext)
      → ((e : Error) × (authorized caller id permission w ≡ (err e, w)))
        ⊎ ((p : User × Order) × (authorized caller id permission w ≡ (ok p, w))
            × (current_user caller w ≡ (ok p.0, w))
            × (order_by_id id w.tables.orders ≡ some p.1)
            × (permission (record { subject = p.0; order_customer_id = p.1.customer_id }) ≡ true))
  unfolding authorized require_order authorize
  authorized-cases id permission = elim (Result-cases (current_user caller w).0) [
    | inr (e, refused) ↦ inl (e, ground (arith, current_user_reads caller w))
    | inl (subject, sent) ↦
        let there : current_user caller w ≡ (ok subject, w) =
          ground (arith, current_user_reads caller w) in
        elim (Option-cases (order_by_id id w.tables.orders)) [
          | inl absent ↦ inl (order_not_found, ground arith)
          | inr (order, found) ↦
              elim (Bool-cases (
                permission (record { subject = subject; order_customer_id = order.customer_id }))) [
                  | inl e ↦ inr ((subject, order), ground arith, there, found, e)
                  | inr e ↦ inl (authorization, ground arith)
                ]
        ]
  ]

  on_order-rows :
      (m : Move) (id : ℕ) (order : Order)
      → order_by_id id w.tables.orders ≡ some order
      → (other : ℕ)
      → order_by_id other (on_order (carry_out m) order w).1.tables.orders ≡ (
          if id == other
          then some (carry_out m (record { entity = order; events = w.events })).1.entity
          else order_by_id other w.tables.orders)
  on_order-rows m id order h other =
      let s : Session Order = record { entity = order; events = w.events } in
      let row : Order = (carry_out m s).1.entity in
      let kept : order.id ≡ row.id = (carry_out-SameDeal m s).id in
      ground (
        arith,
        kept,
        find_by-save order_id other row w.tables.orders,
        find_by-holds (λ o. o.id == id) w.tables.orders order h,
      )

  passed :
      (c : OrderCommand) (m : Move) (p : User × Order)
      → current_user caller w ≡ (ok p.0, w)
      → order_by_id (named_by c) w.tables.orders ≡ some p.1
      → may_order c p.0 p.1 ≡ true
      → Means c p.0 m
      → handle caller c w ≡ on_order (carry_out m) p.1 w
      → ((e : Error) × (handle caller c w ≡ (err e, w))) ⊎ Passed caller c w (handle caller c w)
  passed c m p sent found allowed meant e = inr (
      subst (λ answer. Passed caller c w answer) (sym e)
        (record {
          subject = p.0;
          order = p.1;
          call = m;
          sent_by = sent;
          named = found;
          allowed = allowed;
          meant = meant;
          answered = carry_out-outcome m (record { entity = p.1; events = w.events });
          rows = on_order-rows m (named_by c) p.1 found;
          users = refl;
          carts = refl;
        }))

  moved :
      (status : OrderStatus) (id : ℕ) (reason : Option Text) (now : Datetime) (m : Move)
      (p : User × Order)
      → authorized caller id can_manage_orders w ≡ (ok p, w)
      → current_user caller w ≡ (ok p.0, w)
      → order_by_id id w.tables.orders ≡ some p.1
      → can_manage_orders (record { subject = p.0; order_customer_id = p.1.customer_id }) ≡ true
      → Means (move id status reason now) p.0 m
      → apply_move status p.1 p.0 reason now w ≡ on_order (carry_out m) p.1 w
      → ((e : Error) × (handle caller (move id status reason now) w ≡ (err e, w)))
        ⊎ Passed caller (move id status reason now) w (handle caller (move id status reason now) w)
  unfolding handle change_order_status can_manage_orders staff_permission
  moved status id reason now m p through sent found permitted meant e =
      passed (move id status reason now) m p sent found (ground arith) meant (ground arith)

  moved_by_staff :
      (status : OrderStatus) (id : ℕ) (reason : Option Text) (now : Datetime) (p : User × Order)
      → authorized caller id can_manage_orders w ≡ (ok p, w)
      → current_user caller w ≡ (ok p.0, w)
      → order_by_id id w.tables.orders ≡ some p.1
      → can_manage_orders (record { subject = p.0; order_customer_id = p.1.customer_id }) ≡ true
      → ((e : Error) × (handle caller (move id status reason now) w ≡ (err e, w)))
        ⊎ Passed caller (move id status reason now) w (handle caller (move id status reason now) w)
  unfolding handle change_order_status apply_move carry_out
  moved_by_staff OrderStatus.new id reason now p through sent found permitted =
      inl (order_status_transition, ground arith)
  moved_by_staff OrderStatus.confirmed id reason now p through sent found permitted =
      moved OrderStatus.confirmed id reason now (accept now) p through sent found permitted refl
        refl
  moved_by_staff OrderStatus.shipped id reason now p through sent found permitted =
      moved OrderStatus.shipped id reason now (dispatch now) p through sent found permitted refl
        refl
  moved_by_staff OrderStatus.completed id reason now p through sent found permitted =
      moved OrderStatus.completed id reason now (hand_over now) p through sent found permitted refl
        refl
  moved_by_staff OrderStatus.cancelled id reason now p through sent found permitted =
      elim (Result-cases (optional_reason reason)) [
        | inr (e, invalid) ↦ inl (e, ground arith)
        | inl (r, valid) ↦
            moved OrderStatus.cancelled id reason now
              (stop CancellationInitiator.manager p.0.id r now) p through sent found permitted
              (r, valid, refl) (ground arith)
      ]

  -- A command about a placed order is refused with an error and changes nothing at all; or it was
  -- sent by a known person who may: the customer of the order, or staff where it moves the order on;
  -- then it answers what the stages of an order say about the call that it means, and changes the
  -- row of that one order only, by that call.
  pub handle-Passed :
      (c : OrderCommand)
      → ((e : Error) × (handle caller c w ≡ (err e, w))) ⊎ Passed caller c w (handle caller c w)
  unfolding handle cancel_order change_delivery_address change_order_status apply_move carry_out
      is_order_owner
  handle-Passed (withdraw id now) = elim (authorized-cases id is_order_owner) [
    | inl (e, refused) ↦ inl (e, ground arith)
    | inr (p, through, sent, found, permitted) ↦
        passed (withdraw id now) (stop CancellationInitiator.customer p.0.id none now) p sent found
          permitted refl (ground arith)
  ]
  handle-Passed (redirect id address now) = elim (authorized-cases id is_order_owner) [
    | inl (e, refused) ↦ inl (e, ground arith)
    | inr (p, through, sent, found, permitted) ↦
        elim (Result-cases (make_delivery_address address)) [
          | inr (e, invalid) ↦ inl (e, ground arith)
          | inl (a, valid) ↦
              passed (redirect id address now) (readdress a now) p sent found permitted
                (a, valid, refl) (ground arith)
        ]
  ]
  handle-Passed (move id status reason now) = elim (authorized-cases id can_manage_orders) [
    | inl (e, refused) ↦ inl (e, ground arith)
    | inr (p, through, sent, found, permitted) ↦
        moved_by_staff status id reason now p through sent found permitted
  ]
