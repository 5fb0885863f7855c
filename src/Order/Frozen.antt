-- ===== src/Order/Frozen.antt =====
-- The fields of an order that its moves are not about.
use goldy_telegram_bot.OrderValues.{
  OrderStatus, CancellationInitiator, CancellationReason, DeliveryAddress,
}
use goldy_telegram_bot.Time.{Datetime}
use goldy_telegram_bot.Event.{Session}
use goldy_telegram_bot.Prelude.{ℕ, ◌≡◌, sym, ap, ◌∙◌, Option, none, List, [], ◌∷◌, arith}
use goldy_telegram_bot.Order.{total_of, change_status, cancel, change_delivery_address, Order}
use goldy_telegram_bot.Order.Moves.{
  Move, accept, dispatch, hand_over, stop, readdress, carry_out, run,
}

-- The two orders differ in status, address, cancellation and the moment of the last change alone.
pub record SameDeal (a b : Order) : Type 0 where
  pub id : a.id ≡ b.id
  pub created_at : a.created_at ≡ b.created_at
  pub number : a.number ≡ b.number
  pub customer_id : a.customer_id ≡ b.customer_id
  pub recipient : a.recipient ≡ b.recipient
  pub price_type_id : a.price_type_id ≡ b.price_type_id
  pub lines : a.lines ≡ b.lines
  pub comment : a.comment ≡ b.comment

pub SameDeal-trans : {a b c : Order} → SameDeal a b → SameDeal b c → SameDeal a c
SameDeal-trans p q = record {
  id = p.id ∙ q.id;
  created_at = p.created_at ∙ q.created_at;
  number = p.number ∙ q.number;
  customer_id = p.customer_id ∙ q.customer_id;
  recipient = p.recipient ∙ q.recipient;
  price_type_id = p.price_type_id ∙ q.price_type_id;
  lines = p.lines ∙ q.lines;
  comment = p.comment ∙ q.comment;
}

change_status-SameDeal :
    (status : OrderStatus) (reason : Option CancellationReason) (now : Datetime) (s : Session Order)
    → SameDeal s.entity (change_status status reason now s).1.entity
unfolding change_status
change_status-SameDeal status reason now s = ground arith

stop-SameDeal :
    (by : CancellationInitiator) (user : ℕ) (reason : Option CancellationReason) (now : Datetime)
    (s : Session Order)
    → SameDeal s.entity (cancel by user reason now s).1.entity
unfolding cancel
stop-SameDeal by user reason now s = ground arith

readdress-SameDeal :
    (address : DeliveryAddress) (now : Datetime) (s : Session Order)
    → SameDeal s.entity (change_delivery_address address now s).1.entity
unfolding change_delivery_address
readdress-SameDeal address now s = ground arith

pub carry_out-SameDeal : (m : Move) (s : Session Order) → SameDeal s.entity (carry_out m s).1.entity
unfolding carry_out
carry_out-SameDeal (accept now) s = change_status-SameDeal OrderStatus.confirmed none now s
carry_out-SameDeal (dispatch now) s = change_status-SameDeal OrderStatus.shipped none now s
carry_out-SameDeal (hand_over now) s = change_status-SameDeal OrderStatus.completed none now s
carry_out-SameDeal (stop by user reason now) s = stop-SameDeal by user reason now s
carry_out-SameDeal (readdress address now) s = readdress-SameDeal address now s

run-SameDeal : (ms : List Move) (s : Session Order) → SameDeal s.entity (run ms s).entity
unfolding run
run-SameDeal [] s = ground arith
run-SameDeal (m ∷ ms) s =
    SameDeal-trans (carry_out-SameDeal m s) (run-SameDeal ms (carry_out m s).1)

-- Whatever moves are tried on an order, its total, number, customer and price list stay as they
-- were.
pub run_keeps_deal :
    (ms : List Move) (s : Session Order)
    → (total_of (run ms s).entity.lines ≡ total_of s.entity.lines)
      × ((run ms s).entity.number ≡ s.entity.number)
      × ((run ms s).entity.customer_id ≡ s.entity.customer_id)
      × ((run ms s).entity.price_type_id ≡ s.entity.price_type_id)
run_keeps_deal ms s =
    let d = run-SameDeal ms s in
    (ap total_of (sym d.lines), sym d.number, sym d.customer_id, sym d.price_type_id)
