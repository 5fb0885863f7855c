-- ===== src/Outbox/Delivery.antt =====
-- What stands in the outbox table of the relay against what the broker has accepted.
use goldy_telegram_bot.Outbox.{
  is_pending, read_pending, mark_processed, relay_one, relay_each, relay_outbox, Relay,
}
use goldy_telegram_bot.Time.{Datetime}
use goldy_telegram_bot.Mediator.{serialize}
use goldy_telegram_bot.Request.{OutboxMessage}
use goldy_telegram_bot.Event.{Event}
use goldy_telegram_bot.Prelude.{
  sym, subst, ◌+◌, ◌≡◌, inl, inr, Bool, true, false, ◌||◌, List, [], ◌∷◌, ◌++◌, arith, ◌==◌,
  Bool-cases, any, is_nil, All, ℕ,
}

-- What happens to the table: a command adds a message, or a worker makes a tick, with the rows that
-- others have locked and the broker as it is at that moment.
pub data Action : Type 0 where
  enqueue : ℕ → Datetime → Event → Action
  tick : (OutboxMessage → Bool) → Datetime → (ℕ → Bool) → ℕ → Action

unfoldable pub act : Action → Relay → Relay
unfolding relay_outbox
act (enqueue id created_at event) r = record r {
  outbox = r.outbox ++ serialize (id, created_at) event ∷ [];
}
act (tick accepts now locked batch_size) r = (relay_outbox accepts now locked batch_size r).1

unfoldable pub act_all : List Action → Relay → Relay
unfolding act
act_all [] r = r
act_all (a ∷ actions) r = act_all actions (act a r)

abbrev was_sent : List OutboxMessage → ℕ → Bool
was_sent sent id = any (λ m. m.id == id) sent

-- A row that is marked has been accepted by the broker.
abbrev pub IsDelivered : List OutboxMessage → OutboxMessage → Type 0
IsDelivered sent m = is_pending m ≡ false → was_sent sent m.id ≡ true

abbrev pub Delivered : Relay → Type 0
Delivered r = All (IsDelivered r.sent) r.outbox

any-append_last :
    (sent : List OutboxMessage) (m : OutboxMessage) (id : ℕ)
    → was_sent (sent ++ m ∷ []) id ≡ (was_sent sent id || m.id == id)
any-append_last [] m id = ground arith
any-append_last (n ∷ sent) m id = ground (arith, any-append_last sent m id)

mark-IsDelivered :
    (now : Datetime) (m : OutboxMessage) (sent rows : List OutboxMessage)
    → All (IsDelivered sent) rows
    → All (IsDelivered (sent ++ m ∷ [])) (mark_processed now m.id rows)
unfolding mark_processed
mark-IsDelivered now m sent [] v = tt
mark-IsDelivered now m sent (n ∷ rows) v = elim (Bool-cases (n.id == m.id)) [
  | inl e ↦
      ((λ h. ground (arith, any-append_last sent m n.id)), mark-IsDelivered now m sent rows v.1)
  | inr e ↦ (
    (λ h. ground (arith, any-append_last sent m n.id, v.0)),
    mark-IsDelivered now m sent rows v.1,
  )
]

relay_each-IsDelivered :
    (accepts : OutboxMessage → Bool) (now : Datetime) (ms : List OutboxMessage) (n : ℕ) (r : Relay)
    → Delivered r
    → Delivered (relay_each accepts now ms (n, r)).1
unfolding relay_each relay_one
relay_each-IsDelivered accepts now [] n r v = v
relay_each-IsDelivered accepts now (m ∷ ms) n r v = elim (Bool-cases (accepts m)) [
  | inl e ↦
      let r' : Relay = record {
        outbox = mark_processed now m.id r.outbox;
        sent = r.sent ++ m ∷ [];
      } in
      let same : relay_each accepts now (m ∷ ms) (n, r) ≡ relay_each accepts now ms (n + 1, r') =
        ground arith in
      subst (λ state. Delivered state.1) (sym same)
        (relay_each-IsDelivered accepts now ms (n + 1) r'
          (mark-IsDelivered now m r.sent r.outbox v))
  | inr e ↦
      let same : relay_each accepts now (m ∷ ms) (n, r) ≡ relay_each accepts now ms (n, r) =
        ground arith in
      subst (λ state. Delivered state.1) (sym same) (relay_each-IsDelivered accepts now ms n r v)
]

All-append_last :
    (P : OutboxMessage → Type 0) (rows : List OutboxMessage) (m : OutboxMessage)
    → All P rows
    → P m
    → All P (rows ++ m ∷ [])
All-append_last P [] m v h = (h, tt)
All-append_last P (n ∷ rows) m v h = (v.0, All-append_last P rows m v.1 h)

act-IsDelivered : (a : Action) (r : Relay) → Delivered r → Delivered (act a r)
unfolding act relay_outbox
act-IsDelivered (enqueue id created_at event) r v =
    All-append_last (IsDelivered r.sent) r.outbox (serialize (id, created_at) event) v (λ h. cc)
act-IsDelivered (tick accepts now locked batch_size) r v =
    elim (Bool-cases (is_nil (read_pending locked batch_size r.outbox))) [
      | inl e ↦
          let same : (relay_outbox accepts now locked batch_size r).1 ≡ r = ground arith in
          subst Delivered (sym same) v
      | inr e ↦
          let ms : List OutboxMessage = read_pending locked batch_size r.outbox in
          let same : (relay_outbox accepts now locked batch_size r).1
              ≡ (relay_each accepts now ms (0, r)).1 =
            ground arith in
          subst Delivered (sym same) (relay_each-IsDelivered accepts now ms 0 r v)
    ]

-- From a table in which every message that is marked as processed has been accepted by the broker:
-- however messages are added and ticks are made, with brokers that refuse what they will and rows
-- that others have locked, that stays so.
pub act_all-IsDelivered :
    (actions : List Action) (r : Relay) → Delivered r → Delivered (act_all actions r)
unfolding act_all
act_all-IsDelivered [] r v = v
act_all-IsDelivered (a ∷ actions) r v =
    act_all-IsDelivered actions (act a r) (act-IsDelivered a r v)
