-- ===== src/Outbox/Tick.antt =====
-- One tick of the relay: what it takes out of the queue.
use goldy_telegram_bot.Outbox.Counts.{
  any-take, All-filter, All-take, All-every, count-order_by_date, All-order_by_date, count-filter,
  count, All-weaken, waits, count-mark_processed, count-mark_processed_less,
}
use goldy_telegram_bot.Outbox.{
  is_pending, filter, order_by_date, relay_outbox, read_pending, mark_processed, relay_one,
  relay_each, Relay,
}
use goldy_telegram_bot.Time.{Datetime}
use goldy_telegram_bot.Request.{OutboxMessage}
use goldy_telegram_bot.Prelude.{
  ◌||◌, ◌+◌, ◌≤◌, ◌<◌, ◌≡◌, inl, inr, Bool, true, false, ◌&&◌, not, List, [], ◌∷◌, ◌++◌, arith,
  ◌==◌, Bool-cases, any, All, ℕ,
}

-- A row of the table with this id waits, and the broker accepts it.
abbrev Stands : (OutboxMessage → Bool) → List OutboxMessage → OutboxMessage → Type 0
Stands accepts outbox m = any (λ n. waits accepts n && n.id == m.id) outbox ≡ true

All-Stands :
    (accepts : OutboxMessage → Bool) (ms : List OutboxMessage)
    → All (λ m. waits accepts m ≡ true → Stands accepts ms m) ms
All-Stands accepts [] = tt
All-Stands accepts (m ∷ ms) = (
  λ h. ground arith,
  All-weaken (λ n. waits accepts n ≡ true → Stands accepts ms n)
      (λ n. waits accepts n ≡ true → Stands accepts (m ∷ ms) n) ms (λ n f h. ground (arith, f h))
      (All-Stands accepts ms),
)

module _ (accepts : OutboxMessage → Bool) (now : Datetime) where
  -- A batch takes nothing back into the queue, of any kind of messages.
  pub count-relay_each :
      (p : OutboxMessage → Bool) (ms : List OutboxMessage) (n : ℕ) (r : Relay)
      → count (waits p) (relay_each accepts now ms (n, r)).1.outbox ≤ count (waits p) r.outbox
  unfolding relay_each relay_one
  count-relay_each p [] n r = omega arith
  count-relay_each p (m ∷ ms) n r = elim (Bool-cases (accepts m)) [
    | inl e ↦
        let r' : Relay = record {
          outbox = mark_processed now m.id r.outbox;
          sent = r.sent ++ m ∷ [];
        } in
        ground (arith, count-relay_each p ms (n + 1) r', count-mark_processed p now m.id r.outbox)
    | inr e ↦ ground (arith, count-relay_each p ms n r)
  ]

  -- A batch with an accepted message takes one out of the queue at least.
  pub count-relay_each_less :
      (ms : List OutboxMessage) (n : ℕ) (r : Relay)
      → All (λ m. accepts m ≡ true → Stands accepts r.outbox m) ms
      → any accepts ms ≡ true
      → count (waits accepts) (relay_each accepts now ms (n, r)).1.outbox
        < count (waits accepts) r.outbox
  unfolding relay_each relay_one
  count-relay_each_less [] n r v h = cc
  count-relay_each_less (m ∷ ms) n r v h = elim (Bool-cases (accepts m)) [
    | inl e ↦
        let r' : Relay = record {
          outbox = mark_processed now m.id r.outbox;
          sent = r.sent ++ m ∷ [];
        } in
        ground (
          arith,
          count-relay_each accepts ms (n + 1) r',
          count-mark_processed_less accepts now m.id r.outbox (v.0 e),
        )
    | inr e ↦
        let less : count (waits accepts) (relay_each accepts now ms (n, r)).1.outbox
            < count (waits accepts) r.outbox =
          count-relay_each_less ms n r v.1 (ground arith) in
        ground arith
  ]

  module _ (limit : ℕ) (r : Relay) where
    abbrev free : ℕ → Bool
    free id = false

    abbrev batch : List OutboxMessage
    unfolding read_pending
    batch = read_pending free limit r.outbox

    batch-Stands : All (λ m. accepts m ≡ true → Stands accepts r.outbox m) batch
    unfolding read_pending
    batch-Stands =
        let pending : List OutboxMessage = filter (λ m. is_pending m && not false) r.outbox in
        let P : OutboxMessage → Type 0 = λ m.
          ((is_pending m && not false) ≡ true)
          × (waits accepts m ≡ true → Stands accepts r.outbox m) in
        All-weaken P (λ m. accepts m ≡ true → Stands accepts r.outbox m) batch
          (λ m v h. v.1 (ground arith))
          (All-take P limit (order_by_date pending) (
            All-order_by_date P pending (
              All-filter (λ m. waits accepts m ≡ true → Stands accepts r.outbox m)
                (λ m. is_pending m && not false) r.outbox (All-Stands accepts r.outbox))))

    batch-accepted :
        0 < count (waits accepts) r.outbox
        → count (waits (λ m. not (accepts m))) r.outbox < limit
        → any accepts batch ≡ true
    unfolding read_pending
    batch-accepted h k =
        let refused : OutboxMessage → Bool = λ m. not (accepts m) in
        let pending : List OutboxMessage = filter (λ m. is_pending m && not false) r.outbox in
        any-take accepts refused limit (order_by_date pending)
          (omega (arith, count-order_by_date refused pending, count-filter refused r.outbox))
          (omega (arith, count-order_by_date accepts pending, count-filter accepts r.outbox))
          (All-every (λ m. (accepts m || refused m) ≡ true) (order_by_date pending)
            (λ m. ground arith))

    -- A tick over unlocked rows publishes something, if something can be published and fewer
    -- messages than fit into a batch are refused.
    pub tick_less :
        0 < count (waits accepts) r.outbox
        → count (waits (λ m. not (accepts m))) r.outbox < limit
        → count (waits accepts) (relay_outbox accepts now free limit r).1.outbox
          < count (waits accepts) r.outbox
    unfolding relay_outbox
    tick_less h k =
        let some_accepted : any accepts batch ≡ true = batch-accepted h k in
        let less : count (waits accepts) (relay_each accepts now batch (0, r)).1.outbox
            < count (waits accepts) r.outbox =
          count-relay_each_less batch 0 r batch-Stands some_accepted in
        ground arith

    pub tick_keeps :
        (p : OutboxMessage → Bool)
        → count (waits p) (relay_outbox accepts now free limit r).1.outbox
          ≤ count (waits p) r.outbox
    unfolding relay_outbox
    tick_keeps p = ground (arith, count-relay_each p batch 0 r)
