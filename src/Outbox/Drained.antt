-- ===== src/Outbox/Drained.antt =====
-- The relay of relay_outbox under its schedule: how long until the queue is empty.
use native.Mathlib.Decide.{dec_le}
use goldy_telegram_bot.Outbox.Counts.{count, waits}
use goldy_telegram_bot.Outbox.Tick.{tick_less, tick_keeps}
use goldy_telegram_bot.Outbox.{relay_outbox, Relay}
use goldy_telegram_bot.Time.{Datetime}
use goldy_telegram_bot.Request.{OutboxMessage}
use goldy_telegram_bot.Prelude.{◌≤◌, ◌<◌, ◌≡◌, Bool, false, not, List, [], ◌∷◌, arith, length, ℕ}

-- One tick for each moment, over rows that nobody else has locked.
unfoldable pub ticks : (OutboxMessage → Bool) → ℕ → List Datetime → Relay → Relay
unfolding relay_outbox
ticks accepts batch_size [] r = r
ticks accepts batch_size (now ∷ nows) r =
    ticks accepts batch_size nows (relay_outbox accepts now (λ id. false) batch_size r).1

-- If fewer pending messages than fit into a batch are refused by the broker, and nobody else has
-- rows locked, then after as many ticks as there are other pending messages, or more, no message
-- that the broker accepts is pending: the refused ones delay the queue and do not block it.
pub ticks_drain :
    (accepts : OutboxMessage → Bool) (batch_size : ℕ) (nows : List Datetime) (r : Relay)
    → count (waits (λ m. not (accepts m))) r.outbox < batch_size
    → count (waits accepts) r.outbox ≤ length nows
    → count (waits accepts) (ticks accepts batch_size nows r).outbox ≡ 0
unfolding ticks
ticks_drain accepts batch_size [] r h k = omega arith
ticks_drain accepts batch_size (now ∷ nows) r h k =
    let r' : Relay = (relay_outbox accepts now (λ id. false) batch_size r).1 in
    ticks_drain accepts batch_size nows r'
      (omega (arith, h, tick_keeps accepts now batch_size r (λ m. not (accepts m))))
      (elim (dec_le (count (waits accepts) r.outbox) 0) [
        | yes none_left ↦ omega (arith, none_left, tick_keeps accepts now batch_size r accepts)
        | no some_left ↦
            omega (arith, k, tick_less accepts now batch_size r (omega (arith, some_left)) h)
      ])
