-- ===== src/Outbox.antt =====
-- application/commands/outbox/relay_outbox and the part of sqlalchemy_outbox_command_gateway.py
-- that it calls: the relay publishes pending messages to the broker and marks them. The broker is
-- a parameter, which accepts a message or raises; so are the rows that another worker has locked.
-- Messages of one moment are read in the order of the table.
use goldy_telegram_bot.Time.{before, Datetime}
use goldy_telegram_bot.Request.{OutboxMessage}
pub mod Counts
pub mod Tick
pub mod Drained
pub mod Delivery
use goldy_telegram_bot.Prelude.{
  ◌+◌, Bool, true, false, ◌&&◌, not, none, some, List, [], ◌∷◌, ◌++◌, ◌==◌, if◌then◌else◌, length,
  is_nil, take, ℕ,
}

abbrev pub is_pending : OutboxMessage → Bool
is_pending m = elim m.processed_at [ none ↦ true | some t ↦ false ]

module _ {A : Type 0} where
  unfoldable pub filter : (A → Bool) → List A → List A
  filter p [] = []
  filter p (x ∷ xs) = let rest = filter p xs in if p x then x ∷ rest else rest

-- `ORDER BY created_at`
unfoldable pub insert_by_date : OutboxMessage → List OutboxMessage → List OutboxMessage
insert_by_date m [] = m ∷ []
insert_by_date m (n ∷ ms) =
    if before n.created_at m.created_at then n ∷ insert_by_date m ms else m ∷ n ∷ ms

unfoldable pub order_by_date : List OutboxMessage → List OutboxMessage
unfolding insert_by_date
order_by_date [] = []
order_by_date (m ∷ ms) = insert_by_date m (order_by_date ms)

-- `SqlAlchemyOutboxRepository.read_pending`
unfoldable pub read_pending : (ℕ → Bool) → ℕ → List OutboxMessage → List OutboxMessage
unfolding filter order_by_date
read_pending locked limit outbox =
    take limit (order_by_date (filter (λ m. is_pending m && not (locked m.id)) outbox))

-- `SqlAlchemyOutboxRepository.mark_processed`
unfoldable pub mark_processed : Datetime → ℕ → List OutboxMessage → List OutboxMessage
mark_processed now id [] = []
mark_processed now id (m ∷ ms) =
    (if m.id == id then record m { processed_at = some now } else m) ∷ mark_processed now id ms

-- The table, and what the broker has accepted so far.
pub record Relay : Type 0 where
  pub outbox : List OutboxMessage
  pub sent : List OutboxMessage

pub record RelayOutboxResponse : Type 0 where
  pub published : ℕ
  pub total : ℕ

module _ (accepts : OutboxMessage → Bool) (now : Datetime) where
  -- One round of the loop of `RelayOutboxHandler.handle`: a refused message is skipped.
  unfoldable pub relay_one : OutboxMessage → ℕ × Relay → ℕ × Relay
  unfolding mark_processed
  relay_one m (published, r) =
      if accepts m
      then (
        published + 1,
        record { outbox = mark_processed now m.id r.outbox; sent = r.sent ++ m ∷ [] },
      )
      else (published, r)

  unfoldable pub relay_each : List OutboxMessage → ℕ × Relay → ℕ × Relay
  unfolding relay_one
  relay_each [] state = state
  relay_each (m ∷ ms) state = relay_each ms (relay_one m state)

  -- `RelayOutboxHandler.handle`
  unfoldable pub relay_outbox : (ℕ → Bool) → ℕ → Relay → RelayOutboxResponse × Relay
  unfolding read_pending relay_each
  relay_outbox locked batch_size r =
      let ms = read_pending locked batch_size r.outbox in
      if is_nil ms
      then (record { published = 0; total = 0 }, r)
      else (let (published, r') = relay_each ms (0, r) in
          (record { published = published; total = length ms }, r'))
