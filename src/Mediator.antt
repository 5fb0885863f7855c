-- ===== src/Mediator.antt =====
-- infrastructure/mediator, application/pipelines and infrastructure/adapters/outbox/
-- outbox_event_bus.py: how a command runs inside its pipelines. A handler is a computation on the
-- work of its request, and the request is part of it. The stamp gives the identity and the moment
-- of the events in the order in which they were collected, since an event of the model has neither.
use goldy_telegram_bot.Time.{Datetime}
use goldy_telegram_bot.Result.{ok, err}
use goldy_telegram_bot.Request.{OutboxMessage, Database, Work}
use goldy_telegram_bot.Event.{pull_events, Event}
pub mod Atomic
use goldy_telegram_bot.Exec.{Exec, pure, gets, modify, ◌>>◌, ◌>>=◌}
use goldy_telegram_bot.Prelude.{suc, none, List, [], ◌∷◌, ◌++◌, reversed, ℕ}

-- The committed tables, and the work of the request on its own session.
pub record Scope : Type 0 where
  pub committed : Database
  pub work : Work

abbrev pub Stamp : Type 0
Stamp = ℕ → ℕ × Datetime

-- A pipeline runs around the rest of the chain.
abbrev pub Pipeline : Type 0 → Type 0
Pipeline A = Exec Scope A → Exec Scope A

module _ {A : Type 0} where
  -- The loop of `ChainImpl.build_pipeline_handlers` over the reversed pipelines
  unfoldable pub wrap_each : List (Pipeline A) → Exec Scope A → Exec Scope A
  wrap_each [] handle_next = handle_next
  wrap_each (pipeline ∷ pipelines) handle_next = wrap_each pipelines (pipeline handle_next)

  -- `ChainImpl.build_pipeline_handlers`
  unfoldable pub build_pipeline_handlers : Exec Scope A → List (Pipeline A) → Exec Scope A
  unfolding wrap_each
  build_pipeline_handlers handler pipelines = wrap_each (reversed pipelines) handler

-- `TransactionManager.commit` and `rollback`: a rolled back session reads the committed tables.
abbrev commit : Scope → Scope
commit s = record s { committed = s.work.tables }

abbrev rollback : Scope → Scope
rollback s = record s { work = record (s.work) { tables = s.committed } }

-- `TransactionPipeline.handle`; every error of the model is an `AppError`, which it catches.
unfoldable pub transaction_pipeline : {A : Type 0} → Pipeline A
transaction_pipeline handle_next s =
    let (r, s') = handle_next s in
    elim r [ ok response ↦ (ok response, commit s') | err e ↦ (err e, rollback s') ]

-- `RetortEventSerializer.serialize` of the event with this identity and moment
abbrev pub serialize : ℕ × Datetime → Event → OutboxMessage
serialize (id, created_at) event = record {
  id = id;
  created_at = created_at;
  event = event;
  processed_at = none;
}

abbrev pub add_message : OutboxMessage → Work → Work
add_message message w = record w {
  tables = record (w.tables) { outbox = w.tables.outbox ++ message ∷ [] };
}

-- `OutboxEventBus.publish`, from the event with the number `n` on
unfoldable pub publish : Stamp → ℕ → List Event → Work → Work
publish stamp n [] w = w
publish stamp n (event ∷ events) w =
    publish stamp (suc n) events (add_message (serialize (stamp n) event) w)

-- `EventsPipeline.handle`
unfoldable pub events_pipeline : {A : Type 0} → Stamp → Pipeline A
unfolding publish
events_pipeline stamp handle_next = do
  response ← handle_next
  events ← gets (λ s. s.work.events)
  modify (λ s. record s { work = record (s.work) { events = (pull_events events).1 } })
  modify (λ s. record s { work = publish stamp 0 (pull_events events).0 s.work })
  pure response

-- A handler works on the session of its request.
abbrev pub on_work : {A : Type 0} → Exec Work A → Exec Scope A
on_work handler s = let (r, w) = handler s.work in (r, record s { work = w })

-- `MediatorImpl.send` of a command, with the pipelines that the registry holds for `Command`
unfoldable pub send_command : {A : Type 0} → Stamp → Exec Work A → Exec Scope A
unfolding build_pipeline_handlers transaction_pipeline events_pipeline
send_command stamp handler =
    build_pipeline_handlers (on_work handler) (transaction_pipeline ∷ events_pipeline stamp ∷ [])

-- `MediatorImpl.send` of a query, which has no pipeline
unfoldable pub send_query : {A : Type 0} → Exec Work A → Exec Scope A
unfolding build_pipeline_handlers
send_query handler = build_pipeline_handlers (on_work handler) []
