-- ===== src/Mediator/Atomic.antt =====
-- Chains of pipelines, and the transaction with the outbox inside it.
use goldy_telegram_bot.Exec.{Exec}
use goldy_telegram_bot.Time.{before}
use goldy_telegram_bot.Result.{Result, ok, err}
use goldy_telegram_bot.Mediator.{
  add_message, Stamp, Pipeline, wrap_each, build_pipeline_handlers, serialize, publish,
  send_command, Scope,
}
use goldy_telegram_bot.Request.{OutboxMessage, Database, Work}
use goldy_telegram_bot.Event.{Event}
use goldy_telegram_bot.Prelude.{ℕ, suc, ◌≡◌, refl, ap, ◌∙◌, List, [], ◌∷◌, ◌++◌, arith, reversed}
use mathlib.Core.List.{append_assoc, append-nil}

-- What a chain is meant to be: the first pipeline is the outermost.
abbrev nested : {A : Type 0} → Exec Scope A → List (Pipeline A) → Exec Scope A
nested handler [] = handler
nested handler (pipeline ∷ pipelines) = pipeline (nested handler pipelines)

wrap_each-append :
    {A : Type 0} (outer inner : List (Pipeline A)) (handler : Exec Scope A)
    → wrap_each (inner ++ outer) handler ≡ wrap_each outer (wrap_each inner handler)
unfolding wrap_each
wrap_each-append outer [] handler = refl
wrap_each-append outer (pipeline ∷ inner) handler = wrap_each-append outer inner (pipeline handler)

-- However many pipelines a request has, and whatever they do, the chain runs them in the order of
-- their registration, each around all that follow it and the handler innermost.
pub chain_order :
    {A : Type 0} (handler : Exec Scope A) (pipelines : List (Pipeline A))
    → build_pipeline_handlers handler pipelines ≡ nested handler pipelines
unfolding build_pipeline_handlers wrap_each
chain_order handler [] = refl
chain_order handler (pipeline ∷ pipelines) =
    wrap_each-append (pipeline ∷ []) (reversed pipelines) handler
    ∙ ap pipeline (chain_order handler pipelines)

-- The messages of the events, in their order.
abbrev pub messages : Stamp → ℕ → List Event → List OutboxMessage
messages stamp n [] = []
messages stamp n (event ∷ events) = serialize (stamp n) event ∷ messages stamp (suc n) events

pub publish_lem :
    (stamp : Stamp) (n : ℕ) (events : List Event) (w : Work)
    → publish stamp n events w ≡ record w {
      tables = record (w.tables) { outbox = w.tables.outbox ++ messages stamp n events };
    }
unfolding publish
publish_lem stamp n [] w = rw (append-nil w.tables.outbox) refl
publish_lem stamp n (event ∷ events) w =
    publish_lem stamp (suc n) events (add_message (serialize (stamp n) event) w)
    ∙ ground (
      arith,
      append_assoc w.tables.outbox (serialize (stamp n) event ∷ []) (messages stamp (suc n) events),
    )

-- The tables that are committed once a handler has finished: its own with the messages of all
-- collected events appended to the outbox, or the former ones where it raised.
abbrev pub committed_after : {A : Type 0} → Stamp → Result A → Work → Database → Database
committed_after stamp (ok response) w before = record (w.tables) {
  outbox = w.tables.outbox ++ messages stamp 0 w.events;
}
committed_after stamp (err e) w before = before

-- Whatever the handler of a command does, its answer is the answer of the mediator. If it succeeds,
-- its tables are committed together with one message for each event that it collected, in their
-- order; if it raises, the committed tables stay what they were, and the
-- session is back to them.
pub send_command_atomic :
    {A : Type 0} (stamp : Stamp) (handler : Exec Work A) (s : Scope)
    → ((send_command stamp handler s).0 ≡ (handler s.work).0)
      × ((send_command stamp handler s).1.committed
          ≡ committed_after stamp (handler s.work).0 (handler s.work).1 s.committed)
      × ((send_command stamp handler s).1.work.tables ≡ (send_command stamp handler s).1.committed)
unfolding send_command
send_command_atomic stamp handler s =
    let w : Work = (handler s.work).1 in
    ground (arith, publish_lem stamp 0 w.events (record w { events = [] }))
