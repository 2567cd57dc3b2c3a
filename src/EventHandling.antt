-- ===== src/EventHandling.antt =====
-- The worker that takes events from the event store and handles them (src/event_handling/mod.rs).
-- What handles an event (src/event_handling/handlers.rs) is a parameter: its result, the state that
-- it leaves, and the calls of the event store that it and other clients make before it ends.
pub mod Rounds
pub mod Tests
use billing.Base.{
  ℕ, Bool, Option, List, [], ◌∷◌, ◌++◌, Result, ok, err, map_err, RepoError, HandlerError, ◌>>=◌,
}
use billing.EventStore.Entry.{EventEntry}
use billing.EventStore.{
  Config, Table, reset_stuck_events, get_events_for_processing, complete_event, fail_event,
}
use billing.EventStore.Calls.{Call, run}

-- A round of the worker: the rows that other sessions hold locked, and the clock's readings.
pub record Round : Type 0 where
  pub locked : ℕ → Bool
  pub reset_at : ℕ
  pub get_at : ℕ
  pub ended_at : ℕ

-- What a handler of events does.
abbrev pub Handler : (Event World : Type 0) → Type 0
Handler Event World = Event → World → Result HandlerError (Unit {0}) × World × List (Call Event)

-- What a round leaves: its result, the entries that were handled, the state and the event store.
pub record Worked (Event Value World : Type 0) : Type 0 where
  pub result : Result HandlerError (Unit {0})
  pub handled : List (EventEntry Event)
  pub world : World
  pub table : Table Value

module _ {Event Value World : Type 0} (to_value : Event → Option Value)
    (from_value : Value → Option Event) (naive_time : ℕ → Option ℕ) (c : Config)
    (handle_event : Handler Event World) where
  -- The match on the handler's result that ends a round.
  unfoldable pub end_event :
      ℕ
      → ℕ
      → Result HandlerError (Unit {0})
      → Table Value
      → Result RepoError (EventEntry Event) × Table Value
  end_event now i (ok done) t = complete_event from_value now i t
  end_event now i (err e) t = fail_event from_value c now i t

  -- The handling of the entry that was taken.
  unfoldable pub handle_entry :
      ℕ → EventEntry Event → World → Table Value → Worked Event Value World
  unfolding end_event
  handle_entry now e w t =
      let (result, w', calls) = handle_event e.event w in
      let t' = (run to_value from_value naive_time c calls t).1 in
      let (ended, t'') = end_event now e.id result t' in
      record {
        result = map_err (λ f. HandlerError.internal) ended >>= λ entry. result;
        handled = e ∷ [];
        world = w';
        table = t'';
      }

  -- `process_events`
  unfoldable pub process_events : Round → World → Table Value → Worked Event Value World
  unfolding handle_entry
  process_events r w t =
      let (reset, t1) = reset_stuck_events from_value naive_time r.locked c r.reset_at t in
      elim reset [
        | err e ↦ record { result = err HandlerError.internal; handled = []; world = w; table = t1 }
        | ok _ ↦
            let (got, t2) = get_events_for_processing from_value r.locked r.get_at 1 t1 in
            elim got [
              | err e ↦ record {
                result = err HandlerError.internal;
                handled = [];
                world = w;
                table = t2;
              }
              | ok [] ↦ record { result = ok tt; handled = []; world = w; table = t2 }
              | ok (e ∷ more) ↦ handle_entry r.ended_at e w t2
            ]
      ]

  -- Rounds in sequence, as `run` of the worker repeats them whatever their results; between two of
  -- them other clients call the event store.
  unfoldable pub work :
      List (Round × List (Call Event)) → World → Table Value → Worked Event Value World
  unfolding process_events
  work [] w t = record { result = ok tt; handled = []; world = w; table = t }
  work ((r, others) ∷ rounds) w t =
      let one = process_events r w t in
      let rest = work rounds one.world (run to_value from_value naive_time c others one.table).1 in
      record rest { handled = one.handled ++ rest.handled }
