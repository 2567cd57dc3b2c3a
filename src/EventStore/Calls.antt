-- ===== src/EventStore/Calls.antt =====
-- Sequences of calls of the event store's repository (src/repos/event_store.rs), as its clients
-- interleave them, and the entries that they hand out for processing.
use billing.Base.{ℕ, Bool, Option, List, [], ◌∷◌, ◌++◌, Result, ok, err, RepoError}
use billing.EventStore.Entry.{EventEntry}
use billing.EventStore.{
  Config, Table, add_event, add_scheduled_event, get_events_for_processing, reset_stuck_events,
  complete_event, fail_event,
}

-- A call, with the clock's reading and the rows that other sessions hold locked.
pub data Call (Event : Type 0) : Type 0 where
  add : (now : ℕ) → Event → Call Event
  add_scheduled : (now : ℕ) → Event → (at : ℕ) → Call Event
  get : (locked : ℕ → Bool) (now limit : ℕ) → Call Event
  reset : (locked : ℕ → Bool) (now : ℕ) → Call Event
  complete : (now id : ℕ) → Call Event
  fail : (now id : ℕ) → Call Event

-- The entries that a call hands out for processing.
unfoldable pub handed_out :
    {Event : Type 0} → Result RepoError (List (EventEntry Event)) → List (EventEntry Event)
handed_out (ok entries) = entries
handed_out (err e) = []

module _ {Event Value : Type 0} (to_value : Event → Option Value)
    (from_value : Value → Option Event) (naive_time : ℕ → Option ℕ) (c : Config) where
  -- One call: the entries that it hands out for processing, and the table that it leaves.
  unfoldable pub step : Call Event → Table Value → List (EventEntry Event) × Table Value
  unfolding handed_out
  step (Call.add now e) t = ([], (add_event to_value from_value now e t).1)
  step (Call.add_scheduled now e at) t =
      ([], (add_scheduled_event to_value from_value now e at t).1)
  step (Call.get locked now limit) t =
      let (out, t') = get_events_for_processing from_value locked now limit t in
      (handed_out out, t')
  step (Call.reset locked now) t = ([], (reset_stuck_events from_value naive_time locked c now t).1)
  step (Call.complete now i) t = ([], (complete_event from_value now i t).1)
  step (Call.fail now i) t = ([], (fail_event from_value c now i t).1)

  -- The calls of a run, in order.
  unfoldable pub run : List (Call Event) → Table Value → List (EventEntry Event) × Table Value
  unfolding step
  run [] t = ([], t)
  run (call ∷ calls) t =
      let (out, t') = step call t in let (more, t'') = run calls t' in (out ++ more, t'')
