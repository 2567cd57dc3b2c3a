-- ===== src/EventHandling/Tests.antt =====
-- The worker at a small event store.
use billing.Base.{
  ℕ, ◌+◌, ◌≤◌, ◌≡◌, refl, false, Option, none, some, List, [], ◌∷◌, All, arith, ok, err,
  HandlerError, if◌then◌else◌, ◌==◌,
}
use billing.EventStore.Entry.{
  EventStatus, RawEventEntry, to_string, try_into_event_entry, from_str, try_from_event,
}
use billing.EventStore.{
  Config, Table, reset_stuck_events, get_events_for_processing, is_due, start, fail_event,
  complete_event, add_event,
}
use billing.EventStore.Moves.{Keyed}
use billing.EventStore.Calls.{Call, run}
use billing.EventStore.Lifetime.{IsValid}
use billing.EventStore.Attempts.{times, attempts}
use billing.EventHandling.{Round, Handler, work}
use billing.EventHandling.Rounds.{work-times_bound}

abbrev json : ℕ → Option ℕ
json = some

abbrev config : Config
config = record { max_processing_attempts = 2; stuck_threshold_sec = 300 }

abbrev row : ℕ → RawEventEntry ℕ
row i = record {
  id = i;
  event = 70 + i;
  status = to_string EventStatus.pending;
  attempt_count = 0;
  created_at = 1;
  status_updated_at = 1;
  scheduled_on = none;
}

abbrev table : Table ℕ
table = record { rows = row 1 ∷ row 2 ∷ []; next_id = 3 }

-- The state counts the events; event 71 fails, and the other one adds an event.
abbrev handle_event : Handler ℕ ℕ
handle_event e w =
    if e == 71 then (err HandlerError.internal, w + 1, []) else (ok tt, w + 1, Call.add 9 50 ∷ [])

abbrev round : Round × List (Call ℕ)
round = (record { locked = λ i. false; reset_at = 10; get_at = 11; ended_at = 12 }, [])

abbrev rounds : List (Round × List (Call ℕ))
rounds = round ∷ round ∷ round ∷ round ∷ []

table-Keyed : Keyed table
table-Keyed = omega arith

table-IsValid : All (IsValid config) table.rows
table-IsValid =
    ((EventStatus.pending, refl, omega arith), ((EventStatus.pending, refl, omega arith), tt))

work-times_bound_example :
    times 1 (work json json json config handle_event rounds 0 table).handled + attempts 1 table.rows
    ≤ 2
work-times_bound_example =
    work-times_bound json json json config handle_event rounds 1 0 table (omega arith, omega arith)
      table-Keyed table-IsValid

-- The failing event is handled twice and given up, the other ones once.
handles : (work json json json config handle_event rounds 0 table).world ≡ 4
unfolding work reset_stuck_events run to_string get_events_for_processing is_due start
    try_into_event_entry from_str fail_event complete_event add_event try_from_event
handles = refl

attempts_made : times 1 (work json json json config handle_event rounds 0 table).handled ≡ 2
unfolding work reset_stuck_events run to_string get_events_for_processing is_due start
    try_into_event_entry from_str fail_event complete_event add_event try_from_event
attempts_made = refl
