-- ===== src/EventStore/Tests.antt =====
-- Runs of the event store at concrete entries.
use billing.Base.{
  codes, ◌^◌, ◌<◌, ℕ, ◌+◌, ◌≤◌, ◌≡◌, ◌≢◌, refl, ◌⊎◌, inl, Bool, false, Option, none, some, List, [],
  ◌∷◌, ◌++◌, All, find, take, keep_if, map, arith, ok, err, RepoError,
}
use billing.EventStore.Entry.{EventStatus, EventEntry, RawEventEntry, to_string, from_str}
use billing.EventStore.{Config, Table, has_id, claim, add_event, complete_event, fail_event}
use billing.EventStore.Moves.{Keyed}
use billing.EventStore.Calls.{Call, run}
use billing.EventStore.Lifetime.{IsValid, run-IsValid}
use billing.EventStore.Attempts.{times, attempts, run-times_bound, run-IsFinal}
use billing.EventStore.Outcomes.{
  waits, claimed, claim-take, add_event-row, finish_refuses, fail_event_outcomes,
}

abbrev json : ℕ → Option ℕ
json = some

abbrev midnight : ℕ → Option ℕ
midnight = some

abbrev config : Config
config = record { max_processing_attempts = 2; stuck_threshold_sec = 300 }

abbrev nobody : ℕ → Bool
nobody i = false

abbrev row : ℕ → EventStatus → ℕ → RawEventEntry ℕ
row i s n = record {
  id = i;
  event = 7;
  status = to_string s;
  attempt_count = n;
  created_at = 1;
  status_updated_at = 1;
  scheduled_on = none;
}

abbrev rows : List (RawEventEntry ℕ)
rows =
    row 1 EventStatus.pending 0
    ∷ row 2 EventStatus.completed 1
    ∷ row 3 EventStatus.in_progress 2
    ∷ []

abbrev table : Table ℕ
table = record { rows = rows; next_id = 4 }

abbrev calls : List (Call ℕ)
calls = Call.get nobody 10 1 ∷ Call.complete 11 1 ∷ Call.fail 12 3 ∷ Call.reset nobody 500 ∷ []

table-Keyed : Keyed table
table-Keyed = omega arith

table-IsValid : All (IsValid config) rows
table-IsValid = (
  (EventStatus.pending, refl, omega arith),
  (
    (EventStatus.completed, refl, (omega arith, omega arith)),
    ((EventStatus.in_progress, refl, (omega arith, omega arith)), tt),
  ),
)

run-IsValid_example :
    All (IsValid config) (run json json midnight config calls table).1.rows
    × Keyed (run json json midnight config calls table).1
run-IsValid_example =
    run-IsValid json json midnight config calls table (omega arith, omega arith) table-Keyed
      table-IsValid

run-times_bound_example :
    times 1 (run json json midnight config calls table).0 + attempts 1 rows ≤ 2
run-times_bound_example =
    run-times_bound json json midnight config calls 1 table (omega arith, omega arith) table-Keyed
      table-IsValid

run-IsFinal_example :
    find (has_id 2) (run json json midnight config calls table).1.rows
    ≡ some (row 2 EventStatus.completed 1)
run-IsFinal_example =
    run-IsFinal json json midnight config calls 2 table (row 2 EventStatus.completed 1) table-Keyed
      refl (inl refl)

claim-take_example :
    (claim nobody 10 1 rows).0 ≡ map (claimed nobody 10) (take 1 (keep_if (waits nobody 10) rows))
claim-take_example = claim-take nobody 10 1 rows

add_event-row_example :
    (entry : EventEntry ℕ) × (r : RawEventEntry ℕ) × (add_event json json 5 9 table
      ≡ (ok entry, record { rows = rows ++ r ∷ []; next_id = 4 + 1 }))
    × (entry.event ≡ 9)
    × (entry.id ≡ 4)
    × (entry.status ≡ EventStatus.pending)
    × (entry.attempt_count ≡ 0)
    × (entry.scheduled_on ≡ none)
    × (r.id ≡ 4)
    × (r.event ≡ 9)
    × (r.status ≡ to_string EventStatus.pending)
    × (r.attempt_count ≡ 0)
add_event-row_example = add_event-row json json 5 9 9 table refl refl

completed-in_progress :
    from_str (row 2 EventStatus.completed 1).status ≢ some EventStatus.in_progress
unfolding from_str to_string
completed-in_progress e = ground arith

finish_refuses_example :
    (complete_event json 11 2 table ≡ (err RepoError.internal, table))
    × (fail_event json config 11 2 table ≡ (err RepoError.internal, table))
finish_refuses_example =
    finish_refuses json config 11 2 table (row 2 EventStatus.completed 1) refl
      (inl completed-in_progress)

fail_event_outcomes_example :
    ((x : RepoError) × (fail_event json config 12 3 table ≡ (err x, table)))
    ⊎ ((r : RawEventEntry ℕ) × (entry : EventEntry ℕ) × (find (has_id 3) rows ≡ some r)
        × (r.status ≡ codes "in_progress")
        × ((fail_event json config 12 3 table).0 ≡ ok entry)
        × (entry.id ≡ r.id)
        × (((2 ^ 31 ≤ 2) ⊎ (2 ≤ r.attempt_count))
              × (entry.status ≡ EventStatus.failed)
              × (find (has_id 3) (fail_event json config 12 3 table).1.rows
                  ≡ some (record r { status = codes "failed"; status_updated_at = 12 }))
            ⊎ ((r.attempt_count < 2)
                × (2 < 2 ^ 31)
                × (entry.status ≡ EventStatus.pending)
                × (find (has_id 3) (fail_event json config 12 3 table).1.rows
                    ≡ some (record r { status = codes "pending"; status_updated_at = 12 }))))
        × ((j : ℕ)
            → j ≢ 3
            → find (has_id j) (fail_event json config 12 3 table).1.rows ≡ find (has_id j) rows)
        × ((fail_event json config 12 3 table).1.next_id ≡ 4))
fail_event_outcomes_example = fail_event_outcomes json config 12 3 table
