-- ===== src/EventStore.antt =====
-- The event store: its entries (src/models/event_store.rs) and the repository over the table
-- `event_store` (src/repos/event_store.rs). Rows stand in ascending order of the primary key, so
-- `ORDER BY id` is list order. Timestamps are microseconds; the clock's reading is an argument.
pub mod Entry
pub mod Status
pub mod Rows
pub mod Moves
pub mod Calls
pub mod Lifetime
pub mod Attempts
pub mod Failure
pub mod Outcomes
pub mod Tests
use billing.Base.{
  ℕ, zero, suc, ◌+◌, ◌-◌, ◌^◌, Bool, true, false, ◌&&◌, not, Option, none, some, List, [], ◌∷◌,
  ◌++◌, map, Bytes, bytes_eq, any, find, keep_if, update_if, ltb, leb, ◌==◌, if◌then◌else◌, Result,
  ok, err, ok_or, map_err, RepoError, ◌>>=◌,
}
use Entry.{
  EventStatus, EventEntry, RawEventEntry, RawNewEventEntry, EntryError, to_string, from_str,
  try_into_event_entry, try_from_event, try_from_event_scheduled_on,
}

-- The table; `next_id` is the sequence behind the `bigserial` key.
pub record Table (Value : Type 0) : Type 0 where
  pub rows : List (RawEventEntry Value)
  pub next_id : ℕ

-- The fields of `EventStoreRepoImpl` beside the connection.
pub record Config : Type 0 where
  pub max_processing_attempts : ℕ
  pub stuck_threshold_sec : ℕ

-- A call of the repository: its result, and the table that it leaves.
abbrev pub Action : Type 0 → Type 0 → Type 0
Action Value A = Table Value → Result RepoError A × Table Value

-- `attempt_count >= max as i32`: the count is an `i32` that starts at 0, and the cast of a `u32`
-- from 2^31 on is negative.
unfoldable pub exhausted : Config → ℕ → Bool
exhausted c attempts =
    if ltb c.max_processing_attempts (2 ^ 31) then leb c.max_processing_attempts attempts else true

module _ {Value : Type 0} where
  abbrev pub has_status : EventStatus → RawEventEntry Value → Bool
  has_status s r = bytes_eq r.status (to_string s)

  -- `SET status = …, status_updated_at = …`
  unfoldable pub set_status : EventStatus → ℕ → RawEventEntry Value → RawEventEntry Value
  set_status s now r = record r { status = to_string s; status_updated_at = now }

  -- `INSERT … RETURNING *`, with the column defaults.
  unfoldable pub insert_row :
      ℕ → RawNewEventEntry Value → Table Value → RawEventEntry Value × Table Value
  insert_row now n t =
      let row : RawEventEntry Value = record {
        id = t.next_id;
        event = n.event;
        status = n.status;
        attempt_count = n.attempt_count;
        created_at = now;
        status_updated_at = now;
        scheduled_on = n.scheduled_on;
      } in
      (row, record { rows = t.rows ++ row ∷ []; next_id = t.next_id + 1 })

  -- The rows that `get_events_for_processing` selects from: pending, due, and not locked by
  -- another session (`FOR UPDATE SKIP LOCKED`).
  unfoldable pub is_due : (ℕ → Bool) → ℕ → RawEventEntry Value → Bool
  is_due locked now r =
      has_status EventStatus.pending r
      && (elim r.scheduled_on [ none ↦ true | some at ↦ leb at now ])
      && not (locked r.id)

  -- `SET attempt_count = attempt_count + 1, status = 'in_progress', status_updated_at = now`
  unfoldable pub start : ℕ → RawEventEntry Value → RawEventEntry Value
  unfolding set_status
  start now r = record (set_status EventStatus.in_progress now r) {
    attempt_count = r.attempt_count + 1;
  }

  -- The update of the first `limit` due rows: the rows returned, and the table's rows after it.
  unfoldable pub claim :
      (ℕ → Bool)
      → ℕ
      → ℕ
      → List (RawEventEntry Value)
      → List (RawEventEntry Value) × List (RawEventEntry Value)
  claim locked now n [] = ([], [])
  claim locked now zero (r ∷ rows) = ([], r ∷ rows)
  claim locked now (suc n) (r ∷ rows) = elim (is_due locked now r) [
    | true ↦ (start now r ∷ (claim locked now n rows).0, start now r ∷ (claim locked now n rows).1)
    | false ↦ ((claim locked now (suc n) rows).0, r ∷ (claim locked now (suc n) rows).1)
  ]

  -- `WHERE status = 'in_progress' AND status_updated_at + threshold < now`, not locked.
  unfoldable pub is_stuck : (ℕ → Bool) → ℕ → ℕ → RawEventEntry Value → Bool
  is_stuck locked threshold now r =
      has_status EventStatus.in_progress r
      && ltb (r.status_updated_at + threshold) now
      && not (locked r.id)

  -- `CASE WHEN attempt_count >= max THEN 'failed' ELSE 'pending' END`
  unfoldable pub after_failure : Config → ℕ → RawEventEntry Value → RawEventEntry Value
  unfolding set_status exhausted
  after_failure c now r =
      if exhausted c r.attempt_count
      then set_status EventStatus.failed now r
      else set_status EventStatus.pending now r

  abbrev pub has_id : ℕ → RawEventEntry Value → Bool
  has_id i r = r.id == i

  -- Postgres refuses an `int4` past its range; the statement then changes nothing.
  abbrev pub overflows : RawEventEntry Value → Bool
  overflows r = ltb (2 ^ 31 - 1) r.attempt_count

module _ {Event Value : Type 0} (from_value : Value → Option Event) where
  -- `try_into_event_entry`, its errors as internal ones.
  unfoldable pub returned : RawEventEntry Value → Result RepoError (EventEntry Event)
  returned r = map_err (λ _. RepoError.internal) (try_into_event_entry from_value r)

  unfoldable pub returned_all :
      List (RawEventEntry Value) → Result RepoError (List (EventEntry Event))
  unfolding returned
  returned_all [] = ok []
  returned_all (r ∷ rows) = do ok ((← returned r) ∷ (← returned_all rows))

  -- The insert that both `add_…` methods end with.
  unfoldable pub add : ℕ → Option (RawNewEventEntry Value) → Action Value (EventEntry Event)
  unfolding returned insert_row
  add now none t = (err RepoError.internal, t)
  add now (some n) t = let (row, t') = insert_row now n t in (returned row, t')

  -- `get_events_for_processing`: the statement commits before its rows are converted.
  unfoldable pub get_events_for_processing :
      (ℕ → Bool) → ℕ → ℕ → Action Value (List (EventEntry Event))
  unfolding claim returned_all
  get_events_for_processing locked now limit t =
      let (out, rows') = claim locked now limit t.rows in
      if any overflows out
      then (err RepoError.internal, t)
      else (returned_all out, record t { rows = rows' })

  -- `reset_stuck_events`; `naive_time` is chrono's `from_num_seconds_from_midnight_opt`.
  unfoldable pub reset_stuck_events :
      (ℕ → Option ℕ) → (ℕ → Bool) → Config → ℕ → Action Value (List (EventEntry Event))
  unfolding is_stuck after_failure returned_all
  reset_stuck_events naive_time locked c now t = elim (naive_time c.stuck_threshold_sec) [
    | none ↦ (err RepoError.internal, t)
    | some threshold ↦
        let stuck = is_stuck locked threshold now in
        (
          returned_all (map (after_failure c now) (keep_if stuck t.rows)),
          record t { rows = update_if stuck (after_failure c now) t.rows },
        )
  ]

  -- The transaction of `complete_event` and `fail_event`: only an entry in progress is changed, and
  -- an error rolls back.
  unfoldable pub finish :
      (RawEventEntry Value → RawEventEntry Value) → ℕ → Action Value (EventEntry Event)
  unfolding returned
  finish change i t = elim (find (has_id i) t.rows) [
    | none ↦ (err RepoError.not_found, t)
    | some row ↦ elim (from_str row.status) [
      | some EventStatus.in_progress ↦ elim (returned (change row)) [
        | ok entry ↦ (ok entry, record t { rows = update_if (has_id i) change t.rows })
        | err e ↦ (err e, t)
      ]
      | _ ↦ (err RepoError.internal, t)
    ]
  ]

  -- `complete_event`
  unfoldable pub complete_event : ℕ → ℕ → Action Value (EventEntry Event)
  unfolding set_status finish
  complete_event now = finish (set_status EventStatus.completed now)

  -- `fail_event`
  unfoldable pub fail_event : Config → ℕ → ℕ → Action Value (EventEntry Event)
  unfolding after_failure finish
  fail_event c now = finish (after_failure c now)

module _ {Event Value : Type 0} (to_value : Event → Option Value)
    (from_value : Value → Option Event) where
  -- `add_event`
  unfoldable pub add_event : ℕ → Event → Action Value (EventEntry Event)
  unfolding add
  add_event now event' = add from_value now (try_from_event to_value event')

  -- `add_scheduled_event`
  unfoldable pub add_scheduled_event : ℕ → Event → ℕ → Action Value (EventEntry Event)
  unfolding add
  add_scheduled_event now event' at =
      add from_value now (try_from_event_scheduled_on to_value event' at)
