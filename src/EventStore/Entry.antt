-- ===== src/EventStore/Entry.antt =====
-- Entries of the event store and their raw form (src/models/event_store.rs). The event itself is
-- stored as JSON: `to_value` and `from_value` stand for serde_json's two functions, and the types
-- of events and of JSON values are parameters.
use billing.Base.{ℕ, Bytes, codes, bytes_eq, Option, none, some, Result, ok, err, if◌then◌else◌}
use mathlib.Core.Option

-- `EventStatus`
pub data EventStatus : Type 0 where
  pending in_progress completed failed : EventStatus

-- `EventEntry`
pub record EventEntry (Event : Type 0) : Type 0 where
  pub id : ℕ
  pub event : Event
  pub status : EventStatus
  pub attempt_count : ℕ
  pub created_at : ℕ
  pub status_updated_at : ℕ
  pub scheduled_on : Option ℕ

-- `RawEventEntry`; `attempt_count` is an `i32` that no statement makes negative.
pub record RawEventEntry (Value : Type 0) : Type 0 where
  pub id : ℕ
  pub event : Value
  pub status : Bytes
  pub attempt_count : ℕ
  pub created_at : ℕ
  pub status_updated_at : ℕ
  pub scheduled_on : Option ℕ

-- `RawNewEventEntry`
pub record RawNewEventEntry (Value : Type 0) : Type 0 where
  pub event : Value
  pub status : Bytes
  pub attempt_count : ℕ
  pub scheduled_on : Option ℕ

-- `RawEventEntryError`
pub data EntryError : Type 0 where
  invalid_event_json invalid_status : EntryError

-- `impl Display for EventStatus`
unfoldable pub to_string : EventStatus → Bytes
to_string EventStatus.pending = codes "pending"
to_string EventStatus.in_progress = codes "in_progress"
to_string EventStatus.completed = codes "completed"
to_string EventStatus.failed = codes "failed"

-- `impl FromStr for EventStatus`
unfoldable pub from_str : Bytes → Option EventStatus
from_str s =
    if bytes_eq s (codes "pending")
    then some EventStatus.pending
    else if bytes_eq s (codes "in_progress")
    then some EventStatus.in_progress
    else if bytes_eq s (codes "completed")
    then some EventStatus.completed
    else if bytes_eq s (codes "failed")
    then some EventStatus.failed
    else none

module _ {Event Value : Type 0} (from_value : Value → Option Event) where
  -- `RawEventEntry::try_into_event_entry`: the event is read before the status.
  unfoldable pub try_into_event_entry : RawEventEntry Value → Result EntryError (EventEntry Event)
  try_into_event_entry r = elim (from_value r.event) [
    | none ↦ err invalid_event_json
    | some event' ↦ elim (from_str r.status) [
      | none ↦ err invalid_status
      | some status' ↦ ok (record {
        id = r.id;
        event = event';
        status = status';
        attempt_count = r.attempt_count;
        created_at = r.created_at;
        status_updated_at = r.status_updated_at;
        scheduled_on = r.scheduled_on;
      })
    ]
  ]

module _ {Event Value : Type 0} (to_value : Event → Option Value) where
  -- `RawNewEventEntry::try_from_event_scheduled_on`
  unfoldable pub try_from_event_scheduled_on : Event → ℕ → Option (RawNewEventEntry Value)
  try_from_event_scheduled_on event' at =
      Option.map
        (λ v. record {
          event = v;
          status = to_string EventStatus.pending;
          attempt_count = 0;
          scheduled_on = some at;
        })
        (to_value event')

  -- `RawNewEventEntry::try_from_event`
  unfoldable pub try_from_event : Event → Option (RawNewEventEntry Value)
  try_from_event event' =
      Option.map
        (λ v. record {
          event = v;
          status = to_string EventStatus.pending;
          attempt_count = 0;
          scheduled_on = none;
        })
        (to_value event')
