-- ===== src/EventStore/Outcomes.antt =====
-- What each method of the event store answers and writes, branch by branch.
use billing.Base.{
  sym, ◌<◌, ◌≤◌, ◌^◌, ◌&&◌, ◌||◌, not, false, ltb, bytes_eq, codes, ℕ, zero, suc, ◌+◌, ◌≡◌, ◌≢◌,
  refl, ap, ◌∙◌, ◌⊎◌, inl, inr, Bool, Option, none, some, List, [], ◌∷◌, ◌++◌, map, find, take,
  update_if, keep_if, arith, Bool-cases, Option-cases, Result-cases, ok, err, RepoError,
}
use billing.EventStore.Entry.{
  EventStatus, EventEntry, RawEventEntry, to_string, from_str, try_into_event_entry, try_from_event,
}
use billing.EventStore.{
  Config, Table, exhausted, has_id, is_due, start, set_status, insert_row, after_failure, claim,
  returned, add, finish, add_event, complete_event, fail_event,
}
use billing.EventStore.Failure.{
  after_failure-id, after_failure-exhausted, after_failure-left, find-changed, find-other,
  exhausted-bound, left-bound,
}
use billing.EventStore.Status.{from_str-to_string, to_string_of_from_str}

module _ {Value : Type 0} (locked : ℕ → Bool) (now : ℕ) where
  -- A row that waits for its processing: pending, not scheduled for later and not locked.
  abbrev pub waits : RawEventEntry Value → Bool
  waits r =
      bytes_eq r.status (codes "pending")
      && not (elim r.scheduled_on [ none ↦ false | some at ↦ ltb now at ] || locked r.id)

  -- The row in progress since now, with one attempt more.
  abbrev pub claimed : RawEventEntry Value → RawEventEntry Value
  claimed r = record r {
    status = codes "in_progress";
    attempt_count = r.attempt_count + 1;
    status_updated_at = now;
  }

  waits_lem : (r : RawEventEntry Value) → is_due locked now r ≡ waits r
  unfolding is_due to_string
  waits_lem r = ground arith

  -- The statement of `get_events_for_processing` returns the first `limit` rows, in the order of
  -- their keys, that are pending, not locked by another session, and scheduled for no later time
  -- than now or not at all; each is returned in progress since now, with one attempt more and
  -- nothing else changed.
  pub claim-take :
      (limit : ℕ) (rows : List (RawEventEntry Value))
      → (claim locked now limit rows).0 ≡ map claimed (take limit (keep_if waits rows))
  unfolding claim start set_status to_string
  claim-take zero [] = refl
  claim-take (suc n) [] = refl
  claim-take zero (r ∷ rows) = refl
  claim-take (suc n) (r ∷ rows) = elim (Bool-cases (waits r)) [
    | inl e ↦
        let due = waits_lem r ∙ e in
        rw (e, due, claim) (ap (λ xs. start now r ∷ xs) (claim-take n rows))
    | inr e ↦ let due = waits_lem r ∙ e in rw (e, due, claim) (claim-take (suc n) rows)
  ]

module _ {Value : Type 0} where
  set_status-event :
      (s : EventStatus) (now : ℕ) (r : RawEventEntry Value) → (set_status s now r).event ≡ r.event
  unfolding set_status
  set_status-event s now r = refl

  after_failure-event :
      (c : Config) (now : ℕ) (r : RawEventEntry Value) → (after_failure c now r).event ≡ r.event
  unfolding after_failure set_status
  after_failure-event c now r = ground arith

module _ {Event Value : Type 0} (from_value : Value → Option Event) where
  finish-refuses :
      (change : RawEventEntry Value → RawEventEntry Value) (i : ℕ) (t : Table Value)
      (row : RawEventEntry Value)
      → ((r : RawEventEntry Value) → (change r).event ≡ r.event)
      → find (has_id i) t.rows ≡ some row
      → (from_str row.status ≢ some EventStatus.in_progress) ⊎ (from_value row.event ≡ none)
      → finish from_value change i t ≡ (err RepoError.internal, t)
  unfolding finish returned try_into_event_entry
  finish-refuses change i t row same e h = ground (arith, same row)

  returned-fields :
      (r : RawEventEntry Value) (e : EventEntry Event)
      → returned from_value r ≡ ok e
      → (e.id ≡ r.id) × (from_str r.status ≡ some e.status)
  unfolding returned try_into_event_entry
  returned-fields r e h = ground arith

  finish-outcomes :
      (change : RawEventEntry Value → RawEventEntry Value) (i : ℕ) (t : Table Value)
      → ((x : RepoError) × (finish from_value change i t ≡ (err x, t)))
        ⊎ ((row : RawEventEntry Value) × (entry : EventEntry Event) × (find (has_id i) t.rows
              ≡ some row)
            × (row.status ≡ to_string EventStatus.in_progress)
            × (finish from_value change i t
                ≡ (ok entry, record t { rows = update_if (has_id i) change t.rows }))
            × (returned from_value (change row) ≡ ok entry))
  unfolding finish
  finish-outcomes change i t = elim (Option-cases (find (has_id i) t.rows)) [
    | inl e ↦ inl (RepoError.not_found, rw (e, finish) refl)
    | inr (row, e) ↦ elim (Option-cases (from_str row.status)) [
      | inl f ↦ inl (RepoError.internal, rw (e, f, finish) refl)
      | inr (EventStatus.in_progress, f) ↦ elim (Result-cases (returned from_value (change row))) [
        | inl (entry, g) ↦
            inr (row, entry, e, to_string_of_from_str row.status _ f, rw (e, f, g, finish) refl, g)
        | inr (x, g) ↦ inl (x, rw (e, f, g, finish) refl)
      ]
      | inr (EventStatus.pending, f) ↦ inl (RepoError.internal, rw (e, f, finish) refl)
      | inr (EventStatus.completed, f) ↦ inl (RepoError.internal, rw (e, f, finish) refl)
      | inr (EventStatus.failed, f) ↦ inl (RepoError.internal, rw (e, f, finish) refl)
    ]
  ]

module _ {Event Value : Type 0} (to_value : Event → Option Value)
    (from_value : Value → Option Event) where
  -- An event that JSON can write and read back is added as the last row, under the sequence's next
  -- key, pending and with no attempts, and the entry returned holds the same event; the sequence
  -- moves on by one.
  pub add_event-row :
      (now : ℕ) (e : Event) (v : Value) (t : Table Value)
      → to_value e ≡ some v
      → from_value v ≡ some e
      → (entry : EventEntry Event) × (row : RawEventEntry Value) × (add_event to_value from_value
            now e t
          ≡ (ok entry, record { rows = t.rows ++ row ∷ []; next_id = t.next_id + 1 }))
        × (entry.event ≡ e)
        × (entry.id ≡ t.next_id)
        × (entry.status ≡ EventStatus.pending)
        × (entry.attempt_count ≡ 0)
        × (entry.scheduled_on ≡ none)
        × (row.id ≡ t.next_id)
        × (row.event ≡ v)
        × (row.status ≡ to_string EventStatus.pending)
        × (row.attempt_count ≡ 0)
  unfolding add_event add try_from_event insert_row returned try_into_event_entry from_str to_string
  add_event-row now e v t w r = (
    record {
      id = t.next_id;
      event = e;
      status = EventStatus.pending;
      attempt_count = 0;
      created_at = now;
      status_updated_at = now;
      scheduled_on = none;
    },
    record {
      id = t.next_id;
      event = v;
      status = to_string EventStatus.pending;
      attempt_count = 0;
      created_at = now;
      status_updated_at = now;
      scheduled_on = none;
    },
    ground arith,
    refl,
    refl,
    refl,
    refl,
    refl,
    refl,
    refl,
    refl,
    refl,
  )

module _ {Event Value : Type 0} (from_value : Value → Option Event) where
  -- A completion and a failure of an entry that is not in progress, or whose event cannot be read,
  -- are both refused with an internal error, and the table stays as it was.
  pub finish_refuses :
      (c : Config) (now i : ℕ) (t : Table Value) (row : RawEventEntry Value)
      → find (has_id i) t.rows ≡ some row
      → (from_str row.status ≢ some EventStatus.in_progress) ⊎ (from_value row.event ≡ none)
      → (complete_event from_value now i t ≡ (err RepoError.internal, t))
        × (fail_event from_value c now i t ≡ (err RepoError.internal, t))
  unfolding complete_event fail_event
  finish_refuses c now i t row e h = (
    refuses (set_status EventStatus.completed now)
        (λ r. set_status-event EventStatus.completed now r),
    refuses (after_failure c now) (after_failure-event c now),
  )
    where
      refuses :
          (change : RawEventEntry Value → RawEventEntry Value)
          → ((r : RawEventEntry Value) → (change r).event ≡ r.event)
          → finish from_value change i t ≡ (err RepoError.internal, t)
      refuses change same = finish-refuses from_value change i t row same e h

  -- A failure either is refused, and leaves the table as it was, or its entry was in progress and
  -- the answer is the entry with its attempts. Then the row of its key is failed if the bound on
  -- attempts is at most the attempts made, or does not fit an `i32`, and pending otherwise, since
  -- now in both cases, and nothing else of it is changed; the rows of all other keys and the
  -- sequence stay as they were.
  pub fail_event_outcomes :
      (c : Config) (now i : ℕ) (t : Table Value)
      → ((x : RepoError) × (fail_event from_value c now i t ≡ (err x, t)))
        ⊎ ((row : RawEventEntry Value) × (entry : EventEntry Event) × (find (has_id i) t.rows
              ≡ some row)
            × (row.status ≡ codes "in_progress")
            × ((fail_event from_value c now i t).0 ≡ ok entry)
            × (entry.id ≡ row.id)
            × (((2 ^ 31 ≤ c.max_processing_attempts)
                    ⊎ (c.max_processing_attempts ≤ row.attempt_count))
                  × (entry.status ≡ EventStatus.failed)
                  × (find (has_id i) (fail_event from_value c now i t).1.rows
                      ≡ some (record row { status = codes "failed"; status_updated_at = now }))
                ⊎ ((row.attempt_count < c.max_processing_attempts)
                    × (c.max_processing_attempts < 2 ^ 31)
                    × (entry.status ≡ EventStatus.pending)
                    × (find (has_id i) (fail_event from_value c now i t).1.rows
                        ≡ some (record row { status = codes "pending"; status_updated_at = now }))))
            × ((j : ℕ)
                → j ≢ i
                → find (has_id j) (fail_event from_value c now i t).1.rows ≡ find (has_id j) t.rows)
            × ((fail_event from_value c now i t).1.next_id ≡ t.next_id))
  unfolding fail_event to_string
  fail_event_outcomes c now i t = elim (finish-outcomes from_value (after_failure c now) i t) [
    | inl h ↦ inl h
    | inr (row, entry, found, running, e, r) ↦
        let (same, status) = returned-fields from_value (after_failure c now row) entry r in
        let at = find-changed i (after_failure c now) (after_failure-id c now) t.rows row found in
        inr (
          row,
          entry,
          found,
          running,
          ap (λ x. x.0) e,
          same ∙ after_failure-id c now row,
          elim (Bool-cases (exhausted c row.attempt_count)) [
            | inl yes' ↦
                let given = after_failure-exhausted c now row yes' in
                inl (
                  exhausted-bound c row.attempt_count yes',
                  status_of EventStatus.failed (sym status ∙ ap (λ x. from_str x.status) given),
                  ap (λ x. find (has_id i) x.1.rows) e ∙ at ∙ ap some given,
                )
            | inr no' ↦
                let given = after_failure-left c now row no' in
                let (few, fits) = left-bound c row.attempt_count no' in
                inr (
                  few,
                  fits,
                  status_of EventStatus.pending (sym status ∙ ap (λ x. from_str x.status) given),
                  ap (λ x. find (has_id i) x.1.rows) e ∙ at ∙ ap some given,
                )
          ],
          λ j d.
              ap (λ x. find (has_id j) x.1.rows) e
              ∙ find-other i j (after_failure c now) (after_failure-id c now) t.rows d,
          ap (λ x. x.1.next_id) e,
        )
  ]
    where
      status_of : {s' : EventStatus} (s : EventStatus) → some s' ≡ from_str (to_string s) → s' ≡ s
      status_of s h = let back = h ∙ from_str-to_string s in cc
