-- ===== src/EventStore/Moves.antt =====
-- Every method of the event store moves rows along the diagram and keeps the keys ascending.
use billing.Base.{
  ℕ, zero, suc, ◌≡◌, refl, ◌⊎◌, inl, inr, Bool, true, Option, none, some, List, [], ◌∷◌, any, find,
  update_if, arith, Bool-cases, Option-cases, Result-cases,
}
use billing.EventStore.Entry.{EventStatus, RawEventEntry, RawNewEventEntry, to_string, from_str}
use billing.EventStore.{
  Config, Table, exhausted, has_id, set_status, insert_row, is_due, start, claim, is_stuck,
  after_failure, overflows, returned, add, get_events_for_processing, reset_stuck_events, finish,
  complete_event, fail_event,
}
use billing.EventStore.Status.{has_status→eq, to_string_of_from_str}
use billing.EventStore.Rows.{
  Move, RowMove, Rows, Ascending, Rows-refl, Rows-append, Ascending-append, update_if-Rows,
  update_one-Rows,
}

-- A table whose keys ascend below the sequence's next value.
abbrev pub Keyed : {Value : Type 0} → Table Value → Type 0
Keyed t = Ascending 0 t.rows t.next_id

-- What a method does to the table at most.
abbrev pub Step : {Value : Type 0} → Config → Table Value → Table Value → Type 0
Step c t t' = Rows c t.rows t'.rows × Keyed t'

module _ {Value : Type 0} (c : Config) where
  pub start-RowMove :
      (locked : ℕ → Bool) (now : ℕ) (r : RawEventEntry Value)
      → is_due locked now r ≡ true
      → RowMove c r (start now r)
  unfolding is_due start set_status
  start-RowMove locked now r h = record {
    from = EventStatus.pending;
    to = EventStatus.in_progress;
    was = has_status→eq EventStatus.pending r (ground arith);
    is_now = refl;
    move = Move.claimed refl;
    same_id = refl;
    same_event = refl;
    same_created_at = refl;
    same_scheduled_on = refl;
  }

  pub claim-Rows :
      (locked : ℕ → Bool) (now n : ℕ) (rows : List (RawEventEntry Value))
      → Rows c rows (claim locked now n rows).1
  unfolding claim
  claim-Rows locked now n [] = tt
  claim-Rows locked now zero (r ∷ rows) = (inl refl, Rows-refl c rows)
  claim-Rows locked now (suc n) (r ∷ rows) = elim (Bool-cases (is_due locked now r)) [
    | inl e ↦ rw (e, claim) (inr (start-RowMove locked now r e), claim-Rows locked now n rows)
    | inr e ↦ rw (e, claim) (inl refl, claim-Rows locked now (suc n) rows)
  ]

  pub claim-Ascending :
      (locked : ℕ → Bool) (now n lo : ℕ) (rows : List (RawEventEntry Value)) (hi : ℕ)
      → Ascending lo rows hi
      → Ascending lo (claim locked now n rows).1 hi
  unfolding claim start set_status
  claim-Ascending locked now n lo [] hi h = h
  claim-Ascending locked now zero lo (r ∷ rows) hi h = h
  claim-Ascending locked now (suc n) lo (r ∷ rows) hi h = elim (Bool-cases (is_due locked now r)) [
    | inl e ↦ rw (e, claim) (h.0, claim-Ascending locked now n (suc r.id) rows hi h.1)
    | inr e ↦ rw (e, claim) (h.0, claim-Ascending locked now (suc n) (suc r.id) rows hi h.1)
  ]

  pub after_failure-RowMove :
      (now : ℕ) (r : RawEventEntry Value)
      → r.status ≡ to_string EventStatus.in_progress
      → RowMove c r (after_failure c now r)
  unfolding after_failure set_status
  after_failure-RowMove now r h = elim (Bool-cases (exhausted c r.attempt_count)) [
    | inl e ↦ rw e (record {
      from = EventStatus.in_progress;
      to = EventStatus.failed;
      was = h;
      is_now = refl;
      move = Move.given_up e;
      same_id = refl;
      same_event = refl;
      same_created_at = refl;
      same_scheduled_on = refl;
    })
    | inr e ↦ rw e (record {
      from = EventStatus.in_progress;
      to = EventStatus.pending;
      was = h;
      is_now = refl;
      move = Move.retried e;
      same_id = refl;
      same_event = refl;
      same_created_at = refl;
      same_scheduled_on = refl;
    })
  ]

  stuck-RowMove :
      (locked : ℕ → Bool) (threshold now : ℕ) (r : RawEventEntry Value)
      → is_stuck locked threshold now r ≡ true
      → RowMove c r (after_failure c now r)
  unfolding is_stuck
  stuck-RowMove locked threshold now r e =
      after_failure-RowMove now r (has_status→eq EventStatus.in_progress r (ground arith))

  pub completed-RowMove :
      (now : ℕ) (r : RawEventEntry Value)
      → r.status ≡ to_string EventStatus.in_progress
      → RowMove c r (set_status EventStatus.completed now r)
  unfolding set_status
  completed-RowMove now r h = record {
    from = EventStatus.in_progress;
    to = EventStatus.completed;
    was = h;
    is_now = refl;
    move = Move.completed;
    same_id = refl;
    same_event = refl;
    same_created_at = refl;
    same_scheduled_on = refl;
  }

  pub update_if-Ascending :
      (p : RawEventEntry Value → Bool) (f : RawEventEntry Value → RawEventEntry Value)
      → ((r : RawEventEntry Value) → (f r).id ≡ r.id)
      → (lo : ℕ) (rows : List (RawEventEntry Value)) (hi : ℕ) → Ascending lo rows hi
      → Ascending lo (update_if p f rows) hi
  update_if-Ascending p f same lo [] hi h = h
  update_if-Ascending p f same lo (r ∷ rows) hi h = elim (Bool-cases (p r)) [
    | inl e ↦ rw (e, same r) (h.0, update_if-Ascending p f same (suc r.id) rows hi h.1)
    | inr e ↦ rw e (h.0, update_if-Ascending p f same (suc r.id) rows hi h.1)
  ]

  after_failure-id : (now : ℕ) (r : RawEventEntry Value) → (after_failure c now r).id ≡ r.id
  unfolding after_failure set_status
  after_failure-id now r = ground arith

  set_status-id :
      (s : EventStatus) (now : ℕ) (r : RawEventEntry Value) → (set_status s now r).id ≡ r.id
  unfolding set_status
  set_status-id s now r = refl

  module _ {Event : Type 0} (from_value : Value → Option Event) where
    pub add-Step :
        (now : ℕ) (n : Option (RawNewEventEntry Value)) (t : Table Value)
        → ((m : RawNewEventEntry Value)
            → n ≡ some m
            → (m.status ≡ to_string EventStatus.pending) × (m.attempt_count ≡ 0))
        → Keyed t
        → Step c t (add from_value now n t).1
    unfolding add insert_row
    add-Step now none t new h = (Rows-refl c t.rows, h)
    add-Step now (some m) t new h =
        (Rows-append c t.rows _ (new m refl, tt), Ascending-append 0 t.rows t.next_id _ refl h)

    pub get-Step :
        (locked : ℕ → Bool) (now limit : ℕ) (t : Table Value)
        → Keyed t
        → Step c t (get_events_for_processing from_value locked now limit t).1
    unfolding get_events_for_processing
    get-Step locked now limit t h =
        elim (Bool-cases (any overflows (claim locked now limit t.rows).0)) [
          | inl e ↦ rw e (Rows-refl c t.rows, h)
          | inr e ↦ rw e (
            claim-Rows locked now limit t.rows,
            claim-Ascending locked now limit 0 t.rows t.next_id h,
          )
        ]

    pub reset-Step :
        (naive_time : ℕ → Option ℕ) (locked : ℕ → Bool) (now : ℕ) (t : Table Value)
        → Keyed t
        → Step c t (reset_stuck_events from_value naive_time locked c now t).1
    unfolding reset_stuck_events
    reset-Step naive_time locked now t h = elim (Option-cases (naive_time c.stuck_threshold_sec)) [
      | inl e ↦ rw (e, reset_stuck_events) (Rows-refl c t.rows, h)
      | inr (threshold, e) ↦
          rw (e, reset_stuck_events)
            (
              update_if-Rows c (is_stuck locked threshold now) (after_failure c now)
                  (λ r. stuck-RowMove locked threshold now r) t.rows,
              update_if-Ascending (is_stuck locked threshold now) (after_failure c now)
                  (after_failure-id now) 0 t.rows t.next_id h,
            )
    ]

    -- The table that `finish` leaves: the old one, or the one with its row changed.
    pub finish-cases :
        (change : RawEventEntry Value → RawEventEntry Value) (i : ℕ) (t : Table Value)
        → ((finish from_value change i t).1 ≡ t)
          ⊎ ((row : RawEventEntry Value) × (find (has_id i) t.rows ≡ some row)
              × (row.status ≡ to_string EventStatus.in_progress)
              × ((finish from_value change i t).1
                  ≡ record t { rows = update_if (has_id i) change t.rows }))
    unfolding finish
    finish-cases change i t = elim (Option-cases (find (has_id i) t.rows)) [
      | inl e ↦ inl (rw (e, finish) refl)
      | inr (row, e) ↦ elim (Option-cases (from_str row.status)) [
        | inl f ↦ inl (rw (e, f, finish) refl)
        | inr (EventStatus.in_progress, f) ↦
            elim (Result-cases (returned from_value (change row))) [
              | inl (entry, g) ↦
                  inr (row, e, to_string_of_from_str row.status _ f, rw (e, f, g, finish) refl)
              | inr (x, g) ↦ inl (rw (e, f, g, finish) refl)
            ]
        | inr (EventStatus.pending, f) ↦ inl (rw (e, f, finish) refl)
        | inr (EventStatus.completed, f) ↦ inl (rw (e, f, finish) refl)
        | inr (EventStatus.failed, f) ↦ inl (rw (e, f, finish) refl)
      ]
    ]

    finish-Step :
        (change : RawEventEntry Value → RawEventEntry Value) (i : ℕ) (t : Table Value)
        → ((r : RawEventEntry Value)
            → r.status ≡ to_string EventStatus.in_progress
            → RowMove c r (change r))
        → ((r : RawEventEntry Value) → (change r).id ≡ r.id)
        → Keyed t
        → Step c t (finish from_value change i t).1
    finish-Step change i t move same h = elim (finish-cases change i t) [
      | inl e ↦ rw e (Rows-refl c t.rows, h)
      | inr (row, found, running, e) ↦ rw e (
        update_one-Rows c i 0 change t.rows t.next_id row h found (move row running),
        update_if-Ascending (has_id i) change same 0 t.rows t.next_id h,
      )
    ]

    pub complete-Step :
        (now i : ℕ) (t : Table Value) → Keyed t → Step c t (complete_event from_value now i t).1
    unfolding complete_event
    complete-Step now i t h =
        finish-Step (set_status EventStatus.completed now) i t (completed-RowMove now)
          (set_status-id EventStatus.completed now) h

    pub fail-Step :
        (now i : ℕ) (t : Table Value) → Keyed t → Step c t (fail_event from_value c now i t).1
    unfolding fail_event
    fail-Step now i t h =
        finish-Step (after_failure c now) i t (after_failure-RowMove now) (after_failure-id now) h
