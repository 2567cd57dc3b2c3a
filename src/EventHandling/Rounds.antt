-- ===== src/EventHandling/Rounds.antt =====
-- The rounds of the worker of src/event_handling/mod.rs as sequences of calls of the event store.
use billing.Base.{
  ℕ, ◌+◌, ◌≤◌, ◌≡◌, refl, sym, ◌∙◌, subst, inl, inr, Option, List, [], ◌∷◌, ◌++◌, All, Result, ok,
  err, arith, HandlerError, Result-cases,
}
use billing.EventStore.Entry.{EventEntry}
use billing.EventStore.{Config, Table, reset_stuck_events, get_events_for_processing}
use billing.EventStore.Moves.{Keyed}
use billing.EventStore.Calls.{Call, handed_out, step, run}
use billing.EventStore.Lifetime.{Bounded, IsValid}
use billing.EventStore.Attempts.{times, times-append, attempts, run-times_bound}
use billing.EventHandling.{Round, Handler, end_event, handle_entry, process_events, work}

module _ {Event Value : Type 0} (to_value : Event → Option Value)
    (from_value : Value → Option Event) (naive_time : ℕ → Option ℕ) (c : Config) where
  run-append :
      (as' bs : List (Call Event)) (t : Table Value)
      → (run to_value from_value naive_time c (as' ++ bs) t).1
        ≡ (run to_value from_value naive_time c bs (run to_value from_value naive_time c as' t).1).1
  unfolding run
  run-append [] bs t = refl
  run-append (call ∷ as') bs t = run-append as' bs (step to_value from_value naive_time c call t).1

  run-times-append :
      (i : ℕ) (as' bs : List (Call Event)) (t : Table Value)
      → times i (run to_value from_value naive_time c (as' ++ bs) t).0
        ≡ times i (run to_value from_value naive_time c as' t).0
          + times i
              (run to_value from_value naive_time c bs
                (run to_value from_value naive_time c as' t).1).0
  unfolding run
  run-times-append i [] bs t = omega arith
  run-times-append i (call ∷ as') bs t =
      let s = step to_value from_value naive_time c call t in
      omega (
        arith,
        run-times-append i as' bs s.1,
        times-append i s.0 (run to_value from_value naive_time c (as' ++ bs) s.1).0,
        times-append i s.0 (run to_value from_value naive_time c as' s.1).0,
      )

  -- What a stretch of the worker's life does to the event store, told by the calls that it makes.
  abbrev pub Traced : (t : Table Value) → List (EventEntry Event) → (t' : Table Value) → Type 0
  Traced t handled t' =
      (calls : List (Call Event)) × (t' ≡ (run to_value from_value naive_time c calls t).1)
      × ((i : ℕ) → times i handled ≤ times i (run to_value from_value naive_time c calls t).0)

  Traced-append :
      (others : List (Call Event)) (t t1 t2 : Table Value) (h1 h2 : List (EventEntry Event))
      → Traced t h1 t1
      → Traced (run to_value from_value naive_time c others t1).1 h2 t2
      → Traced t (h1 ++ h2) t2
  Traced-append others t t1 t2 h1 h2 (calls, same, counted) later =
      let mid = (run to_value from_value naive_time c calls t).1 in
      let (calls', same', counted') =
        subst (λ x. Traced (run to_value from_value naive_time c others x).1 h2 t2) same later in
      (
        calls ++ (others ++ calls'),
        same' ∙ sym (run-append others calls' mid) ∙ sym (run-append calls (others ++ calls') t),
        λ i. omega (
          arith,
          times-append i h1 h2,
          run-times-append i calls (others ++ calls') t,
          run-times-append i others calls' mid,
          counted i,
          counted' i,
        ),
      )

times-first :
    {Event : Type 0} (i : ℕ) (e : EventEntry Event) (more rest : List (EventEntry Event))
    → times i (e ∷ []) ≤ times i ((e ∷ more) ++ rest)
times-first i e more rest = ground arith

module _ {Event Value World : Type 0} (to_value : Event → Option Value)
    (from_value : Value → Option Event) (naive_time : ℕ → Option ℕ) (c : Config)
    (handle_event : Handler Event World) where
  end_event-calls :
      (now i : ℕ) (result : Result HandlerError (Unit {0})) (t : Table Value)
      → (calls : List (Call Event)) × ((end_event to_value from_value naive_time c handle_event now
            i result t).1
          ≡ (run to_value from_value naive_time c calls t).1)
  unfolding end_event run step
  end_event-calls now i (ok done) t = (Call.complete now i ∷ [], refl)
  end_event-calls now i (err e) t = (Call.fail now i ∷ [], refl)

  handle_entry-calls :
      (now : ℕ) (e : EventEntry Event) (w : World) (t : Table Value)
      → (calls : List (Call Event)) × ((handle_entry to_value from_value naive_time c handle_event
            now e w t).table
          ≡ (run to_value from_value naive_time c calls t).1)
  unfolding handle_entry
  handle_entry-calls now e w t =
      let (result, w', calls) = handle_event e.event w in
      let t' = (run to_value from_value naive_time c calls t).1 in
      let (last, same) = end_event-calls now e.id result t' in
      (calls ++ last, same ∙ sym (run-append to_value from_value naive_time c calls last t))

  process_events-Traced :
      (r : Round) (w : World) (t : Table Value)
      → Traced to_value from_value naive_time c t
          (process_events to_value from_value naive_time c handle_event r w t).handled
          (process_events to_value from_value naive_time c handle_event r w t).table
  unfolding process_events handle_entry run step handed_out
  process_events-Traced r w t =
      let first : Call Event = Call.reset r.locked r.reset_at in
      let second : Call Event = Call.get r.locked r.get_at 1 in
      let reset = reset_stuck_events from_value naive_time r.locked c r.reset_at t in
      let got = get_events_for_processing from_value r.locked r.get_at 1 reset.1 in
      elim (Result-cases reset.0) [
        | inr (e, failed) ↦ rw (failed, process_events) (first ∷ [], refl, λ i. omega arith)
        | inl (entries, e) ↦ elim (Result-cases got.0) [
          | inr (f, failed) ↦
              rw (e, failed, process_events) (first ∷ second ∷ [], refl, λ i. omega arith)
          | inl ([], g) ↦ rw (e, g, process_events) (first ∷ second ∷ [], refl, λ i. omega arith)
          | inl (x ∷ more, g) ↦
              let (calls, same) = handle_entry-calls r.ended_at x w got.1 in
              let rest = (run to_value from_value naive_time c calls got.1).0 in
              let counted : (i : ℕ)
                  → times i (x ∷ [])
                    ≤ times i (run to_value from_value naive_time c (first ∷ second ∷ calls) t).0 =
                λ i. rw (g, handed_out) (times-first i x more rest) in
              rw (e, g, process_events) (first ∷ second ∷ calls, same, counted)
        ]
      ]

  work-Traced :
      (rounds : List (Round × List (Call Event))) (w : World) (t : Table Value)
      → Traced to_value from_value naive_time c t
          (work to_value from_value naive_time c handle_event rounds w t).handled
          (work to_value from_value naive_time c handle_event rounds w t).table
  unfolding work run
  work-Traced [] w t = ([], refl, λ i. omega arith)
  work-Traced ((r, others) ∷ rounds) w t =
      let one = process_events to_value from_value naive_time c handle_event r w t in
      let between = (run to_value from_value naive_time c others one.table).1 in
      let later = work to_value from_value naive_time c handle_event rounds one.world between in
      Traced-append to_value from_value naive_time c others t one.table later.table one.handled
        later.handled (process_events-Traced r w t) (work-Traced rounds one.world between)

  -- With a positive bound of attempts below 2^31 and a table of valid rows with ascending keys, the
  -- worker handles an event, over all its rounds and whatever the handler does and other clients
  -- call between and during them, at most as often as the bound, less the attempts that the table's
  -- row of that key has on record.
  pub work-times_bound :
      (rounds : List (Round × List (Call Event))) (i : ℕ) (w : World) (t : Table Value)
      → Bounded c
      → Keyed t
      → All (IsValid c) t.rows
      → times i (work to_value from_value naive_time c handle_event rounds w t).handled
          + attempts i t.rows
        ≤ c.max_processing_attempts
  work-times_bound rounds i w t b h v =
      let (calls, same, counted) = work-Traced rounds w t in
      omega (arith, counted i, run-times_bound to_value from_value naive_time c calls i t b h v)
