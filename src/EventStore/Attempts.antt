-- ===== src/EventStore/Attempts.antt =====
-- How often the event store hands an entry out, and which rows no call changes.
use billing.Base.{
  ℕ, zero, suc, ◌+◌, ◌≤◌, ◌<◌, ◌≡◌, refl, sym, subst, ◌∙◌, ◌⊎◌, inl, inr, Bool, Option, some, List,
  [], ◌∷◌, ◌++◌, All, any, find, length, keep_if, arith, if◌then◌else◌, ◌==◌, ==_iff, Bool-cases,
  Result-cases, ok, >>=-eq-ok,
}
use billing.EventStore.Entry.{
  EventStatus, EventEntry, RawEventEntry, to_string, try_into_event_entry,
}
use billing.EventStore.{
  Config, Table, has_id, is_due, start, set_status, claim, overflows, returned, returned_all,
  get_events_for_processing,
}
use billing.EventStore.Status.{to_string-injective}
use billing.EventStore.Rows.{Move, RowMove, Rows, Ascending}
use billing.EventStore.Moves.{Keyed}
use billing.EventStore.Calls.{Call, handed_out, step, run}
use billing.EventStore.Lifetime.{Bounded, IsValid, Move-count, step-Step, run-IsValid}

abbrev pub entry_has_id : {Event : Type 0} → ℕ → EventEntry Event → Bool
entry_has_id i e = e.id == i

-- How often an entry is in a list of those handed out.
abbrev pub times : {Event : Type 0} → ℕ → List (EventEntry Event) → ℕ
times i entries = length (keep_if (entry_has_id i) entries)

pub times-append :
    {Event : Type 0} (i : ℕ) (a b : List (EventEntry Event))
    → times i (a ++ b) ≡ times i a + times i b
times-append i [] b = omega arith
times-append i (e ∷ a) b = elim (Bool-cases (e.id == i)) [
  | inl h ↦ rw h (omega (arith, times-append i a b))
  | inr h ↦ rw h (times-append i a b)
]

module _ {Value : Type 0} where
  -- The attempts that the rows of a key count.
  abbrev pub attempts : ℕ → List (RawEventEntry Value) → ℕ
  attempts i [] = 0
  attempts i (r ∷ rows) = (if r.id == i then r.attempt_count else 0) + attempts i rows

  abbrev pub rows_times : ℕ → List (RawEventEntry Value) → ℕ
  rows_times i rows = length (keep_if (has_id i) rows)

  claim-attempts :
      (locked : ℕ → Bool) (now n i : ℕ) (rows : List (RawEventEntry Value))
      → rows_times i (claim locked now n rows).0 + attempts i rows
        ≡ attempts i (claim locked now n rows).1
  unfolding claim start set_status
  claim-attempts locked now n i [] = refl
  claim-attempts locked now zero i (r ∷ rows) = omega arith
  claim-attempts locked now (suc n) i (r ∷ rows) = elim (Bool-cases (is_due locked now r)) [
    | inl e ↦ rw (e, claim) (ground (arith, claim-attempts locked now n i rows))
    | inr e ↦ rw (e, claim) (ground (arith, claim-attempts locked now (suc n) i rows))
  ]

  Rows-attempts :
      (c : Config) (i : ℕ) (rows rows' : List (RawEventEntry Value))
      → Rows c rows rows'
      → attempts i rows ≤ attempts i rows'
  Rows-attempts c i [] rows' h = omega arith
  Rows-attempts c i (r ∷ rows) [] h = absurd h
  Rows-attempts c i (r ∷ rows) (r' ∷ rows') h = elim h.0 [
    | inl e ↦ rw e (omega (arith, Rows-attempts c i rows rows' h.1))
    | inr m ↦ rw m.same_id (
        ground (
          arith,
          Rows-attempts c i rows rows' h.1,
          Move-count c m.from r.attempt_count m.to r'.attempt_count m.move,
        ))
  ]

  attempts-absent :
      (i lo : ℕ) (rows : List (RawEventEntry Value)) (hi : ℕ)
      → i < lo
      → Ascending lo rows hi
      → attempts i rows ≡ 0
  attempts-absent i lo [] hi p h = refl
  attempts-absent i lo (r ∷ rows) hi p h = ground (arith, attempts-absent i (suc r.id) rows hi)

  IsValid-count :
      (c : Config) (r : RawEventEntry Value)
      → IsValid c r
      → r.attempt_count ≤ c.max_processing_attempts
  IsValid-count c r (EventStatus.pending, e, f) = omega arith
  IsValid-count c r (EventStatus.in_progress, e, f) = f.1
  IsValid-count c r (EventStatus.completed, e, f) = f.1
  IsValid-count c r (EventStatus.failed, e, f) = omega arith

  attempts_bound :
      (c : Config) (i lo : ℕ) (rows : List (RawEventEntry Value)) (hi : ℕ)
      → Ascending lo rows hi
      → All (IsValid c) rows
      → attempts i rows ≤ c.max_processing_attempts
  attempts_bound c i lo [] hi h v = omega arith
  attempts_bound c i lo (r ∷ rows) hi h v = elim (Bool-cases (r.id == i)) [
    | inl e ↦ rw e (
        omega (
          arith,
          IsValid-count c r v.0,
          attempts-absent i (suc r.id) rows hi (ground (arith, ==_iff r.id i)) h.1,
        ))
    | inr e ↦ rw e (omega (arith, attempts_bound c i (suc r.id) rows hi h.1 v.1))
  ]

module _ {Event Value : Type 0} (to_value : Event → Option Value)
    (from_value : Value → Option Event) (naive_time : ℕ → Option ℕ) (c : Config) where
  returned-id :
      (r : RawEventEntry Value) (e : EventEntry Event) → returned from_value r ≡ ok e → e.id ≡ r.id
  unfolding returned try_into_event_entry
  returned-id r e h = ground arith

  returned_all-times :
      (i : ℕ) (rows : List (RawEventEntry Value)) (es : List (EventEntry Event))
      → returned_all from_value rows ≡ ok es
      → times i es ≡ rows_times i rows
  unfolding returned_all
  returned_all-times i [] es h = let e : es ≡ [] = cc in rw e refl
  returned_all-times i (r ∷ rows) es h =
      let (x, hx, rest) = >>=-eq-ok (returned from_value r) _ h in
      let (xs, hxs, same) = >>=-eq-ok (returned_all from_value rows) _ rest in
      let e : es ≡ x ∷ xs = cc in
      rw (e, returned-id r x hx) (ground (arith, returned_all-times i rows xs hxs))

  handed_out-times :
      (i : ℕ) (rows : List (RawEventEntry Value))
      → times i (handed_out (returned_all from_value rows)) ≤ rows_times i rows
  unfolding handed_out
  handed_out-times i rows = elim (Result-cases (returned_all from_value rows)) [
    | inl (es, e) ↦ rw (e, handed_out) (omega (arith, returned_all-times i rows es e))
    | inr (x, e) ↦ rw (e, handed_out) (omega arith)
  ]

  get-attempts :
      (locked : ℕ → Bool) (now limit i : ℕ) (t : Table Value)
      → times i (handed_out (get_events_for_processing from_value locked now limit t).0)
          + attempts i t.rows
        ≤ attempts i (get_events_for_processing from_value locked now limit t).1.rows
  unfolding get_events_for_processing handed_out
  get-attempts locked now limit i t =
      elim (Bool-cases (any overflows (claim locked now limit t.rows).0)) [
        | inl e ↦ rw (e, get_events_for_processing, handed_out) (omega arith)
        | inr e ↦
            rw (e, get_events_for_processing)
              (omega (
                arith,
                claim-attempts locked now limit i t.rows,
                handed_out-times i (claim locked now limit t.rows).0,
              ))
      ]

  -- What a call hands out is counted in the attempts of the rows.
  step-attempts :
      (call : Call Event) (i : ℕ) (t : Table Value)
      → Keyed t
      → times i (step to_value from_value naive_time c call t).0 + attempts i t.rows
        ≤ attempts i (step to_value from_value naive_time c call t).1.rows
  unfolding step
  step-attempts (Call.get locked now limit) i t h = get-attempts locked now limit i t
  step-attempts call i t h =
      let m = Rows-attempts c i t.rows _ (step-Step to_value from_value naive_time c call t h).0 in
      omega arith

  run-attempts :
      (calls : List (Call Event)) (i : ℕ) (t : Table Value)
      → Keyed t
      → times i (run to_value from_value naive_time c calls t).0 + attempts i t.rows
        ≤ attempts i (run to_value from_value naive_time c calls t).1.rows
  unfolding run
  run-attempts [] i t h = omega arith
  run-attempts (call ∷ calls) i t h =
      let s = step to_value from_value naive_time c call t in
      let k = step-Step to_value from_value naive_time c call t h in
      omega (
        arith,
        times-append i s.0 (run to_value from_value naive_time c calls s.1).0,
        step-attempts call i t h,
        run-attempts calls i s.1 k.1,
      )

  -- With a positive bound of attempts below 2^31, no sequence of calls on a table of valid rows
  -- hands an entry out for processing more often than the bound, less the attempts that the
  -- table's row of that key has on record.
  pub run-times_bound :
      (calls : List (Call Event)) (i : ℕ) (t : Table Value)
      → Bounded c
      → Keyed t
      → All (IsValid c) t.rows
      → times i (run to_value from_value naive_time c calls t).0 + attempts i t.rows
        ≤ c.max_processing_attempts
  run-times_bound calls i t b h v =
      let (v', h') = run-IsValid to_value from_value naive_time c calls t b h v in
      let t' = (run to_value from_value naive_time c calls t).1 in
      omega (arith, run-attempts calls i t h, attempts_bound c i 0 t'.rows t'.next_id h' v')

Move-not_final :
    (c : Config) (s : EventStatus) (n : ℕ) (s' : EventStatus) (n' : ℕ)
    → Move c s n s' n'
    → (s ≡ EventStatus.completed) ⊎ (s ≡ EventStatus.failed)
    → ⊥
Move-not_final c _ n _ n' (Move.claimed e) h = ground arith
Move-not_final c _ n _ n' Move.completed h = ground arith
Move-not_final c _ n _ n' (Move.retried e) h = ground arith
Move-not_final c _ n _ n' (Move.given_up e) h = ground arith

module _ {Value : Type 0} (c : Config) where
  -- The status of a row is completed or failed.
  abbrev pub IsFinal : RawEventEntry Value → Type 0
  IsFinal r =
      (r.status ≡ to_string EventStatus.completed) ⊎ (r.status ≡ to_string EventStatus.failed)

  RowMove-not_final : (r r' : RawEventEntry Value) → RowMove c r r' → IsFinal r → ⊥
  RowMove-not_final r r' m h =
      Move-not_final c m.from r.attempt_count m.to r'.attempt_count m.move (elim h [
        | inl e ↦ inl (to_string-injective m.from EventStatus.completed (sym m.was ∙ e))
        | inr e ↦ inr (to_string-injective m.from EventStatus.failed (sym m.was ∙ e))
      ])

  Rows-IsFinal :
      (i : ℕ) (rows rows' : List (RawEventEntry Value)) (r : RawEventEntry Value)
      → Rows c rows rows'
      → find (has_id i) rows ≡ some r
      → IsFinal r
      → find (has_id i) rows' ≡ some r
  Rows-IsFinal i [] rows' r h e k = cc
  Rows-IsFinal i (x ∷ rows) [] r h e k = absurd h
  Rows-IsFinal i (x ∷ rows) (x' ∷ rows') r h e k = elim h.0 [
    | inl same ↦ ground (arith, Rows-IsFinal i rows rows' r h.1)
    | inr m ↦ elim (Bool-cases (x.id == i)) [
      | inl here ↦
          let g : some x ≡ some r = rw here at e in
          absurd (RowMove-not_final x x' m (subst IsFinal (sym (the_row x g)) k))
      | inr later ↦ rw (m.same_id, later) (Rows-IsFinal i rows rows' r h.1 (rw later at e) k)
    ]
  ]
    where
      the_row : (y : RawEventEntry Value) → some y ≡ some r → y ≡ r
      the_row y g = cc

module _ {Event Value : Type 0} (to_value : Event → Option Value)
    (from_value : Value → Option Event) (naive_time : ℕ → Option ℕ) (c : Config) where
  -- No sequence of calls changes a row that is completed or failed, in a table whose keys ascend.
  pub run-IsFinal :
      (calls : List (Call Event)) (i : ℕ) (t : Table Value) (r : RawEventEntry Value)
      → Keyed t
      → find (has_id i) t.rows ≡ some r
      → IsFinal c r
      → find (has_id i) (run to_value from_value naive_time c calls t).1.rows ≡ some r
  unfolding run
  run-IsFinal [] i t r h e k = e
  run-IsFinal (call ∷ calls) i t r h e k =
      let s = step-Step to_value from_value naive_time c call t h in
      let t' = (step to_value from_value naive_time c call t).1 in
      run-IsFinal calls i t' r s.1 (Rows-IsFinal c i t.rows t'.rows r s.0 e k) k
