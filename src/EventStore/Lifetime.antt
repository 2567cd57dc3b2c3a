-- ===== src/EventStore/Lifetime.antt =====
-- The life of an entry of the event store under any sequence of calls.
use billing.Base.{
  ℕ, ◌^◌, ◌≤◌, ◌<◌, ◌≡◌, sym, subst, ◌∙◌, inl, inr, true, false, Option, some, List, [], ◌∷◌, All,
  arith,
}
use billing.EventStore.Entry.{
  EventStatus, RawEventEntry, RawNewEventEntry, to_string, try_from_event,
  try_from_event_scheduled_on,
}
use billing.EventStore.{Config, Table, exhausted, add_event, add_scheduled_event}
use billing.EventStore.Status.{to_string-injective}
use billing.EventStore.Rows.{Move, RowMove, Fresh, Rows}
use billing.EventStore.Moves.{Keyed, Step, add-Step, get-Step, reset-Step, complete-Step, fail-Step}
use billing.EventStore.Calls.{Call, step, run}

-- The configured bound is a positive `i32`.
abbrev pub Bounded : Config → Type 0
Bounded c = (1 ≤ c.max_processing_attempts) × (c.max_processing_attempts < 2 ^ 31)

-- The attempts that an entry of each status can have.
abbrev pub Fits : Config → EventStatus → ℕ → Type 0
Fits c EventStatus.pending n = n < c.max_processing_attempts
Fits c EventStatus.in_progress n = (1 ≤ n) × (n ≤ c.max_processing_attempts)
Fits c EventStatus.completed n = (1 ≤ n) × (n ≤ c.max_processing_attempts)
Fits c EventStatus.failed n = n ≡ c.max_processing_attempts

-- A row's status is one of the four, and its count of attempts fits the status.
abbrev pub IsValid : {Value : Type 0} → Config → RawEventEntry Value → Type 0
IsValid c r = (s : EventStatus) × (r.status ≡ to_string s) × Fits c s r.attempt_count

exhausted-false :
    (c : Config) (n : ℕ) → Bounded c → exhausted c n ≡ false → n < c.max_processing_attempts
unfolding exhausted
exhausted-false c n b e = ground arith

exhausted-true :
    (c : Config) (n : ℕ) → Bounded c → exhausted c n ≡ true → c.max_processing_attempts ≤ n
unfolding exhausted
exhausted-true c n b e = ground arith

Move-Fits :
    (c : Config) (s : EventStatus) (n : ℕ) (s' : EventStatus) (n' : ℕ)
    → Bounded c
    → Move c s n s' n'
    → Fits c s n
    → Fits c s' n'
Move-Fits c _ n _ n' b (Move.claimed e) h = (omega arith, omega arith)
Move-Fits c _ n _ n' b Move.completed h = h
Move-Fits c _ n _ n' b (Move.retried e) h = exhausted-false c n b e
Move-Fits c _ n _ n' b (Move.given_up e) h = omega (arith, exhausted-true c n b e)

pub Move-count :
    (c : Config) (s : EventStatus) (n : ℕ) (s' : EventStatus) (n' : ℕ) → Move c s n s' n' → n ≤ n'
Move-count c _ n _ n' (Move.claimed e) = omega arith
Move-count c _ n _ n' Move.completed = omega arith
Move-count c _ n _ n' (Move.retried e) = omega arith
Move-count c _ n _ n' (Move.given_up e) = omega arith

module _ {Value : Type 0} (c : Config) where
  RowMove-IsValid :
      (r r' : RawEventEntry Value) → Bounded c → RowMove c r r' → IsValid c r → IsValid c r'
  RowMove-IsValid r r' b m (s, e, f) =
      let same : s ≡ m.from = to_string-injective s m.from (sym e ∙ m.was) in
      (
        m.to,
        m.is_now,
        Move-Fits c m.from r.attempt_count m.to r'.attempt_count b m.move
            (subst (λ x. Fits c x r.attempt_count) same f),
      )

  Fresh-IsValid : (r : RawEventEntry Value) → Bounded c → Fresh r → IsValid c r
  Fresh-IsValid r b h = (EventStatus.pending, h.0, omega (arith, h.1))

  pub Rows-IsValid :
      (rows rows' : List (RawEventEntry Value))
      → Bounded c
      → Rows c rows rows'
      → All (IsValid c) rows
      → All (IsValid c) rows'
  Rows-IsValid [] [] b h v = tt
  Rows-IsValid [] (r' ∷ rows') b h v = (Fresh-IsValid r' b h.0, Rows-IsValid [] rows' b h.1 tt)
  Rows-IsValid (r ∷ rows) [] b h v = absurd h
  Rows-IsValid (r ∷ rows) (r' ∷ rows') b h v = (
    elim h.0 [ inl e ↦ subst (IsValid c) (sym e) v.0 | inr m ↦ RowMove-IsValid r r' b m v.0 ],
    Rows-IsValid rows rows' b h.1 v.1,
  )

module _ {Event Value : Type 0} (to_value : Event → Option Value)
    (from_value : Value → Option Event) (naive_time : ℕ → Option ℕ) (c : Config) where
  try_from_event-Fresh :
      (e : Event) (m : RawNewEventEntry Value)
      → try_from_event to_value e ≡ some m
      → (m.status ≡ to_string EventStatus.pending) × (m.attempt_count ≡ 0)
  unfolding try_from_event
  try_from_event-Fresh e m h = (ground arith, ground arith)

  try_from_event_scheduled_on-Fresh :
      (e : Event) (at : ℕ) (m : RawNewEventEntry Value)
      → try_from_event_scheduled_on to_value e at ≡ some m
      → (m.status ≡ to_string EventStatus.pending) × (m.attempt_count ≡ 0)
  unfolding try_from_event_scheduled_on
  try_from_event_scheduled_on-Fresh e at m h = (ground arith, ground arith)

  -- A call moves rows along the diagram, adds new ones behind them, and keeps the keys ascending.
  pub step-Step :
      (call : Call Event) (t : Table Value)
      → Keyed t
      → Step c t (step to_value from_value naive_time c call t).1
  unfolding step add_event add_scheduled_event
  step-Step (Call.add now e) t h =
      add-Step c from_value now (try_from_event to_value e) t (try_from_event-Fresh e) h
  step-Step (Call.add_scheduled now e at) t h =
      add-Step c from_value now (try_from_event_scheduled_on to_value e at) t
        (try_from_event_scheduled_on-Fresh e at) h
  step-Step (Call.get locked now limit) t h = get-Step c from_value locked now limit t h
  step-Step (Call.reset locked now) t h = reset-Step c from_value naive_time locked now t h
  step-Step (Call.complete now i) t h = complete-Step c from_value now i t h
  step-Step (Call.fail now i) t h = fail-Step c from_value now i t h

  -- With a positive bound of attempts below 2^31, every sequence of calls keeps each row's status
  -- one of the four, its attempts below the bound while it is pending, between one and the bound
  -- while in progress or completed, and at the bound once failed; and keeps the keys ascending.
  pub run-IsValid :
      (calls : List (Call Event)) (t : Table Value)
      → Bounded c
      → Keyed t
      → All (IsValid c) t.rows
      → All (IsValid c) (run to_value from_value naive_time c calls t).1.rows
        × Keyed (run to_value from_value naive_time c calls t).1
  unfolding run
  run-IsValid [] t b h v = (v, h)
  run-IsValid (call ∷ calls) t b h v =
      let s = step-Step call t h in
      run-IsValid calls (step to_value from_value naive_time c call t).1 b s.1
        (Rows-IsValid c t.rows _ b s.0 v)
