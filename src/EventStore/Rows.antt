-- ===== src/EventStore/Rows.antt =====
-- How a statement may change the rows of the event store, and the order of their keys.
use billing.Base.{
  ℕ, suc, ◌+◌, ◌≤◌, ◌<◌, ◌≡◌, refl, ◌⊎◌, inl, inr, Bool, true, false, some, List, [], ◌∷◌, ◌++◌,
  All, find, update_if, arith, if◌then◌else◌, ◌==◌, Bool-cases, ==_iff, subst,
}
use billing.EventStore.Entry.{EventStatus, RawEventEntry, to_string}
use billing.EventStore.{Config, exhausted, has_id}

-- The transition diagram of an entry, with its count of attempts.
pub data Move (c : Config) : EventStatus → ℕ → EventStatus → ℕ → Type 0 where
  claimed : {n m : ℕ} → m ≡ n + 1 → Move c EventStatus.pending n EventStatus.in_progress m
  completed : {n : ℕ} → Move c EventStatus.in_progress n EventStatus.completed n
  retried : {n : ℕ} → exhausted c n ≡ false → Move c EventStatus.in_progress n EventStatus.pending n
  given_up : {n : ℕ} → exhausted c n ≡ true → Move c EventStatus.in_progress n EventStatus.failed n

module _ {Value : Type 0} where
  -- A row has followed one edge of the diagram; its key, event, date and schedule are as they were.
  pub record RowMove (c : Config) (r r' : RawEventEntry Value) : Type 0 where
    pub from : EventStatus
    pub to : EventStatus
    pub was : r.status ≡ to_string from
    pub is_now : r'.status ≡ to_string to
    pub move : Move c from r.attempt_count to r'.attempt_count
    pub same_id : r'.id ≡ r.id
    pub same_event : r'.event ≡ r.event
    pub same_created_at : r'.created_at ≡ r.created_at
    pub same_scheduled_on : r'.scheduled_on ≡ r.scheduled_on

  -- A new row.
  abbrev pub Fresh : RawEventEntry Value → Type 0
  Fresh r = (r.status ≡ to_string EventStatus.pending) × (r.attempt_count ≡ 0)

  -- Every row is as it was or has made one move, and what stands behind them is new.
  abbrev pub Rows : Config → List (RawEventEntry Value) → List (RawEventEntry Value) → Type 0
  Rows c [] new = All Fresh new
  Rows c (r ∷ rows) [] = ⊥
  Rows c (r ∷ rows) (r' ∷ rows') = ((r' ≡ r) ⊎ RowMove c r r') × Rows c rows rows'

  -- The keys ascend, from `lo` on and below `hi`.
  abbrev pub Ascending : ℕ → List (RawEventEntry Value) → ℕ → Type 0
  Ascending lo [] hi = lo ≤ hi
  Ascending lo (r ∷ rows) hi = (lo ≤ r.id) × Ascending (suc r.id) rows hi

  pub Rows-refl : (c : Config) (rows : List (RawEventEntry Value)) → Rows c rows rows
  Rows-refl c [] = tt
  Rows-refl c (r ∷ rows) = (inl refl, Rows-refl c rows)

  pub Rows-append :
      (c : Config) (rows new : List (RawEventEntry Value))
      → All Fresh new
      → Rows c rows (rows ++ new)
  Rows-append c [] new h = h
  Rows-append c (r ∷ rows) new h = (inl refl, Rows-append c rows new h)

  pub Ascending-weaken :
      (lo lo' : ℕ) (rows : List (RawEventEntry Value)) (hi : ℕ)
      → lo' ≤ lo
      → Ascending lo rows hi
      → Ascending lo' rows hi
  Ascending-weaken lo lo' [] hi p h = omega arith
  Ascending-weaken lo lo' (r ∷ rows) hi p h = (omega arith, h.1)

  pub Ascending-append :
      (lo : ℕ) (rows : List (RawEventEntry Value)) (hi : ℕ) (r : RawEventEntry Value)
      → r.id ≡ hi
      → Ascending lo rows hi
      → Ascending lo (rows ++ r ∷ []) (hi + 1)
  Ascending-append lo [] hi r e h = (omega arith, omega arith)
  Ascending-append lo (x ∷ rows) hi r e h = (h.0, Ascending-append (suc x.id) rows hi r e h.1)

  -- No row past its place has the key.
  pub update_if-absent :
      (i lo : ℕ) (f : RawEventEntry Value → RawEventEntry Value) (rows : List (RawEventEntry Value))
      (hi : ℕ)
      → i < lo
      → Ascending lo rows hi
      → update_if (has_id i) f rows ≡ rows
  update_if-absent i lo f [] hi p h = refl
  update_if-absent i lo f (r ∷ rows) hi p h =
      ground (arith, update_if-absent i (suc r.id) f rows hi)

  -- A statement that changes each selected row by one move.
  pub update_if-Rows :
      (c : Config) (p : RawEventEntry Value → Bool) (f : RawEventEntry Value → RawEventEntry Value)
      → ((r : RawEventEntry Value) → p r ≡ true → RowMove c r (f r))
      → (rows : List (RawEventEntry Value)) → Rows c rows (update_if p f rows)
  update_if-Rows c p f move [] = tt
  update_if-Rows c p f move (r ∷ rows) = (first (p r) refl, update_if-Rows c p f move rows)
    where
      first :
          (b : Bool) → p r ≡ b → ((if b then f r else r) ≡ r) ⊎ RowMove c r (if b then f r else r)
      first true e = inr (move r e)
      first false e = inl refl

  -- A statement that changes the one row of a key.
  pub update_one-Rows :
      (c : Config) (i lo : ℕ) (f : RawEventEntry Value → RawEventEntry Value)
      (rows : List (RawEventEntry Value)) (hi : ℕ) (row : RawEventEntry Value)
      → Ascending lo rows hi
      → find (has_id i) rows ≡ some row
      → RowMove c row (f row)
      → Rows c rows (update_if (has_id i) f rows)
  update_one-Rows c i lo f [] hi row h e m = tt
  update_one-Rows c i lo f (r ∷ rows) hi row h e m = elim (Bool-cases (r.id == i)) [
    | inl here ↦
        let same : some r ≡ some row = rw here at e in
        let m' : RowMove c r (f r) = subst (λ x. RowMove c x (f x)) (cc) m in
        rw here (
          inr m',
          rw (update_if-absent i (suc r.id) f rows hi (ground (arith, ==_iff r.id i)) h.1)
              (Rows-refl c rows),
        )
    | inr later ↦
        rw later (inl refl, update_one-Rows c i (suc r.id) f rows hi row h.1 (rw later at e) m)
  ]
