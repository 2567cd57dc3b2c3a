-- ===== src/EventStore/Failure.antt =====
-- What a failure makes of a row, and the rows of keys after an update of one key
-- (src/repos/event_store.rs).
use billing.Base.{
  true, ◌<◌, ◌≤◌, ◌^◌, false, codes, ℕ, ◌≡◌, ◌≢◌, refl, ◌⊎◌, some, List, [], ◌∷◌, find, update_if,
  arith,
}
use billing.EventStore.Entry.{RawEventEntry, to_string}
use billing.EventStore.{Config, exhausted, has_id, set_status, after_failure}

module _ {Value : Type 0} where
  pub after_failure-id :
      (c : Config) (now : ℕ) (r : RawEventEntry Value) → (after_failure c now r).id ≡ r.id
  unfolding after_failure set_status
  after_failure-id c now r = ground arith

  pub after_failure-exhausted :
      (c : Config) (now : ℕ) (r : RawEventEntry Value)
      → exhausted c r.attempt_count ≡ true
      → after_failure c now r ≡ record r { status = codes "failed"; status_updated_at = now }
  unfolding after_failure set_status to_string
  after_failure-exhausted c now r h = rw (after_failure, h) refl

  pub after_failure-left :
      (c : Config) (now : ℕ) (r : RawEventEntry Value)
      → exhausted c r.attempt_count ≡ false
      → after_failure c now r ≡ record r { status = codes "pending"; status_updated_at = now }
  unfolding after_failure set_status to_string
  after_failure-left c now r h = rw (after_failure, h) refl

  -- The row of a key after an update of the rows of a key.
  pub find-changed :
      (i : ℕ) (f : RawEventEntry Value → RawEventEntry Value)
      → ((r : RawEventEntry Value) → (f r).id ≡ r.id)
      → (rows : List (RawEventEntry Value)) (row : RawEventEntry Value)
      → find (has_id i) rows ≡ some row
      → find (has_id i) (update_if (has_id i) f rows) ≡ some (f row)
  find-changed i f same [] row h = cc
  find-changed i f same (r ∷ rows) row h = ground (arith, find-changed i f same rows row, same r)

  pub find-other :
      (i j : ℕ) (f : RawEventEntry Value → RawEventEntry Value)
      → ((r : RawEventEntry Value) → (f r).id ≡ r.id)
      → (rows : List (RawEventEntry Value)) → j ≢ i
      → find (has_id j) (update_if (has_id i) f rows) ≡ find (has_id j) rows
  find-other i j f same [] d = refl
  find-other i j f same (r ∷ rows) d = ground (arith, find-other i j f same rows d, same r)

pub exhausted-bound :
    (c : Config) (n : ℕ)
    → exhausted c n ≡ true
    → (2 ^ 31 ≤ c.max_processing_attempts) ⊎ (c.max_processing_attempts ≤ n)
unfolding exhausted
exhausted-bound c n h = ground arith

pub left-bound :
    (c : Config) (n : ℕ)
    → exhausted c n ≡ false
    → (n < c.max_processing_attempts) × (c.max_processing_attempts < 2 ^ 31)
unfolding exhausted
left-bound c n h = ground arith
