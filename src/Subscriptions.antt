-- ===== src/Subscriptions.antt =====
-- What stores owe for their subscriptions: the read of unpaid subscriptions
-- (src/repos/subscription.rs) and the preparation of payments (src/services/subscription_payment.rs).
-- A `HashMap` is a list of entries with different keys, in the order of their first insertion; its
-- iteration order is not specified. A quantity, an `i32`, is its two's complement.
pub mod Stores
pub mod Prices
pub mod Priced
pub mod Repo
pub mod Accrual
pub mod Daily
pub mod Payments
pub mod Collection
pub mod Recorded
pub mod Collected
pub mod Overdue
pub mod Owed
pub mod ServiceTests
pub mod Tests
use billing.Base.{
  ℕ, ◌+◌, ◌-◌, ◌*◌, ◌^◌, Bool, true, false, Option, none, some, List, [], ◌∷◌, ◌++◌, keep_if, ltb,
  ◌==◌, if◌then◌else◌, Result, ok, err, map_err, RepoError, ServiceError, from_repo, ◌>>=◌, ◌>>◌,
}
use billing.Acl.{Acl, Resource, read, check}
use billing.Amount.{checked_add, checked_mul}

-- `Subscription`
pub record Subscription : Type 0 where
  pub id : ℕ
  pub store_id : ℕ
  pub published_base_products_quantity : ℕ
  pub subscription_payment_id : Option ℕ
  pub created_at : ℕ

-- `subscription_payment_id.is_null()`
unfoldable pub is_unpaid : Subscription → Bool
is_unpaid s = elim s.subscription_payment_id [ none ↦ true | some p ↦ false ]

-- The loop of `search` that checks the access to each store; it passes for a set of stores as for
-- the list of them.
unfoldable pub check_stores : Acl ℕ → List Subscription → Result RepoError (Unit {0})
check_stores acl [] = ok tt
check_stores acl (s ∷ rows) =
    check acl Resource.subscription read (some s.store_id) >> check_stores acl rows

-- `get_unpaid`, a `search` for what is not paid.
unfoldable pub get_unpaid : Acl ℕ → List Subscription → Result RepoError (List Subscription)
unfolding is_unpaid check_stores
get_unpaid acl rows = check_stores acl (keep_if is_unpaid rows) >> ok (keep_if is_unpaid rows)

abbrev pub ByStores : Type 0
ByStores = List (ℕ × List Subscription)

-- `by_stores.entry(store_id).or_insert_with(Vec::new).push(…)`
unfoldable pub push : Subscription → ByStores → ByStores
push s [] = (s.store_id, s ∷ []) ∷ []
push s ((k, subscriptions) ∷ entries) =
    let rest = push s entries in
    if k == s.store_id then (k, subscriptions ++ s ∷ []) ∷ entries else (k, subscriptions) ∷ rest

-- The loop over the unpaid subscriptions.
unfoldable pub push_all : List Subscription → ByStores → ByStores
unfolding push
push_all [] entries = entries
push_all (s ∷ rows) entries = push_all rows (push s entries)

-- `iter().map(|s| s.created_at).min()`
unfoldable pub oldest : List Subscription → Option ℕ
oldest [] = none
oldest (s ∷ rows) = elim (oldest rows) [
  | none ↦ some s.created_at
  | some at ↦ some (if ltb at s.created_at then at else s.created_at)
]

-- The test of `retain`: `now - oldest_unpaid > payment_periodicity_duration`.
unfoldable pub is_overdue : (now period : ℕ) → List Subscription → Bool
unfolding oldest
is_overdue now period rows = elim (oldest rows) [
  | none ↦ ltb (now + period) now
  | some at ↦ ltb (at + period) now
]

-- `subscriptions_to_pay`
unfoldable pub subscriptions_to_pay :
    Acl ℕ → (now period : ℕ) → List Subscription → Result ServiceError ByStores
unfolding get_unpaid push_all is_overdue
subscriptions_to_pay acl now period rows = map_err from_repo (get_unpaid acl rows) >>= λ unpaid.
    ok (keep_if (λ e. is_overdue now period e.1) (push_all unpaid []))

-- `impl From<Quantity> for Amount`: the cast of a negative `i32` extends its sign.
unfoldable pub from_quantity : ℕ → ℕ
from_quantity q = if ltb q (2 ^ 31) then q else 2 ^ 128 - 2 ^ 32 + q

-- The loop of `calculate_total_amount`, from the total so far; `value` is of the store's
-- subscription.
unfoldable pub add_amounts : (value total : ℕ) → List Subscription → Result ServiceError ℕ
unfolding checked_mul checked_add from_quantity
add_amounts value total [] = ok total
add_amounts value total (s ∷ rows) =
    elim (checked_mul (from_quantity s.published_base_products_quantity) value) [
      | none ↦ err ServiceError.internal
      | some amount ↦ elim (checked_add total amount) [
        | none ↦ err ServiceError.internal
        | some total' ↦ add_amounts value total' rows
      ]
    ]

-- `calculate_total_amount`
unfoldable pub calculate_total_amount : (value : ℕ) → List Subscription → Result ServiceError ℕ
unfolding add_amounts
calculate_total_amount value rows = add_amounts value 0 rows
