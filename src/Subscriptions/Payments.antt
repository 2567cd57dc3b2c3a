-- ===== src/Subscriptions/Payments.antt =====
-- Payments for subscriptions: the rows (src/models/subscription.rs) and the repository over the table
-- `subscription_payment` (src/repos/subscription_payment.rs).
use billing.Base.{
  ℕ, Bool, true, false, ◌&&◌, Option, none, some, List, [], ◌∷◌, ◌++◌, find, keep_if, length, take,
  drop, ◌==◌, if◌then◌else◌, Result, ok, err, RepoError, ◌>>◌,
}
use billing.Currency.{Currency}
use billing.Acl.{Acl, Resource, read, write, check}

-- `SubscriptionPaymentStatus`
pub data SubscriptionPaymentStatus : Type 0 where
  paid failed : SubscriptionPaymentStatus

-- `NewSubscriptionPayment`
pub record NewSubscriptionPayment : Type 0 where
  pub store_id : ℕ
  pub amount : ℕ
  pub currency : Currency
  pub charge_id : Option ℕ
  pub transaction_id : Option ℕ
  pub status : SubscriptionPaymentStatus

-- `SubscriptionPayment`
pub record SubscriptionPayment : Type 0 where
  pub id : ℕ
  pub payment : NewSubscriptionPayment
  pub created_at : ℕ

-- `SubscriptionPaymentSearch`
pub record SubscriptionPaymentSearch : Type 0 where
  pub id : Option ℕ
  pub store_id : Option ℕ
  pub status : Option SubscriptionPaymentStatus

-- `SubscriptionPaymentSearchResults`
pub record SubscriptionPaymentSearchResults : Type 0 where
  pub total_count : ℕ
  pub subscription_payments : List SubscriptionPayment

-- The derived `PartialEq` of `SubscriptionPaymentStatus`.
unfoldable pub status_eq : SubscriptionPaymentStatus → SubscriptionPaymentStatus → Bool
status_eq paid paid = true
status_eq failed failed = true
status_eq _ _ = false

-- The condition that `into_expr` builds of the filters that are given.
unfoldable pub matches : SubscriptionPaymentSearch → SubscriptionPayment → Bool
unfolding status_eq
matches q p =
    (elim q.id [ none ↦ true | some i ↦ p.id == i ])
    && (elim q.store_id [ none ↦ true | some k ↦ p.payment.store_id == k ])
    && (elim q.status [ none ↦ true | some s ↦ status_eq p.payment.status s ])

-- Whether `into_expr` gives no condition.
abbrev pub no_filter : SubscriptionPaymentSearch → Bool
no_filter q = elim q.id [
  | some i ↦ false
  | none ↦ elim q.store_id [
    | some k ↦ false
    | none ↦ elim q.status [ some s ↦ false | none ↦ true ]
  ]
]

abbrev pub new_row : (id at : ℕ) → NewSubscriptionPayment → SubscriptionPayment
new_row i at n = record { id = i; payment = n; created_at = at }

module _ (acl : Acl ℕ) where
  -- `create`; `id` and `at` are the next key and the time of the database.
  unfoldable pub create :
      (id at : ℕ)
      → NewSubscriptionPayment
      → List SubscriptionPayment
      → Result RepoError SubscriptionPayment × List SubscriptionPayment
  create i at n rows = elim (check acl Resource.subscription_payment write (some n.store_id)) [
    | err e ↦ (err e, rows)
    | ok _ ↦ (ok (new_row i at n), rows ++ new_row i at n ∷ [])
  ]

  -- `get`
  unfoldable pub get :
      SubscriptionPaymentSearch
      → List SubscriptionPayment
      → Result RepoError (Option SubscriptionPayment)
  unfolding matches
  get q rows = if no_filter q then err RepoError.internal else elim (find (matches q) rows) [
    | none ↦ ok none
    | some p ↦ check acl Resource.subscription_payment read (some p.payment.store_id) >> ok (some p)
  ]

  -- The loop of `search` over the stores of the page; it passes for a set of stores as for their list.
  unfoldable pub check_stores : List SubscriptionPayment → Result RepoError (Unit {0})
  check_stores [] = ok tt
  check_stores (p ∷ rows) =
      check acl Resource.subscription_payment read (some p.payment.store_id) >> check_stores rows

  -- `search`; `newest_first` is the database's order by the time of creation, and a negative offset or
  -- count is not modelled.
  unfoldable pub search :
      (newest_first : List SubscriptionPayment → List SubscriptionPayment)
      → (skip count : ℕ) → SubscriptionPaymentSearch
      → List SubscriptionPayment
      → Result RepoError SubscriptionPaymentSearchResults
  unfolding matches check_stores
  search newest_first skip count q rows =
      let all = keep_if (matches q) rows in
      let page = take count (drop skip (newest_first all)) in
      check_stores page >> ok (record { total_count = length all; subscription_payments = page })
