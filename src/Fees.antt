-- ===== src/Fees.antt =====
-- Fees of orders: the rows (src/models/fee/mod.rs) and the repository over the table `fees`
-- (src/repos/fee.rs). The orders that fees name are taken to exist; JSON values are declared outside of
-- the repository; timestamps are left to the database and are not kept.
pub mod Service
pub mod Marking
pub mod Charging
pub mod Once
pub mod Tests
use billing.Base.{
  ℕ, Bool, true, false, ◌&&◌, ◌||◌, not, Option, none, some, is_some, List, [], ◌∷◌, ◌++◌, any,
  find, keep_if, update_if, ◌==◌, if◌then◌else◌, Result, ok, err, ok_or, RepoError, ◌>>=◌, ◌>>◌,
}
use billing.Currency.{Currency}
use billing.Acl.{Acl, Resource, Scope, everything, owned, read, write, check}

-- `FeeStatus`
pub data FeeStatus : Type 0 where
  not_paid paid fail : FeeStatus

-- `Fee`
pub record Fee (Json : Type 0) : Type 0 where
  pub id : ℕ
  pub order_id : ℕ
  pub amount : ℕ
  pub status : FeeStatus
  pub currency : Currency
  pub charge_id : Option ℕ
  pub metadata : Option Json
  pub crypto_currency : Option Currency
  pub crypto_amount : Option ℕ

-- `NewFee`
pub record NewFee (Json : Type 0) : Type 0 where
  pub order_id : ℕ
  pub amount : ℕ
  pub status : FeeStatus
  pub currency : Currency
  pub charge_id : Option ℕ
  pub metadata : Option Json
  pub crypto_currency : Option Currency
  pub crypto_amount : Option ℕ

-- `UpdateFee`
pub record UpdateFee (Json : Type 0) : Type 0 where
  pub order_id : Option ℕ
  pub amount : Option ℕ
  pub status : Option FeeStatus
  pub currency : Option Currency
  pub charge_id : Option ℕ
  pub metadata : Option Json
  pub crypto_currency : Option Currency
  pub crypto_amount : Option ℕ

-- `SearchFee`
pub data SearchFee : Type 0 where
  by_id by_order_id : ℕ → SearchFee

-- `SearchFeeParams`
pub record SearchFeeParams : Type 0 where
  pub id : Option ℕ
  pub order_ids : Option (List ℕ)

-- `SearchFeeParams::by_order_ids`
abbrev pub by_order_ids : List ℕ → SearchFeeParams
by_order_ids ids = record { id = none; order_ids = some ids }

-- The value that a change set leaves in a column: a given one, or else the old one.
abbrev pub given_or : {A : Type 0} → Option A → A → A
given_or none old = old
given_or (some new) old = new

abbrev pub given_or_kept : {A : Type 0} → Option A → Option A → Option A
given_or_kept none old = old
given_or_kept (some new) old = some new

module _ {Json : Type 0} where
  abbrev pub fee_has_id : ℕ → Fee Json → Bool
  fee_has_id i f = f.id == i

  abbrev pub fee_is_of : ℕ → Fee Json → Bool
  fee_is_of o f = f.order_id == o

  -- `is_in_scope`: the manager of the store of the fee's order.
  unfoldable pub is_in_scope :
      (store_of : ℕ → Option ℕ)
      → (user_is_store_manager : ℕ → Bool) → Scope
      → Option (Fee Json)
      → Bool
  is_in_scope store_of manager everything obj = true
  is_in_scope store_of manager owned none = false
  is_in_scope store_of manager owned (some f) = elim (store_of f.order_id) [
    | none ↦ false
    | some store ↦ manager store
  ]

  -- The search expression of `get`.
  unfoldable pub matches : SearchFee → Fee Json → Bool
  matches (by_id i) f = f.id == i
  matches (by_order_id o) f = f.order_id == o

  -- `into_expr`; a search with no filter selects nothing to search for.
  unfoldable pub into_expr : SearchFeeParams → Option (Fee Json → Bool)
  into_expr s = elim s.id [
    | none ↦ elim s.order_ids [
      | none ↦ none
      | some ids ↦ some (λ f. any (λ o. f.order_id == o) ids)
    ]
    | some i ↦ elim s.order_ids [
      | none ↦ some (fee_has_id i)
      | some ids ↦ some (λ f. fee_has_id i f && any (λ o. f.order_id == o) ids)
    ]
  ]

  -- The row of a new fee.
  unfoldable pub new_row : ℕ → NewFee Json → Fee Json
  new_row i n = record {
    id = i;
    order_id = n.order_id;
    amount = n.amount;
    status = n.status;
    currency = n.currency;
    charge_id = n.charge_id;
    metadata = n.metadata;
    crypto_currency = n.crypto_currency;
    crypto_amount = n.crypto_amount;
  }

  -- The row that a change set leaves.
  unfoldable pub changed : UpdateFee Json → Fee Json → Fee Json
  changed u f = record {
    id = f.id;
    order_id = given_or u.order_id f.order_id;
    amount = given_or u.amount f.amount;
    status = given_or u.status f.status;
    currency = given_or u.currency f.currency;
    charge_id = given_or_kept u.charge_id f.charge_id;
    metadata = given_or_kept u.metadata f.metadata;
    crypto_currency = given_or_kept u.crypto_currency f.crypto_currency;
    crypto_amount = given_or_kept u.crypto_amount f.crypto_amount;
  }

  -- A change set that sets nothing, which the query builder refuses.
  unfoldable pub sets_nothing : UpdateFee Json → Bool
  sets_nothing u = not (
      is_some u.order_id
      || is_some u.amount
      || is_some u.status
      || is_some u.currency
      || is_some u.charge_id
      || is_some u.metadata
      || is_some u.crypto_currency
      || is_some u.crypto_amount)

  -- The unique index on the orders: another row is of the order that a change set gives.
  unfoldable pub takes_order : ℕ → UpdateFee Json → List (Fee Json) → Bool
  takes_order i u rows = elim u.order_id [
    | none ↦ false
    | some o ↦ any (λ f. not (fee_has_id i f) && fee_is_of o f) rows
  ]

  module _ (acl : Acl (Fee Json)) where
    -- `get`
    unfoldable pub get : SearchFee → List (Fee Json) → Result RepoError (Option (Fee Json))
    unfolding matches
    get s rows = elim (find (matches s) rows) [
      | none ↦ ok none
      | some f ↦ check acl Resource.fee read (some f) >> ok (some f)
    ]

    -- The loop of `search` over the rows found.
    unfoldable pub check_all : List (Fee Json) → Result RepoError (Unit {0})
    check_all [] = ok tt
    check_all (f ∷ fees) = check acl Resource.fee read (some f) >> check_all fees

    -- `search`
    unfoldable pub search : SearchFeeParams → List (Fee Json) → Result RepoError (List (Fee Json))
    unfolding into_expr check_all
    search s rows = ok_or (into_expr s) RepoError.internal >>= λ query.
        check_all (keep_if query rows) >> ok (keep_if query rows)

    -- `create`; `new_id` is the next key, and an order has one fee.
    unfoldable pub create :
        (new_id : ℕ) → NewFee Json → List (Fee Json) → Result RepoError (Fee Json) × List (Fee Json)
    unfolding new_row
    create new_id n rows = elim (check acl Resource.fee write none) [
      | err e ↦ (err e, rows)
      | ok _ ↦
          if any (fee_is_of n.order_id) rows
          then (err RepoError.constraints, rows)
          else (ok (new_row new_id n), rows ++ new_row new_id n ∷ [])
    ]

    -- `update`
    unfoldable pub update :
        ℕ → UpdateFee Json → List (Fee Json) → Result RepoError (Fee Json) × List (Fee Json)
    unfolding changed sets_nothing takes_order
    update i u rows = elim (find (fee_has_id i) rows) [
      | none ↦ (err RepoError.not_found, rows)
      | some f ↦ elim (check acl Resource.fee write (some f)) [
        | err e ↦ (err e, rows)
        | ok _ ↦
            if sets_nothing u
            then (err RepoError.internal, rows)
            else if takes_order i u rows
            then (err RepoError.constraints, rows)
            else (ok (changed u f), update_if (fee_has_id i) (changed u) rows)
      ]
    ]

    -- `delete`
    unfoldable pub delete : ℕ → List (Fee Json) → Result RepoError (Unit {0}) × List (Fee Json)
    delete i rows = elim (find (fee_has_id i) rows) [
      | none ↦ (err RepoError.not_found, rows)
      | some f ↦ elim (check acl Resource.fee write (some f)) [
        | err e ↦ (err e, rows)
        | ok _ ↦ (ok tt, keep_if (λ x. not (fee_has_id i x)) rows)
      ]
    ]
