-- ===== src/Customers.antt =====
-- Customers of the card processor: the rows (src/models/customer.rs) and the repository over the table
-- `customers` (src/repos/customer.rs). Timestamps are left to the database and are not kept.
pub mod Service
pub mod Deletion
pub mod Creation
pub mod Tests
use billing.Base.{
  ℕ, Bytes, Bool, true, false, not, Option, none, some, is_some, List, [], ◌∷◌, ◌++◌, any, find,
  keep_if, update_if, ◌==◌, if◌then◌else◌, Result, ok, err, RepoError, ◌>>◌,
}
use billing.Acl.{Acl, Resource, Scope, everything, owned, read, write, check}

-- `DbCustomer`
pub record DbCustomer : Type 0 where
  pub id : ℕ
  pub user_id : ℕ
  pub email : Option Bytes

-- `UpdateDbCustomer`
pub record UpdateDbCustomer : Type 0 where
  pub email : Option Bytes

-- `SearchCustomer`
pub data SearchCustomer : Type 0 where
  by_id by_user_id : ℕ → SearchCustomer

-- `UpdateDbCustomer::is_empty`
unfoldable pub is_empty : UpdateDbCustomer → Bool
is_empty u = not (is_some u.email)

-- `is_in_scope`; the object is the `CustomersAccess`, a user's id.
unfoldable pub is_in_scope : ℕ → Scope → Option ℕ → Bool
is_in_scope caller everything obj = true
is_in_scope caller owned none = false
is_in_scope caller owned (some u) = u == caller

abbrev pub customer_has_id : ℕ → DbCustomer → Bool
customer_has_id i c = c.id == i

-- The search expression of `get`.
unfoldable pub matches : SearchCustomer → DbCustomer → Bool
matches (by_id i) c = c.id == i
matches (by_user_id u) c = c.user_id == u

-- The row that a change set leaves; an email that is not given stays.
abbrev pub changed : UpdateDbCustomer → DbCustomer → DbCustomer
changed u c = elim u.email [ none ↦ c | some email ↦ record c { email = some email } ]

module _ (acl : Acl ℕ) where
  -- `get`
  unfoldable pub get : SearchCustomer → List DbCustomer → Result RepoError (Option DbCustomer)
  unfolding matches
  get search rows = elim (find (matches search) rows) [
    | none ↦ ok none
    | some c ↦ check acl Resource.customer read (some c.user_id) >> ok (some c)
  ]

  -- `create`; the primary key is unique. `NewDbCustomer` has the fields that are kept of a row.
  unfoldable pub create :
      DbCustomer → List DbCustomer → Result RepoError DbCustomer × List DbCustomer
  create n rows = elim (check acl Resource.customer write (some n.user_id)) [
    | err e ↦ (err e, rows)
    | ok _ ↦
        if any (customer_has_id n.id) rows
        then (err RepoError.constraints, rows)
        else (ok n, rows ++ n ∷ [])
  ]

  -- `update`; a change set that sets nothing is refused by the query builder.
  unfoldable pub update :
      ℕ → UpdateDbCustomer → List DbCustomer → Result RepoError DbCustomer × List DbCustomer
  unfolding is_empty
  update i u rows = elim (find (customer_has_id i) rows) [
    | none ↦ (err RepoError.not_found, rows)
    | some c ↦ elim (check acl Resource.customer write (some c.user_id)) [
      | err e ↦ (err e, rows)
      | ok _ ↦
          if is_empty u
          then (err RepoError.internal, rows)
          else (ok (changed u c), update_if (customer_has_id i) (changed u) rows)
    ]
  ]

  -- `delete`
  unfoldable pub delete :
      ℕ → List DbCustomer → Result RepoError (Option DbCustomer) × List DbCustomer
  delete i rows = elim (find (customer_has_id i) rows) [
    | none ↦ (err RepoError.not_found, rows)
    | some c ↦ elim (check acl Resource.customer write (some c.user_id)) [
      | err e ↦ (err e, rows)
      | ok _ ↦ (ok (some c), keep_if (λ x. not (customer_has_id i x)) rows)
    ]
  ]
