-- ===== src/Roles.antt =====
-- The roles of users: the table `roles` (src/models/role.rs), its repository (src/repos/user_roles.rs)
-- with the cache in front of it (src/repos/acl/roles_cache.rs), the service (src/services/user_roles.rs)
-- and the access control that a caller's roles give (src/repos/repo_factory.rs). The cache itself and
-- JSON values are declared outside of the repository.
pub mod Service
pub mod Coherence
pub mod Plain
pub mod Steps
pub mod Refinement
pub mod Tests
use billing.Base.{
  ◌||◌, ℕ, ◌+◌, Bool, true, false, ◌&&◌, not, Option, none, some, List, [], ◌∷◌, ◌++◌, map, any,
  find, keep_if, ◌==◌, if◌then◌else◌, Result, ok, err, RepoError, ◌>>◌,
}
use billing.Acl.{
  Acl, Resource, BillingRole, superuser, user, store_manager, financial_manager, other, Scope,
  everything, owned, read, write, check, allows, system_acl, unauthorized_acl,
}

-- `Vec::is_empty`
abbrev pub is_empty : {A : Type 0} → List A → Bool
is_empty [] = true
is_empty (x ∷ xs) = false

-- `UserRole`, and `NewUserRole`, which has the same fields.
pub record UserRole (Json : Type 0) : Type 0 where
  pub id : ℕ
  pub user_id : ℕ
  pub name : BillingRole
  pub info : Option Json

-- The equality of `BillingRole`.
unfoldable pub role_code : BillingRole → ℕ
role_code superuser = 0
role_code user = 1
role_code store_manager = 2
role_code financial_manager = 3
role_code (other n) = n + 4

-- `Cache`, over its own state; a call may fail.
pub record Cache (C CacheError : Type 0) : Type 0 where
  pub get_key : ℕ → C → Result CacheError (Option (List BillingRole))
  pub remove_key : ℕ → C → Result CacheError Bool × C
  pub set_key : ℕ → List BillingRole → C → Result CacheError (Unit {0}) × C

-- The table and the cache.
pub record State (Json C : Type 0) : Type 0 where
  pub rows : List (UserRole Json)
  pub cached : C

-- `is_in_scope`
unfoldable pub is_in_scope : {Json : Type 0} → ℕ → Scope → Option (UserRole Json) → Bool
is_in_scope caller everything obj = true
is_in_scope caller owned none = false
is_in_scope caller owned (some r) = r.user_id == caller

module _ {Json : Type 0} where
  abbrev pub is_of : ℕ → UserRole Json → Bool
  is_of u r = r.user_id == u

  abbrev pub role_has_id : ℕ → UserRole Json → Bool
  role_has_id i r = r.id == i

  -- `user_id.eq(…).and(name.eq(…))`
  unfoldable pub is_role : ℕ → BillingRole → UserRole Json → Bool
  unfolding role_code
  is_role u name r = (r.user_id == u) && (role_code r.name == role_code name)

  -- The key `UNIQUE (user_id, name, data)`, for which two missing values differ; `json_eq` is the
  -- database's equality of JSON values.
  unfoldable pub same_key : (json_eq : Json → Json → Bool) → UserRole Json → UserRole Json → Bool
  unfolding is_role
  same_key json_eq n r = is_role n.user_id n.name r && (elim n.info [
    | none ↦ false
    | some j ↦ elim r.info [ none ↦ false | some x ↦ json_eq x j ]
  ])

  abbrev pub name_of : UserRole Json → BillingRole
  name_of r = r.name

  -- The roles of a user in the table.
  unfoldable pub roles_of : ℕ → List (UserRole Json) → List BillingRole
  roles_of u rows = map name_of (keep_if (is_of u) rows)

  -- `get_by_store_id`; `is_store` is the equality with the JSON value of the store's id.
  unfoldable pub get_by_store_id :
      (is_store : Json → Bool) → List (UserRole Json) → Option (UserRole Json)
  get_by_store_id is_store rows =
      find (λ r. elim r.info [ none ↦ false | some j ↦ is_store j ]) rows

  -- `user_is_store_manager`; the same test, of a user's roles.
  unfoldable pub user_is_store_manager : (is_store : Json → Bool) → ℕ → List (UserRole Json) → Bool
  user_is_store_manager is_store u rows =
      any (λ r. elim r.info [ none ↦ false | some j ↦ is_store j ]) (keep_if (is_of u) rows)

module _ {C CacheError : Type 0} (cache : Cache C CacheError) where
  -- `RolesCacheImpl::get`
  unfoldable pub get : ℕ → C → Option (List BillingRole)
  get u c = elim (cache.get_key u c) [ ok found ↦ found | err e ↦ none ]

  -- `RolesCacheImpl::remove`; its answer is never read.
  unfoldable pub remove : ℕ → C → C
  remove u c = (cache.remove_key u c).1

  -- `RolesCacheImpl::set`
  unfoldable pub set : ℕ → List BillingRole → C → C
  set u roles c = (cache.set_key u roles c).1

module _ {Json C CacheError : Type 0} (cache : Cache C CacheError) where
  -- `list_for_user`; no roles are not cached.
  unfoldable pub list_for_user : ℕ → State Json C → List BillingRole × State Json C
  unfolding get set roles_of
  list_for_user u s = elim (get cache u s.cached) [
    | some roles ↦ (roles, s)
    | none ↦
        let roles = roles_of u s.rows in
        (roles, if is_empty roles then s else record s { cached = set cache u roles s.cached })
  ]

  module _ (acl : Acl (UserRole Json)) where
    -- `create`; both keys are unique.
    unfoldable pub create :
        (json_eq : Json → Json → Bool)
        → UserRole Json
        → State Json C
        → Result RepoError (UserRole Json) × State Json C
    unfolding remove same_key
    create json_eq n s = elim (check acl Resource.user_roles write none) [
      | err e ↦ (err e, s)
      | ok _ ↦
          let cached = remove cache n.user_id s.cached in
          if any (role_has_id n.id) s.rows || any (same_key json_eq n) s.rows
          then (err RepoError.constraints, record s { cached = cached })
          else (ok n, record { rows = s.rows ++ n ∷ []; cached = cached })
    ]

    -- `delete`: the rows are gone before the access to the first of them is checked.
    unfoldable pub delete :
        ℕ → BillingRole → State Json C → Result RepoError (UserRole Json) × State Json C
    unfolding remove is_role
    delete u name s =
        let cached = remove cache u s.cached in
        elim (find (is_role u name) s.rows) [
          | none ↦ (err RepoError.not_found, record s { cached = cached })
          | some r ↦ (
            check acl Resource.user_roles write (some r) >> ok r,
            record { rows = keep_if (λ x. not (is_role u name x)) s.rows; cached = cached },
          )
        ]

  -- `delete_by_user_id`, which checks no access.
  unfoldable pub delete_by_user_id : ℕ → State Json C → List (UserRole Json) × State Json C
  unfolding remove
  delete_by_user_id u s = (
    keep_if (is_of u) s.rows,
    record { rows = keep_if (λ x. not (is_of u x)) s.rows; cached = remove cache u s.cached },
  )

  -- `delete_by_id`, which checks no access.
  unfoldable pub delete_by_id : ℕ → State Json C → Result RepoError (UserRole Json) × State Json C
  unfolding remove
  delete_by_id i s = elim (find (role_has_id i) s.rows) [
    | none ↦ (err RepoError.not_found, s)
    | some r ↦ (
      ok r,
      record {
        rows = keep_if (λ x. not (role_has_id i x)) s.rows;
        cached = remove cache r.user_id s.cached;
      },
    )
  ]

  -- The end of a transaction: an error takes the rows back, and not the cache.
  unfoldable pub commit :
      {A : Type 0}
      → State Json C
      → Result RepoError A × State Json C
      → Result RepoError A × State Json C
  commit s (ok a, s') = (ok a, s')
  commit s (err e, s') = (err e, record s' { rows = s.rows })

  -- A transaction of the database around a call.
  unfoldable pub in_transaction :
      {A : Type 0}
      → (State Json C → Result RepoError A × State Json C)
      → State Json C
      → Result RepoError A × State Json C
  unfolding commit
  in_transaction call s = commit s (call s)

  -- `ReposFactoryImpl::get_acl`: the access control of a caller, from the roles that are listed.
  unfoldable pub get_acl :
      {T : Type 0}
      → (is_in_scope : ℕ → Scope → Option T → Bool) → Option ℕ
      → State Json C
      → Acl T × State Json C
  unfolding list_for_user
  get_acl in_scope none s = (unauthorized_acl, s)
  get_acl in_scope (some u) s =
      let (roles, s') = list_for_user u s in (allows (in_scope u) roles, s')
