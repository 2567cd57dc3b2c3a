-- ===== src/Roles/Service.antt =====
-- The service of roles (src/services/user_roles.rs): each call takes the access control of its caller
-- from the roles that are listed for the caller, and then makes one call of the repository.
use billing.Base.{Bool, ℕ, Option, List, [], ◌∷◌, Result, RepoError}
use billing.Acl.{BillingRole}
use billing.Roles.{
  UserRole, Cache, State, is_in_scope, list_for_user, create, delete, delete_by_user_id,
  delete_by_id, in_transaction, get_acl,
}

-- A call of the service; `none` is a caller who is not logged in.
pub data Call (Json : Type 0) : Type 0 where
  get_roles : (caller : Option ℕ) → ℕ → Call Json
  create_user_role : (caller : Option ℕ) → UserRole Json → Call Json
  delete_user_role : (caller : Option ℕ) → ℕ → BillingRole → Call Json
  delete_user_role_by_user_id : (caller : Option ℕ) → ℕ → Call Json
  delete_user_role_by_id : (caller : Option ℕ) → ℕ → Call Json

-- What a call is answered with.
pub data Answer (Json : Type 0) : Type 0 where
  listed : List BillingRole → Answer Json
  one_role : Result RepoError (UserRole Json) → Answer Json
  all_roles : List (UserRole Json) → Answer Json

module _ {Json C CacheError : Type 0} (cache : Cache C CacheError)
    (json_eq : Json → Json → Bool) where
  -- One call of the service; `json_eq` is the database's equality of JSON values.
  unfoldable pub serve : Call Json → State Json C → Answer Json × State Json C
  unfolding list_for_user create delete delete_by_user_id delete_by_id in_transaction get_acl
  serve (Call.get_roles caller u) s =
      let s1 = (get_acl cache (is_in_scope {Json = Json}) caller s).1 in
      let (roles, s2) = list_for_user cache u s1 in (listed roles, s2)
  serve (Call.create_user_role caller n) s =
      let (acl, s1) = get_acl cache is_in_scope caller s in
      let (r, s2) = in_transaction cache (create cache acl json_eq n) s1 in (one_role r, s2)
  serve (Call.delete_user_role caller u name) s =
      let (acl, s1) = get_acl cache is_in_scope caller s in
      let (r, s2) = in_transaction cache (delete cache acl u name) s1 in (one_role r, s2)
  serve (Call.delete_user_role_by_user_id caller u) s =
      let s1 = (get_acl cache (is_in_scope {Json = Json}) caller s).1 in
      let (rows, s2) = delete_by_user_id cache u s1 in (all_roles rows, s2)
  serve (Call.delete_user_role_by_id caller i) s =
      let s1 = (get_acl cache (is_in_scope {Json = Json}) caller s).1 in
      let (r, s2) = delete_by_id cache i s1 in (one_role r, s2)

  -- Calls one after the other.
  unfoldable pub serve_all : List (Call Json) → State Json C → List (Answer Json) × State Json C
  unfolding serve
  serve_all [] s = ([], s)
  serve_all (call ∷ calls) s =
      let (answer, s') = serve call s in
      let (answers, s'') = serve_all calls s' in (answer ∷ answers, s'')
