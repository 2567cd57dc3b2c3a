-- ===== src/Roles/Plain.antt =====
-- The service of roles over the table alone, as if there were no cache (src/services/user_roles.rs),
-- and what it means that a state with a cache stands for a table.
use billing.Base.{
  Bool, ◌||◌, ℕ, ◌≡◌, sym, subst, not, Option, none, some, List, [], ◌∷◌, ◌++◌, any, find, keep_if,
  if◌then◌else◌, Result, ok, err, RepoError,
}
use billing.Acl.{Acl, BillingRole, Resource, write, allows, unauthorized_acl}
use billing.Roles.{
  same_key, UserRole, Cache, State, is_of, role_has_id, is_role, roles_of, is_in_scope,
}
use billing.Roles.Service.{Call, Answer, listed, one_role, all_roles}
use billing.Roles.Coherence.{IsCoherent, Distinct}

module _ {Json : Type 0} where
  -- The access control that the roles of the table give.
  abbrev pub plain_acl : Option ℕ → List (UserRole Json) → Acl (UserRole Json)
  plain_acl none rows = unauthorized_acl
  plain_acl (some u) rows = allows (is_in_scope u) (roles_of u rows)

  -- What the calls that change the table do, under an access control.
  unfoldable pub plain_create :
      Acl (UserRole Json)
      → (json_eq : Json → Json → Bool) → UserRole Json
      → List (UserRole Json)
      → Result RepoError (UserRole Json) × List (UserRole Json)
  unfolding same_key
  plain_create acl json_eq n rows =
      if acl Resource.user_roles write none
      then (if any (role_has_id n.id) rows || any (same_key json_eq n) rows
          then (err RepoError.constraints, rows)
          else (ok n, rows ++ n ∷ []))
      else (err RepoError.forbidden, rows)

  unfoldable pub plain_delete :
      Acl (UserRole Json)
      → ℕ
      → BillingRole
      → List (UserRole Json)
      → Result RepoError (UserRole Json) × List (UserRole Json)
  plain_delete acl u name rows = elim (find (is_role u name) rows) [
    | none ↦ (err RepoError.not_found, rows)
    | some r ↦
        if acl Resource.user_roles write (some r)
        then (ok r, keep_if (λ x. not (is_role u name x)) rows)
        else (err RepoError.forbidden, rows)
  ]

  unfoldable pub plain_delete_by_id :
      ℕ → List (UserRole Json) → Result RepoError (UserRole Json) × List (UserRole Json)
  plain_delete_by_id i rows = elim (find (role_has_id i) rows) [
    | none ↦ (err RepoError.not_found, rows)
    | some r ↦ (ok r, keep_if (λ x. not (role_has_id i x)) rows)
  ]

  -- What each call does to the table.
  unfoldable pub plain :
      (json_eq : Json → Json → Bool)
      → Call Json
      → List (UserRole Json)
      → Answer Json × List (UserRole Json)
  unfolding plain_create plain_delete plain_delete_by_id
  plain json_eq (Call.get_roles caller u) rows = (listed (roles_of u rows), rows)
  plain json_eq (Call.create_user_role caller n) rows =
      let (r, rows') = plain_create (plain_acl caller rows) json_eq n rows in (one_role r, rows')
  plain json_eq (Call.delete_user_role caller u name) rows =
      let (r, rows') = plain_delete (plain_acl caller rows) u name rows in (one_role r, rows')
  plain json_eq (Call.delete_user_role_by_user_id caller u) rows =
      (all_roles (keep_if (is_of u) rows), keep_if (λ x. not (is_of u x)) rows)
  plain json_eq (Call.delete_user_role_by_id caller i) rows =
      let (r, rows') = plain_delete_by_id i rows in (one_role r, rows')

  unfoldable pub plain_all :
      (json_eq : Json → Json → Bool)
      → List (Call Json)
      → List (UserRole Json)
      → List (Answer Json) × List (UserRole Json)
  unfolding plain
  plain_all json_eq [] rows = ([], rows)
  plain_all json_eq (call ∷ calls) rows =
      let (answer, rows') = plain json_eq call rows in
      let (answers, rows'') = plain_all json_eq calls rows' in (answer ∷ answers, rows'')

module _ {Json C CacheError : Type 0} (cache : Cache C CacheError) where
  -- The state stands for a table of that content.
  pub record Implements (rows : List (UserRole Json)) (s : State Json C) : Type 0 where
    pub same_rows : s.rows ≡ rows
    pub coherent : IsCoherent cache s
    pub distinct : Distinct rows

  -- What a call answers with and leaves is what the table alone gives.
  abbrev pub Agrees : {A : Type 0} → A × State Json C → A × List (UserRole Json) → Type 0
  Agrees got want = (got.0 ≡ want.0) × Implements want.1 got.1

  pub agrees :
      {A : Type 0} {got got' : A × State Json C} {want want' : A × List (UserRole Json)}
      → got ≡ got'
      → want ≡ want'
      → Agrees got' want'
      → Agrees got want
  agrees {got' = got'} {want = want} e f h =
      subst (λ x. Agrees x want) (sym e) (subst (λ x. Agrees got' x) (sym f) h)
