-- ===== src/Roles/Refinement.antt =====
-- The service of roles with its cache (src/services/user_roles.rs) implements the service over the table
-- alone.
use billing.Base.{
  Bool, ℕ, ◌≡◌, refl, ap, sym, ◌∙◌, subst, not, Option, none, some, List, [], ◌∷◌, keep_if,
}
use billing.Acl.{Acl, allows}
use billing.Roles.{
  UserRole, Cache, State, is_of, roles_of, is_in_scope, create, delete, delete_by_user_id,
  delete_by_id, in_transaction, get_acl,
}
use billing.Roles.Service.{Call, Answer, listed, one_role, all_roles, serve, serve_all}
use billing.Roles.Coherence.{
  IsSound, IsCoherent, list_for_user-roles_of, list_for_user-rows, list_for_user-IsCoherent,
  Distinct,
}
use billing.Roles.Plain.{
  plain_acl, plain_create, plain_delete, plain_delete_by_id, plain, plain_all, Implements, Agrees,
}
use billing.Roles.Steps.{
  create-Agrees, delete-Agrees, delete_by_user_id-Agrees, delete_by_id-Agrees,
}

module _ {Json C CacheError : Type 0} (cache : Cache C CacheError) (sound : IsSound cache) where
  get_acl-Implements :
      (caller : Option ℕ) (s : State Json C)
      → IsCoherent cache s
      → ((get_acl cache (is_in_scope {Json = Json}) caller s).0 ≡ plain_acl caller s.rows)
        × ((get_acl cache (is_in_scope {Json = Json}) caller s).1.rows ≡ s.rows)
        × IsCoherent cache (get_acl cache (is_in_scope {Json = Json}) caller s).1
  unfolding get_acl
  get_acl-Implements none s h = (refl, refl, h)
  get_acl-Implements (some u) s h = (
    ap (allows (is_in_scope u)) (list_for_user-roles_of cache u s h),
    list_for_user-rows cache u s,
    list_for_user-IsCoherent cache sound u s h,
  )

  -- The state after the access control of a caller is read.
  entered :
      (caller : Option ℕ) (s : State Json C)
      → Implements cache s.rows s
      → Implements cache s.rows (get_acl cache (is_in_scope {Json = Json}) caller s).1
  entered caller s h =
      let (acl_of, same, kept) = get_acl-Implements caller s h.coherent in
      record { same_rows = same; coherent = kept; distinct = h.distinct }

  -- A statement about the state's own rows is one about a table that the state implements.
  at_rows :
      (Holds : List (UserRole Json) → Type 0) (rows : List (UserRole Json)) (s : State Json C)
      → Implements cache rows s
      → (Implements cache s.rows s → Holds s.rows)
      → Holds rows
  at_rows Holds rows s h own =
      let it : Implements cache s.rows s = record {
        same_rows = refl;
        coherent = h.coherent;
        distinct = subst Distinct (sym h.same_rows) h.distinct;
      } in
      subst Holds h.same_rows (own it)

  -- What agrees after the access control is read agrees with the table before it.
  after :
      {A : Type 0} (caller : Option ℕ) (s : State Json C)
      → Implements cache s.rows s
      → (step : Acl (UserRole Json) → List (UserRole Json) → A × List (UserRole Json))
      → (got : A × State Json C)
      → (let (acl, s1) = get_acl cache (is_in_scope {Json = Json}) caller s in
          Implements cache s1.rows s1 → Agrees cache got (step acl s1.rows))
      → Agrees cache got (step (plain_acl caller s.rows) s.rows)
  after caller s h step got agree =
      let (acl, s1) = get_acl cache (is_in_scope {Json = Json}) caller s in
      let (acl_of, same, kept) = get_acl-Implements caller s h.coherent in
      let own : Implements cache s1.rows s1 = record {
        same_rows = refl;
        coherent = kept;
        distinct = subst Distinct (sym same) h.distinct;
      } in
      subst (λ a. Agrees cache got (step a s.rows)) acl_of
        (subst (λ rows. Agrees cache got (step acl rows)) same (agree own))

  answered :
      {A : Type 0} (answer : A → Answer Json) {got : A × State Json C}
      {want : A × List (UserRole Json)}
      → Agrees cache got want
      → Agrees cache (answer got.0, got.1) (answer want.0, want.1)
  answered answer h = (ap answer h.0, h.1)

  serve-Agrees :
      (json_eq : Json → Json → Bool) (call : Call Json) (s : State Json C)
      → Implements cache s.rows s
      → Agrees cache (serve cache json_eq call s) (plain json_eq call s.rows)
  unfolding serve plain
  serve-Agrees json_eq (Call.get_roles caller u) s h =
      let s1 = (get_acl cache (is_in_scope {Json = Json}) caller s).1 in
      let it = entered caller s h in
      (
        ap listed (list_for_user-roles_of cache u s1 it.coherent ∙ ap (roles_of u) it.same_rows),
        record {
          same_rows = list_for_user-rows cache u s1 ∙ it.same_rows;
          coherent = list_for_user-IsCoherent cache sound u s1 it.coherent;
          distinct = h.distinct;
        },
      )
  serve-Agrees json_eq (Call.create_user_role caller n) s h =
      let (acl, s1) = get_acl cache is_in_scope caller s in
      answered one_role (
        after caller s h (λ a rows. plain_create a json_eq n rows)
          (in_transaction cache (create cache acl json_eq n) s1)
          (create-Agrees cache sound acl json_eq n s1))
  serve-Agrees json_eq (Call.delete_user_role caller u name) s h =
      let (acl, s1) = get_acl cache is_in_scope caller s in
      answered one_role (
        after caller s h (λ a rows. plain_delete a u name rows)
          (in_transaction cache (delete cache acl u name) s1)
          (delete-Agrees cache sound acl u name s1))
  serve-Agrees json_eq (Call.delete_user_role_by_user_id caller u) s h =
      let (acl, s1) = get_acl cache (is_in_scope {Json = Json}) caller s in
      answered all_roles (
        after caller s h (λ a rows. (keep_if (is_of u) rows, keep_if (λ x. not (is_of u x)) rows))
          (delete_by_user_id cache u s1) (delete_by_user_id-Agrees cache sound u s1))
  serve-Agrees json_eq (Call.delete_user_role_by_id caller i) s h =
      let (acl, s1) = get_acl cache (is_in_scope {Json = Json}) caller s in
      answered one_role (
        after caller s h (λ a rows. plain_delete_by_id i rows) (delete_by_id cache i s1)
          (delete_by_id-Agrees cache sound i s1))

  -- If the cache is sound (it may lose entries, but answers with nothing else than what was last
  -- set and not removed), what it holds for each user are the user's roles in the table, and no two
  -- rows of the table have one id, then any sequence of calls of the service, a listing, a creation
  -- or one of the three deletions, is answered as if there were no cache, access control included;
  -- and afterwards the table is the one without a cache and these conditions hold again.
  pub serve_all-plain_all :
      (json_eq : Json → Json → Bool) (calls : List (Call Json)) (rows : List (UserRole Json))
      (s : State Json C)
      → Implements cache rows s
      → Agrees cache (serve_all cache json_eq calls s) (plain_all json_eq calls rows)
  unfolding serve_all plain_all
  serve_all-plain_all json_eq [] rows s h = (refl, h)
  serve_all-plain_all json_eq (call ∷ calls) rows s h =
      let one : Agrees cache (serve cache json_eq call s) (plain json_eq call rows) =
        at_rows (λ x. Agrees cache (serve cache json_eq call s) (plain json_eq call x)) rows s h
          (serve-Agrees json_eq call s) in
      let rest =
        serve_all-plain_all json_eq calls (plain json_eq call rows).1 (serve cache json_eq call s).1
          one.1 in
      (cc (one.0, rest.0), rest.1)
