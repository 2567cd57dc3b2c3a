-- ===== src/Roles/Steps.antt =====
-- Each call of the repository of roles (src/repos/user_roles.rs) does to the table and to the cache in
-- line with it what the table alone asks for.
use billing.Base.{
  Bool, ◌||◌, false, ℕ, ◌≡◌, refl, ap, inl, inr, true, not, none, some, [], ◌∷◌, ◌++◌, any, find,
  keep_if, ==_iff, arith, Bool-cases, Option-cases, ok, err, RepoError,
}
use billing.Acl.{Acl, BillingRole, Resource, write}
use billing.Roles.{
  same_key, UserRole, Cache, State, is_of, role_has_id, is_role, remove, create, delete,
  delete_by_user_id, delete_by_id, in_transaction, commit,
}
use billing.Roles.Coherence.{
  IsSound, remove-IsCoherent, roles_of-append, roles_of-keep_if, Distinct-append, Distinct-keep_if,
  roles_of-delete,
}
use billing.Roles.Plain.{plain_create, plain_delete, plain_delete_by_id, Implements, Agrees, agrees}

neither : (a b : Bool) → (a || b) ≡ false → a ≡ false
neither false b h = refl
neither true b h = cc

module _ {Json C CacheError : Type 0} (cache : Cache C CacheError) (sound : IsSound cache) where
  -- Losing the entry of one user keeps the cache in line.
  forget-Implements :
      (u : ℕ) (s : State Json C)
      → Implements cache s.rows s
      → Implements cache s.rows (record s { cached = remove cache u s.cached })
  forget-Implements u s h = record {
    same_rows = refl;
    coherent = remove-IsCoherent cache sound u s.rows s (λ v apart. refl) h.coherent;
    distinct = h.distinct;
  }

  pub create-Agrees :
      (acl : Acl (UserRole Json)) (json_eq : Json → Json → Bool) (n : UserRole Json)
      (s : State Json C)
      → Implements cache s.rows s
      → Agrees cache
          (in_transaction cache (create cache acl json_eq n) s)
          (plain_create acl json_eq n s.rows)
  unfolding create in_transaction plain_create
  create-Agrees acl json_eq n s h =
      let create_of = create cache acl json_eq n s in
      let want = plain_create acl json_eq n s.rows in
      elim (Bool-cases (acl Resource.user_roles write none)) [
        | inr no_access ↦
            let step : create_of ≡ (err RepoError.forbidden, s) = rw (create, no_access) refl in
            let plainly : want ≡ (err RepoError.forbidden, s.rows) =
              rw (plain_create, no_access) refl in
            agrees cache (ap (commit cache s) step) plainly (refl, h)
        | inl access ↦
            elim (Bool-cases (any (role_has_id n.id) s.rows || any (same_key json_eq n) s.rows)) [
              | inl taken ↦
                  let step : create_of ≡ (
                    err RepoError.constraints,
                    record s { cached = remove cache n.user_id s.cached },
                  ) =
                    rw (create, access, taken) refl in
                  let plainly : want ≡ (err RepoError.constraints, s.rows) =
                    rw (plain_create, access, taken) refl in
                  agrees cache (ap (commit cache s) step) plainly
                    (refl, forget-Implements n.user_id s h)
              | inr fresh ↦
                  let step : create_of ≡ (
                    ok n,
                    record { rows = s.rows ++ n ∷ []; cached = remove cache n.user_id s.cached },
                  ) =
                    rw (create, access, fresh) refl in
                  let plainly : want ≡ (ok n, s.rows ++ n ∷ []) =
                    rw (plain_create, access, fresh) refl in
                  agrees cache (ap (commit cache s) step) plainly (
                    refl,
                    record {
                      same_rows = refl;
                      coherent =
                          remove-IsCoherent cache sound n.user_id (s.rows ++ n ∷ []) s
                            (roles_of-append n s.rows) h.coherent;
                      distinct =
                          Distinct-append s.rows n h.distinct
                            (neither (any (role_has_id n.id) s.rows) _ fresh);
                    },
                  )
            ]
      ]

  is_role-user :
      (u : ℕ) (name : BillingRole) (r : UserRole Json) → is_role u name r ≡ true → r.user_id ≡ u
  unfolding is_role
  is_role-user u name r e = ground arith

  pub delete-Agrees :
      (acl : Acl (UserRole Json)) (u : ℕ) (name : BillingRole) (s : State Json C)
      → Implements cache s.rows s
      → Agrees cache
          (in_transaction cache (delete cache acl u name) s)
          (plain_delete acl u name s.rows)
  unfolding delete in_transaction plain_delete
  delete-Agrees acl u name s h =
      let delete_of = delete cache acl u name s in
      let want = plain_delete acl u name s.rows in
      let cached = remove cache u s.cached in
      let rest = keep_if (λ x. not (is_role u name x)) s.rows in
      elim (Option-cases (find (is_role u name) s.rows)) [
        | inl missing ↦
            let step : delete_of ≡ (err RepoError.not_found, record s { cached = cached }) =
              rw (delete, missing) refl in
            let plainly : want ≡ (err RepoError.not_found, s.rows) =
              rw (plain_delete, missing) refl in
            agrees cache (ap (commit cache s) step) plainly (refl, forget-Implements u s h)
        | inr (r, here) ↦ elim (Bool-cases (acl Resource.user_roles write (some r))) [
          | inr no_access ↦
              let step : delete_of
                  ≡ (err RepoError.forbidden, record { rows = rest; cached = cached }) =
                rw (delete, here, no_access) refl in
              let plainly : want ≡ (err RepoError.forbidden, s.rows) =
                rw (plain_delete, here, no_access) refl in
              agrees cache (ap (commit cache s) step) plainly (refl, forget-Implements u s h)
          | inl access ↦
              let step : delete_of ≡ (ok r, record { rows = rest; cached = cached }) =
                rw (delete, here, access) refl in
              let plainly : want ≡ (ok r, rest) = rw (plain_delete, here, access) refl in
              agrees cache (ap (commit cache s) step) plainly (
                refl,
                record {
                  same_rows = refl;
                  coherent =
                      remove-IsCoherent cache sound u rest s
                        (λ v apart.
                          roles_of-keep_if u (is_role u name) s.rows v (is_role-user u name) apart)
                        h.coherent;
                  distinct = Distinct-keep_if (λ x. not (is_role u name x)) s.rows h.distinct;
                },
              )
        ]
      ]

  pub delete_by_user_id-Agrees :
      (u : ℕ) (s : State Json C)
      → Implements cache s.rows s
      → Agrees cache
          (delete_by_user_id cache u s)
          (keep_if (is_of u) s.rows, keep_if (λ x. not (is_of u x)) s.rows)
  unfolding delete_by_user_id
  delete_by_user_id-Agrees u s h = (
    refl,
    record {
      same_rows = refl;
      coherent =
          remove-IsCoherent cache sound u (keep_if (λ x. not (is_of u x)) s.rows) s
            (λ v apart.
              roles_of-keep_if u (is_of u) s.rows v (λ r e. (==_iff r.user_id u).0 e) apart)
            h.coherent;
      distinct = Distinct-keep_if (λ x. not (is_of u x)) s.rows h.distinct;
    },
  )

  pub delete_by_id-Agrees :
      (i : ℕ) (s : State Json C)
      → Implements cache s.rows s
      → Agrees cache (delete_by_id cache i s) (plain_delete_by_id i s.rows)
  unfolding delete_by_id plain_delete_by_id
  delete_by_id-Agrees i s h = elim (Option-cases (find (role_has_id i) s.rows)) [
    | inl missing ↦ rw (delete_by_id, plain_delete_by_id, missing) (refl, h)
    | inr (r, here) ↦
        let rest = keep_if (λ x. not (role_has_id i x)) s.rows in
        let step : delete_by_id cache i s
            ≡ (ok r, record { rows = rest; cached = remove cache r.user_id s.cached }) =
          rw (delete_by_id, here) refl in
        let plainly : plain_delete_by_id i s.rows ≡ (ok r, rest) =
          rw (plain_delete_by_id, here) refl in
        agrees cache step plainly (
          refl,
          record {
            same_rows = refl;
            coherent =
                remove-IsCoherent cache sound r.user_id rest s
                  (roles_of-delete i s.rows h.distinct here) h.coherent;
            distinct = Distinct-keep_if (λ x. not (role_has_id i x)) s.rows h.distinct;
          },
        )
  ]
