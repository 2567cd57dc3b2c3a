-- ===== src/Roles/Coherence.antt =====
-- What the cache of src/repos/acl/roles_cache.rs is relied on for, and that the repository of
-- src/repos/user_roles.rs keeps it in line with the table.
use billing.Base.{
  ℕ, ◌≡◌, ◌≢◌, refl, ap, sym, ◌∙◌, ◌⊎◌, inl, inr, Bool, true, false, not, some, List, [], ◌∷◌, ◌++◌,
  map, any, find, keep_if, ◌==◌, ==_iff, arith, Bool-cases, Option-cases,
}
use billing.Acl.{BillingRole}
use billing.Roles.{
  UserRole, Cache, State, is_of, role_has_id, name_of, roles_of, get, remove, set, list_for_user,
  is_empty,
}

-- A cache that loses entries as it likes, answers with nothing else than what was set, and does what
-- it is asked to remove.
pub record IsSound {C CacheError : Type 0} (cache : Cache C CacheError) : Type 0 where
  pub get-set :
      (u v : ℕ) (roles found : List BillingRole) (c : C)
      → get cache v (set cache u roles c) ≡ some found
      → ((v ≡ u) × (found ≡ roles)) ⊎ (get cache v c ≡ some found)
  pub get-remove :
      (u v : ℕ) (found : List BillingRole) (c : C)
      → get cache v (remove cache u c) ≡ some found
      → (v ≢ u) × (get cache v c ≡ some found)

module _ {Json C CacheError : Type 0} (cache : Cache C CacheError) where
  -- What the cache holds for a user are the user's roles in the table.
  abbrev pub IsCoherent : State Json C → Type 0
  IsCoherent s =
      (u : ℕ) (found : List BillingRole)
      → get cache u s.cached ≡ some found
      → found ≡ roles_of u s.rows

  pub list_for_user-roles_of :
      (u : ℕ) (s : State Json C) → IsCoherent s → (list_for_user cache u s).0 ≡ roles_of u s.rows
  unfolding list_for_user
  list_for_user-roles_of u s h = elim (Option-cases (get cache u s.cached)) [
    | inl missing ↦ rw (missing, list_for_user) refl
    | inr (found, e) ↦ rw (e, list_for_user) (h u found e)
  ]

  pub list_for_user-rows : (u : ℕ) (s : State Json C) → (list_for_user cache u s).1.rows ≡ s.rows
  unfolding list_for_user
  list_for_user-rows u s = elim (Option-cases (get cache u s.cached)) [
    | inl missing ↦ elim (Bool-cases (is_empty (roles_of u s.rows))) [
      | inl e ↦ rw (missing, list_for_user, e) refl
      | inr e ↦ rw (missing, list_for_user, e) refl
    ]
    | inr (found, e) ↦ rw (e, list_for_user) refl
  ]

  module _ (sound : IsSound cache) where
    set-IsCoherent :
        (u : ℕ) (s : State Json C)
        → IsCoherent s
        → IsCoherent (record s { cached = set cache u (roles_of u s.rows) s.cached })
    set-IsCoherent u s h v found e = elim (sound.get-set u v (roles_of u s.rows) found s.cached e) [
      | inl (same, it) ↦ it ∙ ap (λ x. roles_of x s.rows) (sym same)
      | inr before ↦ h v found before
    ]

    pub list_for_user-IsCoherent :
        (u : ℕ) (s : State Json C) → IsCoherent s → IsCoherent (list_for_user cache u s).1
    unfolding list_for_user
    list_for_user-IsCoherent u s h = elim (Option-cases (get cache u s.cached)) [
      | inl missing ↦ elim (Bool-cases (is_empty (roles_of u s.rows))) [
        | inl e ↦ rw (missing, list_for_user, e) h
        | inr e ↦ rw (missing, list_for_user, e) (set-IsCoherent u s h)
      ]
      | inr (found, e) ↦ rw (e, list_for_user) h
    ]

    -- A change of the rows of one user, after the user's entry has been removed from the cache.
    pub remove-IsCoherent :
        (u : ℕ) (rows : List (UserRole Json)) (s : State Json C)
        → ((v : ℕ) → v ≢ u → roles_of v rows ≡ roles_of v s.rows)
        → IsCoherent s
        → IsCoherent (record { rows = rows; cached = remove cache u s.cached })
    remove-IsCoherent u rows s others h v found e =
        let (apart, before) = sound.get-remove u v found s.cached e in
        h v found before ∙ sym (others v apart)

module _ {Json : Type 0} where
  pub roles_of-append :
      (n : UserRole Json) (rows : List (UserRole Json)) (v : ℕ)
      → v ≢ n.user_id
      → roles_of v (rows ++ n ∷ []) ≡ roles_of v rows
  unfolding roles_of
  roles_of-append n [] v d = ground arith
  roles_of-append n (r ∷ rows) v d = elim (Bool-cases (is_of v r)) [
    | inl e ↦ rw e (ap (λ x. r.name ∷ x) (roles_of-append n rows v d))
    | inr e ↦ rw e (roles_of-append n rows v d)
  ]

  -- Rows of other users stay.
  pub roles_of-keep_if :
      (u : ℕ) (p : UserRole Json → Bool) (rows : List (UserRole Json)) (v : ℕ)
      → ((r : UserRole Json) → p r ≡ true → r.user_id ≡ u)
      → v ≢ u
      → roles_of v (keep_if (λ r. not (p r)) rows) ≡ roles_of v rows
  unfolding roles_of
  roles_of-keep_if u p [] v h d = refl
  roles_of-keep_if u p (r ∷ rows) v h d = elim (Bool-cases (p r)) [
    | inl e ↦
        let other : is_of v r ≡ false = ground (arith, h r e) in
        rw (e, other) (roles_of-keep_if u p rows v h d)
    | inr e ↦ elim (Bool-cases (is_of v r)) [
      | inl mine ↦ rw (e, mine) (ap (λ x. r.name ∷ x) (roles_of-keep_if u p rows v h d))
      | inr other ↦ rw (e, other) (roles_of-keep_if u p rows v h d)
    ]
  ]

  -- The primary key: no two rows have one id.
  abbrev pub Distinct : List (UserRole Json) → Type 0
  Distinct [] = Unit
  Distinct (r ∷ rows) = (any (role_has_id r.id) rows ≡ false) × Distinct rows

  any-append_false :
      (i : ℕ) (rows : List (UserRole Json)) (n : UserRole Json)
      → any (role_has_id i) rows ≡ false
      → (n.id == i) ≡ false
      → any (role_has_id i) (rows ++ n ∷ []) ≡ false
  any-append_false i [] n h e = ground arith
  any-append_false i (r ∷ rows) n h e = ground (arith, any-append_false i rows n)

  pub Distinct-append :
      (rows : List (UserRole Json)) (n : UserRole Json)
      → Distinct rows
      → any (role_has_id n.id) rows ≡ false
      → Distinct (rows ++ n ∷ [])
  Distinct-append [] n h e = (refl, tt)
  Distinct-append (r ∷ rows) n h e =
      (any-append_false r.id rows n h.0 (ground arith), Distinct-append rows n h.1 (ground arith))

  any-keep_if :
      (i : ℕ) (p : UserRole Json → Bool) (rows : List (UserRole Json))
      → any (role_has_id i) rows ≡ false
      → any (role_has_id i) (keep_if p rows) ≡ false
  any-keep_if i p [] h = refl
  any-keep_if i p (r ∷ rows) h = ground (arith, any-keep_if i p rows)

  pub Distinct-keep_if :
      (p : UserRole Json → Bool) (rows : List (UserRole Json))
      → Distinct rows
      → Distinct (keep_if p rows)
  Distinct-keep_if p [] h = tt
  Distinct-keep_if p (r ∷ rows) h = elim (Bool-cases (p r)) [
    | inl e ↦ rw e (any-keep_if r.id p rows h.0, Distinct-keep_if p rows h.1)
    | inr e ↦ rw e (Distinct-keep_if p rows h.1)
  ]

  keep_if-absent :
      (i : ℕ) (rows : List (UserRole Json))
      → any (role_has_id i) rows ≡ false
      → keep_if (λ r. not (role_has_id i r)) rows ≡ rows
  keep_if-absent i [] h = refl
  keep_if-absent i (r ∷ rows) h = ground (arith, keep_if-absent i rows)

  -- The row of an id is of one user.
  pub roles_of-delete :
      (i : ℕ) (rows : List (UserRole Json)) {r : UserRole Json}
      → Distinct rows
      → find (role_has_id i) rows ≡ some r
      → (v : ℕ) → v ≢ r.user_id
      → roles_of v (keep_if (λ x. not (role_has_id i x)) rows) ≡ roles_of v rows
  unfolding roles_of
  roles_of-delete i [] h e v d = cc
  roles_of-delete i (x ∷ rows) {r} h e v d = elim (Bool-cases (x.id == i)) [
    | inl here ↦
        let same : some x ≡ some r = rw here at e in
        let equal : x ≡ r = cc in
        let key : x.id ≡ i = (==_iff x.id i).0 here in
        let gone : any (role_has_id i) rows ≡ false = ground arith in
        let other : is_of v x ≡ false = ground arith in
        rw (here, other) (ap (λ l. map name_of (keep_if (is_of v) l)) (keep_if-absent i rows gone))
    | inr later ↦
        let rest = roles_of-delete i rows h.1 (rw later at e) v d in
        elim (Bool-cases (is_of v x)) [
          | inl mine ↦ rw (later, mine) (ap (λ l. x.name ∷ l) rest)
          | inr other ↦ rw (later, other) rest
        ]
  ]
