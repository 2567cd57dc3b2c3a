-- ===== src/Roles/Tests.antt =====
-- A cache that is a function, over the roles of three users (src/services/user_roles.rs).
use billing.Base.{
  ℕ, ◌≡◌, refl, inl, inr, true, Option, none, some, List, [], ◌∷◌, ◌==◌, ==_iff, if◌then◌else◌,
  arith, Bool-cases, ok, err, RepoError,
}
use billing.Acl.{BillingRole, superuser, user, store_manager}
use billing.Roles.{UserRole, Cache, State, get, set, remove, roles_of}
use billing.Roles.Service.{Call, listed, one_role, serve_all}
use billing.Roles.Coherence.{IsSound}
use billing.Roles.Plain.{Implements, Agrees, plain_all}
use billing.Roles.Refinement.{serve_all-plain_all}

abbrev Entries : Type 0
Entries = ℕ → Option (List BillingRole)

abbrev with_entry : ℕ → Option (List BillingRole) → Entries → Entries
with_entry u it c v = if v == u then it else c v

abbrev entries : Cache Entries ℕ
entries = record {
  get_key = λ u c. ok (c u);
  remove_key = λ u c. (ok true, with_entry u none c);
  set_key = λ u roles c. (ok tt, with_entry u (some roles) c);
}

entries-IsSound : IsSound entries
unfolding get set remove
entries-IsSound = record {
  get-set = λ u v roles found c h. elim (Bool-cases (v == u)) [
    | inl same ↦
        let it : ◌≡◌ {A = Option (List BillingRole)} (some roles) (some found) = rw same at h in
        inl ((==_iff v u).0 same, cc)
    | inr apart ↦ let it : c v ≡ some found = rw apart at h in inr it
  ];
  get-remove = λ u v found c h. elim (Bool-cases (v == u)) [
    | inl same ↦
        let wrong : ◌≡◌ {A = Option (List BillingRole)} none (some found) = rw same at h in cc
    | inr apart ↦ let it : c v ≡ some found = rw apart at h in (ground arith, it)
  ];
}

abbrev role : (i u : ℕ) → BillingRole → UserRole ℕ
role i u name = record { id = i; user_id = u; name = name; info = none }

abbrev manager_of_nine : UserRole ℕ
manager_of_nine = record { id = 6; user_id = 2; name = store_manager; info = some 9 }

abbrev rows : List (UserRole ℕ)
rows = role 1 1 superuser ∷ role 2 2 user ∷ []

abbrev state : State ℕ Entries
state = record { rows = rows; cached = λ u. none }

state-Implements : Implements entries rows state
unfolding get
state-Implements = record {
  same_rows = refl;
  coherent = λ u found h. cc;
  distinct = (refl, (refl, tt));
}

-- A superuser gives a role and takes it away; another user may not, and a deletion by id may be
-- asked for by anybody.
abbrev calls : List (Call ℕ)
calls =
    Call.get_roles (some 1) 2
    ∷ Call.create_user_role (some 1) (role 3 2 store_manager)
    ∷ Call.get_roles none 2
    ∷ Call.create_user_role (some 2) (role 4 2 superuser)
    ∷ Call.delete_user_role (some 1) 2 user
    ∷ Call.get_roles (some 2) 2
    ∷ Call.delete_user_role_by_id none 1
    ∷ Call.create_user_role (some 1) (role 5 2 superuser)
    ∷ []

-- A role with the same value is refused a second time.
taken_twice :
    (serve_all entries ◌==◌
      (Call.create_user_role (some 1) manager_of_nine
        ∷ Call.create_user_role (some 1) (record manager_of_nine { id = 7 })
        ∷ [])
      state).0
    ≡ one_role (ok manager_of_nine) ∷ one_role (err RepoError.constraints) ∷ []
unfolding serve_all billing.Acl.allows billing.Roles.is_in_scope billing.Roles.role_code
taken_twice = refl

served :
    (serve_all entries ◌==◌ calls state).0
    ≡ listed (user ∷ [])
      ∷ one_role (ok (role 3 2 store_manager))
      ∷ listed (user ∷ store_manager ∷ [])
      ∷ one_role (err RepoError.forbidden)
      ∷ one_role (ok (role 2 2 user))
      ∷ listed (store_manager ∷ [])
      ∷ one_role (ok (role 1 1 superuser))
      ∷ one_role (err RepoError.forbidden)
      ∷ []
unfolding serve_all billing.Acl.allows billing.Roles.is_in_scope
served = refl

serve_all-plain_all_example :
    Agrees entries (serve_all entries ◌==◌ calls state) (plain_all ◌==◌ calls rows)
serve_all-plain_all_example =
    serve_all-plain_all entries entries-IsSound ◌==◌ calls rows state state-Implements
