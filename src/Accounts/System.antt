-- ===== src/Accounts/System.antt =====
-- The system accounts that `init_system_accounts` of src/services/accounts.rs creates.
use billing.Base.{
  ℕ, ◌≡◌, refl, subst, inl, inr, Bool, true, false, not, List, [], ◌∷◌, ◌++◌, map, All, any,
  keep_if, ◌==◌, arith, Result, ok, err, ServiceError, Bool-cases,
}
use billing.Acl.{system_acl}
use billing.Accounts.{Account, Tables, account_has_id, get_many}
use billing.Accounts.Service.{
  SystemAccount, of_system, PaymentsClient, World, create_account, create_system_accounts,
  init_system_accounts,
}
use billing.Accounts.Creation.{Created, create_account_outcomes}

-- An account of the id is in the table.
abbrev pub Exists : List Account → ℕ → Type 0
Exists rows i = any (account_has_id i) rows ≡ true

any-append_left :
    (i : ℕ) (rows : List Account) (a : Account) → Exists rows i → Exists (rows ++ a ∷ []) i
any-append_left i [] a h = cc
any-append_left i (x ∷ rows) a h = ground (arith, any-append_left i rows a)

any-last : (rows : List Account) (a : Account) (i : ℕ) → a.id ≡ i → Exists (rows ++ a ∷ []) i
any-last [] a i e = ground arith
any-last (x ∷ rows) a i e = ground (arith, any-last rows a i)

any-of_keep_if :
    (i : ℕ) (p : Account → Bool) (rows : List Account)
    → any (account_has_id i) (keep_if p rows) ≡ true
    → Exists rows i
any-of_keep_if i p [] h = cc
any-of_keep_if i p (x ∷ rows) h = ground (arith, any-of_keep_if i p rows)

module _ {OrderState : Type 0} where
  Created-Exists :
      {i : ℕ} {c : _} {b : Bool} {a : Account} {t t' : Tables OrderState}
      → Created i c b a t t'
      → Exists t'.accounts i
  Created-Exists {i} {c} {b} {a} {t} d = rw d.appended (any-last t.accounts a i d.id_same)

  Created-keeps :
      {i : ℕ} {c : _} {b : Bool} {a : Account} {t t' : Tables OrderState}
      → Created i c b a t t'
      → (j : ℕ) → Exists t.accounts j
      → Exists t'.accounts j
  Created-keeps {a = a} {t = t} d j h = rw d.appended (any-append_left j t.accounts a h)

-- The accounts that are there afterwards: those that were asked for, and those before.
abbrev Complete : List SystemAccount → (before after : List Account) → Type 0
Complete accounts before after =
    All (λ a. Exists after a.id) accounts × ((j : ℕ) → Exists before j → Exists after j)

All-of_keep_if :
    (existing after : List Account) (accounts : List SystemAccount)
    → ((j : ℕ) → Exists existing j → Exists after j)
    → All
        (λ (a : SystemAccount). Exists after a.id)
        (keep_if (λ a. not (any (λ x. x.id == a.id) existing)) accounts)
    → All (λ (a : SystemAccount). Exists after a.id) accounts
All-of_keep_if existing after [] kept h = tt
All-of_keep_if existing after (a ∷ accounts) kept h =
    elim (Bool-cases (any (account_has_id a.id) existing)) [
      | inl there ↦ (kept a.id there, All-of_keep_if existing after accounts kept (rw there at h))
      | inr new ↦
          let h' : Exists after a.id
              × All (λ (b : SystemAccount). Exists after b.id)
                  (keep_if (λ b. not (any (λ x. x.id == b.id) existing)) accounts) =
            rw new at h in
          (h'.0, All-of_keep_if existing after accounts kept h'.1)
    ]

module _ {OrderState G : Type 0} (client : PaymentsClient G) where
  create_system_accounts-Complete :
      (now : ℕ) (accounts : List SystemAccount) (w : World OrderState G)
      → (create_system_accounts client now accounts w).0 ≡ ok tt
      → Complete accounts w.tables.accounts
          (create_system_accounts client now accounts w).1.tables.accounts
  unfolding create_system_accounts
  create_system_accounts-Complete now [] w e = (tt, λ j h. h)
  create_system_accounts-Complete now (a ∷ accounts) w e =
      let name = of_system a.account_type a.currency in
      let w1 = (create_account client now a.id name a.currency false w).1 in
      elim (create_account_outcomes client now a.id name a.currency false w) [
        | inl (row, made, created) ↦
            let (rest, kept) =
              create_system_accounts-Complete now accounts w1
                (rw (made, create_system_accounts) at e) in
            let same : create_system_accounts client now accounts w1
                ≡ create_system_accounts client now (a ∷ accounts) w =
              rw (made, create_system_accounts) refl in
            subst
              (λ (x : Result ServiceError (Unit {0}) × World OrderState G).
                Complete (a ∷ accounts) w.tables.accounts x.1.tables.accounts)
              same
              (
                (kept a.id (Created-Exists created), rest),
                λ j h. kept j (Created-keeps created j h),
              )
        | inr (f, failed, removed) ↦
            let wrong : ◌≡◌ {A = Result ServiceError (Unit {0})} (err ServiceError.internal)
                (ok tt) =
              rw (failed, create_system_accounts) at e in
            cc
      ]

  -- If `init_system_accounts` succeeds, then every configured system account is in the table of
  -- accounts, and every account that was there before still is.
  pub init_system_accounts-Exists :
      (now : ℕ) (accounts : List SystemAccount) (w : World OrderState G)
      → (init_system_accounts client now accounts w).0 ≡ ok tt
      → let after = (init_system_accounts client now accounts w).1.tables.accounts in
        All (λ (a : SystemAccount). Exists after a.id) accounts
        × ((j : ℕ) → Exists w.tables.accounts j → Exists after j)
  unfolding init_system_accounts get_many system_acl
  init_system_accounts-Exists now accounts w e =
      let ids = map (λ (a : SystemAccount). a.id) accounts in
      let wanted = λ (a : Account). any (λ i. a.id == i) ids in
      let existing = keep_if wanted w.tables.accounts in
      let lacking =
        keep_if (λ (a : SystemAccount). not (any (λ x. x.id == a.id) existing)) accounts in
      let (made, kept) = create_system_accounts-Complete now lacking w e in
      (
        All-of_keep_if existing (init_system_accounts client now accounts w).1.tables.accounts
            accounts (λ j h. kept j (any-of_keep_if j wanted w.tables.accounts h)) made,
        kept,
      )
