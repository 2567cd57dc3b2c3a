-- ===== src/Accounts/Pools.antt =====
-- The pools of accounts that `init_account_pools` of src/services/accounts.rs fills.
use billing.Base.{
  ℕ, zero, suc, ◌+◌, ◌≡◌, refl, ◌∙◌, inl, inr, Bool, true, false, List, [], ◌∷◌, ◌++◌, map, leb,
  arith, if◌then◌else◌, Result, ok, err, ServiceError, Result-cases,
}
use billing.Currency.{TureCurrency}
use billing.Acl.{system_acl}
use billing.Accounts.{Account, Tables, ture_eq, counts, count_of, count, ture_currencies}
use billing.Accounts.Service.{
  of_id, PaymentsClient, World, create_account, create_pooled, fill_pools, missing,
  init_account_pools,
}
use billing.Accounts.Creation.{Created, create_account_outcomes}

count_of-append :
    (c : TureCurrency) (pooled : Bool) (rows : List Account) (a : Account)
    → count_of c pooled (rows ++ a ∷ []) ≡ count_of c pooled rows + count_of c pooled (a ∷ [])
unfolding count_of
count_of-append c pooled [] a = omega arith
count_of-append c pooled (x ∷ rows) a = ground (arith, count_of-append c pooled rows a)

-- The currencies' test.
abbrev one_if : Bool → ℕ
one_if b = if b then 1 else 0

module _ {OrderState : Type 0} where
  Created-count :
      (c c' : TureCurrency) (i : ℕ) (a : Account) (t t' : Tables OrderState)
      → Created i c true a t t'
      → (count_of c' true t'.accounts ≡ count_of c' true t.accounts + one_if (ture_eq c c'))
        × (count_of c' false t'.accounts ≡ count_of c' false t.accounts)
  unfolding count_of counts
  Created-count c c' i a t t' d = rw d.appended (
    count_of-append c' true t.accounts a ∙ rw (d.currency_same, d.pooled_same) (ground arith),
    count_of-append c' false t.accounts a ∙ rw (d.currency_same, d.pooled_same) (ground arith),
  )

-- What a list of counts lacks for a currency.
abbrev lacking : (wanted : ℕ) → TureCurrency → List (TureCurrency × ℕ) → ℕ
lacking wanted c' [] = 0
lacking wanted c' ((c, n) ∷ counted) =
    (if ture_eq c c' then missing wanted n else 0) + lacking wanted c' counted

-- The counts that `init_account_pools` goes by.
abbrev counted_pools : List Account → List (TureCurrency × ℕ)
counted_pools rows = map (λ c. (c, count_of c true rows)) ture_currencies

module _ {OrderState G : Type 0} (client : PaymentsClient G) where
  create_pooled-counts :
      (now : ℕ) (fresh : ℕ → ℕ) (c c' : TureCurrency) (n : ℕ) (w : World OrderState G)
      → (create_pooled client now fresh c n w).0 ≡ ok tt
      → let w' = (create_pooled client now fresh c n w).1 in
        (count_of c' true w'.tables.accounts
          ≡ count_of c' true w.tables.accounts + (if ture_eq c c' then n else 0))
        × (count_of c' false w'.tables.accounts ≡ count_of c' false w.tables.accounts)
  unfolding create_pooled
  create_pooled-counts now fresh c c' zero w e = ground arith
  create_pooled-counts now fresh c c' (suc n) w e =
      elim (create_account_outcomes client now (fresh n) (of_id (fresh n)) c true w) [
        | inl (a, made, created) ↦
            let w1 = (create_account client now (fresh n) (of_id (fresh n)) c true w).1 in
            let one = Created-count c c' (fresh n) a w.tables w1.tables created in
            let rest = create_pooled-counts now fresh c c' n w1 (rw (made, create_pooled) at e) in
            rw (made, create_pooled) (ground arith)
        | inr (f, failed, removed) ↦
            let wrong : ◌≡◌ {A = Result ServiceError (Unit {0})} (err ServiceError.internal)
                (ok tt) =
              rw (failed, create_pooled) at e in
            cc
      ]

  fill_pools-counts :
      (now : ℕ) (fresh : TureCurrency → ℕ → ℕ) (wanted : ℕ) (c' : TureCurrency)
      (counted : List (TureCurrency × ℕ)) (w : World OrderState G)
      → (fill_pools client now fresh wanted counted w).0 ≡ ok tt
      → let w' = (fill_pools client now fresh wanted counted w).1 in
        (count_of c' true w'.tables.accounts
          ≡ count_of c' true w.tables.accounts + lacking wanted c' counted)
        × (count_of c' false w'.tables.accounts ≡ count_of c' false w.tables.accounts)
  unfolding fill_pools
  fill_pools-counts now fresh wanted c' [] w e = (omega arith, refl)
  fill_pools-counts now fresh wanted c' ((c, n) ∷ counted) w e =
      let w1 = (create_pooled client now (fresh c) c (missing wanted n) w).1 in
      elim (Result-cases (create_pooled client now (fresh c) c (missing wanted n) w).0) [
        | inl (_, done) ↦
            let one = create_pooled-counts now (fresh c) c c' (missing wanted n) w done in
            let rest =
              fill_pools-counts now fresh wanted c' counted w1 (rw (done, fill_pools) at e) in
            rw (done, fill_pools) (omega (arith, one.0, one.1, rest.0, rest.1))
        | inr (f, failed) ↦
            let wrong : ◌≡◌ {A = Result ServiceError (Unit {0})} (err f) (ok tt) =
              rw (failed, fill_pools) at e in
            cc
      ]

  -- If `init_account_pools` succeeds, then each cryptocurrency has as many pooled accounts as the
  -- configured minimum, or as many as before where that was more, and as many accounts outside of
  -- the pools as before.
  pub init_account_pools-count :
      (now : ℕ) (fresh : TureCurrency → ℕ → ℕ) (wanted : ℕ) (c : TureCurrency)
      (w : World OrderState G)
      → (init_account_pools client now fresh wanted w).0 ≡ ok tt
      → let before = w.tables.accounts in
        let after = (init_account_pools client now fresh wanted w).1.tables.accounts in
        (count_of c true after
          ≡ (if leb wanted (count_of c true before) then count_of c true before else wanted))
        × (count_of c false after ≡ count_of c false before)
  unfolding init_account_pools count missing ture_eq system_acl
  init_account_pools-count now fresh wanted TureCurrency.eth w e =
      let counted = counted_pools w.tables.accounts in
      let h = fill_pools-counts now fresh wanted TureCurrency.eth counted w e in ground arith
  init_account_pools-count now fresh wanted TureCurrency.stq w e =
      let counted = counted_pools w.tables.accounts in
      let h = fill_pools-counts now fresh wanted TureCurrency.stq counted w e in ground arith
  init_account_pools-count now fresh wanted TureCurrency.btc w e =
      let counted = counted_pools w.tables.accounts in
      let h = fill_pools-counts now fresh wanted TureCurrency.btc counted w e in ground arith
