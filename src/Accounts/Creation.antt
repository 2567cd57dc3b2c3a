-- ===== src/Accounts/Creation.antt =====
-- What `create_account` of src/services/accounts.rs leaves in the table of accounts.
use billing.Base.{
  ℕ, ◌≡◌, refl, ap, ◌⊎◌, inl, inr, Bool, false, not, [], ◌∷◌, ◌++◌, any, keep_if, ok, err, map_err,
  ServiceError, from_repo, RepoError, Bool-cases, Result-cases,
}
use billing.Currency.{TureCurrency}
use billing.Acl.{system_acl}
use billing.Accounts.{
  Account, NewAccount, Tables, account_has_id, new_account, create, delete, unlink_all,
}
use billing.Accounts.Service.{
  AccountName, PaymentsClient, World, create_account_happy, create_account_revert, create_account,
}

module _ {OrderState : Type 0} where
  -- The tables have one account more, and its id was free.
  pub record Created (i : ℕ) (c : TureCurrency) (is_pooled : Bool) (a : Account)
      (t t' : Tables OrderState) : Type 0 where
    pub is_free : any (account_has_id i) t.accounts ≡ false
    pub id_same : a.id ≡ i
    pub currency_same : a.currency ≡ c
    pub pooled_same : a.is_pooled ≡ is_pooled
    pub appended : t' ≡ record t { accounts = t.accounts ++ a ∷ [] }

  -- The tables have no account of the id any more, no invoice that names it, and are else the same.
  abbrev pub Removed : ℕ → (t t' : Tables OrderState) → Type 0
  Removed i t t' =
      (t'.accounts ≡ keep_if (λ a. not (account_has_id i a)) t.accounts)
      × (t'.invoices ≡ unlink_all i t.invoices)

module _ {OrderState G : Type 0} (client : PaymentsClient G) where
  -- The first attempt adds an account, or leaves the tables as they are.
  create_account_happy_outcomes :
      (now i : ℕ) (name : AccountName) (c : TureCurrency) (is_pooled : Bool)
      (w : World OrderState G)
      → let (r, w') = create_account_happy client now i name c is_pooled w in
        ((a : Account) × (r ≡ ok a) × Created i c is_pooled a w.tables w'.tables)
        ⊎ ((e : ServiceError) × (r ≡ err e) × (w'.tables ≡ w.tables))
  unfolding create_account_happy create new_account system_acl
  create_account_happy_outcomes now i name c is_pooled w =
      let asked = client.create_account (record { id = i; currency = c; name = name }) w.gateway in
      elim (Result-cases asked.0) [
        | inr (e, refused) ↦ rw (refused, create_account_happy) (inr (e, refl, refl))
        | inl (address, e) ↦ elim (Bool-cases (any (account_has_id i) w.tables.accounts)) [
          | inl taken ↦
              rw (e, create_account_happy, taken, create, map_err)
                (inr (from_repo RepoError.constraints, refl, refl))
          | inr free ↦
              let n : NewAccount = record {
                id = i;
                currency = c;
                is_pooled = is_pooled;
                wallet_address = address;
              } in
              rw (e, create_account_happy, free, create, map_err)
                (inl (
                  new_account now n,
                  refl,
                  record {
                    is_free = free;
                    id_same = refl;
                    currency_same = refl;
                    pooled_same = refl;
                    appended = refl;
                  },
                ))
        ]
      ]

  -- Either `create_account` succeeds, and the tables have one account more, of the id, the currency
  -- and the pool that were asked for, where no account had the id; or it fails, and what it leaves
  -- are the tables before it without the accounts of that id, which were there before the call, and
  -- with the invoices that named one of them unlinked.
  pub create_account_outcomes :
      (now i : ℕ) (name : AccountName) (c : TureCurrency) (is_pooled : Bool)
      (w : World OrderState G)
      → let (r, w') = create_account client now i name c is_pooled w in
        ((a : Account) × (r ≡ ok a) × Created i c is_pooled a w.tables w'.tables)
        ⊎ ((e : ServiceError) × (r ≡ err e) × Removed i w.tables w'.tables)
  unfolding create_account create_account_revert delete system_acl
  create_account_outcomes now i name c is_pooled w =
      elim (create_account_happy_outcomes now i name c is_pooled w) [
        | inl (a, e, created) ↦ rw (e, create_account) (inl (a, refl, created))
        | inr (f, e, same) ↦
            rw (e, create_account)
              (inr (
                f,
                refl,
                (
                  ap (λ (t : Tables OrderState). keep_if (λ a. not (account_has_id i a)) t.accounts)
                      same,
                  ap (λ (t : Tables OrderState). unlink_all i t.invoices) same,
                ),
              ))
      ]
