-- ===== src/Accounts/Tests.antt =====
-- Accounts at a small database and a small gateway.
use billing.Base.{
  ℕ, ◌+◌, ◌≡◌, refl, ◌⊎◌, Bool, true, false, none, some, List, [], ◌∷◌, All, any, ok, err,
  ServiceError, if◌then◌else◌, leb, ◌==◌,
}
use billing.Currency.{Currency, TureCurrency}
use billing.Invoices.{RawInvoice}
use billing.Accounts.{Account, count_of}
use billing.Accounts.Service.{
  SystemAccount, system_accounts, of_id, PaymentsClient, World, create_account, init_account_pools,
  init_system_accounts, get_or_create_free_pooled_account, get_main_account,
}
use billing.Accounts.Creation.{Created, Removed, create_account_outcomes}
use billing.Accounts.Pools.{init_account_pools-count}
use billing.Accounts.System.{Exists, init_system_accounts-Exists}

-- The gateway knows some ids, and refuses an id that it knows.
abbrev client : PaymentsClient (List ℕ)
client = record {
  create_account = λ a g.
      if any (λ i. i == a.id) g
      then (err ServiceError.internal, g)
      else (ok (1000 + a.id), a.id ∷ g);
  delete_account = λ i g. g;
  get_balance = λ i g. if any (λ j. j == i) g then some 5 else none;
}

abbrev account : ℕ → TureCurrency → Bool → Account
account i c pooled = record {
  id = i;
  currency = c;
  is_pooled = pooled;
  created_at = 1;
  wallet_address = 1000 + i;
}

abbrev invoice : RawInvoice ℕ
invoice = record {
  id = 90;
  account_id = some 2;
  buyer_currency = Currency.stq;
  amount_captured = 0;
  final_amount_paid = none;
  final_cashback_amount = none;
  paid_at = none;
  created_at = 1;
  buyer_user_id = 7;
  status = 0;
}

abbrev world : World ℕ (List ℕ)
world = record {
  tables = record {
    accounts = account 1 TureCurrency.stq false ∷ account 2 TureCurrency.stq true ∷ [];
    invoices = invoice ∷ [];
  };
  gateway = 1 ∷ 2 ∷ [];
}

abbrev fresh : TureCurrency → ℕ → ℕ
fresh TureCurrency.eth n = 100 + n
fresh TureCurrency.stq n = 200 + n
fresh TureCurrency.btc n = 300 + n

pools_filled : (init_account_pools client 9 fresh 3 world).0 ≡ ok tt
unfolding init_account_pools
pools_filled = refl

init_account_pools-count_example :
    (count_of TureCurrency.stq true (init_account_pools client 9 fresh 3 world).1.tables.accounts
      ≡ (if leb 3 (count_of TureCurrency.stq true world.tables.accounts)
          then count_of TureCurrency.stq true world.tables.accounts
          else 3))
    × (count_of TureCurrency.stq false (init_account_pools client 9 fresh 3 world).1.tables.accounts
        ≡ count_of TureCurrency.stq false world.tables.accounts)
init_account_pools-count_example =
    init_account_pools-count client 9 fresh 3 TureCurrency.stq world pools_filled

-- The creation of an account that exists fails, and deletes it.
create_account_outcomes_example :
    let (r, w') = create_account client 9 2 (of_id 2) TureCurrency.stq true world in
    ((a : Account) × (r ≡ ok a) × Created 2 TureCurrency.stq true a world.tables w'.tables)
    ⊎ ((e : ServiceError) × (r ≡ err e) × Removed 2 world.tables w'.tables)
create_account_outcomes_example =
    create_account_outcomes client 9 2 (of_id 2) TureCurrency.stq true world

existing_deleted :
    (create_account client 9 2 (of_id 2) TureCurrency.stq true world).1.tables.accounts
    ≡ account 1 TureCurrency.stq false ∷ []
unfolding create_account
existing_deleted = refl

abbrev configured : List SystemAccount
configured = system_accounts 1 10 11 12

system_made : (init_system_accounts client 9 (system_accounts 1 10 11 12) world).0 ≡ ok tt
unfolding init_system_accounts system_accounts
system_made = refl

init_system_accounts-Exists_example :
    let after =
      (init_system_accounts client 9 (system_accounts 1 10 11 12) world).1.tables.accounts in
    All (λ (a : SystemAccount). Exists after a.id) (system_accounts 1 10 11 12)
    × ((j : ℕ) → Exists world.tables.accounts j → Exists after j)
init_system_accounts-Exists_example =
    init_system_accounts-Exists client 9 (system_accounts 1 10 11 12) world system_made

-- The one pooled account is taken by an invoice, so that another is created.
free_created :
    (get_or_create_free_pooled_account client 9 50 TureCurrency.stq world).0
    ≡ ok (record (account 50 TureCurrency.stq true) { created_at = 9 })
unfolding get_or_create_free_pooled_account
free_created = refl

main_balance :
    get_main_account client (system_accounts 1 10 11 12) TureCurrency.stq world
    ≡ ok (record { account = account 1 TureCurrency.stq false; balance = 5 })
unfolding get_main_account system_accounts
main_balance = refl
