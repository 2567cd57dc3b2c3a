-- ===== src/Accounts/Service.antt =====
-- The service of accounts (src/services/accounts.rs) and the system accounts that it is configured
-- with (src/models/account.rs). The payments gateway is an outside service: a state of its own and
-- its answers. Generated ids are arguments.
use billing.Base.{
  ℕ, zero, suc, ◌-◌, Bool, true, false, ◌&&◌, not, Option, none, some, List, [], ◌∷◌, map, any,
  find, keep_if, ◌==◌, leb, if◌then◌else◌, Result, ok, err, ok_or, map_err, ServiceError, from_repo,
  ◌>>=◌,
}
use billing.Currency.{TureCurrency}
use billing.Acl.{system_acl}
use billing.Accounts.{
  Account, NewAccount, Tables, ture_eq, count, get, get_many, get_free_account, create, delete,
}

-- `SystemAccountType`
pub data SystemAccountType : Type 0 where
  main cashback : SystemAccountType

-- `SystemAccount`
pub record SystemAccount : Type 0 where
  pub id : ℕ
  pub currency : TureCurrency
  pub account_type : SystemAccountType

-- The derived `PartialEq` of `SystemAccountType`.
unfoldable pub type_eq : SystemAccountType → SystemAccountType → Bool
type_eq main main = true
type_eq cashback cashback = true
type_eq _ _ = false

-- `SystemAccounts::get`
unfoldable pub get_system_account : TureCurrency → SystemAccountType → List SystemAccount → Option ℕ
unfolding ture_eq type_eq
get_system_account c t accounts =
    elim (find (λ a. ture_eq a.currency c && type_eq a.account_type t) accounts) [
      | none ↦ none
      | some a ↦ some a.id
    ]

-- `impl From<config::Accounts> for SystemAccounts`
unfoldable pub system_accounts : (main_stq main_eth main_btc cashback_stq : ℕ) → List SystemAccount
system_accounts main_stq main_eth main_btc cashback_stq =
    record { id = main_stq; currency = TureCurrency.stq; account_type = main }
    ∷ record { id = main_eth; currency = TureCurrency.eth; account_type = main }
    ∷ record { id = main_btc; currency = TureCurrency.btc; account_type = main }
    ∷ record { id = cashback_stq; currency = TureCurrency.stq; account_type = cashback }
    ∷ []

-- The name of an account at the gateway: its id, or what kind of system account it is.
pub data AccountName : Type 0 where
  of_id : ℕ → AccountName
  of_system : SystemAccountType → TureCurrency → AccountName

-- `CreateAccount`, without the callback's address and the limit, which are the same for each.
pub record CreateAccount : Type 0 where
  pub id : ℕ
  pub currency : TureCurrency
  pub name : AccountName

-- `PaymentsClient`, as far as accounts use it, over the gateway's own state. A created account is
-- answered by its wallet's address.
pub record PaymentsClient (G : Type 0) : Type 0 where
  pub create_account : CreateAccount → G → Result ServiceError ℕ × G
  pub delete_account : ℕ → G → G
  pub get_balance : ℕ → G → Option ℕ

-- The database and the gateway.
pub record World (OrderState G : Type 0) : Type 0 where
  pub tables : Tables OrderState
  pub gateway : G

-- `AccountWithBalance`
pub record AccountWithBalance : Type 0 where
  pub account : Account
  pub balance : ℕ

-- `checked_sub` and the filter on what is left: how many accounts a currency lacks.
unfoldable pub missing : (min_accounts_in_pool existing : ℕ) → ℕ
missing wanted existing = if leb existing wanted then wanted - existing else 0

module _ {OrderState G : Type 0} (client : PaymentsClient G) where
  -- `create_account_happy`
  unfoldable pub create_account_happy :
      (now id : ℕ)
      → AccountName
      → TureCurrency
      → (is_pooled : Bool) → World OrderState G
      → Result ServiceError Account × World OrderState G
  unfolding create system_acl
  create_account_happy now i name c is_pooled w =
      let (answer, g) =
        client.create_account (record { id = i; currency = c; name = name }) w.gateway in
      elim answer [
        | err e ↦ (err e, record w { gateway = g })
        | ok address ↦
            let n : NewAccount = record {
              id = i;
              currency = c;
              is_pooled = is_pooled;
              wallet_address = address;
            } in
            let (r, t) = create system_acl now n w.tables in
            (map_err from_repo r, record { tables = t; gateway = g })
      ]

  -- `create_account_revert`: both deletions are tried and their answers ignored.
  unfoldable pub create_account_revert : ℕ → World OrderState G → World OrderState G
  unfolding delete system_acl
  create_account_revert i w = record {
    tables = (delete system_acl i w.tables).1;
    gateway = client.delete_account i w.gateway;
  }

  -- `create_account`
  unfoldable pub create_account :
      (now id : ℕ)
      → AccountName
      → TureCurrency
      → (is_pooled : Bool) → World OrderState G
      → Result ServiceError Account × World OrderState G
  unfolding create_account_happy create_account_revert
  create_account now i name c is_pooled w =
      let (r, w') = create_account_happy now i name c is_pooled w in
      elim r [ ok a ↦ (ok a, w') | err e ↦ (err e, create_account_revert i w') ]

  -- `get_account`; every failure is an internal error.
  unfoldable pub get_account : ℕ → World OrderState G → Result ServiceError AccountWithBalance
  unfolding get system_acl
  get_account i w = map_err (λ e. ServiceError.internal) (get system_acl i w.tables) >>= λ found.
      ok_or found ServiceError.internal >>= λ account.
      ok_or (client.get_balance i w.gateway) ServiceError.internal >>= λ balance.
      ok (record { account = account; balance = balance })

  -- `get_main_account`
  unfoldable pub get_main_account :
      List SystemAccount
      → TureCurrency
      → World OrderState G
      → Result ServiceError AccountWithBalance
  unfolding get_system_account get_account
  get_main_account accounts c w =
      ok_or (get_system_account c main accounts) ServiceError.internal >>= λ i. get_account i w

  -- `get_stq_cashback_account`
  unfoldable pub get_stq_cashback_account :
      List SystemAccount → World OrderState G → Result ServiceError AccountWithBalance
  unfolding get_system_account get_account
  get_stq_cashback_account accounts w =
      ok_or (get_system_account TureCurrency.stq cashback accounts) ServiceError.internal >>= λ i.
      get_account i w

  -- `get_or_create_free_pooled_account`
  unfoldable pub get_or_create_free_pooled_account :
      (now new_id : ℕ)
      → TureCurrency
      → World OrderState G
      → Result ServiceError Account × World OrderState G
  unfolding get_free_account create_account system_acl
  get_or_create_free_pooled_account now new_id c w = elim (get_free_account system_acl c w.tables) [
    | err e ↦ (err ServiceError.internal, w)
    | ok (some a) ↦ (ok a, w)
    | ok none ↦ create_account now new_id (of_id new_id) c true w
  ]

  -- The fold of `init_system_accounts`: the first failure ends it, as an internal error.
  unfoldable pub create_system_accounts :
      (now : ℕ)
      → List SystemAccount
      → World OrderState G
      → Result ServiceError (Unit {0}) × World OrderState G
  unfolding create_account
  create_system_accounts now [] w = (ok tt, w)
  create_system_accounts now (a ∷ accounts) w =
      let (r, w') =
        create_account now a.id (of_system a.account_type a.currency) a.currency false w in
      let rest = create_system_accounts now accounts w' in
      elim r [ err e ↦ (err ServiceError.internal, w') | ok _ ↦ rest ]

  -- `init_system_accounts`
  unfoldable pub init_system_accounts :
      (now : ℕ)
      → List SystemAccount
      → World OrderState G
      → Result ServiceError (Unit {0}) × World OrderState G
  unfolding create_system_accounts get_many system_acl
  init_system_accounts now accounts w =
      elim (get_many system_acl (map (λ a. a.id) accounts) w.tables) [
        | err e ↦ (err (from_repo e), w)
        | ok existing ↦
            create_system_accounts now
              (keep_if (λ a. not (any (λ x. x.id == a.id) existing)) accounts) w
      ]

  -- The accounts that one currency lacks; `fresh` generates the ids.
  unfoldable pub create_pooled :
      (now : ℕ)
      → (fresh : ℕ → ℕ) → TureCurrency
      → ℕ
      → World OrderState G
      → Result ServiceError (Unit {0}) × World OrderState G
  unfolding create_account
  create_pooled now fresh c zero w = (ok tt, w)
  create_pooled now fresh c (suc n) w =
      let (r, w') = create_account now (fresh n) (of_id (fresh n)) c true w in
      let rest = create_pooled now fresh c n w' in
      elim r [ err e ↦ (err ServiceError.internal, w') | ok _ ↦ rest ]

  -- The fold of `init_account_pools` over the currencies.
  unfoldable pub fill_pools :
      (now : ℕ)
      → (fresh : TureCurrency → ℕ → ℕ) → (min_accounts_in_pool : ℕ) → List (TureCurrency × ℕ)
      → World OrderState G
      → Result ServiceError (Unit {0}) × World OrderState G
  unfolding create_pooled missing
  fill_pools now fresh wanted [] w = (ok tt, w)
  fill_pools now fresh wanted ((c, existing) ∷ counts) w =
      let (r, w') = create_pooled now (fresh c) c (missing wanted existing) w in
      let rest = fill_pools now fresh wanted counts w' in
      elim r [ err e ↦ (err e, w') | ok _ ↦ rest ]

  -- `init_account_pools`
  unfoldable pub init_account_pools :
      (now : ℕ)
      → (fresh : TureCurrency → ℕ → ℕ) → (min_accounts_in_pool : ℕ) → World OrderState G
      → Result ServiceError (Unit {0}) × World OrderState G
  unfolding fill_pools count system_acl
  init_account_pools now fresh wanted w = elim (count system_acl w.tables) [
    | err e ↦ (err (from_repo e), w)
    | ok counted ↦ fill_pools now fresh wanted counted.pooled w
  ]
