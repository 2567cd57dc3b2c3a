-- ===== src/Subscriptions/Stores.antt =====
-- The subscriptions of stores: the rows (src/models/subscription.rs), the repository over the table
-- `store_subscription` (src/repos/store_subscription.rs) and the service (src/services/store_subscription.rs).
-- The times of creation and update are left to the database and are not kept.
use billing.Base.{
  ℕ, ◌^◌, Bool, true, false, ◌||◌, not, Option, none, some, is_some, List, [], ◌∷◌, ◌++◌, any, find,
  update_if, ◌==◌, if◌then◌else◌, Result, ok, err, ok_or, map_err, RepoError, ServiceError,
  from_repo, ◌>>=◌, ◌>>◌,
}
use billing.Currency.{Currency, currency_eq}
use billing.Acl.{Acl, Resource, read, write, check}

-- `StoreSubscriptionStatus`
pub data StoreSubscriptionStatus : Type 0 where
  trial paid free : StoreSubscriptionStatus

-- The derived `PartialEq` of `StoreSubscriptionStatus`.
unfoldable pub status_eq : StoreSubscriptionStatus → StoreSubscriptionStatus → Bool
status_eq trial trial = true
status_eq paid paid = true
status_eq free free = true
status_eq _ _ = false

-- `StoreSubscription`
pub record StoreSubscription : Type 0 where
  pub store_id : ℕ
  pub currency : Currency
  pub value : ℕ
  pub wallet_address : Option ℕ
  pub trial_start_date : Option ℕ
  pub status : StoreSubscriptionStatus

-- `NewStoreSubscription`
pub record NewStoreSubscription : Type 0 where
  pub store_id : ℕ
  pub currency : Currency
  pub value : ℕ
  pub wallet_address : Option ℕ
  pub trial_start_date : Option ℕ

-- `UpdateStoreSubscription`
pub record UpdateStoreSubscription : Type 0 where
  pub currency : Option Currency
  pub value : Option ℕ
  pub wallet_address : Option ℕ
  pub trial_start_date : Option ℕ
  pub status : Option StoreSubscriptionStatus

-- `DEFAULT_EUR_CENTS_AMOUNT` and `DEFAULT_STQ_WEI_AMOUNT`
abbrev pub default_eur_cents_amount : ℕ
default_eur_cents_amount = 3

abbrev pub default_stq_wei_amount : ℕ
default_stq_wei_amount = 10 ^ 18

abbrev pub is_of_store : ℕ → StoreSubscription → Bool
is_of_store k s = s.store_id == k

-- The row of a new subscription; `status` has the column's default.
abbrev pub new_row : NewStoreSubscription → StoreSubscription
new_row n = record {
  store_id = n.store_id;
  currency = n.currency;
  value = n.value;
  wallet_address = n.wallet_address;
  trial_start_date = n.trial_start_date;
  status = trial;
}

-- The value that a change set leaves in a column.
abbrev pub given_or : {A : Type 0} → Option A → A → A
given_or none old = old
given_or (some new) old = new

abbrev pub given_or_kept : {A : Type 0} → Option A → Option A → Option A
given_or_kept none old = old
given_or_kept (some new) old = some new

-- The row that a change set leaves.
abbrev pub changed : UpdateStoreSubscription → StoreSubscription → StoreSubscription
changed u s = record {
  store_id = s.store_id;
  currency = given_or u.currency s.currency;
  value = given_or u.value s.value;
  wallet_address = given_or_kept u.wallet_address s.wallet_address;
  trial_start_date = given_or_kept u.trial_start_date s.trial_start_date;
  status = given_or u.status s.status;
}

-- A change set that sets nothing, which the query builder refuses.
unfoldable pub sets_nothing : UpdateStoreSubscription → Bool
sets_nothing u = not (
    is_some u.currency
    || is_some u.value
    || is_some u.wallet_address
    || is_some u.trial_start_date
    || is_some u.status)

-- `payload.status.is_some() && payload.status != …`
unfoldable pub changes_status : Option StoreSubscriptionStatus → Option StoreSubscription → Bool
unfolding status_eq
changes_status none entry = false
changes_status (some new) none = true
changes_status (some new) (some s) = not (status_eq new s.status)

-- A call of the repository: its result and the rows that it leaves.
abbrev pub Call : Type 0 → Type 0
Call A = List StoreSubscription → Result RepoError A × List StoreSubscription

module _ (acl : Acl ℕ) where
  -- `create`; the primary key is the store.
  unfoldable pub create : NewStoreSubscription → Call StoreSubscription
  create n rows = elim (check acl Resource.store_subscription write (some n.store_id)) [
    | err e ↦ (err e, rows)
    | ok _ ↦
        if any (is_of_store n.store_id) rows
        then (err RepoError.constraints, rows)
        else (ok (new_row n), rows ++ new_row n ∷ [])
  ]

  -- `get`, for a search by the store.
  unfoldable pub get : ℕ → List StoreSubscription → Result RepoError (Option StoreSubscription)
  get k rows = elim (find (is_of_store k) rows) [
    | none ↦ ok none
    | some s ↦ check acl Resource.store_subscription read (some s.store_id) >> ok (some s)
  ]

  -- The checks of `update` on the entry that was read.
  unfoldable pub check_update :
      UpdateStoreSubscription → Option StoreSubscription → Result RepoError (Unit {0})
  unfolding changes_status
  check_update u entry =
      check acl Resource.store_subscription write
        (elim entry [ none ↦ none | some s ↦ some s.store_id ])
      >> (if changes_status u.status entry
          then check acl Resource.store_subscription_status write none
          else ok tt)

  -- `update`, for a search by the store.
  unfoldable pub update : ℕ → UpdateStoreSubscription → Call StoreSubscription
  unfolding get check_update sets_nothing
  update k u rows = elim (get k rows >>= λ entry. check_update u entry >> ok entry) [
    | err e ↦ (err e, rows)
    | ok entry ↦ if sets_nothing u then (err RepoError.internal, rows) else elim entry [
      | none ↦ (err RepoError.not_found, rows)
      | some s ↦ (ok (changed u s), update_if (is_of_store k) (changed u) rows)
    ]
  ]

-- The table and the payments gateway, where accounts are created.
pub record World (G : Type 0) : Type 0 where
  pub rows : List StoreSubscription
  pub gateway : G

-- `UpdateStoreSubscriptionRequest`
pub record UpdateStoreSubscriptionRequest : Type 0 where
  pub currency : Option Currency
  pub status : Option StoreSubscriptionStatus

-- `impl From<UpdateStoreSubscriptionRequest> for UpdateStoreSubscription`
abbrev pub from_request : UpdateStoreSubscriptionRequest → UpdateStoreSubscription
from_request r = record {
  currency = r.currency;
  value = none;
  wallet_address = none;
  trial_start_date = none;
  status = r.status;
}

-- What a new subscription of a store is like, in the currency's default price.
abbrev pub priced :
    (store : ℕ) → Currency → (value : ℕ) → (wallet trial : Option ℕ) → NewStoreSubscription
priced store c value wallet start = record {
  store_id = store;
  currency = c;
  value = value;
  wallet_address = wallet;
  trial_start_date = start;
}

module _ {G : Type 0} (acl : Acl ℕ) (create_wallet : G → Result ServiceError ℕ × G) where
  -- The end of the service's `create`.
  unfoldable pub store_new :
      NewStoreSubscription → World G → Result ServiceError StoreSubscription × World G
  unfolding create
  store_new n w =
      let (r, rows) = create acl n w.rows in (map_err from_repo r, record w { rows = rows })

  -- `create` of the service, with `create_store_subscription_account`; `create_wallet` is
  -- `create_account` of the account service, answered by the address of the wallet.
  unfoldable pub create_store_subscription :
      ℕ → Currency → World G → Result ServiceError StoreSubscription × World G
  unfolding store_new
  create_store_subscription k Currency.eur w =
      store_new (priced k Currency.eur default_eur_cents_amount none none) w
  create_store_subscription k Currency.stq w =
      let (answer, g) = create_wallet w.gateway in
      elim answer [
        | err e ↦ (err e, record w { gateway = g })
        | ok address ↦
            store_new (priced k Currency.stq default_stq_wei_amount (some address) none)
              (record w { gateway = g })
      ]
  create_store_subscription k Currency.eth w = (err ServiceError.validation, w)
  create_store_subscription k Currency.btc w = (err ServiceError.validation, w)
  create_store_subscription k Currency.usd w = (err ServiceError.validation, w)
  create_store_subscription k Currency.rub w = (err ServiceError.validation, w)

  -- `get` of the service.
  unfoldable pub get_store_subscription :
      ℕ → World G → Result ServiceError (Option StoreSubscription)
  unfolding get
  get_store_subscription k w = map_err from_repo (get acl k w.rows)

  -- The change set in a new currency.
  unfoldable pub in_currency :
      UpdateStoreSubscription
      → StoreSubscription
      → Currency
      → G
      → Result ServiceError UpdateStoreSubscription × G
  in_currency u old Currency.eur g =
      (ok (record u { currency = some Currency.eur; value = some default_eur_cents_amount }), g)
  in_currency u old Currency.stq g =
      let u' = record u { currency = some Currency.stq; value = some default_stq_wei_amount } in
      elim old.wallet_address [
        | some address ↦ (ok u', g)
        | none ↦
            let (answer, g') = create_wallet g in
            (answer >>= λ address. ok (record u' { wallet_address = some address }), g')
      ]
  in_currency u old Currency.eth g = (err ServiceError.validation, g)
  in_currency u old Currency.btc g = (err ServiceError.validation, g)
  in_currency u old Currency.usd g = (err ServiceError.validation, g)
  in_currency u old Currency.rub g = (err ServiceError.validation, g)

  -- The change set that `update` of the service makes of a request.
  unfoldable pub payload_for :
      UpdateStoreSubscriptionRequest
      → StoreSubscription
      → G
      → Result ServiceError UpdateStoreSubscription × G
  unfolding in_currency billing.Currency.currency_code
  payload_for request old g = elim request.currency [
    | none ↦ (ok (from_request request), g)
    | some new ↦
        if currency_eq new old.currency
        then (ok (from_request request), g)
        else in_currency (from_request request) old new g
  ]

  -- `update` of the service.
  unfoldable pub update_store_subscription :
      ℕ → UpdateStoreSubscriptionRequest → World G → Result ServiceError StoreSubscription × World G
  unfolding get update payload_for
  update_store_subscription k request w =
      elim (map_err from_repo (get acl k w.rows) >>= λ found. ok_or found ServiceError.not_found) [
        | err e ↦ (err e, w)
        | ok old ↦
            let (payload, g) = payload_for request old w.gateway in
            elim payload [
              | err e ↦ (err e, record w { gateway = g })
              | ok u ↦
                  let (r, rows) = update acl k u w.rows in
                  (map_err from_repo r, record { rows = rows; gateway = g })
            ]
      ]
