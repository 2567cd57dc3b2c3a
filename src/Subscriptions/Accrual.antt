-- ===== src/Subscriptions/Accrual.antt =====
-- What stores are made to owe: `create_all` of src/services/subscription.rs, on the tables of stores'
-- subscriptions and of what they owe. The calendar is declared outside of the repository, and dates are
-- numbers of one unit of time.
use billing.Base.{
  ℕ, ◌+◌, Bool, true, false, ◌&&◌, none, some, is_some, List, [], ◌∷◌, any, ltb, ◌==◌,
  if◌then◌else◌, Result, ok, err, ok_or, map_err, RepoError, ServiceError, from_repo, ◌>>=◌,
}
use billing.Currency.{Currency}
use billing.Acl.{Acl}
use billing.Subscriptions.{Subscription}
use billing.Subscriptions.Stores.{
  StoreSubscription, UpdateStoreSubscription, trial, paid, free, default_eur_cents_amount, priced,
}
use billing.Subscriptions.Repo.{NewSubscription, unpaid_of, search, create}
use billing.Subscriptions.Stores

-- The two tables, with the next key of the second.
pub record Tables : Type 0 where
  pub stores : List StoreSubscription
  pub subscriptions : List Subscription
  pub next_id : ℕ

-- `NaiveDateTime`'s year, month and day.
pub record Date : Type 0 where
  pub year : ℕ
  pub month : ℕ
  pub day : ℕ

-- The test on the dates of what is unpaid.
abbrev pub same_day : Date → Date → Bool
same_day a b = (a.year == b.year) && (a.month == b.month) && (a.day == b.day)

-- The change set that starts a trial.
abbrev pub starts_trial : ℕ → UpdateStoreSubscription
starts_trial now = record {
  currency = none;
  value = none;
  wallet_address = none;
  trial_start_date = some now;
  status = none;
}

-- `find_update_or_create_store_subscription`
unfoldable pub find_update_or_create_store_subscription :
    Acl ℕ
    → (store now : ℕ) → List StoreSubscription
    → Result RepoError StoreSubscription × List StoreSubscription
unfolding billing.Subscriptions.Stores.get billing.Subscriptions.Stores.update
    billing.Subscriptions.Stores.create
find_update_or_create_store_subscription acl k now rows =
    elim (billing.Subscriptions.Stores.get acl k rows) [
      | err e ↦ (err e, rows)
      | ok (some s) ↦
          if is_some s.trial_start_date
          then (ok s, rows)
          else billing.Subscriptions.Stores.update acl k (starts_trial now) rows
      | ok none ↦
          billing.Subscriptions.Stores.create acl
            (priced k Currency.eur default_eur_cents_amount none (some now)) rows
    ]

-- The match on the status: whether the store owes anything yet. A trial that starts after `now` is not
-- over.
unfoldable pub is_to_pay :
    (now max_trial_duration : ℕ) → StoreSubscription → Result ServiceError Bool
is_to_pay now max s = elim s.status [
  | trial ↦ ok_or s.trial_start_date ServiceError.internal >>= λ start.
      ok (if ltb now (start + max) then false else true)
  | paid ↦ ok true
  | free ↦ ok false
]

module _ (date_of : ℕ → Date) (stores_acl subscriptions_acl : Acl ℕ)
    (now max_trial_duration at : ℕ) where
  -- The last steps of one round, for a store that owes: nothing more for a day that is there.
  unfoldable pub add_unpaid : NewSubscription → Tables → Result ServiceError (Unit {0}) × Tables
  unfolding search create
  add_unpaid n t = elim (search subscriptions_acl (unpaid_of n.store_id) t.subscriptions) [
    | err e ↦ (err (from_repo e), t)
    | ok unpaid ↦
        let made = create subscriptions_acl t.next_id at n t.subscriptions in
        if any (λ s. same_day (date_of s.created_at) (date_of now)) unpaid
        then (ok tt, t)
        else elim made.0 [
          | err e ↦ (err (from_repo e), record t { subscriptions = made.1 })
          | ok s ↦ (ok tt, record t { subscriptions = made.1; next_id = t.next_id + 1 })
        ]
  ]

  -- One round of the loop.
  unfoldable pub add_one : NewSubscription → Tables → Result ServiceError (Unit {0}) × Tables
  unfolding find_update_or_create_store_subscription is_to_pay add_unpaid
  add_one n t =
      let (r, stores) =
        find_update_or_create_store_subscription stores_acl n.store_id now t.stores in
      let t' = record t { stores = stores } in
      elim (map_err from_repo r >>= is_to_pay now max_trial_duration) [
        | err e ↦ (err e, t')
        | ok false ↦ (ok tt, t')
        | ok true ↦ add_unpaid n t'
      ]

  -- The loop.
  unfoldable pub add_all : List NewSubscription → Tables → Result ServiceError (Unit {0}) × Tables
  unfolding add_one
  add_all [] t = (ok tt, t)
  add_all (n ∷ new) t =
      let (r, t') = add_one n t in
      let rest = add_all new t' in elim r [ err e ↦ (err e, t') | ok _ ↦ rest ]

  -- `create_all`: the transaction around the loop. A key that is taken is not given again.
  unfoldable pub create_all :
      List NewSubscription → Tables → Result ServiceError (Unit {0}) × Tables
  unfolding add_all
  create_all new t =
      let (r, t') = add_all new t in
      elim r [ ok _ ↦ (ok tt, t') | err e ↦ (err e, record t { next_id = t'.next_id }) ]
