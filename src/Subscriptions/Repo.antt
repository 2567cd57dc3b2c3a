-- ===== src/Subscriptions/Repo.antt =====
-- The repository over the table `subscription` (src/repos/subscription.rs), with its searches
-- (src/models/subscription.rs).
use billing.Base.{
  ℕ, Bool, true, false, ◌&&◌, ◌||◌, not, Option, none, some, is_some, List, [], ◌∷◌, ◌++◌, find,
  keep_if, update_if, ◌==◌, if◌then◌else◌, Result, ok, err, ok_or, RepoError, ◌>>=◌, ◌>>◌,
}
use billing.Acl.{Acl, Resource, Scope, everything, owned, read, write, check}
use billing.Subscriptions.{Subscription, is_unpaid, check_stores}

-- `NewSubscription`
pub record NewSubscription : Type 0 where
  pub store_id : ℕ
  pub published_base_products_quantity : ℕ

-- `SubscriptionSearch`
pub record SubscriptionSearch : Type 0 where
  pub id : Option ℕ
  pub store_id : Option ℕ
  pub paid : Option Bool
  pub subscription_payment_id : Option ℕ

-- `SubscriptionSearch::by_id` and `by_subscription_payment_id`
abbrev pub by_id : ℕ → SubscriptionSearch
by_id i = record { id = some i; store_id = none; paid = none; subscription_payment_id = none }

abbrev pub by_subscription_payment_id : ℕ → SubscriptionSearch
by_subscription_payment_id i = record {
  id = none;
  store_id = none;
  paid = none;
  subscription_payment_id = some i;
}

-- The search for what a store has not paid.
abbrev pub unpaid_of : ℕ → SubscriptionSearch
unpaid_of k = record {
  id = none;
  store_id = some k;
  paid = some false;
  subscription_payment_id = none;
}

-- `is_in_scope`; the object is the `SubscriptionAccess`, a store's id.
unfoldable pub is_in_scope : (user_is_store_manager : ℕ → Bool) → Scope → Option ℕ → Bool
is_in_scope manager everything obj = true
is_in_scope manager owned none = false
is_in_scope manager owned (some store) = manager store

-- `subscription_payment_id.eq(…)`, which a null does not pass.
abbrev pub has_payment : ℕ → Subscription → Bool
has_payment p s = elim s.subscription_payment_id [ none ↦ false | some q ↦ q == p ]

-- The condition that `into_expr` builds of the filters that are given.
unfoldable pub matches : SubscriptionSearch → Subscription → Bool
unfolding is_unpaid
matches q s =
    (elim q.id [ none ↦ true | some i ↦ s.id == i ])
    && (elim q.store_id [ none ↦ true | some k ↦ s.store_id == k ])
    && (elim q.paid [ none ↦ true | some paid ↦ if paid then not (is_unpaid s) else is_unpaid s ])
    && (elim q.subscription_payment_id [ none ↦ true | some p ↦ has_payment p s ])

-- `into_expr`; no filter at all is no condition.
unfoldable pub into_expr : SubscriptionSearch → Option (Subscription → Bool)
unfolding matches
into_expr q =
    if is_some q.id || is_some q.store_id || is_some q.paid || is_some q.subscription_payment_id
    then some (matches q)
    else none

-- The row of a new subscription.
abbrev pub new_row : (id at : ℕ) → NewSubscription → Subscription
new_row i at n = record {
  id = i;
  store_id = n.store_id;
  published_base_products_quantity = n.published_base_products_quantity;
  subscription_payment_id = none;
  created_at = at;
}

abbrev pub set_payment : ℕ → Subscription → Subscription
set_payment p s = record s { subscription_payment_id = some p }

module _ (acl : Acl ℕ) where
  -- `create`; `id` and `at` are the next key and the time of the database.
  unfoldable pub create :
      (id at : ℕ)
      → NewSubscription
      → List Subscription
      → Result RepoError Subscription × List Subscription
  create i at n rows = elim (check acl Resource.subscription write (some n.store_id)) [
    | err e ↦ (err e, rows)
    | ok _ ↦ (ok (new_row i at n), rows ++ new_row i at n ∷ [])
  ]

  -- `get`
  unfoldable pub get :
      SubscriptionSearch → List Subscription → Result RepoError (Option Subscription)
  unfolding into_expr
  get q rows = ok_or (into_expr q) RepoError.internal >>= λ query. elim (find query rows) [
    | none ↦ ok none
    | some s ↦ check acl Resource.subscription read (some s.store_id) >> ok (some s)
  ]

  -- `search`
  unfoldable pub search :
      SubscriptionSearch → List Subscription → Result RepoError (List Subscription)
  unfolding into_expr check_stores
  search q rows = ok_or (into_expr q) RepoError.internal >>= λ query.
      check_stores acl (keep_if query rows) >> ok (keep_if query rows)

  -- `update`, which sets the payment of every row that passes the search and answers with the first.
  unfoldable pub update :
      SubscriptionSearch
      → (payment : ℕ) → List Subscription
      → Result RepoError Subscription × List Subscription
  unfolding get into_expr
  update q p rows =
      let tested = get q rows >>= λ entry.
      check acl Resource.subscription write
        (elim entry [ none ↦ none | some s ↦ some s.store_id ]) in
      elim tested [
        | err e ↦ (err e, rows)
        | ok _ ↦ elim (into_expr q) [
          | none ↦ (err RepoError.internal, rows)
          | some query ↦ elim (find query rows) [
            | none ↦ (err RepoError.not_found, rows)
            | some first ↦ (ok (set_payment p first), update_if query (set_payment p) rows)
          ]
        ]
      ]
