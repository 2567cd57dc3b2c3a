-- ===== src/Orders.antt =====
-- Orders: the rows (src/models/order_v2.rs) and the repository over the table `orders`
-- (src/repos/orders.rs). Identifiers of orders, invoices and stores are numbers; timestamps are
-- left to the database and are not kept.
pub mod State
pub mod Texts
pub mod Service
pub mod Edges
pub mod Runs
pub mod Reach
pub mod Refunds
pub mod Access
pub mod Search
pub mod Tests
use billing.Base.{
  ℕ, ◌+◌, ◌-◌, Bool, true, false, ◌&&◌, not, Option, none, some, List, [], ◌∷◌, ◌++◌, map, any,
  find, keep_if, update_if, ◌==◌, if◌then◌else◌, is_some, Result, ok, err, RepoError, guard, ◌>>=◌,
  ◌>>◌,
}
use billing.Currency.{Currency, TureCurrency, FiatCurrency, crypto, fiat, classify, currency_eq}
use billing.Acl.{Acl, Resource, Action, Scope, everything, owned, read, write, check}
use State.{PaymentState, initial, payment_to_seller_needed, state_eq}

-- `RawOrder`
pub record RawOrder : Type 0 where
  pub id : ℕ
  pub seller_currency : Currency
  pub total_amount : ℕ
  pub cashback_amount : ℕ
  pub invoice_id : ℕ
  pub store_id : ℕ
  pub state : PaymentState
  pub stripe_fee : Option ℕ

-- `NewOrder`
pub record NewOrder : Type 0 where
  pub id : ℕ
  pub seller_currency : Currency
  pub total_amount : ℕ
  pub cashback_amount : ℕ
  pub invoice_id : ℕ
  pub store_id : ℕ

-- `OrderAccess`
pub record OrderAccess : Type 0 where
  pub invoice_id : ℕ
  pub store_id : ℕ

-- `OrderPaymentKind`
pub data OrderPaymentKind : Type 0 where
  crypto_kind : TureCurrency → OrderPaymentKind
  fiat_kind : FiatCurrency → Option ℕ → OrderPaymentKind

-- `RawOrder::payment_kind`
unfoldable pub payment_kind : RawOrder → OrderPaymentKind
unfolding classify
payment_kind order = elim (classify order.seller_currency) [
  | crypto c ↦ crypto_kind c
  | fiat c ↦ fiat_kind c order.stripe_fee
]

-- `impl From<RawOrder> for OrderAccess`
abbrev pub access : RawOrder → OrderAccess
access o = record { invoice_id = o.invoice_id; store_id = o.store_id }

-- `is_in_scope` of the orders' repository: the buyer of the invoice, or a manager of the store.
unfoldable pub is_in_scope :
    (user_is_buyer user_is_store_manager : ℕ → Bool) → Scope → Option OrderAccess → Bool
is_in_scope buyer manager everything obj = true
is_in_scope buyer manager owned none = false
is_in_scope buyer manager owned (some a) = if buyer a.invoice_id then true else manager a.store_id

-- A call of the repository: its result, and the rows that it leaves.
abbrev pub Call : Type 0 → Type 0
Call A = List RawOrder → Result RepoError A × List RawOrder

abbrev pub order_has_id : ℕ → RawOrder → Bool
order_has_id i o = o.id == i

-- The filters of `get_orders_for_payout`.
unfoldable pub is_for_payout : ℕ → Option Currency → RawOrder → Bool
is_for_payout store currency o =
    state_eq o.state payment_to_seller_needed
    && (o.store_id == store)
    && (elim currency [ none ↦ true | some c ↦ currency_eq o.seller_currency c ])

-- The row of a new order; `state` has the column's default.
abbrev pub new_row : NewOrder → RawOrder
new_row n = record {
  id = n.id;
  seller_currency = n.seller_currency;
  total_amount = n.total_amount;
  cashback_amount = n.cashback_amount;
  invoice_id = n.invoice_id;
  store_id = n.store_id;
  state = initial;
  stripe_fee = none;
}

abbrev pub set_state : PaymentState → RawOrder → RawOrder
set_state s o = record o { state = s }

abbrev pub set_stripe_fee : ℕ → RawOrder → RawOrder
set_stripe_fee fee o = record o { stripe_fee = some fee }

module _ (acl : Acl OrderAccess) where
  -- The check of an order that is read.
  abbrev pub check_order : Action → RawOrder → Result RepoError (Unit {0})
  check_order a o = check acl Resource.order_info a (some (access o))

  -- The loop of checks over the rows of a result.
  unfoldable pub check_all : Action → List RawOrder → Result RepoError (Unit {0})
  check_all a [] = ok tt
  check_all a (o ∷ orders) = check_order a o >> check_all a orders

  -- `get`
  unfoldable pub get : ℕ → List RawOrder → Result RepoError (Option RawOrder)
  get i rows = elim (find (order_has_id i) rows) [
    | none ↦ ok none
    | some o ↦ check_order read o >> ok (some o)
  ]

  -- `get_many`; no order of the rows is promised, the table's is taken.
  unfoldable pub get_many : List ℕ → List RawOrder → Result RepoError (List RawOrder)
  unfolding check_all
  get_many ids rows =
      let orders = keep_if (λ o. any (λ i. o.id == i) ids) rows in
      check_all read orders >> ok orders

  -- `get_many_by_invoice_id`
  unfoldable pub get_many_by_invoice_id : ℕ → List RawOrder → Result RepoError (List RawOrder)
  unfolding check_all
  get_many_by_invoice_id invoice rows =
      let orders = keep_if (λ o. o.invoice_id == invoice) rows in check_all read orders >> ok orders

  -- `get_order_ids_by_store_id`
  unfoldable pub get_order_ids_by_store_id : ℕ → List RawOrder → Result RepoError (List ℕ)
  unfolding check_all
  get_order_ids_by_store_id store rows =
      let orders = keep_if (λ o. o.store_id == store) rows in
      check_all read orders >> ok (map (λ o. o.id) orders)

  -- `get_orders_for_payout`
  unfoldable pub get_orders_for_payout :
      ℕ → Option Currency → List RawOrder → Result RepoError (List RawOrder)
  unfolding check_all is_for_payout
  get_orders_for_payout store currency rows =
      let orders = keep_if (is_for_payout store currency) rows in check_all read orders >> ok orders

  -- `create`: the primary key refuses a second row of an order; the invoice is taken to exist.
  unfoldable pub create : NewOrder → Call RawOrder
  create n rows = elim (check acl Resource.order_info write (some (access (new_row n)))) [
    | err e ↦ (err e, rows)
    | ok _ ↦
        if any (order_has_id n.id) rows
        then (err RepoError.constraints, rows)
        else (ok (new_row n), rows ++ new_row n ∷ [])
  ]

  -- `delete`: the row is gone before its access is checked.
  unfoldable pub delete : ℕ → Call (Option RawOrder)
  delete i rows = elim (find (order_has_id i) rows) [
    | none ↦ (ok none, rows)
    | some o ↦ (check_order write o >> ok (some o), keep_if (λ x. not (order_has_id i x)) rows)
  ]

  -- `delete_by_invoice_id`: likewise.
  unfoldable pub delete_by_invoice_id : ℕ → Call (List RawOrder)
  unfolding check_all
  delete_by_invoice_id invoice rows =
      let deleted = keep_if (λ o. o.invoice_id == invoice) rows in
      (check_all write deleted >> ok deleted, keep_if (λ o. not (o.invoice_id == invoice)) rows)

  -- The update of one row that `update_state` and `update_stripe_fee` make.
  unfoldable pub update_row : (RawOrder → RawOrder) → ℕ → Call RawOrder
  update_row change i rows = elim (check acl Resource.order_info write none) [
    | err e ↦ (err e, rows)
    | ok _ ↦ elim (find (order_has_id i) rows) [
      | none ↦ (err RepoError.not_found, rows)
      | some o ↦ (ok (change o), update_if (order_has_id i) change rows)
    ]
  ]

  -- `update_state`
  unfoldable pub update_state : ℕ → PaymentState → Call RawOrder
  unfolding update_row
  update_state i s = update_row (set_state s) i

  -- `update_stripe_fee`
  unfoldable pub update_stripe_fee : ℕ → ℕ → Call RawOrder
  unfolding update_row
  update_stripe_fee i fee = update_row (set_stripe_fee fee) i
