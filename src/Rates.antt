-- ===== src/Rates.antt =====
-- The exchange rates of orders: the rows (src/models/order_exchange_rate.rs) and the repository over
-- the table `order_exchange_rates` (src/repos/order_exchange_rates.rs). A rate is a decimal number,
-- a parameter. The column `updated_at` is set by the table's trigger.
pub mod Active
pub mod Runs
pub mod Latest
pub mod Tests
use billing.Base.{
  ℕ, ◌+◌, Bool, true, false, ◌&&◌, not, Option, none, some, List, [], ◌∷◌, ◌++◌, find, keep_if,
  update_if, ltb, ◌==◌, if◌then◌else◌, Result, ok, err, ok_or, RepoError, ◌>>=◌, ◌>>◌,
}
use billing.Acl.{Acl, Resource, Scope, everything, owned, read, write, check}
use billing.Orders.{RawOrder}

-- `ExchangeRateStatus`
pub data ExchangeRateStatus : Type 0 where
  active expired : ExchangeRateStatus

-- `status = 'active'`
unfoldable pub is_active : ExchangeRateStatus → Bool
is_active active = true
is_active expired = false

-- `RawOrderExchangeRate`
pub record RawOrderExchangeRate (Number : Type 0) : Type 0 where
  pub id : ℕ
  pub order_id : ℕ
  pub exchange_id : Option ℕ
  pub exchange_rate : Number
  pub status : ExchangeRateStatus
  pub created_at : ℕ
  pub updated_at : ℕ

-- `NewOrderExchangeRate`
pub record NewOrderExchangeRate (Number : Type 0) : Type 0 where
  pub order_id : ℕ
  pub exchange_id : Option ℕ
  pub exchange_rate : Number

-- `RawNewOrderExchangeRate`
pub record RawNewOrderExchangeRate (Number : Type 0) : Type 0 where
  pub order_id : ℕ
  pub exchange_id : Option ℕ
  pub exchange_rate : Number
  pub status : ExchangeRateStatus

-- `LatestExchangeRates`
pub record LatestExchangeRates (Number : Type 0) : Type 0 where
  pub active_rate : RawOrderExchangeRate Number
  pub last_expired_rate : Option (RawOrderExchangeRate Number)

-- The table; `next_id` is the sequence behind the key.
pub record Table (Number : Type 0) : Type 0 where
  pub rows : List (RawOrderExchangeRate Number)
  pub next_id : ℕ

-- A row of `invoices_v2`, with the columns that the scope reads.
pub record InvoiceBuyer : Type 0 where
  pub id : ℕ
  pub buyer_user_id : ℕ

-- The buyer of an order's invoice: the join of orders and invoices.
unfoldable pub buyer_of : List RawOrder → List InvoiceBuyer → ℕ → Option ℕ
buyer_of orders invoices order = elim (find (λ o. o.id == order) orders) [
  | none ↦ none
  | some o ↦ elim (find (λ i. i.id == o.invoice_id) invoices) [
    | none ↦ none
    | some i ↦ some i.buyer_user_id
  ]
]

-- `is_in_scope`; the access object is an order's id, and an order without an invoice is open to all.
unfoldable pub is_in_scope : List RawOrder → List InvoiceBuyer → ℕ → Scope → Option ℕ → Bool
unfolding buyer_of
is_in_scope orders invoices user everything obj = true
is_in_scope orders invoices user owned none = false
is_in_scope orders invoices user owned (some order) = elim (buyer_of orders invoices order) [
  | none ↦ true
  | some buyer ↦ buyer == user
]

module _ {Number : Type 0} where
  abbrev pub rate_has_id : ℕ → RawOrderExchangeRate Number → Bool
  rate_has_id i r = r.id == i

  abbrev pub is_of : ℕ → RawOrderExchangeRate Number → Bool
  is_of order r = r.order_id == order

  -- `order_id.eq(order_id).and(status.eq(Active))`
  unfoldable pub is_active_of : ℕ → RawOrderExchangeRate Number → Bool
  unfolding is_active
  is_active_of order r = (r.order_id == order) && is_active r.status

  -- `SET status = 'expired'`, with the trigger.
  unfoldable pub expire : ℕ → RawOrderExchangeRate Number → RawOrderExchangeRate Number
  expire now r = record r { status = expired; updated_at = now }

  -- `impl From<NewOrderExchangeRate> for RawNewOrderExchangeRate`
  unfoldable pub raw_new_rate : NewOrderExchangeRate Number → RawNewOrderExchangeRate Number
  raw_new_rate n = record {
    order_id = n.order_id;
    exchange_id = n.exchange_id;
    exchange_rate = n.exchange_rate;
    status = active;
  }

  -- The row that an insert adds, with the column defaults.
  unfoldable pub inserted : ℕ → ℕ → RawNewOrderExchangeRate Number → RawOrderExchangeRate Number
  inserted now next n = record {
    id = next;
    order_id = n.order_id;
    exchange_id = n.exchange_id;
    exchange_rate = n.exchange_rate;
    status = n.status;
    created_at = now;
    updated_at = now;
  }

  -- `ORDER BY id DESC`
  unfoldable pub insert_desc :
      RawOrderExchangeRate Number
      → List (RawOrderExchangeRate Number)
      → List (RawOrderExchangeRate Number)
  insert_desc r [] = r ∷ []
  insert_desc r (x ∷ rows) =
      let rest = insert_desc r rows in if ltb r.id x.id then x ∷ rest else r ∷ x ∷ rows

  unfoldable pub sort_desc : List (RawOrderExchangeRate Number) → List (RawOrderExchangeRate Number)
  unfolding insert_desc
  sort_desc [] = []
  sort_desc (r ∷ rows) = insert_desc r (sort_desc rows)

  -- The match of `add_new_active_rate` on the active rate that it found: the expired row, and the
  -- rows after the update.
  unfoldable pub expire_found :
      ℕ
      → Option (RawOrderExchangeRate Number)
      → List (RawOrderExchangeRate Number)
      → Result RepoError (Option (RawOrderExchangeRate Number) × List (RawOrderExchangeRate Number))
  unfolding expire
  expire_found now none rows = ok (none, rows)
  expire_found now (some r) rows =
      let rows' = update_if (rate_has_id r.id) (expire now) rows in
      ok_or (find (rate_has_id r.id) rows') RepoError.not_found >>= λ e. ok (some e, rows')

module _ {Number : Type 0} (acl : Acl ℕ) where
  -- `get`, which checks the access to what it has read.
  unfoldable pub get : ℕ → Table Number → Result RepoError (Option (RawOrderExchangeRate Number))
  get i t = elim (find (rate_has_id i) t.rows) [
    | none ↦ ok none
    | some r ↦ check acl Resource.order_exchange_rate read (some r.order_id) >> ok (some r)
  ]

  -- `get_active_rate_for_order`
  unfoldable pub get_active_rate_for_order :
      ℕ → Table Number → Result RepoError (Option (RawOrderExchangeRate Number))
  unfolding is_active_of
  get_active_rate_for_order order t =
      check acl Resource.order_exchange_rate read (some order)
      >> ok (find (is_active_of order) t.rows)

  -- `get_all_rates_for_order`
  unfoldable pub get_all_rates_for_order :
      ℕ → Table Number → Result RepoError (List (RawOrderExchangeRate Number))
  unfolding sort_desc
  get_all_rates_for_order order t =
      check acl Resource.order_exchange_rate read (some order)
      >> ok (sort_desc (keep_if (is_of order) t.rows))

  -- `add_new_active_rate`: one transaction, so that an error leaves the table as it was.
  unfoldable pub add_new_active_rate :
      ℕ
      → NewOrderExchangeRate Number
      → Table Number
      → Result RepoError (LatestExchangeRates Number) × Table Number
  unfolding is_active_of expire_found raw_new_rate inserted
  add_new_active_rate now n t =
      elim (check acl Resource.order_exchange_rate write (some n.order_id)) [
        | err e ↦ (err e, t)
        | ok _ ↦ elim (expire_found now (find (is_active_of n.order_id) t.rows) t.rows) [
          | err e ↦ (err e, t)
          | ok (last, rows) ↦
              let row = inserted now t.next_id (raw_new_rate n) in
              (
                ok (record { active_rate = row; last_expired_rate = last }),
                record { rows = rows ++ row ∷ []; next_id = t.next_id + 1 },
              )
        ]
      ]

  -- `expire_current_active_rate`: every active rate of the order expires; the first is returned.
  unfoldable pub expire_current_active_rate :
      ℕ → ℕ → Table Number → Result RepoError (Option (RawOrderExchangeRate Number)) × Table Number
  unfolding is_active_of expire
  expire_current_active_rate now order t =
      elim (check acl Resource.order_exchange_rate write (some order)) [
        | err e ↦ (err e, t)
        | ok _ ↦ (
          ok (elim (find (is_active_of order) t.rows) [
            | none ↦ none
            | some r ↦ some (expire now r)
          ]),
          record t { rows = update_if (is_active_of order) (expire now) t.rows },
        )
      ]

  -- `delete`
  unfoldable pub delete :
      ℕ → Table Number → Result RepoError (Option (RawOrderExchangeRate Number)) × Table Number
  delete i t = elim (find (rate_has_id i) t.rows) [
    | none ↦ (ok none, t)
    | some r ↦ elim (check acl Resource.order_exchange_rate write (some r.order_id)) [
      | err e ↦ (err e, t)
      | ok _ ↦ (ok (some r), record t { rows = keep_if (λ x. not (rate_has_id i x)) t.rows })
    ]
  ]

  -- `delete_by_order_id`
  unfoldable pub delete_by_order_id :
      ℕ → Table Number → Result RepoError (List (RawOrderExchangeRate Number)) × Table Number
  delete_by_order_id order t = elim (check acl Resource.order_exchange_rate write (some order)) [
    | err e ↦ (err e, t)
    | ok _ ↦ (
      ok (keep_if (is_of order) t.rows),
      record t { rows = keep_if (λ x. not (is_of order x)) t.rows },
    )
  ]
