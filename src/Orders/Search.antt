-- ===== src/Orders/Search.antt =====
-- The search of orders (`search` of src/repos/orders.rs, with the filters of src/models/order_v2.rs and
-- `search_orders` of src/services/order.rs).
use billing.Base.{
  ℕ, Bool, true, ◌&&◌, Option, none, some, List, any, keep_if, length, take, drop, ◌==◌, Result, ok,
  RepoError, ◌>>◌,
}
use billing.Acl.{Acl, read}
use billing.Orders.{RawOrder, OrderAccess, check_all}
use billing.Orders.State.{PaymentState, state_eq}

-- `OrdersSearch`
pub record OrdersSearch : Type 0 where
  pub store_id : Option ℕ
  pub state : Option PaymentState
  pub order_id : Option ℕ
  pub order_ids : Option (List ℕ)

-- `OrderSearchResults`
pub record OrderSearchResults : Type 0 where
  pub total_count : ℕ
  pub orders : List RawOrder

-- `OrdersSearch::by_order_ids`
abbrev pub by_order_ids : List ℕ → OrdersSearch
by_order_ids ids = record { store_id = none; state = none; order_id = none; order_ids = some ids }

-- `into_expr`; a search with no filter selects every row.
unfoldable pub matches : OrdersSearch → RawOrder → Bool
matches s o =
    (elim s.store_id [ none ↦ true | some i ↦ o.store_id == i ])
    && (elim s.state [ none ↦ true | some it ↦ state_eq o.state it ])
    && (elim s.order_id [ none ↦ true | some i ↦ o.id == i ])
    && (elim s.order_ids [ none ↦ true | some ids ↦ any (λ i. o.id == i) ids ])

-- `search`; `newest_first` is the database's order by the time of creation, and a negative offset or
-- count is not modelled. The access to the orders of the page is checked, and the count is of all.
unfoldable pub search :
    (newest_first : List RawOrder → List RawOrder)
    → Acl OrderAccess
    → (skip count : ℕ) → OrdersSearch
    → List RawOrder
    → Result RepoError OrderSearchResults
unfolding matches check_all
search newest_first acl skip count s rows =
    let all = keep_if (matches s) rows in
    let page = take count (drop skip (newest_first all)) in
    check_all acl read page >> ok (record { total_count = length all; orders = page })
