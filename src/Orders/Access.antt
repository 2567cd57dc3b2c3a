-- ===== src/Orders/Access.antt =====
-- Access control of the orders' repository (src/repos/orders.rs).
use billing.Base.{
  ℕ, ◌≡◌, refl, true, false, not, Option, none, some, List, [], ◌∷◌, All, any, find, keep_if, arith,
  ◌==◌, ok, err, RepoError, ◌>>◌, >>=-eq-ok,
}
use billing.Currency.{Currency}
use billing.Acl.{Acl, Resource, Action, read, write}
use billing.Orders.{
  RawOrder, OrderAccess, order_has_id, access, check_order, check_all, is_for_payout, get_many,
  get_orders_for_payout, delete,
}

module _ (acl : Acl OrderAccess) where
  -- The access control allows an action on an order.
  abbrev pub Allowed : Action → RawOrder → Type 0
  Allowed a o = acl Resource.order_info a (some (access o)) ≡ true

  check_all-Allowed :
      (a : Action) (orders : List RawOrder)
      → check_all acl a orders ≡ ok tt
      → All (Allowed a) orders
  unfolding check_all
  check_all-Allowed a [] h = tt
  check_all-Allowed a (o ∷ orders) h =
      let (u, one, rest) = >>=-eq-ok (check_order acl a o) _ h in
      (ground arith, check_all-Allowed a orders rest)

  checked :
      (orders result : List RawOrder)
      → (check_all acl read orders >> ok orders) ≡ ok result
      → All (Allowed read) result × (result ≡ orders)
  checked orders result h =
      let (u, one, rest) = >>=-eq-ok (check_all acl read orders) _ h in
      let e : result ≡ orders = cc in (rw e (check_all-Allowed read orders one), e)

  -- Reading the orders for a payout answers, if not with an error, with exactly those rows of the
  -- store whose payment is due, in the given currency if there is one, and the caller may read
  -- every one of them.
  pub get_orders_for_payout-Allowed :
      (store : ℕ) (currency : Option Currency) (rows orders : List RawOrder)
      → get_orders_for_payout acl store currency rows ≡ ok orders
      → All (Allowed read) orders × (orders ≡ keep_if (is_for_payout store currency) rows)
  unfolding get_orders_for_payout
  get_orders_for_payout-Allowed store currency rows orders h =
      checked (keep_if (is_for_payout store currency) rows) orders h

  -- Reading orders by their ids answers, if not with an error, with exactly the rows of those ids,
  -- and the caller may read every one of them.
  pub get_many-Allowed :
      (ids : List ℕ) (rows orders : List RawOrder)
      → get_many acl ids rows ≡ ok orders
      → All (Allowed read) orders × (orders ≡ keep_if (λ o. any (λ i. o.id == i) ids) rows)
  unfolding get_many
  get_many-Allowed ids rows orders h =
      checked (keep_if (λ o. any (λ i. o.id == i) ids) rows) orders h

  absent :
      (i : ℕ) (rows : List RawOrder)
      → find (order_has_id i) (keep_if (λ x. not (order_has_id i x)) rows) ≡ none
  absent i [] = refl
  absent i (o ∷ rows) = ground (arith, absent i rows)

  -- The repository's `delete` removes an order's row also when it answers that the caller may not
  -- write the order.
  pub delete-forbidden :
      (i : ℕ) (rows : List RawOrder) (o : RawOrder)
      → find (order_has_id i) rows ≡ some o
      → acl Resource.order_info write (some (access o)) ≡ false
      → ((delete acl i rows).0 ≡ err RepoError.forbidden)
        × (find (order_has_id i) (delete acl i rows).1 ≡ none)
  unfolding delete
  delete-forbidden i rows o h d = (rw (h, d, delete) refl, rw (h, delete) (absent i rows))
