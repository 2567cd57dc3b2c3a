-- ===== src/Orders/Edges.antt =====
-- The state machine of an order's payment under any sequence of requests and capture events.
use billing.Base.{
  ℕ, ◌≡◌, refl, ap, ◌∙◌, ◌⊎◌, inl, inr, true, false, not, Option, none, some, List, [], ◌∷◌, find,
  update_if, arith, if◌then◌else◌, ◌==◌, ==_iff, Bool-cases, Option-cases, Result-cases, ok,
}
use billing.Acl.{Acl, Resource, write}
use billing.Orders.State.{
  PaymentState, initial, declined, captured, refund_needed, refunded, paid_to_seller,
  payment_to_seller_needed, state_eq,
}
use billing.Orders.Texts.{state_code-injective}
use billing.Orders.{
  RawOrder, OrderAccess, order_has_id, get, update_row, update_state, update_stripe_fee, set_state,
  set_stripe_fee,
}
use billing.Orders.Service.{
  World, Acls, check_change_order_payment_state, found, store_state, store_capture,
}

-- The edges that the service's code can follow.
pub data Edge : PaymentState → PaymentState → Type 0 where
  capture : Edge initial captured
  decline : Edge initial declined
  decline_crypto : Edge initial refund_needed
  to_refund : Edge captured refund_needed
  to_seller : Edge captured payment_to_seller_needed
  refund : Edge refund_needed refunded
  pay : Edge payment_to_seller_needed paid_to_seller

-- The state of an order in the table.
abbrev pub state_in : Option RawOrder → Option PaymentState
state_in none = none
state_in (some o) = some o.state

abbrev pub state_of : ℕ → List RawOrder → Option PaymentState
state_of i rows = state_in (find (order_has_id i) rows)

-- The state of every order is as it was, or has followed an edge.
abbrev pub Follows : List RawOrder → List RawOrder → Type 0
Follows rows rows' =
    (j : ℕ)
    → (state_of j rows' ≡ state_of j rows)
      ⊎ ((a : PaymentState) × (b : PaymentState) × (state_of j rows ≡ some a)
          × (state_of j rows' ≡ some b)
          × Edge a b)

pub check-Edge : (a b : PaymentState) → check_change_order_payment_state a b ≡ true → Edge a b
unfolding check_change_order_payment_state
check-Edge initial captured h = capture
check-Edge initial declined h = decline
check-Edge captured refund_needed h = to_refund
check-Edge captured payment_to_seller_needed h = to_seller
check-Edge refund_needed refunded h = refund
check-Edge payment_to_seller_needed paid_to_seller h = pay
check-Edge _ _ h = cc

-- The row of a key after an update of the rows of a key.
find-update_if :
    (i j : ℕ) (f : RawOrder → RawOrder)
    → ((o : RawOrder) → (f o).id ≡ o.id)
    → (rows : List RawOrder)
    → find (order_has_id j) (update_if (order_has_id i) f rows) ≡ (
        if j == i
        then elim (find (order_has_id j) rows) [ none ↦ none | some o ↦ some (f o) ]
        else find (order_has_id j) rows)
find-update_if i j f same [] = ground arith
find-update_if i j f same (o ∷ rows) = ground (arith, find-update_if i j f same rows, same o)

update_row-cases :
    (acl : Acl OrderAccess) (change : RawOrder → RawOrder) (i : ℕ) (rows : List RawOrder)
    → ((update_row acl change i rows).1 ≡ rows)
      ⊎ ((update_row acl change i rows).1 ≡ update_if (order_has_id i) change rows)
unfolding update_row
update_row-cases acl change i rows = elim (Bool-cases (acl Resource.order_info write none)) [
  | inl e ↦ elim (Option-cases (find (order_has_id i) rows)) [
    | inl f ↦ inl (rw (e, f, update_row) refl)
    | inr (o, f) ↦ inr (rw (e, f, update_row) refl)
  ]
  | inr e ↦ inl (rw (e, update_row) refl)
]

pub state_of-set_state :
    (i j : ℕ) (s : PaymentState) (rows : List RawOrder) (o : RawOrder)
    → find (order_has_id i) rows ≡ some o
    → state_of j (update_if (order_has_id i) (set_state s) rows)
      ≡ (if j == i then some s else state_of j rows)
state_of-set_state i j s rows o h =
    ap state_in (find-update_if i j (set_state s) (λ x. refl) rows) ∙ ground (arith, ==_iff j i)

state_of-set_stripe_fee :
    (i j fee : ℕ) (rows : List RawOrder)
    → state_of j (update_if (order_has_id i) (set_stripe_fee fee) rows) ≡ state_of j rows
state_of-set_stripe_fee i j fee rows =
    ap state_in (find-update_if i j (set_stripe_fee fee) (λ x. refl) rows) ∙ ground arith

-- A write of a state that an edge leads to.
update_state-Follows :
    (acl : Acl OrderAccess) (i : ℕ) (s : PaymentState) (rows : List RawOrder) (o : RawOrder)
    → find (order_has_id i) rows ≡ some o
    → Edge o.state s
    → Follows rows (update_state acl i s rows).1
unfolding update_state
update_state-Follows acl i s rows o h edge j = elim (update_row-cases acl (set_state s) i rows) [
  | inl e ↦ inl (ap (state_of j) e)
  | inr e ↦ elim (Bool-cases (j == i)) [
    | inl here ↦
        let same : j ≡ i = (==_iff j i).0 here in
        inr (
          o.state,
          s,
          ap (λ k. state_of k rows) same ∙ ap state_in h,
          ap (state_of j) e ∙ state_of-set_state i j s rows o h ∙ rw here refl,
          edge,
        )
    | inr other ↦ inl (ap (state_of j) e ∙ state_of-set_state i j s rows o h ∙ rw other refl)
  ]
]

update_stripe_fee-state_of :
    (acl : Acl OrderAccess) (i j fee : ℕ) (rows : List RawOrder)
    → state_of j (update_stripe_fee acl i fee rows).1 ≡ state_of j rows
unfolding update_stripe_fee
update_stripe_fee-state_of acl i j fee rows =
    elim (update_row-cases acl (set_stripe_fee fee) i rows) [
      | inl e ↦ ap (state_of j) e
      | inr e ↦ ap (state_of j) e ∙ state_of-set_stripe_fee i j fee rows
    ]

pub is_initial : (o : RawOrder) → not (state_eq o.state initial) ≡ false → o.state ≡ initial
is_initial o h = state_code-injective o.state initial (ground arith)

pub find-id :
    (i : ℕ) (rows : List RawOrder) (o : RawOrder) → find (order_has_id i) rows ≡ some o → o.id ≡ i
find-id i [] o h = cc
find-id i (x ∷ rows) o h = ground (arith, ==_iff x.id i, find-id i rows o)

module _ {Value : Type 0} (acls : Acls) where
  pub found-find :
      (i : ℕ) (w : World Value) (o : RawOrder)
      → found acls i w ≡ ok o
      → find (order_has_id i) w.orders ≡ some o
  unfolding get
  found-find i w o h = ground arith

  pub store_state-Follows :
      (i : ℕ) (s : PaymentState) (w : World Value) (o : RawOrder)
      → find (order_has_id i) w.orders ≡ some o
      → Edge o.state s
      → Follows w.orders (store_state acls i s w).1.orders
  unfolding store_state
  store_state-Follows i s w o h edge = update_state-Follows acls.orders i s w.orders o h edge

  pub store_capture-Follows :
      (i fee : ℕ) (w : World Value) (o : RawOrder)
      → find (order_has_id i) w.orders ≡ some o
      → Edge o.state captured
      → Follows w.orders (store_capture acls i fee w).1.orders
  unfolding store_capture
  store_capture-Follows i fee w o h edge j =
      elim (Result-cases (update_state acls.orders i captured w.orders).0) [
        | inl (x, e) ↦
            rw
              (
                e,
                store_capture,
                update_stripe_fee-state_of acls.orders i j fee
                    (update_state acls.orders i captured w.orders).1,
              )
              (update_state-Follows acls.orders i captured w.orders o h edge j)
        | inr (x, e) ↦
            rw (e, store_capture) (update_state-Follows acls.orders i captured w.orders o h edge j)
      ]
