-- ===== src/Orders/Runs.antt =====
-- Runs of order requests and capture events, and where they can lead an order
-- (src/services/order.rs, src/event_handling/handlers.rs).
use billing.Base.{
  ℕ, ◌≡◌, refl, sym, ap, subst, ◌∙◌, inl, inr, ◌||◌, not, Option, some, List, [], ◌∷◌, ◌++◌, find,
  arith, is_some, Bool-cases, Result-cases, Result, ok, ServiceError, ◌>>=◌,
}
use billing.Currency.{is_fiat}
use billing.Orders.State.{PaymentState, initial, declined, captured, refund_needed, state_eq}
use billing.Orders.{RawOrder, order_has_id}
use billing.Orders.Service.{
  World, Acls, Refund, check_change_order_payment_state, found, charge_of, store_state,
  order_decline_fiat, order_decline_crypto, order_capture_crypto, order_capture_fiat, order_decline,
  order_capture, update_order_state, handle_payment_intent_capture,
}
use billing.Orders.Edges.{
  Edge, Follows, check-Edge, found-find, store_state-Follows, store_capture-Follows, is_initial,
  find-id,
}

pub Follows-refl : (rows : List RawOrder) → Follows rows rows
Follows-refl rows j = inl refl

module _ {Value : Type 0} (acls : Acls) where
  pub update_order_state-Follows :
      (i : ℕ) (s : PaymentState) (w : World Value)
      → Follows w.orders (update_order_state acls i s w).1.orders
  unfolding update_order_state
  update_order_state-Follows i s w = elim (Result-cases (found acls i w)) [
    | inr (e, h) ↦ rw (h, update_order_state) (Follows-refl w.orders)
    | inl (o, h) ↦ elim (Bool-cases (check_change_order_payment_state o.state s)) [
      | inl e ↦
          rw (h, e, update_order_state)
            (store_state-Follows acls i s w o (found-find acls i w o h) (check-Edge o.state s e))
      | inr e ↦ rw (h, e, update_order_state) (Follows-refl w.orders)
    ]
  ]

  -- A write of a first state over an initial order.
  first-Follows :
      (i : ℕ) (s : PaymentState) (w : World Value) (o : RawOrder)
      → found acls i w ≡ ok o
      → o.state ≡ initial
      → Edge initial s
      → Follows w.orders (store_state acls o.id s w).1.orders
  first-Follows i s w o h e edge =
      let f = found-find acls i w o h in
      let own : find (order_has_id o.id) w.orders ≡ some o =
        ap (λ k. find (order_has_id k) w.orders) (find-id i w.orders o f) ∙ f in
      store_state-Follows acls o.id s w o own (subst (λ a. Edge a s) (sym e) edge)

  order_decline_fiat-Follows :
      (refund : Refund → Result ServiceError (Unit {0})) (i : ℕ) (w : World Value) (o : RawOrder)
      → found acls i w ≡ ok o
      → o.state ≡ initial
      → Follows w.orders (order_decline_fiat refund acls o w).1.orders
  unfolding order_decline_fiat
  order_decline_fiat-Follows refund i w o h e = elim (Result-cases (charge_of acls o w)) [
    | inr (x, c) ↦ rw (c, order_decline_fiat) (Follows-refl w.orders)
    | inl (charge, c) ↦
        let asked : Refund = record {
          charge_id = charge;
          amount = o.total_amount;
          order_id = o.id;
        } in
        elim (Result-cases (refund asked)) [
          | inr (x, r) ↦ rw (c, r, order_decline_fiat) (Follows-refl w.orders)
          | inl (x, r) ↦
              rw (c, r, order_decline_fiat)
                (first-Follows i declined (record w { refunds = w.refunds ++ asked ∷ [] }) o h e
                  Edge.decline)
        ]
  ]

  pub order_decline-Follows :
      (refund : Refund → Result ServiceError (Unit {0})) (i : ℕ) (w : World Value)
      → Follows w.orders (order_decline refund acls i w).1.orders
  unfolding order_decline order_decline_crypto
  order_decline-Follows refund i w = elim (Result-cases (found acls i w)) [
    | inr (e, h) ↦ rw (h, order_decline) (Follows-refl w.orders)
    | inl (o, h) ↦ elim (Bool-cases (not (state_eq o.state initial))) [
      | inl e ↦ rw (h, e, order_decline) (Follows-refl w.orders)
      | inr e ↦ elim (Bool-cases (is_fiat o.seller_currency)) [
        | inl f ↦
            rw (h, e, f, order_decline) (order_decline_fiat-Follows refund i w o h (is_initial o e))
        | inr f ↦
            rw (h, e, f, order_decline)
              (first-Follows i refund_needed w o h (is_initial o e) Edge.decline_crypto)
      ]
    ]
  ]

  pub handle_payment_intent_capture-Follows :
      (stripe_fee : ℕ → RawOrder → Result ServiceError ℕ) (i : ℕ) (w : World Value)
      → Follows w.orders (handle_payment_intent_capture stripe_fee acls i w).1.orders
  unfolding handle_payment_intent_capture
  handle_payment_intent_capture-Follows stripe_fee i w = elim (Result-cases (found acls i w)) [
    | inr (e, h) ↦ rw (h, handle_payment_intent_capture) (Follows-refl w.orders)
    | inl (o, h) ↦ elim (Bool-cases (not (state_eq o.state initial) || is_some o.stripe_fee)) [
      | inl e ↦ rw (h, e, handle_payment_intent_capture) (Follows-refl w.orders)
      | inr e ↦ elim (Result-cases (charge_of acls o w >>= λ charge. stripe_fee charge o)) [
        | inr (x, c) ↦ rw (h, e, c, handle_payment_intent_capture) (Follows-refl w.orders)
        | inl (fee, c) ↦
            rw (h, e, c, handle_payment_intent_capture)
              (store_capture-Follows acls i fee w o (found-find acls i w o h)
                (subst (λ a. Edge a captured) (sym (is_initial o (ground arith))) Edge.capture))
      ]
    ]
  ]

  module _ {Event : Type 0} (to_value : Event → Option Value)
      (from_value : Value → Option Event) where
    pub order_capture-Follows :
        (event : ℕ → Event) (now i : ℕ) (w : World Value)
        → Follows w.orders (order_capture to_value from_value event now acls i w).1.orders
    unfolding order_capture order_capture_fiat order_capture_crypto
    order_capture-Follows event now i w = elim (Result-cases (found acls i w)) [
      | inr (e, h) ↦ rw (h, order_capture) (Follows-refl w.orders)
      | inl (o, h) ↦ elim (Bool-cases (not (state_eq o.state initial))) [
        | inl e ↦ rw (h, e, order_capture) (Follows-refl w.orders)
        | inr e ↦ elim (Bool-cases (is_fiat o.seller_currency)) [
          | inl f ↦ rw (h, e, f, order_capture) (Follows-refl w.orders)
          | inr f ↦
              rw (h, e, f, order_capture)
                (first-Follows i captured w o h (is_initial o e) Edge.capture)
        ]
      ]
    ]
