-- ===== src/Orders/Reach.antt =====
-- Sequences of order requests and capture events (src/services/order.rs,
-- src/event_handling/handlers.rs), and the states that they can lead an order to.
use billing.Base.{
  ℕ, ◌≡◌, refl, sym, subst, ◌∙◌, inl, inr, Bool, true, false, Option, some, List, [], ◌∷◌, Result,
  ServiceError,
}
use billing.Orders.State.{
  PaymentState, initial, declined, captured, refund_needed, refunded, paid_to_seller,
  payment_to_seller_needed,
}
use billing.Orders.{RawOrder}
use billing.Orders.Service.{
  World, Acls, Refund, order_decline, order_capture, update_order_state,
  handle_payment_intent_capture,
}
use billing.Orders.Edges.{Edge, Follows, state_of}
use billing.Orders.Runs.{
  update_order_state-Follows, order_decline-Follows, order_capture-Follows,
  handle_payment_intent_capture-Follows,
}

-- A request of the service or a capture event at work, with the access controls that it meets.
pub data Request : Type 0 where
  capture_request : Acls → (now id : ℕ) → Request
  decline_request : Acls → (id : ℕ) → Request
  state_request : Acls → (id : ℕ) → PaymentState → Request
  capture_event : Acls → (id : ℕ) → Request

module _ {Event Value : Type 0} (to_value : Event → Option Value)
    (from_value : Value → Option Event) (event : ℕ → Event)
    (refund : Refund → Result ServiceError (Unit {0}))
    (stripe_fee : ℕ → RawOrder → Result ServiceError ℕ) where
  unfoldable pub serve : Request → World Value → World Value
  serve (capture_request acls now i) w = (order_capture to_value from_value event now acls i w).1
  serve (decline_request acls i) w = (order_decline refund acls i w).1
  serve (state_request acls i s) w = (update_order_state acls i s w).1
  serve (capture_event acls i) w = (handle_payment_intent_capture stripe_fee acls i w).1

  unfoldable pub serve_all : List Request → World Value → World Value
  unfolding serve
  serve_all [] w = w
  serve_all (r ∷ requests) w = serve_all requests (serve r w)

  serve-Follows : (r : Request) (w : World Value) → Follows w.orders (serve r w).orders
  unfolding serve
  serve-Follows (capture_request acls now i) w =
      order_capture-Follows acls to_value from_value event now i w
  serve-Follows (decline_request acls i) w = order_decline-Follows acls refund i w
  serve-Follows (state_request acls i s) w = update_order_state-Follows acls i s w
  serve-Follows (capture_event acls i) w = handle_payment_intent_capture-Follows acls stripe_fee i w

-- What can become of an order.
abbrev pub can_become : PaymentState → PaymentState → Bool
can_become initial b = true
can_become captured initial = false
can_become captured declined = false
can_become captured b = true
can_become refund_needed refund_needed = true
can_become refund_needed refunded = true
can_become refund_needed b = false
can_become payment_to_seller_needed payment_to_seller_needed = true
can_become payment_to_seller_needed paid_to_seller = true
can_become payment_to_seller_needed b = false
can_become declined declined = true
can_become declined b = false
can_become refunded refunded = true
can_become refunded b = false
can_become paid_to_seller paid_to_seller = true
can_become paid_to_seller b = false

can_become_refl : (a : PaymentState) → can_become a a ≡ true
can_become_refl initial = refl
can_become_refl _ = refl

Edge-can_become :
    (b c : PaymentState)
    → Edge b c
    → (a : PaymentState) → can_become a b ≡ true
    → can_become a c ≡ true
Edge-can_become _ _ Edge.capture initial h = cc
Edge-can_become _ _ Edge.capture _ h = cc
Edge-can_become _ _ Edge.decline initial h = cc
Edge-can_become _ _ Edge.decline _ h = cc
Edge-can_become _ _ Edge.decline_crypto initial h = cc
Edge-can_become _ _ Edge.decline_crypto _ h = cc
Edge-can_become _ _ Edge.to_refund initial h = cc
Edge-can_become _ _ Edge.to_refund _ h = cc
Edge-can_become _ _ Edge.to_seller initial h = cc
Edge-can_become _ _ Edge.to_seller _ h = cc
Edge-can_become _ _ Edge.refund initial h = cc
Edge-can_become _ _ Edge.refund _ h = cc
Edge-can_become _ _ Edge.pay initial h = cc
Edge-can_become _ _ Edge.pay _ h = cc

module _ {Event Value : Type 0} (to_value : Event → Option Value)
    (from_value : Value → Option Event) (event : ℕ → Event)
    (refund : Refund → Result ServiceError (Unit {0}))
    (stripe_fee : ℕ → RawOrder → Result ServiceError ℕ) where
  reach :
      (requests : List Request) (j : ℕ) (w : World Value) (a b : PaymentState)
      → can_become a b ≡ true
      → state_of j w.orders ≡ some b
      → (c : PaymentState) × (state_of j
            (serve_all to_value from_value event refund stripe_fee requests w).orders
          ≡ some c)
        × (can_become a c ≡ true)
  unfolding serve_all
  reach [] j w a b h e = (b, e, h)
  reach (r ∷ requests) j w a b h e =
      elim (serve-Follows to_value from_value event refund stripe_fee r w j) [
        | inl same ↦
            reach requests j (serve to_value from_value event refund stripe_fee r w) a b h
              (same ∙ e)
        | inr (x, y, was, now, edge) ↦
            let xb : x ≡ b = (let g : some x ≡ some b = sym was ∙ e in cc) in
            reach requests j (serve to_value from_value event refund stripe_fee r w) a y
              (Edge-can_become b y (subst (λ s. Edge s y) xb edge) a h) now
      ]

  -- Whatever requests and capture events follow, in whatever order and from whomever, an order of
  -- state `a` stays in the table, and its state is then one that `can_become` allows from `a`: a
  -- declined, refunded or paid order keeps its state, one whose refund is due can only be refunded,
  -- and one whose payment is due can only be paid.
  pub serve_all-can_become :
      (requests : List Request) (j : ℕ) (w : World Value) (a : PaymentState)
      → state_of j w.orders ≡ some a
      → (c : PaymentState) × (state_of j
            (serve_all to_value from_value event refund stripe_fee requests w).orders
          ≡ some c)
        × (can_become a c ≡ true)
  serve_all-can_become requests j w a e = reach requests j w a a (can_become_refl a) e
