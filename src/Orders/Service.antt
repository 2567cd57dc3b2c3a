-- ===== src/Orders/Service.antt =====
-- The order service (src/services/order.rs), and the handler of the capture event
-- (`handle_payment_intent_capture` of src/event_handling/handlers.rs).
use billing.Base.{
  ℕ, Bool, true, false, ◌||◌, not, Option, List, [], ◌∷◌, ◌++◌, if◌then◌else◌, is_some, Result, ok,
  err, map_err, ok_or, ◌>>=◌, ServiceError, HandlerError, from_repo,
}
use billing.Currency.{is_fiat}
use billing.Acl.{Acl}
use billing.EventStore.{Table, add_event}
use billing.PaymentIntents.{
  PaymentIntent, PaymentIntentInvoice, get_payment_intent, get_payment_intent_invoice,
}
use billing.Orders.State.{
  PaymentState, initial, declined, captured, refund_needed, refunded, paid_to_seller,
  payment_to_seller_needed, state_eq,
}
use billing.Orders.{RawOrder, OrderAccess, get, update_state, update_stripe_fee}

-- `check_change_order_payment_state`
unfoldable pub check_change_order_payment_state : PaymentState → PaymentState → Bool
check_change_order_payment_state initial captured = true
check_change_order_payment_state initial declined = true
check_change_order_payment_state captured refund_needed = true
check_change_order_payment_state captured payment_to_seller_needed = true
check_change_order_payment_state refund_needed refunded = true
check_change_order_payment_state payment_to_seller_needed paid_to_seller = true
check_change_order_payment_state _ _ = false

-- A refund asked of the card processor: the charge, the amount and the order.
pub record Refund : Type 0 where
  pub charge_id : ℕ
  pub amount : ℕ
  pub order_id : ℕ

-- What the service reads and writes: the tables, and the refunds that the card processor took.
pub record World (Value : Type 0) : Type 0 where
  pub orders : List RawOrder
  pub events : Table Value
  pub payment_intents : List PaymentIntent
  pub payment_intents_invoices : List PaymentIntentInvoice
  pub refunds : List Refund

abbrev pub Outcome : Type 0 → Type 0
Outcome Value = Result ServiceError (Unit {0}) × World Value

abbrev pub HandlerOutcome : Type 0 → Type 0
HandlerOutcome Value = Result HandlerError (Unit {0}) × World Value

-- The access controls of the repositories that a request uses.
pub record Acls : Type 0 where
  pub orders : Acl OrderAccess
  pub payment_intents : Acl ℕ
  pub payment_intents_invoices : Acl PaymentIntentInvoice

module _ {Value : Type 0} where
  -- `orders_repo.get(…)?.ok_or(…)?`
  abbrev pub found : Acls → ℕ → World Value → Result ServiceError RawOrder
  found acls i w =
      map_err from_repo (get acls.orders i w.orders) >>= λ o. ok_or o ServiceError.internal

  -- A call of `update_state` on the world, its answer dropped.
  unfoldable pub store_state : Acls → ℕ → PaymentState → World Value → Outcome Value
  store_state acls i s w =
      let (r, rows) = update_state acls.orders i s w.orders in
      (map_err from_repo r >>= λ o. ok tt, record w { orders = rows })

  -- The charge that paid the invoice of an order.
  unfoldable pub charge_of : Acls → RawOrder → World Value → Result ServiceError ℕ
  charge_of acls order w =
      map_err from_repo (
        get_payment_intent_invoice acls.payment_intents_invoices order.invoice_id
          w.payment_intents_invoices)
      >>= λ l. ok_or l ServiceError.internal >>= λ link.
          map_err from_repo
            (get_payment_intent acls.payment_intents link.payment_intent_id w.payment_intents)
          >>= λ p. ok_or p ServiceError.internal >>= λ intent.
              ok_or intent.charge_id ServiceError.internal

  -- `order_decline_fiat`; `refund` is what the card processor answers.
  unfoldable pub order_decline_fiat :
      (Refund → Result ServiceError (Unit {0})) → Acls → RawOrder → World Value → Outcome Value
  unfolding charge_of store_state
  order_decline_fiat refund acls order w = elim (charge_of acls order w) [
    | err e ↦ (err e, w)
    | ok charge ↦
        let asked : Refund = record {
          charge_id = charge;
          amount = order.total_amount;
          order_id = order.id;
        } in
        elim (refund asked) [
          | err e ↦ (err e, w)
          | ok _ ↦
              store_state acls order.id declined (record w { refunds = w.refunds ++ asked ∷ [] })
        ]
  ]

  -- `order_capture_crypto` and `order_decline_crypto`
  unfoldable pub order_capture_crypto : Acls → RawOrder → World Value → Outcome Value
  unfolding store_state
  order_capture_crypto acls order = store_state acls order.id captured

  unfoldable pub order_decline_crypto : Acls → RawOrder → World Value → Outcome Value
  unfolding store_state
  order_decline_crypto acls order = store_state acls order.id refund_needed

  -- `order_decline`
  unfoldable pub order_decline :
      (Refund → Result ServiceError (Unit {0})) → Acls → ℕ → World Value → Outcome Value
  unfolding order_decline_fiat order_decline_crypto
  order_decline refund acls i w = elim (found acls i w) [
    | err e ↦ (err e, w)
    | ok order ↦
        if not (state_eq order.state initial)
        then (err ServiceError.validation, w)
        else if is_fiat order.seller_currency
        then order_decline_fiat refund acls order w
        else order_decline_crypto acls order w
  ]

  -- `update_order_state`
  unfoldable pub update_order_state : Acls → ℕ → PaymentState → World Value → Outcome Value
  unfolding store_state check_change_order_payment_state
  update_order_state acls i s w = elim (found acls i w) [
    | err e ↦ (err e, w)
    | ok order ↦
        if check_change_order_payment_state order.state s
        then store_state acls i s w
        else (err ServiceError.validation, w)
  ]

  -- The two writes that end `handle_payment_intent_capture`; they are not in a transaction.
  unfoldable pub store_capture : Acls → ℕ → ℕ → World Value → HandlerOutcome Value
  store_capture acls i fee w =
      let (r, rows) = update_state acls.orders i captured w.orders in
      elim r [
        | err e ↦ (err HandlerError.internal, record w { orders = rows })
        | ok _ ↦
            let (r', rows') = update_stripe_fee acls.orders i fee rows in
            (map_err (λ _. HandlerError.internal) r' >>= λ o. ok tt, record w { orders = rows' })
      ]

  -- `handle_payment_intent_capture`; `stripe_fee` is the share of the charge's fee that falls on
  -- the order, which the card processor and floating-point numbers decide.
  unfoldable pub handle_payment_intent_capture :
      (stripe_fee : ℕ → RawOrder → Result ServiceError ℕ)
      → Acls
      → ℕ
      → World Value
      → HandlerOutcome Value
  unfolding charge_of store_capture
  handle_payment_intent_capture stripe_fee acls i w = elim (found acls i w) [
    | err e ↦ (err HandlerError.internal, w)
    | ok order ↦
        if not (state_eq order.state initial) || is_some order.stripe_fee
        then (ok tt, w)
        else elim (charge_of acls order w >>= λ charge. stripe_fee charge order) [
          | err e ↦ (err HandlerError.internal, w)
          | ok fee ↦ store_capture acls i fee w
        ]
  ]

module _ {Event Value : Type 0} (to_value : Event → Option Value)
    (from_value : Value → Option Event) where
  -- `order_capture_fiat`; `event` builds the capture event of an order, under a new id.
  unfoldable pub order_capture_fiat :
      (event : ℕ → Event) → (now : ℕ) → RawOrder → World Value → Outcome Value
  order_capture_fiat event now order w =
      let (r, events) = add_event to_value from_value now (event order.id) w.events in
      (map_err from_repo r >>= λ e. ok tt, record w { events = events })

  -- `order_capture`
  unfoldable pub order_capture :
      (event : ℕ → Event) → (now : ℕ) → Acls → ℕ → World Value → Outcome Value
  unfolding order_capture_fiat order_capture_crypto
  order_capture event now acls i w = elim (found acls i w) [
    | err e ↦ (err e, w)
    | ok order ↦
        if not (state_eq order.state initial)
        then (err ServiceError.validation, w)
        else if is_fiat order.seller_currency
        then order_capture_fiat event now order w
        else order_capture_crypto acls order w
  ]
