-- ===== src/Orders/Tests.antt =====
-- The order service at a small table.
use billing.Base.{
  ◌==◌, ℕ, ◌≡◌, refl, true, false, Option, none, some, List, [], ◌∷◌, ◌++◌, find, update_if, Result,
  ok, err, RepoError, ServiceError,
}
use billing.Currency.{Currency, is_fiat}
use billing.Acl.{Acl}
use billing.PaymentIntents.{succeeded, get_payment_intent, get_payment_intent_invoice}
use billing.PaymentIntents.{PaymentIntent, PaymentIntentInvoice}
use billing.Orders.State.{
  PaymentState, initial, declined, paid_to_seller, payment_to_seller_needed, state_code,
}
use billing.Orders.{
  RawOrder, OrderAccess, order_has_id, set_state, get, update_state, update_row, check_all,
  is_for_payout, get_many, get_orders_for_payout, delete,
}
use billing.Orders.Service.{
  World, Acls, Refund, found, charge_of, order_decline, order_decline_fiat, store_state,
  order_capture,
}
use billing.Orders.Edges.{state_of}
use billing.Orders.Reach.{
  Request, decline_request, state_request, capture_event, serve_all, can_become,
  serve_all-can_become,
}
use billing.Orders.Refunds.{order_decline-refund, order_decline-wrong_state}
use billing.Orders.Access.{delete-forbidden}

abbrev order : ℕ → Currency → PaymentState → RawOrder
order i c s = record {
  id = i;
  seller_currency = c;
  total_amount = 500;
  cashback_amount = 0;
  invoice_id = 90;
  store_id = 5;
  state = s;
  stripe_fee = none;
}

abbrev orders : List RawOrder
orders = order 1 Currency.usd initial ∷ order 2 Currency.eth payment_to_seller_needed ∷ []

abbrev acls : Acls
acls = record {
  orders = λ r a o. true;
  payment_intents = λ r a o. true;
  payment_intents_invoices = λ r a o. true;
}

abbrev world : World ℕ
world = record {
  orders = orders;
  events = record { rows = []; next_id = 1 };
  payment_intents =
      record {
        id = 70;
        amount = 500;
        amount_received = 500;
        charge_id = some 33;
        status = succeeded;
      }
      ∷ [];
  payment_intents_invoices = record { invoice_id = 90; payment_intent_id = 70 } ∷ [];
  refunds = [];
}

abbrev json : ℕ → Option ℕ
json = some

abbrev event : ℕ → ℕ
event i = i

abbrev taken : Refund → Result ServiceError (Unit {0})
taken r = ok tt

abbrev fee : ℕ → RawOrder → Result ServiceError ℕ
fee charge o = ok 3

abbrev requests : List Request
requests = decline_request acls 1 ∷ state_request acls 2 paid_to_seller ∷ capture_event acls 1 ∷ []

serve_all_example :
    (c : PaymentState) × (state_of 2 (serve_all json json event taken fee requests world).orders
      ≡ some c)
    × (can_become payment_to_seller_needed c ≡ true)
serve_all_example =
    serve_all-can_become json json event taken fee requests 2 world payment_to_seller_needed refl

found_first : found acls 1 world ≡ ok (order 1 Currency.usd initial)
unfolding get
found_first = refl

found_second : found acls 2 world ≡ ok (order 2 Currency.eth payment_to_seller_needed)
unfolding get
found_second = refl

usd-is_fiat : is_fiat Currency.usd ≡ true
unfolding is_fiat
usd-is_fiat = refl

declines : (order_decline taken acls 1 world).0 ≡ ok tt
unfolding order_decline order_decline_fiat charge_of store_state update_state update_row get
    get_payment_intent_invoice get_payment_intent is_fiat state_code
declines = refl

due_orders :
    get_orders_for_payout acls.orders 5 none orders
    ≡ ok (order 2 Currency.eth payment_to_seller_needed ∷ [])
unfolding get_orders_for_payout is_for_payout check_all state_code
due_orders = refl

second_order :
    get_many acls.orders (2 ∷ []) orders ≡ ok (order 2 Currency.eth payment_to_seller_needed ∷ [])
unfolding get_many check_all
second_order = refl

order_decline-refund_example :
    (charge : ℕ) × ((link : PaymentIntentInvoice) × (intent : PaymentIntent) × (find
          (λ l. l.invoice_id == 90)
          world.payment_intents_invoices
        ≡ some link)
      × (find (λ p. p.id == link.payment_intent_id) world.payment_intents ≡ some intent)
      × (intent.charge_id ≡ some charge))
    × ((order_decline taken acls 1 world).1 ≡ record world {
      orders = update_if (order_has_id 1) (set_state declined) orders;
      refunds = [] ++ record { charge_id = charge; amount = 500; order_id = 1 } ∷ [];
    })
    × (state_of 1 (order_decline taken acls 1 world).1.orders ≡ some declined)
order_decline-refund_example =
    order_decline-refund acls taken 1 world (order 1 Currency.usd initial) found_first usd-is_fiat
      declines

wrong_state_example :
    (order_decline taken acls 2 world ≡ (err ServiceError.validation, world))
    × (order_capture json json event 4 acls 2 world ≡ (err ServiceError.validation, world))
wrong_state_example =
    order_decline-wrong_state acls json json event taken 4 2 world
      (order 2 Currency.eth payment_to_seller_needed) found_second (λ e. cc)

abbrev nothing : Acl OrderAccess
nothing r a o = false

delete-forbidden_example :
    ((delete nothing 1 orders).0 ≡ err RepoError.forbidden)
    × (find (order_has_id 1) (delete nothing 1 orders).1 ≡ none)
delete-forbidden_example =
    delete-forbidden nothing 1 orders (order 1 Currency.usd initial) refl refl
