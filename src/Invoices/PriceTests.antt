-- ===== src/Invoices/PriceTests.antt =====
-- The price of a small invoice, its payment and its recalculation.
use billing.Base.{
  List, ◌∷◌, [], ℕ, ◌+◌, ◌*◌, ◌/◌, ◌-◌, ◌^◌, ◌≤◌, ◌≡◌, refl, true, false, Option, none, some, [],
  ◌∷◌, length, find, ltb, leb, if◌then◌else◌, ok,
}
use billing.Currency.{Currency}
use billing.Amount.SuperUnits.{Decimals, to_super_unit, from_super_unit}
use billing.Acl.{system_acl}
use billing.EventStore
use billing.Orders.{RawOrder}
use billing.Orders.State.{PaymentState}
use billing.Rates.{RawOrderExchangeRate, active}
use billing.Invoices.{RawInvoice, invoice_has_id}
use billing.Invoices.Settlement.{World, Acls, calculate_invoice_price_and_set_final_price_if_paid}
use billing.Invoices.Published.{Step, published_all, published_all-once}
use billing.Invoices.Refresh.{RatesClient, recalc_invoice_v2}

-- Decimal numbers with 18 digits after the point.
abbrev one : ℕ
one = 10 ^ 18

abbrev decimals : Decimals ℕ
decimals = record {
  of_nat = λ n. n * one;
  plus = λ a b. a + b;
  times = λ a b. (a * b) / one;
  divided = λ a b. (a * one) / b;
  at_most = leb;
  with_scale = λ p n. (n / 10 ^ (18 - p)) * 10 ^ (18 - p);
  to_u128 = λ n. if ltb (n / one) (2 ^ 128) then some (n / one) else none;
}

-- Two bitcoins captured of an order of ten STQ, whose rate of five is reserved.
abbrev invoice : RawInvoice ℕ
invoice = record {
  id = 90;
  account_id = none;
  buyer_currency = Currency.btc;
  amount_captured = 2 * 10 ^ 8;
  final_amount_paid = none;
  final_cashback_amount = none;
  paid_at = none;
  created_at = 1;
  buyer_user_id = 7;
  status = 0;
}

abbrev order : RawOrder
order = record {
  id = 11;
  seller_currency = Currency.stq;
  total_amount = 10 * 10 ^ 18;
  cashback_amount = 10 ^ 18;
  invoice_id = 90;
  store_id = 3;
  state = PaymentState.initial;
  stripe_fee = none;
}

abbrev rate : RawOrderExchangeRate ℕ
rate = record {
  id = 1;
  order_id = 11;
  exchange_id = some 70;
  exchange_rate = 5 * one;
  status = active;
  created_at = 2;
  updated_at = 2;
}

abbrev acls : Acls
acls = record {
  invoices = system_acl;
  orders = system_acl;
  rates = system_acl;
  accounts = system_acl;
}

-- An event is told by the number of its invoice.
abbrev world : World ℕ ℕ ℕ
world = record {
  invoices = record { invoices = invoice ∷ []; amounts = [] };
  orders = order ∷ [];
  rates = record { rows = rate ∷ []; next_id = 2 };
  accounts = [];
  events = record { rows = []; next_id = 1 };
}

abbrev same_value : ℕ → Option ℕ
same_value n = some n

abbrev same_event : ℕ → ℕ
same_event n = n

-- A gateway that counts its calls and asks for a new rate at a refresh.
abbrev gateway : RatesClient ℕ ℕ (Unit {0})
gateway = record {
  get_rate = λ input g. (ok (record { id = 71; rate = 4 * one }), g + 1);
  refresh_rate = λ id g.
      (ok (record { rate = record { id = 72; rate = 4 * one }; is_new_rate = true }), g + 1);
}

abbrev settled : World ℕ ℕ ℕ
settled =
    (calculate_invoice_price_and_set_final_price_if_paid decimals 1 same_value same_value same_event
      acls 5 90 world).1

to_super_unit_lem : to_super_unit decimals 150 Currency.usd ≡ one + one / 2
unfolding to_super_unit
to_super_unit_lem = refl

from_super_unit_lem : from_super_unit decimals Currency.usd (one + one / 2) ≡ some 150
unfolding from_super_unit
from_super_unit_lem = refl

price_lem :
    find (invoice_has_id 90) settled.invoices.invoices
    ≡ some (record invoice {
      final_amount_paid = some (2 * 10 ^ 8);
      final_cashback_amount = some 0;
      paid_at = some 5;
      status = 1;
    })
unfolding calculate_invoice_price_and_set_final_price_if_paid system_acl
    billing.Currency.currency_code billing.EventStore.Entry.try_from_event
    billing.EventStore.Entry.try_into_event_entry billing.EventStore.Entry.from_str
    billing.EventStore.Entry.to_string
price_lem = refl

-- At the rate of four that the gateway gives, the price is above what was captured.
recalc_lem :
    length
      (recalc_invoice_v2 decimals
        (some gateway)
        same_event
        1
        same_value
        same_value
        same_event
        acls
        5
        90
        (world, 0)).1.events.rows
    ≡ 0
unfolding recalc_invoice_v2 system_acl billing.Currency.currency_code
recalc_lem = refl

-- Two callers recalculate, an amount is received between, and the orders change.
abbrev steps : List (Step ℕ ℕ)
steps =
    Step.recalculate acls 5 90
    ∷ Step.receive system_acl 6 4 502 12
    ∷ Step.other_writes [] (record { rows = []; next_id = 2 }) []
        (record { rows = []; next_id = 2 })
    ∷ Step.recalculate (record acls { invoices = λ r a o. false }) 8 90
    ∷ Step.recalculate acls 9 90
    ∷ []

published_once : published_all decimals 0 1 same_value same_value same_event 90 steps world ≡ 1
unfolding published_all system_acl billing.Currency.currency_code
    billing.EventStore.Entry.try_from_event billing.EventStore.Entry.try_into_event_entry
    billing.EventStore.Entry.from_str billing.EventStore.Entry.to_string
published_once = refl

published_all-once_example :
    published_all decimals 0 1 same_value same_value same_event 90 steps world ≤ 1
published_all-once_example =
    published_all-once decimals 0 1 same_value same_value same_event steps 90 world
