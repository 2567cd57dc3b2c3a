-- ===== src/Invoices/Refresh.antt =====
-- The rates of an invoice's orders from the payments gateway, and the recalculation of an invoice
-- (`get_rate`, `reserve_or_refresh_rate`, `refresh_rates`,
-- `get_missing_rates_from_payments_gateway_and_refresh_existing_rates` and `recalc_invoice_v2` of
-- src/services/invoice.rs).
use billing.Base.{
  ℕ, Bool, true, false, Option, none, some, is_some, List, [], ◌∷◌, if◌then◌else◌, Result, ok, err,
  ok_or, map_err, ServiceError, from_repo, ◌>>=◌,
}
use billing.Currency.{TureCurrency, is_fiat, try_from_currency}
use billing.Amount.SuperUnits.{Decimals}
use billing.Accounts.{ture_eq}
use billing.Acl.{Acl}
use billing.Orders.{RawOrder}
use billing.Rates.{RawOrderExchangeRate, NewOrderExchangeRate, add_new_active_rate}
use billing.Invoices.{RawInvoice}
use billing.Invoices.Price.{InvoiceDump, calculate_invoice_price}
use billing.Invoices.Settlement.{
  World, Acls, get_order_active_rates, wallet_of,
  calculate_invoice_price_and_set_final_price_if_paid,
}

-- `GetRate`
pub record GetRate : Type 0 where
  pub id : ℕ
  pub from_currency : TureCurrency
  pub to_currency : TureCurrency
  pub amount_currency : TureCurrency
  pub amount : ℕ

-- `Rate`, its two fields that are read.
pub record Rate (Number : Type 0) : Type 0 where
  pub id : ℕ
  pub rate : Number

-- `RateRefresh`
pub record RateRefresh (Number : Type 0) : Type 0 where
  pub rate : Rate Number
  pub is_new_rate : Bool

-- The calls for rates of the payments gateway, an outside service with the state `G`; `E` is what it
-- fails with.
pub record RatesClient (Number G E : Type 0) : Type 0 where
  pub get_rate : GetRate → G → Result E (Rate Number) × G
  pub refresh_rate : ℕ → G → Result E (RateRefresh Number) × G

abbrev as_internal : {E : Type 0} → E → ServiceError
as_internal failure = ServiceError.internal

-- `to_ture_currency`
abbrev pub to_ture_currency : billing.Currency.Currency → Result ServiceError TureCurrency
to_ture_currency c = ok_or (try_from_currency c) ServiceError.internal

module _ {Number : Type 0} where
  unfoldable pub new_rate : ℕ → Option ℕ × Number → NewOrderExchangeRate Number
  new_rate order (id, rate) = record { order_id = order; exchange_id = id; exchange_rate = rate }

  -- The answer to a refresh: an unchanged rate is not stored again.
  unfoldable pub refreshed : ℕ → RateRefresh Number → Option (NewOrderExchangeRate Number)
  unfolding new_rate
  refreshed order r =
      if r.is_new_rate then some (new_rate order (some r.rate.id, r.rate.rate)) else none

  -- `filter_map(|x| x)`
  abbrev pub prepend :
      Option (NewOrderExchangeRate Number)
      → List (NewOrderExchangeRate Number)
      → List (NewOrderExchangeRate Number)
  prepend none rates = rates
  prepend (some r) rates = r ∷ rates

module _ {Number G E : Type 0} (decimals : Decimals Number) (client : RatesClient Number G E)
    (new_v4 : ℕ → ℕ) where
  -- `get_rate`; `new_v4` gives the identifier of the request for an order.
  unfoldable pub get_rate :
      (order : ℕ)
      → (buyer seller : TureCurrency) → (total : ℕ) → G
      → Result ServiceError (Option ℕ × Number) × G
  unfolding ture_eq
  get_rate order buyer seller total g =
      if ture_eq buyer seller
      then (ok (none, decimals.of_nat 1), g)
      else let (r, g') =
          client.get_rate
            (record {
              id = new_v4 order;
              from_currency = buyer;
              to_currency = seller;
              amount_currency = seller;
              amount = total;
            })
            g in
        (map_err as_internal r >>= λ rate. ok (some rate.id, rate.rate), g')

  -- `reserve_or_refresh_rate`
  unfoldable pub reserve_or_refresh_rate :
      TureCurrency
      → RawOrder
      → Option (RawOrderExchangeRate Number)
      → G
      → Result ServiceError (Option (NewOrderExchangeRate Number)) × G
  unfolding try_from_currency get_rate new_rate refreshed
  reserve_or_refresh_rate buyer o none g = elim (to_ture_currency o.seller_currency) [
    | err e ↦ (err e, g)
    | ok seller ↦
        let (r, g') = get_rate o.id buyer seller o.total_amount g in
        (r >>= λ found. ok (some (new_rate o.id found)), g')
  ]
  reserve_or_refresh_rate buyer o (some current) g = elim current.exchange_id [
    | none ↦ (ok none, g)
    | some id ↦
        let (r, g') = client.refresh_rate id g in
        (map_err as_internal r >>= λ answer. ok (refreshed o.id answer), g')
  ]

  -- `refresh_rates`: one order after the other, up to the first failure.
  unfoldable pub refresh_rates :
      TureCurrency
      → List (RawOrder × Option (RawOrderExchangeRate Number))
      → G
      → Result ServiceError (List (NewOrderExchangeRate Number)) × G
  unfolding reserve_or_refresh_rate
  refresh_rates buyer [] g = (ok [], g)
  refresh_rates buyer ((o, current) ∷ orders) g =
      let (r, g') = reserve_or_refresh_rate buyer o current g in
      let (rest, g'') = refresh_rates buyer orders g' in
      elim r [ err e ↦ (err e, g') | ok new ↦ (rest >>= λ rates. ok (prepend new rates), g'') ]

module _ {Number : Type 0} (acl : Acl ℕ) where
  -- The rates are saved in order; those before a failure stay.
  unfoldable pub save_rates :
      ℕ
      → List (NewOrderExchangeRate Number)
      → billing.Rates.Table Number
      → Result ServiceError (Unit {0}) × billing.Rates.Table Number
  unfolding add_new_active_rate
  save_rates now [] t = (ok tt, t)
  save_rates now (n ∷ rates) t =
      let (r, t') = add_new_active_rate acl now n t in
      let rest = save_rates now rates t' in elim r [ err e ↦ (err (from_repo e), t') | ok _ ↦ rest ]

module _ {OrderState Number Value G E : Type 0} (decimals : Decimals Number)
    (client : Option (RatesClient Number G E)) (new_v4 : ℕ → ℕ) (acls : Acls) where
  -- `get_missing_rates_from_payments_gateway_and_refresh_existing_rates`; a service without
  -- payments has no client.
  unfoldable pub get_missing_rates :
      (now : ℕ)
      → RawInvoice OrderState
      → List (RawOrder × Option (RawOrderExchangeRate Number))
      → World OrderState Number Value × G
      → Result ServiceError (Unit {0}) × World OrderState Number Value × G
  unfolding try_from_currency refresh_rates save_rates
  get_missing_rates now i orders (w, g) = elim client [
    | none ↦ (err ServiceError.internal, w, g)
    | some c ↦ elim (to_ture_currency i.buyer_currency) [
      | err e ↦ (err e, w, g)
      | ok buyer ↦
          let (r, g') = refresh_rates decimals c new_v4 buyer orders g in
          elim r [
            | err e ↦ (err e, w, g')
            | ok rates ↦
                let (saved, t) = save_rates acls.rates now rates w.rates in
                (saved, record w { rates = t }, g')
          ]
    ]
  ]

  -- The rates of an invoice in a fiat currency are not asked for.
  unfoldable pub refresh_if_crypto :
      (now : ℕ)
      → RawInvoice OrderState
      → List (RawOrder × Option (RawOrderExchangeRate Number))
      → World OrderState Number Value × G
      → Result ServiceError (Unit {0}) × World OrderState Number Value × G
  unfolding is_fiat get_missing_rates
  refresh_if_crypto now i orders (w, g) =
      if is_fiat i.buyer_currency then (ok tt, w, g) else get_missing_rates now i orders (w, g)

module _ {Number : Type 0} where
  -- The active rate of each order as the list of its rates.
  abbrev pub as_rates :
      List (RawOrder × Option (RawOrderExchangeRate Number))
      → List (RawOrder × List (RawOrderExchangeRate Number))
  as_rates [] = []
  as_rates ((o, none) ∷ orders) = (o, []) ∷ as_rates orders
  as_rates ((o, some r) ∷ orders) = (o, r ∷ []) ∷ as_rates orders

module _ {OrderState Number Value : Type 0} (acls : Acls) where
  -- What the first part of `recalc_invoice_v2` reads after the invoice.
  unfoldable pub rates_and_wallet :
      ℕ
      → RawInvoice OrderState
      → World OrderState Number Value
      → Result ServiceError (List (RawOrder × Option (RawOrderExchangeRate Number)) × Option ℕ)
  unfolding get_order_active_rates wallet_of
  rates_and_wallet k i w = get_order_active_rates acls k w >>= λ orders.
      wallet_of acls i w >>= λ wallet. ok (orders, wallet)

module _ {OrderState Number Event Value G E : Type 0} (decimals : Decimals Number)
    (client : Option (RatesClient Number G E)) (new_v4 : ℕ → ℕ) (paid : OrderState)
    (to_value : Event → Option Value) (from_value : Value → Option Event) (event : ℕ → Event)
    (acls : Acls) where
  -- The second part of `recalc_invoice_v2`, with what the first part read.
  unfoldable pub recalculate :
      (now : ℕ)
      → RawInvoice OrderState
      → List (RawOrder × Option (RawOrderExchangeRate Number))
      → Option ℕ
      → World OrderState Number Value × G
      → Result ServiceError (Option (InvoiceDump OrderState Number))
        × World OrderState Number Value
        × G
  unfolding calculate_invoice_price refresh_if_crypto
      calculate_invoice_price_and_set_final_price_if_paid
  recalculate now i orders wallet (w, g) = elim (is_some i.paid_at) [
    | true ↦ (ok (some (calculate_invoice_price decimals i (as_rates orders) wallet)), w, g)
    | false ↦
        let (done, w', g') = refresh_if_crypto decimals client new_v4 acls now i orders (w, g) in
        let (r, w'') =
          calculate_invoice_price_and_set_final_price_if_paid decimals paid to_value from_value
            event acls now i.id w' in
        elim done [ err e ↦ (err e, w', g') | ok _ ↦ (r >>= λ dump. ok (some dump), w'', g') ]
  ]

  -- `recalc_invoice_v2`
  unfoldable pub recalc_invoice_v2 :
      (now k : ℕ)
      → World OrderState Number Value × G
      → Result ServiceError (Option (InvoiceDump OrderState Number))
        × World OrderState Number Value
        × G
  unfolding billing.Invoices.get rates_and_wallet recalculate
  recalc_invoice_v2 now k (w, g) =
      elim (map_err from_repo (billing.Invoices.get acls.invoices k w.invoices)) [
        | err e ↦ (err e, w, g)
        | ok none ↦ (ok none, w, g)
        | ok (some i) ↦ elim (rates_and_wallet acls k i w) [
          | err e ↦ (err e, w, g)
          | ok (orders, wallet) ↦ recalculate now i orders wallet (w, g)
        ]
      ]
