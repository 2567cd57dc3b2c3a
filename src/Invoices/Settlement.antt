-- ===== src/Invoices/Settlement.antt =====
-- The price of a stored invoice, and the moment in which an invoice becomes paid
-- (`get_order_active_rates`, `get_invoice_price_by_invoice_id`, `get_invoice_price` and
-- `calculate_invoice_price_and_set_final_price_if_paid` of src/services/invoice.rs).
use billing.Base.{
  ℕ, Bool, true, false, ◌&&◌, not, Option, none, some, is_some, List, [], ◌∷◌, Result, ok, err,
  ok_or, map_err, ServiceError, from_repo, ◌>>=◌,
}
use billing.Currency.{Currency}
use billing.Amount.SuperUnits.{Decimals, from_super_unit, to_super_unit}
use billing.Acl.{Acl}
use billing.Accounts.{Account}
use billing.EventStore
use billing.Orders.{RawOrder, OrderAccess, get_many_by_invoice_id}
use billing.Rates.{RawOrderExchangeRate, get_all_rates_for_order, get_active_rate_for_order}
use billing.Invoices.{RawInvoice, InvoiceSetAmountPaid, Tables, set_amount_paid}
use billing.Invoices.Price.{InvoiceDump, calculate_invoice_price}

-- The tables that the service reads and writes.
pub record World (OrderState Number Value : Type 0) : Type 0 where
  pub invoices : Tables OrderState
  pub orders : List RawOrder
  pub rates : billing.Rates.Table Number
  pub accounts : List Account
  pub events : billing.EventStore.Table Value

-- The access controls that the repositories of a call are made with.
pub record Acls : Type 0 where
  pub invoices : Acl ℕ
  pub orders : Acl OrderAccess
  pub rates : Acl ℕ
  pub accounts : Acl Account

module _ {Number : Type 0} (acl : Acl ℕ) where
  -- The loop of `get_order_active_rates`.
  unfoldable pub with_active_rates :
      List RawOrder
      → billing.Rates.Table Number
      → Result ServiceError (List (RawOrder × Option (RawOrderExchangeRate Number)))
  unfolding get_active_rate_for_order
  with_active_rates [] t = ok []
  with_active_rates (o ∷ orders) t =
      map_err from_repo (get_active_rate_for_order acl o.id t) >>= λ rate.
      with_active_rates orders t >>= λ rest. ok ((o, rate) ∷ rest)

  -- The loop of `get_invoice_price`.
  unfoldable pub with_rates :
      List RawOrder
      → billing.Rates.Table Number
      → Result ServiceError (List (RawOrder × List (RawOrderExchangeRate Number)))
  unfolding get_all_rates_for_order
  with_rates [] t = ok []
  with_rates (o ∷ orders) t = map_err from_repo (get_all_rates_for_order acl o.id t) >>= λ rates.
      with_rates orders t >>= λ rest. ok ((o, rates) ∷ rest)

module _ {OrderState Number Value : Type 0} (acls : Acls) where
  -- `get_order_active_rates`
  unfoldable pub get_order_active_rates :
      ℕ
      → World OrderState Number Value
      → Result ServiceError (List (RawOrder × Option (RawOrderExchangeRate Number)))
  unfolding get_many_by_invoice_id with_active_rates
  get_order_active_rates k w =
      map_err from_repo (get_many_by_invoice_id acls.orders k w.orders) >>= λ orders.
      with_active_rates acls.rates orders w.rates

  -- The wallet address of the invoice's account; an account that is not there is an error.
  unfoldable pub wallet_of :
      RawInvoice OrderState → World OrderState Number Value → Result ServiceError (Option ℕ)
  unfolding billing.Accounts.get
  wallet_of i w = elim i.account_id [
    | none ↦ ok none
    | some a ↦
        map_err from_repo (
          billing.Accounts.get acls.accounts a
            (record { accounts = w.accounts; invoices = w.invoices.invoices }))
        >>= λ found.
            ok_or found ServiceError.internal >>= λ account. ok (some account.wallet_address)
  ]

module _ {OrderState Number Value : Type 0} (decimals : Decimals Number) (acls : Acls) where
  -- `get_invoice_price`
  unfoldable pub get_invoice_price :
      RawInvoice OrderState
      → World OrderState Number Value
      → Result ServiceError (InvoiceDump OrderState Number)
  unfolding get_many_by_invoice_id with_rates wallet_of calculate_invoice_price
  get_invoice_price i w =
      map_err from_repo (get_many_by_invoice_id acls.orders i.id w.orders) >>= λ orders.
      with_rates acls.rates orders w.rates >>= λ with_all.
      wallet_of acls i w >>= λ wallet. ok (calculate_invoice_price decimals i with_all wallet)

  -- `get_invoice_price_by_invoice_id`
  unfoldable pub get_invoice_price_by_invoice_id :
      ℕ
      → World OrderState Number Value
      → Result ServiceError (Option (InvoiceDump OrderState Number))
  unfolding get_invoice_price billing.Invoices.get
  get_invoice_price_by_invoice_id k w =
      map_err from_repo (billing.Invoices.get acls.invoices k w.invoices) >>= λ found. elim found [
        | none ↦ ok none
        | some i ↦ get_invoice_price i w >>= λ dump. ok (some dump)
      ]

-- `unwrap_or(BigDecimal::from(0))`
abbrev pub or_zero : {Number : Type 0} → Decimals Number → Option Number → Number
or_zero decimals none = decimals.of_nat 0
or_zero decimals (some cashback) = cashback

module _ {OrderState Number : Type 0} (decimals : Decimals Number) where
  -- `has_become_paid`
  unfoldable pub has_become_paid : RawInvoice OrderState → InvoiceDump OrderState Number → Bool
  unfolding to_super_unit
  has_become_paid i dump =
      not dump.has_missing_rates
      && decimals.at_most dump.total_price
          (to_super_unit decimals i.amount_captured dump.buyer_currency)

  -- What is stored of an invoice that became paid; no result where `from_super_unit` panics.
  unfoldable pub amount_paid : ℕ → InvoiceDump OrderState Number → Option InvoiceSetAmountPaid
  unfolding from_super_unit
  amount_paid now dump = elim (from_super_unit decimals dump.buyer_currency dump.total_price) [
    | none ↦ none
    | some price ↦
        elim (from_super_unit decimals Currency.stq (or_zero decimals dump.total_cashback)) [
          | none ↦ none
          | some cashback ↦ some (record {
            final_amount_paid = price;
            final_cashback_amount = cashback;
            paid_at = now;
          })
        ]
  ]

module _ {OrderState Number Event Value : Type 0} (decimals : Decimals Number) (paid : OrderState)
    (to_value : Event → Option Value) (from_value : Value → Option Event) (event : ℕ → Event)
    (acls : Acls) where
  -- The writes for an invoice that became paid; `event` builds its `InvoicePaid`. A panic, which
  -- ends the call, is written as an internal error.
  unfoldable pub settle :
      ℕ
      → RawInvoice OrderState
      → InvoiceDump OrderState Number
      → World OrderState Number Value
      → Result ServiceError (InvoiceDump OrderState Number) × World OrderState Number Value
  unfolding amount_paid set_amount_paid billing.EventStore.add_event
  settle now i dump w = elim (amount_paid decimals now dump) [
    | none ↦ (err ServiceError.internal, w)
    | some input ↦
        let (written, invoices) = set_amount_paid acls.invoices paid i.id input w.invoices in
        let (stored, events) =
          billing.EventStore.add_event to_value from_value now (event i.id) w.events in
        elim written [
          | err e ↦ (err (from_repo e), w)
          | ok _ ↦ elim stored [
            | err e ↦ (err (from_repo e), w)
            | ok _ ↦ (ok dump, record w { invoices = invoices; events = events })
          ]
        ]
  ]

  -- `calculate_invoice_price_and_set_final_price_if_paid`: one transaction, in which an error
  -- leaves the tables as they were; `now` is the time of the payment and of the event.
  unfoldable pub calculate_invoice_price_and_set_final_price_if_paid :
      (now k : ℕ)
      → World OrderState Number Value
      → Result ServiceError (InvoiceDump OrderState Number) × World OrderState Number Value
  unfolding billing.Invoices.get get_invoice_price has_become_paid settle
  calculate_invoice_price_and_set_final_price_if_paid now k w =
      elim (map_err from_repo (billing.Invoices.get acls.invoices k w.invoices) >>= λ found.
      ok_or found ServiceError.internal) [
        | err e ↦ (err e, w)
        | ok i ↦ elim (get_invoice_price decimals acls i w) [
          | err e ↦ (err e, w)
          | ok dump ↦ elim (is_some i.paid_at) [
            | true ↦ (ok dump, w)
            | false ↦ elim (has_become_paid decimals i dump) [
              | false ↦ (ok dump, w)
              | true ↦ settle now i dump w
            ]
          ]
        ]
      ]
