-- ===== src/Invoices/Price.antt =====
-- The price of an invoice (`calculate_invoice_price` and the dumps of src/models/invoice_v2.rs).
use billing.Base.{
  ℕ, Bool, true, false, Option, none, some, List, [], ◌∷◌, map, any, find, if◌then◌else◌,
}
use billing.Currency.{Currency, currency_eq}
use billing.Amount.SuperUnits.{Decimals, to_super_unit}
use billing.Orders.{RawOrder}
use billing.Rates.{ExchangeRateStatus, RawOrderExchangeRate, is_active}
use billing.Invoices.{RawInvoice}

-- `BuyerAmounts`
pub record BuyerAmounts (Number : Type 0) : Type 0 where
  pub exchange_rate : Number
  pub currency : Currency
  pub price : Number

-- `RateDump`
pub record RateDump (Number : Type 0) : Type 0 where
  pub id : ℕ
  pub exchange_rate : Number
  pub status : ExchangeRateStatus
  pub reserved_at : ℕ

-- `OrderDump`
pub record OrderDump (Number : Type 0) : Type 0 where
  pub id : ℕ
  pub seller_currency : Currency
  pub seller_price : Number
  pub seller_cashback : Number
  pub buyer_amounts : Option (BuyerAmounts Number)
  pub rates : List (RateDump Number)

-- `InvoiceDump`
pub record InvoiceDump (OrderState Number : Type 0) : Type 0 where
  pub id : ℕ
  pub buyer_currency : Currency
  pub amount_captured : Number
  pub total_price : Number
  pub total_cashback : Option Number
  pub orders : List (OrderDump Number)
  pub has_missing_rates : Bool
  pub created_at : ℕ
  pub paid_at : Option ℕ
  pub wallet_address : Option ℕ
  pub status : OrderState

module _ {Number : Type 0} where
  unfoldable pub rate_dump : RawOrderExchangeRate Number → RateDump Number
  rate_dump r = record {
    id = r.id;
    exchange_rate = r.exchange_rate;
    status = r.status;
    reserved_at = r.created_at;
  }

  unfoldable pub has_no_amounts : OrderDump Number → Bool
  has_no_amounts o = elim o.buyer_amounts [ none ↦ true | some b ↦ false ]

module _ {Number : Type 0} (decimals : Decimals Number) where
  -- The rate at which an order is paid: 1 between equal currencies, else the active one.
  unfoldable pub rate_of : Currency → RawOrder → List (RawOrderExchangeRate Number) → Option Number
  unfolding is_active
  rate_of buyer o rates =
      if currency_eq buyer o.seller_currency
      then some (decimals.of_nat 1)
      else elim (find (λ r. is_active r.status) rates) [
        | none ↦ none
        | some r ↦ some r.exchange_rate
      ]

  unfoldable pub buyer_amounts : Currency → Number → Option Number → Option (BuyerAmounts Number)
  buyer_amounts buyer seller_price none = none
  buyer_amounts buyer seller_price (some rate) = some (record {
    exchange_rate = rate;
    currency = buyer;
    price = decimals.divided seller_price rate;
  })

  -- The first closure of `calculate_invoice_price`.
  unfoldable pub order_dump :
      Currency → RawOrder × List (RawOrderExchangeRate Number) → OrderDump Number
  unfolding to_super_unit rate_of buyer_amounts rate_dump
  order_dump buyer (o, rates) = record {
    id = o.id;
    seller_currency = o.seller_currency;
    seller_price = to_super_unit decimals o.total_amount o.seller_currency;
    seller_cashback = to_super_unit decimals o.cashback_amount o.seller_currency;
    buyer_amounts =
        buyer_amounts buyer (to_super_unit decimals o.total_amount o.seller_currency)
          (rate_of buyer o rates);
    rates = map rate_dump rates;
  }

  -- The fold that ends `calculate_invoice_price`, on its only field that changes.
  unfoldable pub add_prices : Number → List (OrderDump Number) → Number
  add_prices total [] = total
  add_prices total (o ∷ orders) = elim o.buyer_amounts [
    | none ↦ add_prices total orders
    | some b ↦ add_prices (decimals.plus total b.price) orders
  ]

  -- The total price, the cashback and the time of payment: those stored if all three are, else the
  -- sum of the orders' prices.
  unfoldable pub totals :
      Option Number
      → Option Number
      → Option ℕ
      → List (OrderDump Number)
      → Number × Option Number × Option ℕ
  unfolding add_prices
  totals (some price) (some cashback) (some at) orders = (price, some cashback, some at)
  totals price cashback at orders =
      (add_prices (decimals.of_nat 0) orders, some (decimals.of_nat 0), none)

  unfoldable pub in_super_unit : Currency → Option ℕ → Option Number
  unfolding to_super_unit
  in_super_unit c none = none
  in_super_unit c (some amount) = some (to_super_unit decimals amount c)

  -- `calculate_invoice_price`
  unfoldable pub calculate_invoice_price :
      {OrderState : Type 0}
      → RawInvoice OrderState
      → List (RawOrder × List (RawOrderExchangeRate Number))
      → Option ℕ
      → InvoiceDump OrderState Number
  unfolding to_super_unit order_dump has_no_amounts totals in_super_unit
  calculate_invoice_price i orders wallet =
      let dumps = map (order_dump i.buyer_currency) orders in
      let (price, cashback, at) =
        totals (in_super_unit i.buyer_currency i.final_amount_paid)
          (in_super_unit i.buyer_currency i.final_cashback_amount) i.paid_at dumps in
      record {
        id = i.id;
        buyer_currency = i.buyer_currency;
        amount_captured = to_super_unit decimals i.amount_captured i.buyer_currency;
        total_price = price;
        total_cashback = cashback;
        orders = dumps;
        has_missing_rates = any has_no_amounts dumps;
        created_at = i.created_at;
        paid_at = at;
        wallet_address = wallet;
        status = i.status;
      }
