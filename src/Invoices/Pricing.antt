-- ===== src/Invoices/Pricing.antt =====
-- What the price of an invoice that is not paid says, and what is stored when it becomes paid
-- (`get_invoice_price` and `calculate_invoice_price_and_set_final_price_if_paid` of
-- src/services/invoice.rs).
use billing.Base.{
  ℕ, ◌≡◌, refl, sym, ap, subst, ◌∙◌, inl, inr, Bool, not, Option, none, some, is_some, List, [],
  ◌∷◌, any, Option-cases, ok, map_err, from_repo, >>=-eq-ok, ok-injective,
}
use billing.Currency.{Currency}
use billing.Amount.SuperUnits.{Decimals, from_super_unit}
use billing.Invoices.{RawInvoice, InvoiceSetAmountPaid, invoice_has_id, set_paid}
use billing.Invoices.Price.{
  OrderDump, InvoiceDump, has_no_amounts, add_prices, totals, calculate_invoice_price,
}
use billing.Invoices.Settlement.{World, Acls, get_invoice_price, amount_paid, wallet_of, with_rates}

module _ {Number : Type 0} where
  -- An order that no rate gives a price to.
  abbrev pub lacks_price : OrderDump Number → Bool
  lacks_price o = not (is_some o.buyer_amounts)

  has_no_amounts_lem :
      (orders : List (OrderDump Number)) → any has_no_amounts orders ≡ any lacks_price orders
  unfolding has_no_amounts
  has_no_amounts_lem [] = refl
  has_no_amounts_lem (o ∷ orders) = elim (Option-cases o.buyer_amounts) [
    | inl e ↦ simp (e, has_no_amounts, has_no_amounts_lem orders)
    | inr (b, e) ↦ simp (e, has_no_amounts, has_no_amounts_lem orders)
  ]

  -- The prices that orders have for the buyer, and their sum from the left.
  abbrev pub prices : List (OrderDump Number) → List Number
  prices [] = []
  prices (o ∷ orders) =
      let rest = prices orders in elim o.buyer_amounts [ none ↦ rest | some b ↦ b.price ∷ rest ]

  abbrev pub plus_all : Decimals Number → Number → List Number → Number
  plus_all decimals total [] = total
  plus_all decimals total (x ∷ xs) = plus_all decimals (decimals.plus total x) xs

module _ {Number : Type 0} (decimals : Decimals Number) where
  add_prices_lem :
      (total : Number) (orders : List (OrderDump Number))
      → add_prices decimals total orders ≡ plus_all decimals total (prices orders)
  unfolding add_prices
  add_prices_lem total [] = refl
  add_prices_lem total (o ∷ orders) = elim (Option-cases o.buyer_amounts) [
    | inl e ↦ simp (e, add_prices, add_prices_lem total orders)
    | inr (b, e) ↦ simp (e, add_prices, add_prices_lem (decimals.plus total b.price) orders)
  ]

  totals-unpaid :
      (price cashback : Option Number) (orders : List (OrderDump Number))
      → totals decimals price cashback none orders
        ≡ (add_prices decimals (decimals.of_nat 0) orders, some (decimals.of_nat 0), none)
  unfolding totals
  totals-unpaid none cashback orders = refl
  totals-unpaid (some p) none orders = refl
  totals-unpaid (some p) (some c) orders = refl

module _ {OrderState Number Value : Type 0} (decimals : Decimals Number) (acls : Acls) where
  -- The price of an invoice is computed from its row.
  price-calculated :
      (i : RawInvoice OrderState) (w : World OrderState Number Value)
      (dump : InvoiceDump OrderState Number)
      → get_invoice_price decimals acls i w ≡ ok dump
      → (orders : List (billing.Orders.RawOrder × List (billing.Rates.RawOrderExchangeRate Number)))
        × (wallet : Option ℕ) × (calculate_invoice_price decimals i orders wallet ≡ dump)
  unfolding get_invoice_price
  price-calculated i w dump h =
      let (orders, h1, r1) =
        >>=-eq-ok
          (map_err from_repo (billing.Orders.get_many_by_invoice_id acls.orders i.id w.orders)) _
          h in
      let (with_all, h2, r2) = >>=-eq-ok (with_rates acls.rates orders w.rates) _ r1 in
      let (wallet, h3, r3) = >>=-eq-ok (wallet_of acls i w) _ r2 in
      (with_all, wallet, ok-injective r3)

  -- What the price says of any invoice.
  pub price-orders :
      (i : RawInvoice OrderState) (w : World OrderState Number Value)
      (dump : InvoiceDump OrderState Number)
      → get_invoice_price decimals acls i w ≡ ok dump
      → (dump.has_missing_rates ≡ any lacks_price dump.orders)
        × (dump.buyer_currency ≡ i.buyer_currency)
  unfolding calculate_invoice_price
  price-orders i w dump h =
      let (orders, wallet, same) = price-calculated i w dump h in
      let calculated = calculate_invoice_price decimals i orders wallet in
      subst
        (λ d.
          (d.has_missing_rates ≡ any lacks_price d.orders) × (d.buyer_currency ≡ i.buyer_currency))
        same (has_no_amounts_lem calculated.orders, refl)

  -- What the price says of an invoice that is not paid.
  pub price-unpaid :
      (i : RawInvoice OrderState) (w : World OrderState Number Value)
      (dump : InvoiceDump OrderState Number)
      → get_invoice_price decimals acls i w ≡ ok dump
      → i.paid_at ≡ none
      → (dump.has_missing_rates ≡ any lacks_price dump.orders)
        × (dump.buyer_currency ≡ i.buyer_currency)
        × (dump.total_price ≡ plus_all decimals (decimals.of_nat 0) (prices dump.orders))
        × (dump.total_cashback ≡ some (decimals.of_nat 0))
  unfolding calculate_invoice_price
  price-unpaid i w dump h unpaid =
      let (orders, wallet, same) = price-calculated i w dump h in
      let calculated = calculate_invoice_price decimals i orders wallet in
      let parts =
        ap
          (λ at.
            totals decimals
              (billing.Invoices.Price.in_super_unit decimals i.buyer_currency i.final_amount_paid)
              (billing.Invoices.Price.in_super_unit decimals i.buyer_currency
                i.final_cashback_amount)
              at calculated.orders)
          unpaid
        ∙ totals-unpaid decimals
            (billing.Invoices.Price.in_super_unit decimals i.buyer_currency i.final_amount_paid)
            (billing.Invoices.Price.in_super_unit decimals i.buyer_currency i.final_cashback_amount)
            calculated.orders in
      subst
        (λ d.
          (d.has_missing_rates ≡ any lacks_price d.orders)
          × (d.buyer_currency ≡ i.buyer_currency)
          × (d.total_price ≡ plus_all decimals (decimals.of_nat 0) (prices d.orders))
          × (d.total_cashback ≡ some (decimals.of_nat 0)))
        same
        (
          has_no_amounts_lem calculated.orders,
          refl,
          ap (λ x. x.0) parts ∙ add_prices_lem decimals (decimals.of_nat 0) calculated.orders,
          ap (λ x. x.1) parts,
        )

module _ {OrderState Number : Type 0} (decimals : Decimals Number) where
  -- What is stored of an invoice that became paid.
  pub amount_paid-ok :
      (now : ℕ) (dump : InvoiceDump OrderState Number) (input : InvoiceSetAmountPaid)
      → amount_paid decimals now dump ≡ some input
      → dump.total_cashback ≡ some (decimals.of_nat 0)
      → (from_super_unit decimals dump.buyer_currency dump.total_price
          ≡ some input.final_amount_paid)
        × (from_super_unit decimals Currency.stq (decimals.of_nat 0)
            ≡ some input.final_cashback_amount)
        × (input.paid_at ≡ now)
  unfolding amount_paid
  amount_paid-ok now dump input h c =
      elim (Option-cases (from_super_unit decimals dump.buyer_currency dump.total_price)) [
        | inl n ↦
            let wrong : ◌≡◌ {A = Option InvoiceSetAmountPaid} none (some input) =
              rw (amount_paid, n) at h in
            cc
        | inr (price, p) ↦
            elim (Option-cases (from_super_unit decimals Currency.stq (decimals.of_nat 0))) [
              | inl n ↦
                  let wrong : ◌≡◌ {A = Option InvoiceSetAmountPaid} none (some input) =
                    rw (amount_paid, p, c, n) at h in
                  cc
              | inr (cashback, q) ↦
                  let built : ◌≡◌ {A = Option InvoiceSetAmountPaid}
                      (some (record {
                        final_amount_paid = price;
                        final_cashback_amount = cashback;
                        paid_at = now;
                      }))
                      (some input) =
                    rw (amount_paid, p, c, q) at h in
                  let same : ◌≡◌ {A = InvoiceSetAmountPaid}
                      (record {
                        final_amount_paid = price;
                        final_cashback_amount = cashback;
                        paid_at = now;
                      })
                      input =
                    cc in
                  (
                    p ∙ ap (λ x. some x.final_amount_paid) same,
                    q ∙ ap (λ x. some x.final_cashback_amount) same,
                    sym (ap (λ x. x.paid_at) same),
                  )
            ]
      ]
