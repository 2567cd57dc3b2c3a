-- ===== src/Invoices/Paid.antt =====
-- When an invoice becomes paid, and how often that is published
-- (`calculate_invoice_price_and_set_final_price_if_paid` of src/services/invoice.rs).
use billing.Base.{
  >>=-eq-ok, ok_or-ok, map_err-ok, ℕ, ◌≡◌, refl, ap, ◌∙◌, ◌⊎◌, inl, inr, true, false, Option, some,
  is_some, find, update_if, Result, ok, err, ok_or, map_err, ServiceError, from_repo, ◌>>=◌,
  Bool-cases, Option-cases, Result-cases,
}
use billing.Amount.SuperUnits.{Decimals}
use billing.EventStore
use billing.Invoices.{
  RawInvoice, InvoiceSetAmountPaid, Tables, invoice_has_id, set_paid, set_amount_paid,
  update_invoice, writable, check_invoice,
}
use billing.Invoices.Price.{InvoiceDump}
use billing.Invoices.Settlement.{
  World, Acls, get_invoice_price, has_become_paid, amount_paid, settle,
  calculate_invoice_price_and_set_final_price_if_paid,
}
use billing.Invoices.Written.{get-find, set_amount_paid-ok}

module _ {OrderState Number Event Value : Type 0} (decimals : Decimals Number) (paid : OrderState)
    (to_value : Event → Option Value) (from_value : Value → Option Event) (event : ℕ → Event)
    (acls : Acls) where
  settle-cases :
      (now : ℕ) (i : RawInvoice OrderState) (dump : InvoiceDump OrderState Number)
      (w : World OrderState Number Value)
      → ((e : ServiceError) × (settle decimals paid to_value from_value event acls now i dump w
            ≡ (err e, w)))
        ⊎ ((input : InvoiceSetAmountPaid) × (amount_paid decimals now dump ≡ some input)
            × (settle decimals paid to_value from_value event acls now i dump w ≡ (
              ok dump,
              record w {
                invoices = record w.invoices {
                  invoices =
                      update_if (invoice_has_id i.id) (set_paid paid input) w.invoices.invoices;
                };
                events =
                    (billing.EventStore.add_event to_value from_value now (event i.id) w.events).1;
              },
            ))
            × ((x : billing.EventStore.Entry.EventEntry Event) × ((billing.EventStore.add_event
                    to_value from_value now
                    (event i.id)
                    w.events).0
                  ≡ ok x)))
  unfolding settle
  settle-cases now i dump w = elim (Option-cases (amount_paid decimals now dump)) [
    | inl none' ↦ inl (ServiceError.internal, rw (settle, none') refl)
    | inr (input, a) ↦
        elim (Result-cases (set_amount_paid acls.invoices paid i.id input w.invoices).0) [
          | inr (e, r) ↦ inl (from_repo e, rw (settle, a, r) refl)
          | inl (row, r) ↦
              elim (Result-cases
                (billing.EventStore.add_event to_value from_value now (event i.id) w.events).0) [
                  | inr (e, s) ↦ inl (from_repo e, rw (settle, a, r, s) refl)
                  | inl (entry, s) ↦ inr (
                    input,
                    a,
                    rw
                        (
                          settle,
                          a,
                          r,
                          s,
                          set_amount_paid-ok acls.invoices paid i.id input w.invoices row r,
                        )
                        refl,
                    (entry, s),
                  )
                ]
        ]
  ]

  abbrev call :
      (now k : ℕ)
      → World OrderState Number Value
      → Result ServiceError (InvoiceDump OrderState Number) × World OrderState Number Value
  call now k w =
      calculate_invoice_price_and_set_final_price_if_paid decimals paid to_value from_value event
        acls now k w

  -- The branches of a recalculation, in the words of the code.
  pub recalculation_cases :
      (now k : ℕ) (w : World OrderState Number Value)
      → ((e : ServiceError) × (calculate_invoice_price_and_set_final_price_if_paid decimals paid
              to_value from_value event acls now k w
            ≡ (err e, w)))
        ⊎ ((i : RawInvoice OrderState) × (dump : InvoiceDump OrderState Number) × (find
                (invoice_has_id k)
                w.invoices.invoices
              ≡ some i)
            × (get_invoice_price decimals acls i w ≡ ok dump)
            × (((calculate_invoice_price_and_set_final_price_if_paid decimals paid to_value
                      from_value event acls now k w
                    ≡ (ok dump, w))
                  × ((is_some i.paid_at ≡ true) ⊎ (has_become_paid decimals i dump ≡ false)))
                ⊎ ((is_some i.paid_at ≡ false)
                    × (has_become_paid decimals i dump ≡ true)
                    × ((input : InvoiceSetAmountPaid) × (amount_paid decimals now dump ≡ some input)
                        × (calculate_invoice_price_and_set_final_price_if_paid decimals paid
                              to_value from_value event acls now k w
                            ≡ (
                              ok dump,
                              record w {
                                invoices = record w.invoices {
                                  invoices =
                                      update_if
                                        (invoice_has_id i.id)
                                        (set_paid paid input)
                                        w.invoices.invoices;
                                };
                                events =
                                    (billing.EventStore.add_event to_value from_value now
                                      (event i.id)
                                      w.events).1;
                              },
                            ))
                        × ((x : billing.EventStore.Entry.EventEntry Event)
                            × ((billing.EventStore.add_event to_value from_value now
                                  (event i.id)
                                  w.events).0
                                ≡ ok x))))))
  unfolding calculate_invoice_price_and_set_final_price_if_paid
  recalculation_cases now k w =
      let first = map_err from_repo (billing.Invoices.get acls.invoices k w.invoices) in
      let read = first >>= λ found. ok_or found ServiceError.internal in
      elim (Result-cases read) [
        | inr (e, r) ↦ inl (e, rw (calculate_invoice_price_and_set_final_price_if_paid, r) refl)
        | inl (i, r) ↦
            let (found, r1, r2) = >>=-eq-ok first (λ found. ok_or found ServiceError.internal) r in
            let is = ok_or-ok found ServiceError.internal i r2 in
            let got =
              map_err-ok (billing.Invoices.get acls.invoices k w.invoices) (some i)
                (r1 ∙ ap ok is) in
            let there = get-find acls.invoices k w.invoices i got in
            elim (Result-cases (get_invoice_price decimals acls i w)) [
              | inr (e, p) ↦
                  inl (e, rw (calculate_invoice_price_and_set_final_price_if_paid, r, p) refl)
              | inl (dump, p) ↦ elim (Bool-cases (is_some i.paid_at)) [
                | inl was ↦ inr (
                  i,
                  dump,
                  there,
                  p,
                  inl (
                    rw (calculate_invoice_price_and_set_final_price_if_paid, r, p, was) refl,
                    inl was,
                  ),
                )
                | inr unpaid ↦ elim (Bool-cases (has_become_paid decimals i dump)) [
                  | inr short ↦ inr (
                    i,
                    dump,
                    there,
                    p,
                    inl (
                      rw (calculate_invoice_price_and_set_final_price_if_paid, r, p, unpaid, short)
                          refl,
                      inr short,
                    ),
                  )
                  | inl enough ↦
                      let step : call now k w
                          ≡ settle decimals paid to_value from_value event acls now i dump w =
                        rw
                          (
                            calculate_invoice_price_and_set_final_price_if_paid, r, p, unpaid,
                            enough,
                          )
                          refl in
                      elim (settle-cases now i dump w) [
                        | inl (e, s) ↦ inl (e, step ∙ s)
                        | inr (input, a, s, l) ↦
                            inr (i, dump, there, p, inr (unpaid, enough, (input, a, step ∙ s, l)))
                      ]
                ]
              ]
            ]
      ]
