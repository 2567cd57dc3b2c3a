-- ===== src/Invoices/Published.antt =====
-- How often it is published that an invoice is paid
-- (`calculate_invoice_price_and_set_final_price_if_paid` of src/services/invoice.rs), among the other
-- writes that the services make.
use billing.Base.{
  ℕ, ◌+◌, ◌-◌, ◌≤◌, ◌≡◌, refl, sym, ap, subst, ◌∙◌, ◌⊎◌, inl, inr, true, false, Option, some,
  is_some, List, [], ◌∷◌, ◌++◌, length, length-append, find, arith, ◌==◌, ==_iff, Bool-cases,
  if◌then◌else◌,
}
use billing.Acl.{Acl}
use billing.Accounts.{Account}
use billing.EventStore
use billing.Orders.{RawOrder}
use billing.Rates
use billing.Amount.SuperUnits.{Decimals}
use billing.Invoices.{
  NewInvoice, InvoiceSetAmountPaid, invoice_has_id, set_paid, set_paid_fiat, unlink, create,
  increase_amount_captured, set_amount_paid, set_amount_paid_fiat, unlink_account,
}
use billing.Invoices.Written.{find-id, find-set_paid, add_event-ok}
use billing.Invoices.Paid.{recalculation_cases}
use billing.Invoices.StaysPaid.{
  PaidRow, update_if-PaidRow, create-PaidRow, increase-PaidRow, update_invoice-PaidRow,
}
use billing.Invoices.Settlement.{World, Acls, calculate_invoice_price_and_set_final_price_if_paid}

-- A recalculation, with the access controls of its caller, or another write: a call of the invoices'
-- repository, or one after which the other tables are whatever is given.
pub data Step (Number Value : Type 0) : Type 0 where
  recalculate : Acls → (now id : ℕ) → Step Number Value
  create_step : Acl ℕ → (now : ℕ) → NewInvoice → Step Number Value
  receive : Acl ℕ → (now account transaction amount : ℕ) → Step Number Value
  pay : Acl ℕ → (id : ℕ) → InvoiceSetAmountPaid → Step Number Value
  pay_fiat : Acl ℕ → (id : ℕ) → InvoiceSetAmountPaid → Step Number Value
  unlink_step : Acl ℕ → (id : ℕ) → Step Number Value
  other_writes :
      List RawOrder
      → billing.Rates.Table Number
      → List Account
      → billing.EventStore.Table Value
      → Step Number Value

module _ {OrderState Number Event Value : Type 0} (decimals : Decimals Number)
    (awaited paid : OrderState) (to_value : Event → Option Value)
    (from_value : Value → Option Event) (event : ℕ → Event) where
  -- The tables after a step.
  unfoldable pub after :
      Step Number Value → World OrderState Number Value → World OrderState Number Value
  unfolding calculate_invoice_price_and_set_final_price_if_paid create increase_amount_captured
      set_amount_paid set_amount_paid_fiat unlink_account
  after (recalculate acls now j) w =
      (calculate_invoice_price_and_set_final_price_if_paid decimals paid to_value from_value event
        acls now j w).1
  after (create_step acl now n) w = record w { invoices = (create acl awaited now n w.invoices).1 }
  after (receive acl now account transaction amount) w = record w {
    invoices = (increase_amount_captured acl now account transaction amount w.invoices).1;
  }
  after (pay acl j p) w = record w { invoices = (set_amount_paid acl paid j p w.invoices).1 }
  after (pay_fiat acl j p) w = record w {
    invoices = (set_amount_paid_fiat acl paid j p w.invoices).1;
  }
  after (unlink_step acl j) w = record w { invoices = (unlink_account acl j w.invoices).1 }
  after (other_writes orders rates accounts events) w = record w {
    orders = orders;
    rates = rates;
    accounts = accounts;
    events = events;
  }

  -- How many events a step adds to the event store as a recalculation of an invoice.
  unfoldable pub published : ℕ → Step Number Value → World OrderState Number Value → ℕ
  unfolding after
  published k (recalculate acls now j) w =
      if j == k
      then length (after (recalculate acls now j) w).events.rows - length w.events.rows
      else 0
  published k _ w = 0

  -- How many events the steps add as recalculations of an invoice.
  unfoldable pub published_all : ℕ → List (Step Number Value) → World OrderState Number Value → ℕ
  unfolding published after
  published_all k [] w = 0
  published_all k (s ∷ steps) w = published k s w + published_all k steps (after s w)

  abbrev IsPaid : ℕ → World OrderState Number Value → Type 0
  IsPaid k w = PaidRow k w.invoices.invoices

  -- A recalculation changes nothing, or its invoice is paid after it and one event is added.
  recalculate-cases :
      (acls : Acls) (now j : ℕ) (w : World OrderState Number Value)
      → (after (recalculate acls now j) w ≡ w)
        ⊎ (IsPaid j (after (recalculate acls now j) w)
            × (length (after (recalculate acls now j) w).events.rows ≡ length w.events.rows + 1)
            × ((k : ℕ) → IsPaid k w → IsPaid k (after (recalculate acls now j) w)))
  unfolding after set_paid
  recalculate-cases acls now j w =
      elim (recalculation_cases decimals paid to_value from_value event acls now j w) [
        | inl (e, h) ↦ inl (ap (λ x. x.1) h)
        | inr (i, dump, there, p, inl (h, _)) ↦ inl (ap (λ x. x.1) h)
        | inr (i, dump, there, p, inr (unpaid, enough, (input, a, h, (x, s)))) ↦
            let same = ap (λ x. x.1) h in
            let (row, rows, _, _, _, _) =
              add_event-ok to_value from_value now (event i.id) w.events s in
            let invoices = ap (λ x. x.invoices.invoices) same in
            let written =
              subst
                (λ m.
                  find (invoice_has_id j) (
                    billing.Base.update_if (invoice_has_id m) (set_paid paid input)
                      w.invoices.invoices)
                  ≡ some (set_paid paid input i))
                (sym (find-id j w.invoices.invoices there))
                (find-set_paid paid input j w.invoices.invoices there) in
            inr (
              (set_paid paid input i, ap (find (invoice_has_id j)) invoices ∙ written, refl),
              ap (λ x. length x.events.rows) same
                  ∙ ap length rows
                  ∙ length-append w.events.rows (row ∷ []),
              λ k was. subst (PaidRow k) (sym invoices) (
                  update_if-PaidRow i.id k (set_paid paid input) (λ x. refl) (λ x p. refl)
                    w.invoices.invoices was),
            )
      ]

  after-IsPaid :
      (s : Step Number Value) (k : ℕ) (w : World OrderState Number Value)
      → IsPaid k w
      → IsPaid k (after s w)
  unfolding after set_amount_paid set_amount_paid_fiat unlink_account set_paid set_paid_fiat unlink
  after-IsPaid (recalculate acls now j) k w h = elim (recalculate-cases acls now j w) [
    | inl same ↦ subst (IsPaid k) (sym same) h
    | inr (_, _, keeps) ↦ keeps k h
  ]
  after-IsPaid (create_step acl now n) k w h = create-PaidRow awaited acl now n k w.invoices h
  after-IsPaid (receive acl now account transaction amount) k w h =
      increase-PaidRow acl now account transaction amount k w.invoices h
  after-IsPaid (pay acl j p) k w h =
      update_invoice-PaidRow acl j k (set_paid paid p) w.invoices (λ x. refl) (λ x q. refl) h
  after-IsPaid (pay_fiat acl j p) k w h =
      update_invoice-PaidRow acl j k (set_paid_fiat paid p) w.invoices (λ x. refl) (λ x q. refl) h
  after-IsPaid (unlink_step acl j) k w h =
      update_invoice-PaidRow acl j k unlink w.invoices (λ x. refl) (λ x q. q) h
  after-IsPaid (other_writes orders rates accounts events) k w h = h

  -- A recalculation of a paid invoice changes nothing.
  recalculate-paid :
      (acls : Acls) (now k : ℕ) (w : World OrderState Number Value)
      → IsPaid k w
      → after (recalculate acls now k) w ≡ w
  unfolding after
  recalculate-paid acls now k w (j, found, was) =
      elim (recalculation_cases decimals paid to_value from_value event acls now k w) [
        | inl (e, h) ↦ ap (λ x. x.1) h
        | inr (i, dump, there, p, inl (h, _)) ↦ ap (λ x. x.1) h
        | inr (i, dump, there, p, inr (unpaid, _, _)) ↦
            let same : some i ≡ some j = sym there ∙ found in
            let equal : i ≡ j = cc in
            let wrong : true ≡ false = sym was ∙ ap (λ x. is_some x.paid_at) (sym equal) ∙ unpaid in
            cc
      ]

  none_more : (n m : ℕ) → n ≡ m → n - m ≡ 0
  none_more n m h = omega arith

  published-paid :
      (s : Step Number Value) (k : ℕ) (w : World OrderState Number Value)
      → IsPaid k w
      → published k s w ≡ 0
  unfolding published
  published-paid (recalculate acls now j) k w h = elim (Bool-cases (j == k)) [
    | inr other ↦ rw other refl
    | inl same ↦
        let own : IsPaid j w = subst (λ m. IsPaid m w) (sym ((==_iff j k).0 same)) h in
        rw same (
          none_more (length (after (recalculate acls now j) w).events.rows) (length w.events.rows)
            (ap (λ x. length x.events.rows) (recalculate-paid acls now j w own)))
  ]
  published-paid _ k w h = refl

  published_all-paid :
      (steps : List (Step Number Value)) (k : ℕ) (w : World OrderState Number Value)
      → IsPaid k w
      → published_all k steps w ≡ 0
  unfolding published_all
  published_all-paid [] k w h = refl
  published_all-paid (s ∷ steps) k w h =
      let first = published-paid s k w h in
      let rest = published_all-paid steps k (after s w) (after-IsPaid s k w h) in omega arith

  -- A step publishes nothing of an invoice, or one event, and then the invoice is paid.
  published-cases :
      (s : Step Number Value) (k : ℕ) (w : World OrderState Number Value)
      → (published k s w ≡ 0) ⊎ ((published k s w ≡ 1) × IsPaid k (after s w))
  unfolding published
  published-cases (recalculate acls now j) k w = elim (Bool-cases (j == k)) [
    | inr other ↦ inl (rw other refl)
    | inl own ↦ elim (recalculate-cases acls now j w) [
      | inl same ↦ inl (
          rw own (
            none_more (length (after (recalculate acls now j) w).events.rows) (length w.events.rows)
              (ap (λ x. length x.events.rows) same)))
      | inr (settled, l, _) ↦ inr (
        rw own (ap (λ n. n - length w.events.rows) l ∙ one_more (length w.events.rows)),
        subst (λ m. IsPaid m (after (recalculate acls now j) w)) ((==_iff j k).0 own) settled,
      )
    ]
  ]
    where
      one_more : (m : ℕ) → (m + 1) - m ≡ 1
      one_more m = omega arith
  published-cases _ k w = inl refl

  -- Whatever recalculations are made, of whatever invoices, at whatever times and by whatever
  -- callers, and whatever calls that create invoices, receive amounts, mark invoices as paid and
  -- unlink accounts, and changes of the orders, the rates, the accounts and the event store, come
  -- between them: as long as no invoice is deleted, the recalculations of one invoice add at most
  -- one event to the event store.
  pub published_all-once :
      (steps : List (Step Number Value)) (k : ℕ) (w : World OrderState Number Value)
      → published_all k steps w ≤ 1
  unfolding published_all
  published_all-once [] k w = omega arith
  published_all-once (s ∷ steps) k w = elim (published-cases s k w) [
    | inl zero' ↦ let rest = published_all-once steps k (after s w) in omega arith
    | inr (once, settled) ↦ let rest = published_all-paid steps k (after s w) settled in omega arith
  ]
