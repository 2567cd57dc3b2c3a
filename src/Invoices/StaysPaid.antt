-- ===== src/Invoices/StaysPaid.antt =====
-- An invoice that is paid stays paid under the calls of src/repos/invoices_v2.rs, deletion aside.
use billing.Base.{
  ℕ, ◌≡◌, refl, ap, ◌∙◌, inl, inr, true, ◌||◌, some, is_some, List, [], ◌∷◌, ◌++◌, any, find,
  update_if, ◌==◌, Bool-cases, Option-cases, Result-cases,
}
use billing.Acl.{Acl, Resource, write, check}
use billing.Amount.{checked_add}
use billing.Invoices.{
  RawInvoice, NewInvoice, Tables, invoice_has_id, received_has_id, has_account, account_taken,
  writable, set_captured, new_row, create, increase_amount_captured, update_invoice,
}

module _ {OrderState : Type 0} where
  -- The row of a key exists and has a time of payment.
  abbrev pub PaidRow : ℕ → List (RawInvoice OrderState) → Type 0
  PaidRow k rows =
      (i : RawInvoice OrderState) × (find (invoice_has_id k) rows ≡ some i)
      × (is_some i.paid_at ≡ true)

  pub update_if-PaidRow :
      (j k : ℕ) (f : RawInvoice OrderState → RawInvoice OrderState)
      → ((i : RawInvoice OrderState) → (f i).id ≡ i.id)
      → ((i : RawInvoice OrderState) → is_some i.paid_at ≡ true → is_some (f i).paid_at ≡ true)
      → (rows : List (RawInvoice OrderState)) → PaidRow k rows
      → PaidRow k (update_if (invoice_has_id j) f rows)
  update_if-PaidRow j k f same keeps [] (i, e, was) = cc
  update_if-PaidRow j k f same keeps (x ∷ rows) (i, e, was) = elim (Bool-cases (x.id == k)) [
    | inl here ↦
        let first : some x ≡ some i = rw here at e in
        let equal : x ≡ i = cc in
        let paid_x : is_some x.paid_at ≡ true = ap (λ y. is_some y.paid_at) equal ∙ was in
        elim (Bool-cases (x.id == j)) [
          | inl changed ↦ (f x, rw (changed, same x, here) refl, keeps x paid_x)
          | inr kept ↦ (x, rw (kept, here) refl, paid_x)
        ]
    | inr later ↦
        let (i', e', was') = update_if-PaidRow j k f same keeps rows (i, rw later at e, was) in
        elim (Bool-cases (x.id == j)) [
          | inl changed ↦ (i', rw (changed, same x, later) e', was')
          | inr kept ↦ (i', rw (kept, later) e', was')
        ]
  ]

  append-PaidRow :
      (k : ℕ) (rows new : List (RawInvoice OrderState)) → PaidRow k rows → PaidRow k (rows ++ new)
  append-PaidRow k [] new (i, e, was) = cc
  append-PaidRow k (x ∷ rows) new (i, e, was) = elim (Bool-cases (x.id == k)) [
    | inl here ↦ (i, rw here (rw here at e), was)
    | inr later ↦
        let (i', e', was') = append-PaidRow k rows new (i, rw later at e, was) in
        (i', rw later e', was')
  ]

  pub create-PaidRow :
      (awaited : OrderState) (acl : Acl ℕ) (now : ℕ) (n : NewInvoice) (k : ℕ)
      (t : Tables OrderState)
      → PaidRow k t.invoices
      → PaidRow k (create acl awaited now n t).1.invoices
  unfolding create
  create-PaidRow awaited acl now n k t h =
      elim (Result-cases (check acl Resource.invoice write (some n.buyer_user_id))) [
        | inr (e, refused) ↦ rw (refused, create) h
        | inl (done, allowed) ↦
            elim (Bool-cases
              (any (invoice_has_id n.id) t.invoices || account_taken n.account_id t.invoices)) [
                | inl taken ↦ rw (allowed, taken, create) h
                | inr free ↦
                    rw (allowed, free, create)
                      (append-PaidRow k t.invoices (new_row awaited now n ∷ []) h)
              ]
      ]

  pub increase-PaidRow :
      (acl : Acl ℕ) (now account transaction amount k : ℕ) (t : Tables OrderState)
      → PaidRow k t.invoices
      → PaidRow k (increase_amount_captured acl now account transaction amount t).1.invoices
  unfolding increase_amount_captured set_captured
  increase-PaidRow acl now account transaction amount k t h =
      elim (Result-cases (writable acl (find (has_account account) t.invoices))) [
        | inr (e, refused) ↦ rw (refused, increase_amount_captured) h
        | inl (i, e) ↦ elim (Option-cases (checked_add i.amount_captured amount)) [
          | inl overflow ↦ rw (e, overflow, increase_amount_captured) h
          | inr (captured, sum) ↦ elim (Bool-cases (any (received_has_id transaction) t.amounts)) [
            | inl again ↦ rw (e, sum, again, increase_amount_captured) h
            | inr new ↦
                elim (Option-cases (
                  find (invoice_has_id i.id)
                    (update_if (invoice_has_id i.id) (set_captured captured) t.invoices))) [
                      | inl missing ↦ rw (e, sum, new, missing, increase_amount_captured) h
                      | inr (i', found) ↦
                          rw (e, sum, new, found, increase_amount_captured)
                            (update_if-PaidRow i.id k (set_captured captured) (λ x. refl) (λ x p. p)
                              t.invoices h)
                    ]
          ]
        ]
      ]

  pub update_invoice-PaidRow :
      (acl : Acl ℕ) (j k : ℕ) (f : RawInvoice OrderState → RawInvoice OrderState)
      (t : Tables OrderState)
      → ((i : RawInvoice OrderState) → (f i).id ≡ i.id)
      → ((i : RawInvoice OrderState) → is_some i.paid_at ≡ true → is_some (f i).paid_at ≡ true)
      → PaidRow k t.invoices
      → PaidRow k (update_invoice acl f j t).1.invoices
  unfolding update_invoice
  update_invoice-PaidRow acl j k f t same keeps h =
      elim (Result-cases (writable acl (find (invoice_has_id j) t.invoices))) [
        | inr (e, refused) ↦ rw (refused, update_invoice) h
        | inl (i, e) ↦ rw (e, update_invoice) (update_if-PaidRow j k f same keeps t.invoices h)
      ]
