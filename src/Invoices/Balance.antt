-- ===== src/Invoices/Balance.antt =====
-- The balance between what invoices have captured and what was received for them, under each update of
-- src/repos/invoices_v2.rs.
use billing.Base.{
  ℕ, ◌+◌, ◌≡◌, refl, ap, sym, ◌∙◌, inl, inr, Bool, true, false, not, some, List, [], ◌∷◌, ◌++◌, All,
  any, find, keep_if, update_if, arith, ◌==◌, ==_iff, Bool-cases,
}
use billing.Invoices.{RawInvoice, RawAmountReceived, Tables, invoice_has_id, set_captured}
use billing.Invoices.Captured.{received, Distinct, received-own, received-other, received-keep_if}

module _ {OrderState : Type 0} where
  -- An invoice has captured what was received for it.
  abbrev pub IsBalanced : List RawAmountReceived → RawInvoice OrderState → Type 0
  IsBalanced amounts i = i.amount_captured ≡ received i.id amounts

  -- The invoice of an amount received exists.
  abbrev pub IsLinked : List (RawInvoice OrderState) → RawAmountReceived → Type 0
  IsLinked invoices r = any (invoice_has_id r.invoice_id) invoices ≡ true

  -- Each invoice has captured the sum of the amounts received for it, each amount has its invoice,
  -- and each transaction is recorded once.
  pub record IsSettled (t : Tables OrderState) : Type 0 where
    pub balanced : All (IsBalanced t.amounts) t.invoices
    pub linked : All (IsLinked t.invoices) t.amounts
    pub distinct : Distinct t.amounts

  pub find-IsBalanced :
      (p : RawInvoice OrderState → Bool) (amounts : List RawAmountReceived)
      (rows : List (RawInvoice OrderState)) {i : RawInvoice OrderState}
      → All (IsBalanced amounts) rows
      → find p rows ≡ some i
      → IsBalanced amounts i
  find-IsBalanced p amounts [] h e = cc
  find-IsBalanced p amounts (x ∷ rows) {i} h e = elim (Bool-cases (p x)) [
    | inl here ↦
        let same : some x ≡ some i = rw here at e in let equal : x ≡ i = cc in rw (sym equal) h.0
    | inr later ↦ find-IsBalanced p amounts rows h.1 (rw later at e)
  ]

  -- Nothing was received for an invoice that does not exist.
  pub received-unlinked :
      (k : ℕ) (invoices : List (RawInvoice OrderState)) (amounts : List RawAmountReceived)
      → All (IsLinked invoices) amounts
      → any (invoice_has_id k) invoices ≡ false
      → received k amounts ≡ 0
  unfolding received
  received-unlinked k invoices [] h e = refl
  received-unlinked k invoices (r ∷ rows) h e = elim (Bool-cases (r.invoice_id == k)) [
    | inl here ↦
        let same : r.invoice_id ≡ k = (==_iff r.invoice_id k).0 here in
        let exists : any (invoice_has_id k) invoices ≡ true = rw same at h.0 in cc
    | inr other ↦ rw other (received-unlinked k invoices rows h.1 e)
  ]

  -- What the transaction of `increase_amount_captured` does to the balance.
  pub increase-IsBalanced :
      (k captured : ℕ) (amounts : List RawAmountReceived) (r : RawAmountReceived)
      (rows : List (RawInvoice OrderState))
      → r.invoice_id ≡ k
      → captured ≡ received k amounts + r.amount_received
      → All (IsBalanced amounts) rows
      → All
          (IsBalanced (amounts ++ r ∷ []))
          (update_if (invoice_has_id k) (set_captured captured) rows)
  unfolding received set_captured
  increase-IsBalanced k captured amounts r [] e c h = tt
  increase-IsBalanced k captured amounts r (x ∷ rows) e c h = (
    elim (Bool-cases (x.id == k)) [
      | inl here ↦
          let same : x.id ≡ k = (==_iff x.id k).0 here in
          rw (here, same) (c ∙ sym (received-own k amounts r e))
      | inr other ↦ rw other (h.0 ∙ sym (received-other x.id amounts r (ground arith)))
    ],
    increase-IsBalanced k captured amounts r rows e c h.1,
  )

  -- A change of an invoice that keeps its id and what it has captured.
  abbrev pub Keeps : (RawInvoice OrderState → RawInvoice OrderState) → Type 0
  Keeps change =
      (i : RawInvoice OrderState)
      → ((change i).id ≡ i.id) × ((change i).amount_captured ≡ i.amount_captured)

  pub update-IsBalanced :
      (k : ℕ) (change : RawInvoice OrderState → RawInvoice OrderState)
      (amounts : List RawAmountReceived) (rows : List (RawInvoice OrderState))
      → Keeps change
      → All (IsBalanced amounts) rows
      → All (IsBalanced amounts) (update_if (invoice_has_id k) change rows)
  update-IsBalanced k change amounts [] same h = tt
  update-IsBalanced k change amounts (x ∷ rows) same h = (
    elim (Bool-cases (x.id == k)) [
      | inl here ↦ rw here ((same x).1 ∙ h.0 ∙ sym (ap (λ j. received j amounts) (same x).0))
      | inr other ↦ rw other h.0
    ],
    update-IsBalanced k change amounts rows same h.1,
  )

  any-update :
      (j k : ℕ) (change : RawInvoice OrderState → RawInvoice OrderState)
      (rows : List (RawInvoice OrderState))
      → ((i : RawInvoice OrderState) → (change i).id ≡ i.id)
      → any (invoice_has_id j) (update_if (invoice_has_id k) change rows)
        ≡ any (invoice_has_id j) rows
  any-update j k change [] same = refl
  any-update j k change (x ∷ rows) same = elim (Bool-cases (x.id == k)) [
    | inl here ↦ rw (here, same x, any-update j k change rows same) refl
    | inr other ↦ rw (other, any-update j k change rows same) refl
  ]

  pub update-IsLinked :
      (k : ℕ) (change : RawInvoice OrderState → RawInvoice OrderState)
      (rows : List (RawInvoice OrderState)) (amounts : List RawAmountReceived)
      → ((i : RawInvoice OrderState) → (change i).id ≡ i.id)
      → All (IsLinked rows) amounts
      → All (IsLinked (update_if (invoice_has_id k) change rows)) amounts
  update-IsLinked k change rows [] same h = tt
  update-IsLinked k change rows (r ∷ amounts) same h = (
    any-update r.invoice_id k change rows same ∙ h.0,
    update-IsLinked k change rows amounts same h.1,
  )

  any-rows-append :
      (j : ℕ) (rows : List (RawInvoice OrderState)) (i : RawInvoice OrderState)
      → any (invoice_has_id j) rows ≡ true
      → any (invoice_has_id j) (rows ++ i ∷ []) ≡ true
  any-rows-append j [] i h = cc
  any-rows-append j (x ∷ rows) i h = ground (arith, any-rows-append j rows i)

  pub append-IsLinked :
      (rows : List (RawInvoice OrderState)) (i : RawInvoice OrderState)
      (amounts : List RawAmountReceived)
      → All (IsLinked rows) amounts
      → All (IsLinked (rows ++ i ∷ [])) amounts
  append-IsLinked rows i [] h = tt
  append-IsLinked rows i (r ∷ amounts) h =
      (any-rows-append r.invoice_id rows i h.0, append-IsLinked rows i amounts h.1)

  pub delete-IsBalanced :
      (k : ℕ) (amounts : List RawAmountReceived) (rows : List (RawInvoice OrderState))
      → All (IsBalanced amounts) rows
      → All
          (IsBalanced (keep_if (λ r. not (r.invoice_id == k)) amounts))
          (keep_if (λ x. not (invoice_has_id k x)) rows)
  delete-IsBalanced k amounts [] h = tt
  delete-IsBalanced k amounts (x ∷ rows) h = elim (Bool-cases (x.id == k)) [
    | inl here ↦ rw here (delete-IsBalanced k amounts rows h.1)
    | inr other ↦
        rw other
          (h.0 ∙ sym (received-keep_if k x.id amounts other), delete-IsBalanced k amounts rows h.1)
  ]

  any-rows-keep_if :
      (j k : ℕ) (rows : List (RawInvoice OrderState))
      → (j == k) ≡ false
      → any (invoice_has_id j) rows ≡ true
      → any (invoice_has_id j) (keep_if (λ x. not (invoice_has_id k x)) rows) ≡ true
  any-rows-keep_if j k [] d h = cc
  any-rows-keep_if j k (x ∷ rows) d h = ground (arith, any-rows-keep_if j k rows d)

  pub delete-IsLinked :
      (k : ℕ) (rows : List (RawInvoice OrderState)) (amounts : List RawAmountReceived)
      → All (IsLinked rows) amounts
      → All
          (IsLinked (keep_if (λ x. not (invoice_has_id k x)) rows))
          (keep_if (λ r. not (r.invoice_id == k)) amounts)
  delete-IsLinked k rows [] h = tt
  delete-IsLinked k rows (r ∷ amounts) h = elim (Bool-cases (r.invoice_id == k)) [
    | inl here ↦ rw here (delete-IsLinked k rows amounts h.1)
    | inr other ↦
        rw other
          (any-rows-keep_if r.invoice_id k rows other h.0, delete-IsLinked k rows amounts h.1)
  ]
