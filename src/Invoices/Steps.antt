-- ===== src/Invoices/Steps.antt =====
-- Each method of src/repos/invoices_v2.rs keeps the balance of invoices and amounts received.
use billing.Base.{
  ℕ, ◌+◌, ◌≡◌, refl, ap, sym, ◌∙◌, inl, inr, Bool, true, false, ◌||◌, Option, none, some, List, [],
  ◌∷◌, ◌++◌, All-snoc, any, find, update_if, ok, err, arith, ◌==◌, Bool-cases, Result-cases,
  Option-cases, RepoError, Result, ==_refl,
}
use billing.Acl.{Acl, Resource, write, check}
use billing.Amount.{checked_add}
use billing.Invoices.{
  RawInvoice, RawAmountReceived, NewInvoice, Tables, invoice_has_id, received_has_id, has_account,
  account_taken, new_row, set_captured, writable, check_invoice, create, increase_amount_captured,
  update_invoice, delete,
}
use billing.Invoices.Captured.{Distinct-keep_if, Distinct-append}
use billing.Invoices.Balance.{
  IsBalanced, IsLinked, IsSettled, Keeps, find-IsBalanced, received-unlinked, increase-IsBalanced,
  update-IsBalanced, update-IsLinked, append-IsLinked, delete-IsBalanced, delete-IsLinked,
}

checked_add-sum : (a b : ℕ) {c : ℕ} → checked_add a b ≡ some c → c ≡ a + b
unfolding checked_add
checked_add-sum a b e = ground arith

module _ {OrderState : Type 0} where
  pub writable-ok :
      (acl : Acl ℕ) (found : Option (RawInvoice OrderState)) {i : RawInvoice OrderState}
      → writable acl found ≡ ok i
      → found ≡ some i
  unfolding writable
  writable-ok acl none e = cc
  writable-ok acl (some x) {i} e = elim (Result-cases (check_invoice acl write x)) [
    | inl (done, allowed) ↦
        let same : ◌≡◌ {A = Result RepoError (RawInvoice OrderState)} (ok x) (ok i) =
          rw (allowed, writable) at e in
        cc
    | inr (f, refused) ↦
        let wrong : ◌≡◌ {A = Result RepoError (RawInvoice OrderState)} (err f) (ok i) =
          rw (refused, writable) at e in
        cc
  ]

  -- The two writes of the transaction.
  increase_rows-IsSettled :
      (captured : ℕ) (i : RawInvoice OrderState) (r : RawAmountReceived) (t : Tables OrderState)
      → r.invoice_id ≡ i.id
      → captured ≡ i.amount_captured + r.amount_received
      → IsBalanced t.amounts i
      → any (received_has_id r.id) t.amounts ≡ false
      → any (invoice_has_id i.id) t.invoices ≡ true
      → IsSettled t
      → IsSettled (record {
        invoices = update_if (invoice_has_id i.id) (set_captured captured) t.invoices;
        amounts = t.amounts ++ r ∷ [];
      })
  unfolding set_captured
  increase_rows-IsSettled captured i r t e sum balance new exists h =
      let linked' = update-IsLinked i.id (set_captured captured) t.invoices in
      let here : IsLinked t.invoices r = rw e exists in
      let kept : (x : RawInvoice OrderState) → (set_captured captured x).id ≡ x.id = λ x. refl in
      record {
        balanced =
            increase-IsBalanced i.id captured t.amounts r t.invoices e
              (sum ∙ ap (λ c. c + r.amount_received) balance) h.balanced;
        linked =
            linked' (t.amounts ++ r ∷ []) kept
              (All-snoc (IsLinked t.invoices) t.amounts h.linked here);
        distinct = Distinct-append t.amounts r h.distinct new;
      }

  find-exists :
      (p : RawInvoice OrderState → Bool) (i : RawInvoice OrderState)
      (rows : List (RawInvoice OrderState))
      → find p rows ≡ some i
      → any (invoice_has_id i.id) rows ≡ true
  find-exists p i [] e = cc
  find-exists p i (x ∷ rows) e = elim (Bool-cases (p x)) [
    | inl here ↦
        let same : some x ≡ some i = rw here at e in
        let equal : x ≡ i = cc in
        let key : (x.id == i.id) ≡ true = rw equal (==_refl i.id) in ground arith
    | inr later ↦ let rest = find-exists p i rows (rw later at e) in ground arith
  ]

  pub increase-IsSettled :
      (acl : Acl ℕ) (now account transaction amount : ℕ) (t : Tables OrderState)
      → IsSettled t
      → IsSettled (increase_amount_captured acl now account transaction amount t).1
  unfolding increase_amount_captured
  increase-IsSettled acl now account transaction amount t h =
      elim (Result-cases (writable acl (find (has_account account) t.invoices))) [
        | inr (e, refused) ↦ rw (refused, increase_amount_captured) h
        | inl (i, e) ↦ elim (Option-cases (checked_add i.amount_captured amount)) [
          | inl overflow ↦ rw (e, overflow, increase_amount_captured) h
          | inr (captured, sum) ↦ elim (Bool-cases (any (received_has_id transaction) t.amounts)) [
            | inl again ↦ rw (e, sum, again, increase_amount_captured) h
            | inr new ↦
                let read' = writable-ok acl (find (has_account account) t.invoices) e in
                let rows = update_if (invoice_has_id i.id) (set_captured captured) t.invoices in
                let r : RawAmountReceived = record {
                  id = transaction;
                  invoice_id = i.id;
                  amount_received = amount;
                  created_at = now;
                } in
                elim (Option-cases (find (invoice_has_id i.id) rows)) [
                  | inl missing ↦ rw (e, sum, new, missing, increase_amount_captured) h
                  | inr (i', found) ↦
                      rw (e, sum, new, found, increase_amount_captured)
                        (increase_rows-IsSettled captured i r t refl
                          (checked_add-sum i.amount_captured amount sum)
                          (find-IsBalanced (has_account account) t.amounts t.invoices h.balanced
                            read')
                          new (find-exists (has_account account) i t.invoices read') h)
                ]
          ]
        ]
      ]

  pub create-IsSettled :
      (awaited : OrderState) (acl : Acl ℕ) (now : ℕ) (n : NewInvoice) (t : Tables OrderState)
      → n.amount_captured ≡ 0
      → IsSettled t
      → IsSettled (create acl awaited now n t).1
  unfolding create new_row
  create-IsSettled awaited acl now n t zero' h =
      elim (Result-cases (check acl Resource.invoice write (some n.buyer_user_id))) [
        | inr (e, refused) ↦ rw (refused, create) h
        | inl (done, allowed) ↦
            elim (Bool-cases
              (any (invoice_has_id n.id) t.invoices || account_taken n.account_id t.invoices)) [
                | inl taken ↦ rw (allowed, taken, create) h
                | inr free ↦
                    let fresh : any (invoice_has_id n.id) t.invoices ≡ false = ground arith in
                    let row = new_row awaited now n in
                    let balance : IsBalanced t.amounts row =
                      zero' ∙ sym (received-unlinked n.id t.invoices t.amounts h.linked fresh) in
                    rw (allowed, free, create)
                      (record {
                        balanced = All-snoc (IsBalanced t.amounts) t.invoices h.balanced balance;
                        linked = append-IsLinked t.invoices row t.amounts h.linked;
                        distinct = h.distinct;
                      })
              ]
      ]

  pub update-IsSettled :
      (change : RawInvoice OrderState → RawInvoice OrderState) (acl : Acl ℕ) (k : ℕ)
      (t : Tables OrderState)
      → Keeps change
      → IsSettled t
      → IsSettled (update_invoice acl change k t).1
  unfolding update_invoice
  update-IsSettled change acl k t same h =
      elim (Result-cases (writable acl (find (invoice_has_id k) t.invoices))) [
        | inr (e, refused) ↦ rw (refused, update_invoice) h
        | inl (i, e) ↦
            rw (e, update_invoice)
              (record {
                balanced = update-IsBalanced k change t.amounts t.invoices same h.balanced;
                linked = update-IsLinked k change t.invoices t.amounts (λ i. (same i).0) h.linked;
                distinct = h.distinct;
              })
      ]

  pub delete-IsSettled :
      (acl : Acl ℕ) (named_by_intent : ℕ → Bool) (k : ℕ) (t : Tables OrderState)
      → IsSettled t
      → IsSettled (delete acl named_by_intent k t).1
  unfolding delete
  delete-IsSettled acl named_by_intent k t h =
      elim (Option-cases (find (invoice_has_id k) t.invoices)) [
        | inl missing ↦ rw (missing, delete) h
        | inr (i, found) ↦ elim (Result-cases (check_invoice acl write i)) [
          | inr (e, refused) ↦ rw (found, refused, delete) h
          | inl (done, allowed) ↦ elim (Bool-cases (named_by_intent k)) [
            | inl named ↦ rw (found, allowed, named, delete) h
            | inr free ↦
                rw (found, allowed, free, delete)
                  (record {
                    balanced = delete-IsBalanced k t.amounts t.invoices h.balanced;
                    linked = delete-IsLinked k t.invoices t.amounts h.linked;
                    distinct = Distinct-keep_if k t.amounts h.distinct;
                  })
          ]
        ]
      ]
