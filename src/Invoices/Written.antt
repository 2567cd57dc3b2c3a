-- ===== src/Invoices/Written.antt =====
-- What the writes for a paid invoice leave in the tables (src/repos/invoices_v2.rs,
-- src/repos/event_store.rs).
use billing.Base.{
  ◌≢◌, arith, ◌++◌, codes, ℕ, ◌≡◌, refl, sym, ap, ◌∙◌, inl, inr, Option, none, some, List, [], ◌∷◌,
  find, update_if, Result, ok, err, ◌==◌, ==_iff, Bool-cases, Option-cases, Result-cases, RepoError,
}
use billing.Acl.{Acl}
use billing.EventStore
use billing.Invoices.{
  RawInvoice, InvoiceSetAmountPaid, Tables, invoice_has_id, set_paid, set_amount_paid,
  update_invoice, writable, check_invoice,
}

module _ {OrderState : Type 0} where
  pub find-id :
      (k : ℕ) (rows : List (RawInvoice OrderState)) {i : RawInvoice OrderState}
      → find (invoice_has_id k) rows ≡ some i
      → i.id ≡ k
  find-id k [] h = cc
  find-id k (x ∷ rows) {i} h = elim (Bool-cases (x.id == k)) [
    | inl here ↦
        let same : some x ≡ some i = rw here at h in
        let equal : x ≡ i = cc in rw (sym equal) ((==_iff x.id k).0 here)
    | inr later ↦ find-id k rows (rw later at h)
  ]

  pub find-set_paid :
      (paid : OrderState) (p : InvoiceSetAmountPaid) (k : ℕ) (rows : List (RawInvoice OrderState))
      {i : RawInvoice OrderState}
      → find (invoice_has_id k) rows ≡ some i
      → find (invoice_has_id k) (update_if (invoice_has_id k) (set_paid paid p) rows)
        ≡ some (set_paid paid p i)
  unfolding set_paid
  find-set_paid paid p k [] h = cc
  find-set_paid paid p k (x ∷ rows) {i} h = elim (Bool-cases (x.id == k)) [
    | inl here ↦
        let same : some x ≡ some i = rw here at h in
        let equal : x ≡ i = cc in rw (here, here, equal) refl
    | inr later ↦ rw (later, later) (find-set_paid paid p k rows (rw later at h))
  ]

  -- An update of the rows of a key leaves those of other keys.
  pub find-other :
      (j k : ℕ) (f : RawInvoice OrderState → RawInvoice OrderState)
      → ((i : RawInvoice OrderState) → (f i).id ≡ i.id)
      → (rows : List (RawInvoice OrderState)) → j ≢ k
      → find (invoice_has_id j) (update_if (invoice_has_id k) f rows) ≡ find (invoice_has_id j) rows
  find-other j k f same [] d = refl
  find-other j k f same (x ∷ rows) d = ground (arith, find-other j k f same rows d, same x)

  -- A read that succeeds finds its row.
  pub get-find :
      (acl : Acl ℕ) (k : ℕ) (t : Tables OrderState) (i : RawInvoice OrderState)
      → billing.Invoices.get acl k t ≡ ok (some i)
      → find (invoice_has_id k) t.invoices ≡ some i
  unfolding billing.Invoices.get
  get-find acl k t i h = elim (Option-cases (find (invoice_has_id k) t.invoices)) [
    | inl e ↦
        let wrong : ◌≡◌ {A = Result RepoError (Option (RawInvoice OrderState))} (ok none)
            (ok (some i)) =
          rw (billing.Invoices.get, e) at h in
        cc
    | inr (x, e) ↦ elim (Result-cases (check_invoice acl billing.Acl.read x)) [
      | inl (_, c) ↦
          let same : ◌≡◌ {A = Result RepoError (Option (RawInvoice OrderState))} (ok (some x))
              (ok (some i)) =
            rw (billing.Invoices.get, e, c) at h in
          let equal : x ≡ i = cc in e ∙ ap some equal
      | inr (f, c) ↦
          let wrong : ◌≡◌ {A = Result RepoError (Option (RawInvoice OrderState))} (err f)
              (ok (some i)) =
            rw (billing.Invoices.get, e, c) at h in
          cc
    ]
  ]

  -- What a successful `set_amount_paid` writes.
  pub set_amount_paid-ok :
      (acl : Acl ℕ) (paid : OrderState) (k : ℕ) (p : InvoiceSetAmountPaid) (t : Tables OrderState)
      (i : RawInvoice OrderState)
      → (set_amount_paid acl paid k p t).0 ≡ ok i
      → (set_amount_paid acl paid k p t).1
        ≡ record t { invoices = update_if (invoice_has_id k) (set_paid paid p) t.invoices }
  unfolding set_amount_paid update_invoice
  set_amount_paid-ok acl paid k p t i h =
      elim (Result-cases (writable acl (find (invoice_has_id k) t.invoices))) [
        | inl (x, e) ↦ rw (set_amount_paid, update_invoice, e) refl
        | inr (f, e) ↦
            let wrong : ◌≡◌ {A = Result RepoError (RawInvoice OrderState)} (err f) (ok i) =
              rw (set_amount_paid, update_invoice, e) at h in
            cc
      ]

-- An event that is stored adds a row with what it is stored as, pending and with no attempts.
pub add_event-ok :
    {Event Value : Type 0} (to_value : Event → Option Value) (from_value : Value → Option Event)
    (now : ℕ) (e : Event) (t : billing.EventStore.Table Value)
    {x : billing.EventStore.Entry.EventEntry Event}
    → (billing.EventStore.add_event to_value from_value now e t).0 ≡ ok x
    → (row : billing.EventStore.Entry.RawEventEntry Value) × ((billing.EventStore.add_event to_value
          from_value now e t).1.rows
        ≡ t.rows ++ row ∷ [])
      × (to_value e ≡ some row.event)
      × (row.status ≡ codes "pending")
      × (row.attempt_count ≡ 0)
      × (row.id ≡ t.next_id)
unfolding billing.EventStore.add_event billing.EventStore.add billing.EventStore.insert_row
    billing.EventStore.Entry.try_from_event billing.EventStore.Entry.to_string
add_event-ok {Event} to_value from_value now e t {x} h = elim (Option-cases (to_value e)) [
  | inl n ↦
      let wrong : ◌≡◌ {A = Result RepoError (billing.EventStore.Entry.EventEntry Event)}
          (err RepoError.internal) (ok x) =
        rw
          (
            billing.EventStore.add_event, billing.EventStore.Entry.try_from_event, n,
            billing.EventStore.add,
          )
          at h in
      cc
  | inr (v, s) ↦ (
    record {
      id = t.next_id;
      event = v;
      status = codes "pending";
      attempt_count = 0;
      created_at = now;
      status_updated_at = now;
      scheduled_on = none;
    },
    rw
        (
          billing.EventStore.add_event, billing.EventStore.Entry.try_from_event, s,
          billing.EventStore.add,
        )
        refl,
    s,
    refl,
    refl,
    refl,
  )
]
