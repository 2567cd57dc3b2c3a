-- ===== src/Invoices/Once.antt =====
-- Transactions that the payments gateway reports more than once (src/repos/invoices_v2.rs).
use billing.Base.{
  ℕ, ◌≡◌, ◌≢◌, refl, inl, inr, true, List, [], ◌∷◌, ◌++◌, any, find, update_if, ok, err, arith,
  Bool-cases, Result-cases, Option-cases, RepoError, Result, ==_refl,
}
use billing.Acl.{Acl}
use billing.Amount.{checked_add}
use billing.Invoices.{
  RawInvoice, RawAmountReceived, Tables, invoice_has_id, received_has_id, has_account, set_captured,
  writable, increase_amount_captured,
}

any-last :
    (rows : List RawAmountReceived) (r : RawAmountReceived)
    → any (received_has_id r.id) (rows ++ r ∷ []) ≡ true
any-last [] r = rw (==_refl r.id) refl
any-last (x ∷ rows) r = ground (arith, any-last rows r)

module _ {OrderState : Type 0} where
  err≢ok :
      {f : RepoError} {i : RawInvoice OrderState}
      → ◌≢◌ {A = Result RepoError (RawInvoice OrderState)} (err f) (ok i)
  err≢ok e = cc

  -- A successful call has recorded its transaction and added its amount.
  pub increase-ok :
      (acl : Acl ℕ) (now account transaction amount : ℕ) (t : Tables OrderState)
      {i : RawInvoice OrderState}
      → (increase_amount_captured acl now account transaction amount t).0 ≡ ok i
      → any
          (received_has_id transaction)
          (increase_amount_captured acl now account transaction amount t).1.amounts
        ≡ true
  unfolding increase_amount_captured
  increase-ok acl now account transaction amount t {i} e =
      elim (Result-cases (writable acl (find (has_account account) t.invoices))) [
        | inr (f, refused) ↦ absurd (err≢ok (rw (refused, increase_amount_captured) at e))
        | inl (x, read') ↦ elim (Option-cases (checked_add x.amount_captured amount)) [
          | inl overflow ↦ absurd (err≢ok (rw (read', overflow, increase_amount_captured) at e))
          | inr (captured, sum) ↦ elim (Bool-cases (any (received_has_id transaction) t.amounts)) [
            | inl again ↦ absurd (err≢ok (rw (read', sum, again, increase_amount_captured) at e))
            | inr new ↦
                let rows = update_if (invoice_has_id x.id) (set_captured captured) t.invoices in
                elim (Option-cases (find (invoice_has_id x.id) rows)) [
                  | inl missing ↦
                      absurd (err≢ok (rw (read', sum, new, missing, increase_amount_captured) at e))
                  | inr (x', found) ↦
                      rw (read', sum, new, found, increase_amount_captured)
                        (any-last t.amounts (record {
                          id = transaction;
                          invoice_id = x.id;
                          amount_received = amount;
                          created_at = now;
                        }))
                ]
          ]
        ]
      ]

  -- A transaction that is recorded is refused.
  pub increase-again :
      (acl : Acl ℕ) (now account transaction amount : ℕ) (t : Tables OrderState)
      → any (received_has_id transaction) t.amounts ≡ true
      → (f : RepoError) × (increase_amount_captured acl now account transaction amount t
          ≡ (err f, t))
  unfolding increase_amount_captured
  increase-again acl now account transaction amount t again =
      elim (Result-cases (writable acl (find (has_account account) t.invoices))) [
        | inr (f, refused) ↦ rw (refused, increase_amount_captured) (f, refl)
        | inl (x, read') ↦ elim (Option-cases (checked_add x.amount_captured amount)) [
          | inl overflow ↦ rw (read', overflow, increase_amount_captured) (RepoError.internal, refl)
          | inr (captured, sum) ↦
              rw (read', sum, again, increase_amount_captured) (RepoError.constraints, refl)
        ]
      ]

  -- Once a call of `increase_amount_captured` has succeeded, another one with the same transaction,
  -- whoever makes it and whatever account and amount it names, is answered with an error and leaves
  -- the tables as they are.
  pub increase_amount_captured-once :
      (acl acl' : Acl ℕ) (now now' account account' transaction amount amount' : ℕ)
      (t : Tables OrderState) (i : RawInvoice OrderState)
      → (increase_amount_captured acl now account transaction amount t).0 ≡ ok i
      → (f : RepoError) × (increase_amount_captured acl' now' account' transaction amount'
            (increase_amount_captured acl now account transaction amount t).1
          ≡ (err f, (increase_amount_captured acl now account transaction amount t).1))
  increase_amount_captured-once acl acl' now now' account account' transaction amount amount' t i
        e =
      increase-again acl' now' account' transaction amount'
        (increase_amount_captured acl now account transaction amount t).1
        (increase-ok acl now account transaction amount t e)
