-- ===== src/Invoices/Inbound.antt =====
-- The callback of the payments gateway for an incoming transaction: what it writes to the tables of
-- invoices (the first part of `handle_inbound_tx` in src/services/invoice.rs). The signature and the
-- form of the amount are checked before it, and the account is known.
use billing.Base.{
  ℕ, ◌≡◌, refl, sym, ap, ◌∙◌, ◌⊎◌, inl, inr, true, Option, none, some, any, find, Result, ok, err,
  RepoError, ServiceError, from_repo, Result-cases, Option-cases, Bool-cases, update_if,
}
use billing.Acl.{Acl}
use billing.Amount.{checked_add}
use billing.Invoices.{
  RawInvoice, Tables, received_has_id, invoice_has_id, has_account, writable, set_captured,
  get_by_account_id, increase_amount_captured,
}
use billing.Invoices.Once.{increase-ok, increase-again}

module _ {OrderState : Type 0} (acl : Acl ℕ) where
  -- The answer once the transaction is known to be recorded.
  unfoldable pub recorded_before :
      Result RepoError (Option (RawInvoice OrderState))
      → Result ServiceError (RawInvoice OrderState)
  recorded_before (err e) = err (from_repo e)
  recorded_before (ok none) = err ServiceError.internal
  recorded_before (ok (some i)) = ok i

  -- The `or_else` that follows `increase_amount_captured`.
  unfoldable pub after_increase :
      ℕ
      → Result RepoError (RawInvoice OrderState)
      → Tables OrderState
      → Result ServiceError (RawInvoice OrderState)
  unfolding recorded_before
  after_increase account (ok i) t = ok i
  after_increase account (err RepoError.constraints) t =
      recorded_before (get_by_account_id acl account t)
  after_increase account (err e) t = err (from_repo e)

  -- The database part of `handle_inbound_tx`.
  unfoldable pub record_inbound :
      (now account transaction amount : ℕ)
      → Tables OrderState
      → Result ServiceError (RawInvoice OrderState) × Tables OrderState
  unfolding after_increase
  record_inbound now account transaction amount t = elim (get_by_account_id acl account t) [
    | err e ↦ (err (from_repo e), t)
    | ok none ↦ (err ServiceError.not_found, t)
    | ok (some i) ↦
        let (r, t') = increase_amount_captured acl now account transaction amount t in
        (after_increase account r t', t')
  ]

  -- A call records its transaction, or it changes nothing, and so at any other time.
  increase-cases :
      (now account transaction amount : ℕ) (t : Tables OrderState)
      → (any
            (received_has_id transaction)
            (increase_amount_captured acl now account transaction amount t).1.amounts
          ≡ true)
        ⊎ ((n : ℕ) → (increase_amount_captured acl n account transaction amount t).1 ≡ t)
  unfolding increase_amount_captured
  increase-cases now account transaction amount t =
      elim (Result-cases (writable acl (find (has_account account) t.invoices))) [
        | inr (x, refused) ↦ inr (λ n. rw (refused, increase_amount_captured) refl)
        | inl (i, read') ↦ elim (Option-cases (checked_add i.amount_captured amount)) [
          | inl overflow ↦ inr (λ n. rw (read', overflow, increase_amount_captured) refl)
          | inr (captured, sum) ↦ elim (Bool-cases (any (received_has_id transaction) t.amounts)) [
            | inl again ↦ inr (λ n. rw (read', sum, again, increase_amount_captured) refl)
            | inr new ↦
                elim (Option-cases (
                  find (invoice_has_id i.id)
                    (update_if (invoice_has_id i.id) (set_captured captured) t.invoices))) [
                      | inl missing ↦
                          inr (λ n. rw (read', sum, new, missing, increase_amount_captured) refl)
                      | inr (i', found) ↦
                          let answer : (increase_amount_captured acl now account transaction amount
                                t).0
                              ≡ ok i' =
                            rw (read', sum, new, found, increase_amount_captured) refl in
                          inl (increase-ok acl now account transaction amount t answer)
                    ]
          ]
        ]
      ]

  record_inbound-again :
      (now account transaction amount : ℕ) (t : Tables OrderState)
      → any (received_has_id transaction) t.amounts ≡ true
      → (record_inbound now account transaction amount t).1 ≡ t
  unfolding record_inbound
  record_inbound-again now account transaction amount t again =
      let (f, same) = increase-again acl now account transaction amount t again in
      elim (Result-cases (get_by_account_id acl account t)) [
        | inr (e, refused) ↦ rw (refused, record_inbound) refl
        | inl (none, e) ↦ rw (e, record_inbound) refl
        | inl (some i, e) ↦ rw (e, record_inbound) (ap (λ x. x.1) same)
      ]

  record_inbound-cases :
      (now account transaction amount : ℕ) (t : Tables OrderState)
      → (any
            (received_has_id transaction)
            (record_inbound now account transaction amount t).1.amounts
          ≡ true)
        ⊎ ((n : ℕ) → (record_inbound n account transaction amount t).1 ≡ t)
  unfolding record_inbound
  record_inbound-cases now account transaction amount t =
      elim (Result-cases (get_by_account_id acl account t)) [
        | inr (e, refused) ↦ inr (λ n. rw (refused, record_inbound) refl)
        | inl (none, e) ↦ inr (λ n. rw (e, record_inbound) refl)
        | inl (some i, e) ↦ elim (increase-cases now account transaction amount t) [
          | inl recorded ↦ inl (rw (e, record_inbound) recorded)
          | inr same ↦ inr (λ n. rw (e, record_inbound) (same n))
        ]
      ]

  -- The tables of invoices and of amounts received after the recording part of the callback
  -- (`record_inbound`) has run twice for the same transaction, account and amount, at whatever times,
  -- are those after it has run once, whether that was answered with an invoice or an error. What the
  -- callback does after it has recorded the transaction is not part of this.
  pub record_inbound-twice :
      (now now' account transaction amount : ℕ) (t : Tables OrderState)
      → (record_inbound now' account transaction amount
          (record_inbound now account transaction amount t).1).1
        ≡ (record_inbound now account transaction amount t).1
  record_inbound-twice now now' account transaction amount t =
      let after = (record_inbound now account transaction amount t).1 in
      elim (record_inbound-cases now account transaction amount t) [
        | inl recorded ↦ record_inbound-again now' account transaction amount after recorded
        | inr same ↦
            ap (λ x. (record_inbound now' account transaction amount x).1) (same now)
            ∙ same now'
            ∙ sym (same now)
      ]
