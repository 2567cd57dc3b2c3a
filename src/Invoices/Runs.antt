-- ===== src/Invoices/Runs.antt =====
-- Sequences of calls of src/repos/invoices_v2.rs on invoices that are paid through accounts.
use billing.Base.{ℕ, refl, Bool, List, [], ◌∷◌}
use billing.Acl.{Acl}
use billing.Invoices.{
  NewInvoice, InvoiceSetAmountPaid, Tables, set_paid, unlink, create, increase_amount_captured,
  set_amount_paid, unlink_account, delete,
}
use billing.Invoices.Balance.{IsSettled}
use billing.Invoices.Steps.{
  create-IsSettled, increase-IsSettled, update-IsSettled, delete-IsSettled,
}

-- A call, with the caller's access control. An invoice is created with nothing captured, as
-- src/services/invoice.rs does.
pub data Call : Type 0 where
  create_call : Acl ℕ → (now : ℕ) → NewInvoice → Call
  increase_call : Acl ℕ → (now account transaction amount : ℕ) → Call
  paid_call : Acl ℕ → (id : ℕ) → InvoiceSetAmountPaid → Call
  unlink_call : Acl ℕ → (id : ℕ) → Call
  delete_call : Acl ℕ → (named_by_intent : ℕ → Bool) → (id : ℕ) → Call

module _ {OrderState : Type 0} (awaited paid : OrderState) where
  unfoldable pub step : Call → Tables OrderState → Tables OrderState
  unfolding create increase_amount_captured set_amount_paid unlink_account delete
  step (Call.create_call acl now n) t =
      (create acl awaited now (record n { amount_captured = 0 }) t).1
  step (Call.increase_call acl now account transaction amount) t =
      (increase_amount_captured acl now account transaction amount t).1
  step (Call.paid_call acl k p) t = (set_amount_paid acl paid k p t).1
  step (Call.unlink_call acl k) t = (unlink_account acl k t).1
  step (Call.delete_call acl named_by_intent k) t = (delete acl named_by_intent k t).1

  unfoldable pub run : List Call → Tables OrderState → Tables OrderState
  unfolding step
  run [] t = t
  run (call ∷ calls) t = run calls (step call t)

  step-IsSettled : (call : Call) (t : Tables OrderState) → IsSettled t → IsSettled (step call t)
  unfolding step set_amount_paid unlink_account set_paid unlink
  step-IsSettled (Call.create_call acl now n) t h =
      create-IsSettled awaited acl now (record n { amount_captured = 0 }) t refl h
  step-IsSettled (Call.increase_call acl now account transaction amount) t h =
      increase-IsSettled acl now account transaction amount t h
  step-IsSettled (Call.paid_call acl k p) t h =
      update-IsSettled (set_paid paid p) acl k t (λ i. (refl, refl)) h
  step-IsSettled (Call.unlink_call acl k) t h =
      update-IsSettled unlink acl k t (λ i. (refl, refl)) h
  step-IsSettled (Call.delete_call acl named_by_intent k) t h =
      delete-IsSettled acl named_by_intent k t h

  -- From tables in which every invoice has captured the sum of the amounts received for it, every
  -- amount received has its invoice and no transaction is recorded twice, every sequence of calls
  -- that create invoices with nothing captured, increase the captured amount of an account's
  -- invoice, set amounts paid (not the fiat way), unlink accounts and delete invoices, each with any
  -- access control, repeated transactions and refused calls included, leaves such tables.
  pub run-IsSettled :
      (calls : List Call) (t : Tables OrderState) → IsSettled t → IsSettled (run calls t)
  unfolding run
  run-IsSettled [] t h = h
  run-IsSettled (call ∷ calls) t h = run-IsSettled calls (step call t) (step-IsSettled call t h)
