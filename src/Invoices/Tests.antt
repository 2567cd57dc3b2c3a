-- ===== src/Invoices/Tests.antt =====
-- Invoices at small tables.
use billing.Base.{ℕ, ◌≡◌, refl, false, none, some, List, [], ◌∷◌, ok, err, RepoError}
use billing.Currency.{Currency}
use billing.Acl.{Acl, BillingRole, allows, system_acl}
use billing.Invoices.{
  RawInvoice, RawAmountReceived, NewInvoice, Tables, crypto_flow, payment_flow, is_in_scope,
  increase_amount_captured, unlink_account, get_by_account_id,
}
use billing.Invoices.Captured.{received}
use billing.Invoices.Balance.{IsSettled}
use billing.Invoices.Runs.{Call, run, run-IsSettled}
use billing.Invoices.Inbound.{record_inbound, record_inbound-twice}
use billing.Invoices.Once.{increase_amount_captured-once}

-- An invoice's status is told by a number.
abbrev invoice : RawInvoice ℕ
invoice = record {
  id = 90;
  account_id = some 4;
  buyer_currency = Currency.stq;
  amount_captured = 30;
  final_amount_paid = none;
  final_cashback_amount = none;
  paid_at = none;
  created_at = 1;
  buyer_user_id = 7;
  status = 0;
}

abbrev amount : RawAmountReceived
amount = record { id = 501; invoice_id = 90; amount_received = 30; created_at = 2 }

abbrev tables : Tables ℕ
tables = record { invoices = invoice ∷ []; amounts = amount ∷ [] }

abbrev acl_of : ℕ → Acl ℕ
acl_of user = allows (is_in_scope user) (BillingRole.user ∷ [])

settled : IsSettled tables
unfolding received
settled = record { balanced = (refl, tt); linked = (refl, tt); distinct = (refl, tt) }

abbrev new_invoice : NewInvoice
new_invoice = record {
  id = 91;
  account_id = some 5;
  buyer_currency = Currency.eth;
  amount_captured = 0;
  buyer_user_id = 7;
}

abbrev calls : List Call
calls =
    Call.create_call system_acl 3 new_invoice
    ∷ Call.increase_call system_acl 4 5 502 12
    ∷ Call.increase_call system_acl 5 5 502 12
    ∷ Call.increase_call (acl_of 8) 5 4 503 20
    ∷ Call.paid_call system_acl 91
        (record { final_amount_paid = 12; final_cashback_amount = 0; paid_at = 6 })
    ∷ Call.unlink_call system_acl 91
    ∷ Call.delete_call system_acl (λ k. false) 90
    ∷ []

run-IsSettled_example : IsSettled (run 0 1 calls tables)
run-IsSettled_example = run-IsSettled 0 1 calls tables settled

abbrev increased : RawInvoice ℕ
increased = record invoice { amount_captured = 42 }

-- The call of the buyer succeeds.
increase_answer : (increase_amount_captured (acl_of 7) 3 4 502 12 tables).0 ≡ ok increased
unfolding increase_amount_captured allows is_in_scope
increase_answer = refl

increase_amount_captured-once_example :
    (f : RepoError) × (increase_amount_captured system_acl 9 4 502 12
        (increase_amount_captured (acl_of 7) 3 4 502 12 tables).1
      ≡ (err f, (increase_amount_captured (acl_of 7) 3 4 502 12 tables).1))
increase_amount_captured-once_example =
    increase_amount_captured-once (acl_of 7) system_acl 3 9 4 4 502 12 12 tables increased
      increase_answer

crypto : payment_flow invoice ≡ crypto_flow
unfolding payment_flow
crypto = refl

unlinked : get_by_account_id system_acl 4 (unlink_account system_acl 90 tables).1 ≡ ok none
unfolding get_by_account_id unlink_account system_acl
unlinked = refl

record_inbound-twice_example :
    (record_inbound system_acl 9 4 502 12 (record_inbound system_acl 3 4 502 12 tables).1).1
    ≡ (record_inbound system_acl 3 4 502 12 tables).1
record_inbound-twice_example = record_inbound-twice system_acl 3 9 4 502 12 tables

-- The second callback is answered with the invoice as the first one left it.
answered_again :
    (record_inbound system_acl 9 4 502 12 (record_inbound system_acl 3 4 502 12 tables).1).0
    ≡ ok increased
unfolding record_inbound system_acl get_by_account_id increase_amount_captured
answered_again = refl
