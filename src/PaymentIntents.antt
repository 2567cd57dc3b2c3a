-- ===== src/PaymentIntents.antt =====
-- Payment intents of the card processor and their links to invoices: the rows
-- (src/models/payment_intent.rs, src/models/payment_intents_invoices.rs) and how they are read
-- (src/repos/payment_intent.rs, src/repos/payment_intents_invoices.rs).
use billing.Base.{
  ℕ, Bool, true, false, Option, none, some, List, find, ◌==◌, Result, ok, RepoError, ◌>>◌,
}
use billing.Acl.{Acl, Resource, Scope, everything, owned, read, check}

-- `PaymentIntentStatus`
pub data PaymentIntentStatus : Type 0 where
  requires_source requires_confirmation requires_source_action processing : PaymentIntentStatus
  requires_capture canceled succeeded other_status : PaymentIntentStatus

-- `PaymentIntentStatus::is_cancellable`
unfoldable pub is_cancellable : PaymentIntentStatus → Bool
is_cancellable requires_source = true
is_cancellable requires_confirmation = true
is_cancellable requires_source_action = true
is_cancellable requires_capture = true
is_cancellable _ = false

-- `PaymentIntent`, with the fields that the modelled code reads.
pub record PaymentIntent : Type 0 where
  pub id : ℕ
  pub amount : ℕ
  pub amount_received : ℕ
  pub charge_id : Option ℕ
  pub status : PaymentIntentStatus

-- `PaymentIntentInvoice`
pub record PaymentIntentInvoice : Type 0 where
  pub invoice_id : ℕ
  pub payment_intent_id : ℕ

-- The scope of the repository of payment intents.
unfoldable pub is_in_scope : Scope → Option ℕ → Bool
is_in_scope everything obj = true
is_in_scope owned obj = false

-- `PaymentIntentRepo::get` by id; the access object is the id.
unfoldable pub get_payment_intent :
    Acl ℕ → ℕ → List PaymentIntent → Result RepoError (Option PaymentIntent)
get_payment_intent acl i rows = elim (find (λ p. p.id == i) rows) [
  | none ↦ ok none
  | some p ↦ check acl Resource.payment_intent read (some p.id) >> ok (some p)
]

-- `PaymentIntentInvoiceRepo::get` by invoice.
unfoldable pub get_payment_intent_invoice :
    Acl PaymentIntentInvoice
    → ℕ
    → List PaymentIntentInvoice
    → Result RepoError (Option PaymentIntentInvoice)
get_payment_intent_invoice acl invoice rows = elim (find (λ p. p.invoice_id == invoice) rows) [
  | none ↦ ok none
  | some p ↦ check acl Resource.payment_intent_invoice read (some p) >> ok (some p)
]
