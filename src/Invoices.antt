-- ===== src/Invoices.antt =====
-- Invoices: the rows (src/models/invoice_v2.rs) and the repository over the tables `invoices_v2` and
-- `amounts_received` (src/repos/invoices_v2.rs). The type of an invoice's status and its two values
-- that the repository sets are declared outside of the repository: they are parameters. The column
-- `updated_at`, which a trigger keeps, is left out.
pub mod Captured
pub mod Balance
pub mod Steps
pub mod Runs
pub mod Once
pub mod Inbound
pub mod Price
pub mod Settlement
pub mod Refresh
pub mod Written
pub mod Paid
pub mod Pricing
pub mod Outcomes
pub mod StaysPaid
pub mod Published
pub mod PriceTests
pub mod Tests
use billing.Base.{
  ℕ, Bool, true, false, ◌||◌, not, Option, none, some, List, [], ◌∷◌, ◌++◌, any, find, keep_if,
  update_if, ◌==◌, if◌then◌else◌, Result, ok, err, ok_or, RepoError, ◌>>◌,
}
use billing.Currency.{Currency, is_fiat}
use billing.Acl.{Acl, Resource, Action, Scope, everything, owned, read, write, check}
use billing.Amount.{checked_add}

-- `PaymentFlow`
pub data PaymentFlow : Type 0 where
  crypto_flow fiat_flow : PaymentFlow

-- `RawInvoice`
pub record RawInvoice (OrderState : Type 0) : Type 0 where
  pub id : ℕ
  pub account_id : Option ℕ
  pub buyer_currency : Currency
  pub amount_captured : ℕ
  pub final_amount_paid : Option ℕ
  pub final_cashback_amount : Option ℕ
  pub paid_at : Option ℕ
  pub created_at : ℕ
  pub buyer_user_id : ℕ
  pub status : OrderState

-- `RawAmountReceived`
pub record RawAmountReceived : Type 0 where
  pub id : ℕ
  pub invoice_id : ℕ
  pub amount_received : ℕ
  pub created_at : ℕ

-- `NewInvoice`
pub record NewInvoice : Type 0 where
  pub id : ℕ
  pub account_id : Option ℕ
  pub buyer_currency : Currency
  pub amount_captured : ℕ
  pub buyer_user_id : ℕ

-- `InvoiceSetAmountPaid`
pub record InvoiceSetAmountPaid : Type 0 where
  pub final_amount_paid : ℕ
  pub final_cashback_amount : ℕ
  pub paid_at : ℕ

-- The two tables.
pub record Tables (OrderState : Type 0) : Type 0 where
  pub invoices : List (RawInvoice OrderState)
  pub amounts : List RawAmountReceived

-- `is_in_scope`; the access object is the buyer's id.
unfoldable pub is_in_scope : ℕ → Scope → Option ℕ → Bool
is_in_scope user everything obj = true
is_in_scope user owned none = false
is_in_scope user owned (some buyer) = buyer == user

-- A call of the repository: its result, and the tables that it leaves.
abbrev pub Step : (OrderState A : Type 0) → Type 0
Step OrderState A = Tables OrderState → Result RepoError A × Tables OrderState

abbrev pub received_has_id : ℕ → RawAmountReceived → Bool
received_has_id tx r = r.id == tx

module _ {OrderState : Type 0} where
  -- `RawInvoice::payment_flow`
  unfoldable pub payment_flow : RawInvoice OrderState → PaymentFlow
  unfolding is_fiat
  payment_flow i = if is_fiat i.buyer_currency then fiat_flow else crypto_flow

  abbrev pub invoice_has_id : ℕ → RawInvoice OrderState → Bool
  invoice_has_id k i = i.id == k

  -- `account_id.eq(account_id)`
  unfoldable pub has_account : ℕ → RawInvoice OrderState → Bool
  has_account a i = elim i.account_id [ none ↦ false | some x ↦ x == a ]

  -- The unique key on the account.
  unfoldable pub account_taken : Option ℕ → List (RawInvoice OrderState) → Bool
  unfolding has_account
  account_taken none rows = false
  account_taken (some a) rows = any (has_account a) rows

  -- The row that an insert adds: `RawNewInvoice::from`, with the column defaults.
  unfoldable pub new_row : (awaited : OrderState) → ℕ → NewInvoice → RawInvoice OrderState
  new_row awaited now n = record {
    id = n.id;
    account_id = n.account_id;
    buyer_currency = n.buyer_currency;
    amount_captured = n.amount_captured;
    final_amount_paid = none;
    final_cashback_amount = none;
    paid_at = none;
    created_at = now;
    buyer_user_id = n.buyer_user_id;
    status = awaited;
  }

  -- `SET amount_captured = …`
  unfoldable pub set_captured : ℕ → RawInvoice OrderState → RawInvoice OrderState
  set_captured amount i = record i { amount_captured = amount }

  -- The changeset `RawInvoiceSetAmountPaid`.
  unfoldable pub set_paid :
      (paid : OrderState) → InvoiceSetAmountPaid → RawInvoice OrderState → RawInvoice OrderState
  set_paid paid p i = record i {
    final_amount_paid = some p.final_amount_paid;
    final_cashback_amount = some p.final_cashback_amount;
    paid_at = some p.paid_at;
    status = paid;
  }

  -- The changeset `RawInvoiceSetAmountPaidFiat`.
  unfoldable pub set_paid_fiat :
      (paid : OrderState) → InvoiceSetAmountPaid → RawInvoice OrderState → RawInvoice OrderState
  set_paid_fiat paid p i = record i {
    amount_captured = p.final_amount_paid;
    final_amount_paid = some p.final_amount_paid;
    final_cashback_amount = some p.final_cashback_amount;
    paid_at = some p.paid_at;
    status = paid;
  }

  -- `SET account_id = NULL`
  unfoldable pub unlink : RawInvoice OrderState → RawInvoice OrderState
  unlink i = record i { account_id = none }

module _ {OrderState : Type 0} (acl : Acl ℕ) where
  abbrev pub check_invoice : Action → RawInvoice OrderState → Result RepoError (Unit {0})
  check_invoice a i = check acl Resource.invoice a (some i.buyer_user_id)

  -- The match that ends `get` and `get_by_account_id`.
  abbrev pub checked_invoice :
      Option (RawInvoice OrderState) → Result RepoError (Option (RawInvoice OrderState))
  checked_invoice none = ok none
  checked_invoice (some i) = check_invoice read i >> ok (some i)

  -- `get`
  unfoldable pub get : ℕ → Tables OrderState → Result RepoError (Option (RawInvoice OrderState))
  get k t = checked_invoice (find (invoice_has_id k) t.invoices)

  -- `get_by_account_id`
  unfoldable pub get_by_account_id :
      ℕ → Tables OrderState → Result RepoError (Option (RawInvoice OrderState))
  unfolding has_account
  get_by_account_id a t = checked_invoice (find (has_account a) t.invoices)

  -- The read and the check with which the updates begin.
  unfoldable pub writable :
      Option (RawInvoice OrderState) → Result RepoError (RawInvoice OrderState)
  writable none = err RepoError.not_found
  writable (some i) = check_invoice write i >> ok i

  -- `create`: the keys are unique.
  unfoldable pub create :
      (awaited : OrderState) → ℕ → NewInvoice → Step OrderState (RawInvoice OrderState)
  unfolding account_taken new_row
  create awaited now n t = elim (check acl Resource.invoice write (some n.buyer_user_id)) [
    | err e ↦ (err e, t)
    | ok _ ↦
        if any (invoice_has_id n.id) t.invoices || account_taken n.account_id t.invoices
        then (err RepoError.constraints, t)
        else (
          ok (new_row awaited now n),
          record t { invoices = t.invoices ++ new_row awaited now n ∷ [] },
        )
  ]

  -- `increase_amount_captured`: the insert and the update are one transaction.
  unfoldable pub increase_amount_captured :
      (now account transaction amount : ℕ) → Step OrderState (RawInvoice OrderState)
  unfolding has_account writable checked_add set_captured
  increase_amount_captured now account transaction amount t =
      elim (writable (find (has_account account) t.invoices)) [
        | err e ↦ (err e, t)
        | ok i ↦ elim (checked_add i.amount_captured amount) [
          | none ↦ (err RepoError.internal, t)
          | some captured ↦
              if any (received_has_id transaction) t.amounts
              then (err RepoError.constraints, t)
              else let received : RawAmountReceived = record {
                id = transaction;
                invoice_id = i.id;
                amount_received = amount;
                created_at = now;
              } in
                let rows = update_if (invoice_has_id i.id) (set_captured captured) t.invoices in
                elim (find (invoice_has_id i.id) rows) [
                  | none ↦ (err RepoError.not_found, t)
                  | some i' ↦
                      (ok i', record { invoices = rows; amounts = t.amounts ++ received ∷ [] })
                ]
        ]
      ]

  -- `set_amount_paid`, `set_amount_paid_fiat` and `unlink_account` share their text but the update.
  unfoldable pub update_invoice :
      (RawInvoice OrderState → RawInvoice OrderState) → ℕ → Step OrderState (RawInvoice OrderState)
  unfolding writable
  update_invoice change k t = elim (writable (find (invoice_has_id k) t.invoices)) [
    | err e ↦ (err e, t)
    | ok _ ↦
        let rows = update_if (invoice_has_id k) change t.invoices in
        (ok_or (find (invoice_has_id k) rows) RepoError.not_found, record t { invoices = rows })
  ]

  -- `set_amount_paid`
  unfoldable pub set_amount_paid :
      (paid : OrderState) → ℕ → InvoiceSetAmountPaid → Step OrderState (RawInvoice OrderState)
  unfolding update_invoice set_paid
  set_amount_paid paid k p = update_invoice (set_paid paid p) k

  -- `set_amount_paid_fiat`
  unfoldable pub set_amount_paid_fiat :
      (paid : OrderState) → ℕ → InvoiceSetAmountPaid → Step OrderState (RawInvoice OrderState)
  unfolding update_invoice set_paid_fiat
  set_amount_paid_fiat paid k p = update_invoice (set_paid_fiat paid p) k

  -- `unlink_account`
  unfoldable pub unlink_account : ℕ → Step OrderState (RawInvoice OrderState)
  unfolding update_invoice unlink
  unlink_account k = update_invoice unlink k

  -- `delete`: the amounts received go with the invoice (`ON DELETE CASCADE`), and the database
  -- refuses if a payment intent still names it.
  unfoldable pub delete :
      (named_by_intent : ℕ → Bool) → ℕ → Step OrderState (Option (RawInvoice OrderState))
  delete named_by_intent k t = elim (find (invoice_has_id k) t.invoices) [
    | none ↦ (ok none, t)
    | some i ↦ elim (check_invoice write i) [
      | err e ↦ (err e, t)
      | ok _ ↦ if named_by_intent k then (err RepoError.internal, t) else (
        ok (some i),
        record {
          invoices = keep_if (λ x. not (invoice_has_id k x)) t.invoices;
          amounts = keep_if (λ r. not (r.invoice_id == k)) t.amounts;
        },
      )
    ]
  ]
