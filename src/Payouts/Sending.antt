-- ===== src/Payouts/Sending.antt =====
-- The handler of the event `PayoutInitiated` (`handle_payout_initiated`, `pay_out`,
-- `create_payout_tx` and `mark_payout_as_completed` of src/event_handling/handlers.rs). The payments
-- gateway is an outside service: a state of its own, two calls, and what they are relied on for.
use billing.Base.{
  ℕ, Bytes, Bool, true, false, Option, none, some, List, [], ◌∷◌, if◌then◌else◌, Result, ok, err,
  HandlerError,
}
use billing.Currency.{TureCurrency}
use billing.Acl.{Acl}
use billing.Payouts.Records.{Payout, processing, completed, wallet_of}
use billing.Payouts.{Tables, get, mark_as_completed}

-- `CreateExternalTransaction`
pub record Tx : Type 0 where
  pub id : ℕ
  pub from : ℕ
  pub to : Bytes
  pub amount : ℕ
  pub currency : TureCurrency
  pub fee : ℕ

-- `PaymentsClient`, as far as payouts use it, over the gateway's own state.
pub record Gateway (G : Type 0) : Type 0 where
  pub get_transaction : ℕ → G → Option Bool
  pub create_external_transaction : Tx → G → Bool × G

-- The handler's state: the tables, and the gateway.
pub record World (G : Type 0) : Type 0 where
  pub tables : Tables
  pub gateway : G

abbrev pub Outcome : Type 0 → Type 0
Outcome G = Result HandlerError (Unit {0}) × World G

module _ {G : Type 0} (client : Gateway G) (main_account : TureCurrency → Option ℕ)
    (acl : Acl ℕ) where
  -- `create_payout_tx`; `main_account` is the account service's answer.
  unfoldable pub create_payout_tx : Payout → World G → Outcome G
  create_payout_tx p w = elim (main_account (wallet_of p.target).currency) [
    | none ↦ (err HandlerError.internal, w)
    | some account ↦
        let tx : Tx = record {
          id = p.id;
          from = account;
          to = (wallet_of p.target).wallet_address;
          amount = p.gross_amount;
          currency = (wallet_of p.target).currency;
          fee = (wallet_of p.target).blockchain_fee;
        } in
        let (taken, g) = client.create_external_transaction tx w.gateway in
        (if taken then ok tt else err HandlerError.internal, record w { gateway = g })
  ]

  -- `mark_payout_as_completed`
  unfoldable pub mark_payout_as_completed : (now : ℕ) → ℕ → World G → Outcome G
  mark_payout_as_completed now i w =
      let (r, tables) = mark_as_completed acl now i w.tables in
      (elim r [ ok p ↦ ok tt | err e ↦ err HandlerError.internal ], record w { tables = tables })

  -- `pay_out`: the transaction has the payout's key, and is asked for before it is made.
  unfoldable pub pay_out : (now : ℕ) → Payout → World G → Outcome G
  unfolding create_payout_tx mark_payout_as_completed
  pay_out now p w = elim (client.get_transaction p.id w.gateway) [
    | none ↦ (err HandlerError.internal, w)
    | some true ↦ mark_payout_as_completed now p.id w
    | some false ↦
        let (made, w') = create_payout_tx p w in
        elim made [ ok _ ↦ mark_payout_as_completed now p.id w' | err e ↦ (err e, w') ]
  ]

  -- `handle_payout_initiated`, where the gateway is configured.
  unfoldable pub handle_payout_initiated : (now : ℕ) → ℕ → World G → Outcome G
  unfolding pay_out
  handle_payout_initiated now i w = elim (get acl i w.tables) [
    | err e ↦ (err HandlerError.internal, w)
    | ok none ↦ (ok tt, w)
    | ok (some p) ↦ elim p.status [
      | processing at ↦ pay_out now p w
      | completed at done ↦ (ok tt, w)
    ]
  ]

  -- The handling of several events, each at its time, whether or not an earlier one failed.
  unfoldable pub handle_all : List (ℕ × ℕ) → World G → World G
  unfolding handle_payout_initiated
  handle_all [] w = w
  handle_all (e ∷ events) w = handle_all events (handle_payout_initiated e.0 e.1 w).1
