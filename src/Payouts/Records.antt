-- ===== src/Payouts/Records.antt =====
-- Payouts and their raw form (src/models/payout.rs). Identifiers and users are numbers, wallet
-- addresses are texts, and timestamps are microseconds.
use billing.Base.{ℕ, Bytes, Option, none, some, List, [], ◌∷◌, map, all, ◌==◌, if◌then◌else◌}
use billing.Currency.{Currency, TureCurrency, crypto, fiat, classify, from_ture}

-- `PayoutStatus`
pub data PayoutStatus : Type 0 where
  processing : (initiated_at : ℕ) → PayoutStatus
  completed : (initiated_at completed_at : ℕ) → PayoutStatus

-- `CryptoWalletPayoutTarget`
pub record CryptoWalletPayoutTarget : Type 0 where
  pub currency : TureCurrency
  pub wallet_address : Bytes
  pub blockchain_fee : ℕ

-- `PayoutTarget`
pub data PayoutTarget : Type 0 where
  crypto_wallet : CryptoWalletPayoutTarget → PayoutTarget

-- `Payout`
pub record Payout : Type 0 where
  pub id : ℕ
  pub gross_amount : ℕ
  pub net_amount : ℕ
  pub target : PayoutTarget
  pub user_id : ℕ
  pub status : PayoutStatus
  pub order_ids : List ℕ

-- `Payout::currency`
unfoldable pub currency : Payout → Currency
unfolding from_ture
currency p = elim p.target [ crypto_wallet t ↦ from_ture t.currency ]

-- `RawPayoutTargetType`
pub data RawPayoutTargetType : Type 0 where
  raw_crypto_wallet : RawPayoutTargetType

-- `RawPayout`
pub record RawPayout : Type 0 where
  pub id : ℕ
  pub currency : Currency
  pub gross_amount : ℕ
  pub net_amount : ℕ
  pub user_id : ℕ
  pub initiated_at : ℕ
  pub completed_at : Option ℕ
  pub payout_target_type : RawPayoutTargetType
  pub wallet_address : Option Bytes
  pub blockchain_fee : Option ℕ

-- `RawOrderPayout`
pub record RawOrderPayout : Type 0 where
  pub id : ℕ
  pub order_id : ℕ
  pub payout_id : ℕ

-- `RawNewOrderPayout`
pub record RawNewOrderPayout : Type 0 where
  pub order_id : ℕ
  pub payout_id : ℕ

-- The target that a raw payout describes.
unfoldable pub raw_target : RawPayout → Option PayoutTarget
unfolding classify
raw_target r = elim (classify r.currency) [
  | fiat c ↦ none
  | crypto c ↦ elim r.payout_target_type [
    | raw_crypto_wallet ↦ elim r.wallet_address [
      | none ↦ none
      | some address ↦ elim r.blockchain_fee [
        | none ↦ none
        | some fee ↦ some (
            crypto_wallet (record { currency = c; wallet_address = address; blockchain_fee = fee }))
      ]
    ]
  ]
]

-- The orders of a payout's links, which must all name one payout; it need not be the payout's own.
unfoldable pub raw_order_ids : List RawOrderPayout → Option (List ℕ)
raw_order_ids [] = some []
raw_order_ids (l ∷ links) =
    if all (λ x. x.payout_id == l.payout_id) (l ∷ links)
    then some (map (λ x. x.order_id) (l ∷ links))
    else none

abbrev pub raw_status : ℕ → Option ℕ → PayoutStatus
raw_status initiated none = processing initiated
raw_status initiated (some at) = completed initiated at

-- `RawPayoutRecords::try_into_domain`; its one error is `none`.
unfoldable pub try_into_domain : RawPayout → List RawOrderPayout → Option Payout
unfolding raw_target raw_order_ids
try_into_domain r links = elim (raw_target r) [
  | none ↦ none
  | some t ↦ elim (raw_order_ids links) [
    | none ↦ none
    | some ids ↦ some (record {
      id = r.id;
      gross_amount = r.gross_amount;
      net_amount = r.net_amount;
      target = t;
      user_id = r.user_id;
      status = raw_status r.initiated_at r.completed_at;
      order_ids = ids;
    })
  ]
]

abbrev pub initiated_at : PayoutStatus → ℕ
initiated_at (processing at) = at
initiated_at (completed at done) = at

abbrev pub completed_at : PayoutStatus → Option ℕ
completed_at (processing at) = none
completed_at (completed at done) = some done

abbrev pub wallet_of : PayoutTarget → CryptoWalletPayoutTarget
wallet_of (crypto_wallet t) = t

-- `impl From<Payout> for RawNewPayoutRecords`: the payout's row and its links.
unfoldable pub raw_new_payout : Payout → RawPayout
unfolding from_ture
raw_new_payout p =
    let t = wallet_of p.target in
    record {
      id = p.id;
      currency = from_ture t.currency;
      gross_amount = p.gross_amount;
      net_amount = p.net_amount;
      user_id = p.user_id;
      initiated_at = initiated_at p.status;
      completed_at = completed_at p.status;
      payout_target_type = raw_crypto_wallet;
      wallet_address = some t.wallet_address;
      blockchain_fee = some t.blockchain_fee;
    }

unfoldable pub raw_new_order_payouts : Payout → List RawNewOrderPayout
raw_new_order_payouts p = map (λ i. record { order_id = i; payout_id = p.id }) p.order_ids
