-- ===== src/Payouts/Tests.antt =====
-- Payouts at small tables.
use billing.Base.{
  keep_if, ℕ, ◌+◌, ◌^◌, ◌≤◌, ◌<◌, ◌≡◌, ◌≢◌, refl, inr, codes, Bool, true, false, Option, none, some,
  List, [], ◌∷◌, ◌++◌, All, map, length, any, ◌==◌, arith, ok,
}
use billing.Currency.{Currency, TureCurrency, classify, from_ture, currency_code}
use billing.Acl.{Acl}
use billing.Orders.State.{payment_to_seller_needed, state_code}
use billing.Orders.{RawOrder, payment_kind, check_all, get_many}
use billing.Payouts.Unpaid.{links_payout}
use billing.Payouts.Records.{
  Payout, RawPayout, RawOrderPayout, crypto_wallet, raw_crypto_wallet, processing,
  raw_new_order_payouts,
}
use billing.Payouts.{
  Tables, repeats, create, get_payout_by_id, get_by_order_ids, get_payouts_by_order_ids, join,
  group_by, collect, mark_as_completed,
}
use billing.Payouts.Service.{
  World, Acls, PayOutToSellerPayload, prepare_payout, validate_orders_for_payout, total,
}
use billing.Amount.{checked_add, checked_sub}
use billing.Payouts.Payable.{IsPayable, sum, prepare_payout-ok}
use billing.Payouts.Roundtrip.{create-get_payout_by_id}
use billing.Payouts.Sending as Sending
use billing.Payouts.Sending.{Tx, Gateway, handle_all, handle_payout_initiated}
use billing.Payouts.Completion.{
  times, Recorded, AllCompleted, handle_all-once, mark_as_completed-all,
}

abbrev order : ℕ → RawOrder
order i = record {
  id = i;
  seller_currency = Currency.stq;
  total_amount = 500;
  cashback_amount = 0;
  invoice_id = 90;
  store_id = 5;
  state = payment_to_seller_needed;
  stripe_fee = none;
}

abbrev raw : ℕ → RawPayout
raw i = record {
  id = i;
  currency = Currency.stq;
  gross_amount = 500;
  net_amount = 490;
  user_id = 7;
  initiated_at = 1;
  completed_at = none;
  payout_target_type = raw_crypto_wallet;
  wallet_address = some (codes "0xab");
  blockchain_fee = some 10;
}

abbrev link : ℕ → ℕ → ℕ → RawOrderPayout
link i o p = record { id = i; order_id = o; payout_id = p }

abbrev tables : Tables
tables = record {
  payouts = raw 20 ∷ raw 21 ∷ [];
  order_payouts = link 1 3 20 ∷ link 2 4 21 ∷ [];
  next_id = 3;
}

abbrev everyone : Acl ℕ
everyone r a o = true

abbrev payout : Payout
payout = record {
  id = 22;
  gross_amount = 1000;
  net_amount = 990;
  target =
      crypto_wallet (record {
        currency = TureCurrency.stq;
        wallet_address = codes "0xcd";
        blockchain_fee = 10;
      });
  user_id = 7;
  status = processing 5;
  order_ids = 1 ∷ 2 ∷ [];
}

distinct : repeats (raw_new_order_payouts payout) ≡ false
unfolding repeats raw_new_order_payouts
distinct = refl

create_example :
    ((create everyone payout tables).0 ≡ ok payout)
    × (get_payout_by_id 22 (create everyone payout tables).1 ≡ ok (some payout))
create_example =
    create-get_payout_by_id everyone payout tables (refl, (refl, tt)) refl refl distinct

abbrev acls : Acls
acls = record { orders = λ r a o. true; payouts = everyone }

abbrev world : World ℕ
world = record {
  orders = order 1 ∷ order 2 ∷ [];
  payouts = tables;
  events = record { rows = []; next_id = 1 };
}

abbrev payload : PayOutToSellerPayload
payload = record {
  order_ids = 1 ∷ 2 ∷ [];
  wallet_currency = TureCurrency.stq;
  wallet_address = codes "0xcd";
  blockchain_fee = 10;
}

prepared : prepare_payout acls 7 22 5 payload world ≡ ok payout
unfolding prepare_payout validate_orders_for_payout total checked_add checked_sub payment_kind
    classify from_ture currency_code state_code get_many check_all get_by_order_ids
    get_payouts_by_order_ids join group_by collect
prepared = refl

prepare_payout_example :
    (orders : List RawOrder) × (orders
      ≡ keep_if (λ o. any (λ i. o.id == i) (1 ∷ 2 ∷ [])) world.orders)
    × (orders ≢ [])
    × (length orders ≡ 2)
    × All (IsPayable TureCurrency.stq) orders
    × (any (links_payout (1 ∷ 2 ∷ []) tables.payouts) tables.order_payouts ≡ false)
    × (payout.gross_amount ≡ sum (map (λ o. o.total_amount) orders))
    × (payout.gross_amount < 2 ^ 128)
    × (payout.net_amount + 10 ≡ payout.gross_amount)
    × (payout.order_ids ≡ 1 ∷ 2 ∷ [])
prepare_payout_example = prepare_payout-ok acls 7 22 5 payload world payout prepared

-- A gateway that keeps its transactions in a list and takes every one.
abbrev gateway : Gateway (List Tx)
gateway = record {
  get_transaction = λ i g. some (any (λ t. t.id == i) g);
  create_external_transaction = λ tx g. (true, g ++ tx ∷ []);
}

abbrev itself : List Tx → List Tx
itself g = g

some_eq : {a b : Bool} → some a ≡ some b → b ≡ a
some_eq e = cc

gateway-Recorded : Recorded gateway itself
gateway-Recorded = record { answers = λ i g b e. some_eq e; adds = λ tx g. inr refl }

abbrev main_account : TureCurrency → Option ℕ
main_account c = some 1

abbrev start : Sending.World (List Tx)
start = record { tables = tables; gateway = [] }

handle_all_example :
    times 20 (handle_all gateway main_account everyone ((5, 20) ∷ (6, 20) ∷ []) start).gateway ≤ 1
handle_all_example =
    handle_all-once gateway main_account everyone itself gateway-Recorded ((5, 20) ∷ (6, 20) ∷ [])
      start 20 (omega arith)

mark_as_completed_example :
    AllCompleted 8 (mark_as_completed everyone 8 20 tables).1.payouts
    × ((handle_payout_initiated gateway main_account everyone 9 21
          (record { tables = (mark_as_completed everyone 8 20 tables).1; gateway = [] })).1
        ≡ record { tables = (mark_as_completed everyone 8 20 tables).1; gateway = [] })
mark_as_completed_example =
    mark_as_completed-all gateway main_account everyone 8 9 20 21 tables [] (raw 20) refl refl
