-- ===== src/Payouts/Service.antt =====
-- The payout service (src/services/payout/mod.rs). Answers are given before amounts are turned into
-- decimal numbers for display, and the fee of a payout comes in the wallet's smallest unit, as
-- `Amount::from_super_unit` makes it.
use billing.Base.{
  ℕ, Bytes, Bool, true, false, ◌||◌, not, Option, none, some, List, [], ◌∷◌, map, any, keep_if,
  length, ◌==◌, if◌then◌else◌, Result, ok, err, ok_or, map_err, guard, ServiceError, from_repo,
  ◌>>=◌, ◌>>◌,
}
use billing.Currency.{Currency, TureCurrency, from_ture, currency_eq}
use billing.Amount.{checked_add, checked_sub}
use billing.Acl.{Acl}
use billing.EventStore.{Table, add_event}
use billing.Orders.State.{payment_to_seller_needed, state_eq}
use billing.Orders.{
  RawOrder, OrderAccess, crypto_kind, fiat_kind, payment_kind, get_many, get_orders_for_payout,
  get_order_ids_by_store_id,
}
use billing.Payouts.Records.{Payout, processing, crypto_wallet}
use billing.Payouts.{Tables, PayoutsByOrderIds, get_by_order_ids, create}

-- `OrderForPayout`
pub record OrderForPayout : Type 0 where
  pub order_id : ℕ
  pub total_amount : ℕ

-- `OrdersForPayout`
pub record OrdersForPayout : Type 0 where
  pub currency : TureCurrency
  pub orders : List OrderForPayout

abbrev pub for_payout : RawOrder → OrderForPayout
for_payout o = record { order_id = o.id; total_amount = o.total_amount }

-- The tests of `validate_orders_for_payout` that add to its list of errors.
abbrev pub wrong_state : RawOrder → Bool
wrong_state o = not (state_eq o.state payment_to_seller_needed)

abbrev pub differs_from : RawOrder → RawOrder → Bool
differs_from first o = not (currency_eq o.seller_currency first.seller_currency)

-- `validate_orders_for_payout`
unfoldable pub validate_orders_for_payout : List RawOrder → Result ServiceError OrdersForPayout
unfolding payment_kind
validate_orders_for_payout [] = err ServiceError.validation
validate_orders_for_payout (first ∷ rest) = elim (payment_kind first) [
  | fiat_kind c fee ↦ err ServiceError.validation
  | crypto_kind c ↦
      if any wrong_state (first ∷ rest) || any (differs_from first) (first ∷ rest)
      then err ServiceError.validation
      else ok (record { currency = c; orders = map for_payout (first ∷ rest) })
]

-- `try_fold(…, |acc, next| acc.checked_add(next))`
unfoldable pub total : ℕ → List ℕ → Option ℕ
unfolding checked_add
total acc [] = some acc
total acc (a ∷ amounts) = elim (checked_add acc a) [ none ↦ none | some s ↦ total s amounts ]

-- `PayOutToSellerPayload` with its `CryptoPaymentDetails`.
pub record PayOutToSellerPayload : Type 0 where
  pub order_ids : List ℕ
  pub wallet_currency : TureCurrency
  pub wallet_address : Bytes
  pub blockchain_fee : ℕ

-- What the service reads and writes.
pub record World (Value : Type 0) : Type 0 where
  pub orders : List RawOrder
  pub payouts : Tables
  pub events : Table Value

-- The access controls of the two repositories.
pub record Acls : Type 0 where
  pub orders : Acl OrderAccess
  pub payouts : Acl ℕ

-- `OrdersForPayout` after the checks of `pay_out_to_seller` that only read, and the payout that is
-- to be made; `id` is the generated key and `now` the clock.
unfoldable pub prepare_payout :
    {Value : Type 0}
    → Acls
    → (user id now : ℕ) → PayOutToSellerPayload
    → World Value
    → Result ServiceError Payout
unfolding validate_orders_for_payout total checked_sub
prepare_payout acls user id now p w =
    map_err from_repo (get_many acls.orders p.order_ids w.orders) >>= λ orders.
    guard (length orders == length p.order_ids) ServiceError.validation
    >> (validate_orders_for_payout orders >>= λ valid.
        guard (currency_eq (from_ture p.wallet_currency) (from_ture valid.currency))
          ServiceError.validation
        >> (map_err from_repo (get_by_order_ids acls.payouts p.order_ids w.payouts) >>= λ existing.
            guard (length existing.payouts == 0) ServiceError.validation
            >> (ok_or (total 0 (map (λ o. o.total_amount) valid.orders)) ServiceError.internal
                >>= λ gross.
                    ok_or (checked_sub gross p.blockchain_fee) ServiceError.validation >>= λ net.
                    ok (record {
                      id = id;
                      gross_amount = gross;
                      net_amount = net;
                      target = crypto_wallet (record {
                        currency = valid.currency;
                        wallet_address = p.wallet_address;
                        blockchain_fee = p.blockchain_fee;
                      });
                      user_id = user;
                      status = processing now;
                      order_ids = p.order_ids;
                    }))))

module _ {Event Value : Type 0} (to_value : Event → Option Value)
    (from_value : Value → Option Event) where
  -- `pay_out_to_seller`: the event is stored before the payout, and not in one transaction with
  -- it. `event` builds the event of a payout.
  unfoldable pub pay_out_to_seller :
      (event : ℕ → Event)
      → Acls
      → (user_id : Option ℕ) → (id now : ℕ) → PayOutToSellerPayload
      → World Value
      → Result ServiceError Payout × World Value
  unfolding prepare_payout
  pay_out_to_seller event acls none id now p w = (err ServiceError.forbidden, w)
  pay_out_to_seller event acls (some user) id now p w = elim (prepare_payout acls user id now p w) [
    | err e ↦ (err e, w)
    | ok payout ↦
        let (stored, events) = add_event to_value from_value now (event payout.id) w.events in
        elim stored [
          | err e ↦ (err (from_repo e), record w { events = events })
          | ok _ ↦
              let (created, payouts) = create acls.payouts payout w.payouts in
              (map_err from_repo created, record w { events = events; payouts = payouts })
        ]
  ]

-- `CalculatedPayoutExcludingFees`
pub record CalculatedPayoutExcludingFees : Type 0 where
  pub order_ids : List ℕ
  pub currency : TureCurrency
  pub gross_amount : ℕ

-- The orders of a store that wait for their payout.
unfoldable pub orders_without_payout :
    {Value : Type 0}
    → Acls
    → ℕ
    → Option Currency
    → World Value
    → Result ServiceError (List RawOrder)
orders_without_payout acls store currency w =
    map_err from_repo (get_orders_for_payout acls.orders store currency w.orders) >>= λ orders.
    map_err from_repo (get_by_order_ids acls.payouts (map (λ o. o.id) orders) w.payouts)
    >>= λ found. ok (keep_if (λ o. any (λ i. o.id == i) found.order_ids_without_payout) orders)

-- `calculate_payout` where a gateway is configured, up to the question for the gateway's fees.
unfoldable pub calculate_payout :
    {Value : Type 0}
    → Acls
    → ℕ
    → TureCurrency
    → World Value
    → Result ServiceError CalculatedPayoutExcludingFees
unfolding orders_without_payout total
calculate_payout acls store c w =
    orders_without_payout acls store (some (from_ture c)) w >>= λ orders.
    ok_or (total 0 (map (λ o. o.total_amount) orders)) ServiceError.internal >>= λ gross.
    ok (record { order_ids = map (λ o. o.id) orders; currency = c; gross_amount = gross })

-- The balances of a store by currency; the map has one entry for each currency.
unfoldable pub add_balance : Currency → ℕ → List (Currency × ℕ) → Option (List (Currency × ℕ))
unfolding checked_add
add_balance c a [] = elim (checked_add 0 a) [ none ↦ none | some s ↦ some ((c, s) ∷ []) ]
add_balance c a ((d, b) ∷ rest) = elim (currency_eq c d) [
  | true ↦ elim (checked_add b a) [ none ↦ none | some s ↦ some ((d, s) ∷ rest) ]
  | false ↦ elim (add_balance c a rest) [ none ↦ none | some r ↦ some ((d, b) ∷ r) ]
]

unfoldable pub balances : List RawOrder → List (Currency × ℕ) → Option (List (Currency × ℕ))
unfolding add_balance
balances [] acc = some acc
balances (o ∷ orders) acc = elim (add_balance o.seller_currency o.total_amount acc) [
  | none ↦ none
  | some acc' ↦ balances orders acc'
]

-- `get_balance`
unfoldable pub get_balance :
    {Value : Type 0} → Acls → ℕ → World Value → Result ServiceError (List (Currency × ℕ))
unfolding orders_without_payout balances
get_balance acls store w = orders_without_payout acls store none w >>= λ orders.
    ok_or (balances orders []) ServiceError.internal

-- `get_payouts_by_store_id`
unfoldable pub get_payouts_by_store_id :
    {Value : Type 0} → Acls → ℕ → World Value → Result ServiceError PayoutsByOrderIds
get_payouts_by_store_id acls store w =
    map_err from_repo (get_order_ids_by_store_id acls.orders store w.orders) >>= λ ids.
    map_err from_repo (get_by_order_ids acls.payouts ids w.payouts)
