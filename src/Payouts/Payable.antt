-- ===== src/Payouts/Payable.antt =====
-- What a payout is made of (src/services/payout/mod.rs).
use billing.Base.{
  keep_if, ℕ, ◌+◌, ◌^◌, ◌<◌, ◌≡◌, ◌≢◌, refl, sym, ap, subst, ◌∙◌, inl, inr, true, false, none, some,
  List, [], ◌∷◌, map, All, any, length, ltb, arith, if◌then◌else◌, ◌==◌, ==_iff, Bool-cases, Result,
  ok, ok_or, map_err, ServiceError, from_repo, >>=-eq-ok, guard-ok, ok_or-ok, map_err-ok,
  ok-injective,
}
use billing.Currency.Equality.{currency_eq→eq}
use billing.Currency.{Currency, TureCurrency, crypto, classify, from_ture}
use billing.Amount.{checked_add, checked_sub}
use billing.Orders.State.{payment_to_seller_needed}
use billing.Orders.Texts.{state_code-injective}
use billing.Orders.{OrderAccess, check_all, RawOrder, crypto_kind, payment_kind, get_many}
use billing.Acl.{Acl, read}
use billing.Payouts.Unpaid.{links_payout, get_by_order_ids-none}
use billing.Payouts.Records.{Payout, crypto_wallet, processing}
use billing.Payouts.{get_by_order_ids}
use billing.Payouts.Service.{
  World, Acls, OrderForPayout, OrdersForPayout, PayOutToSellerPayload, for_payout, wrong_state,
  differs_from, validate_orders_for_payout, total, prepare_payout,
}

abbrev pub sum : List ℕ → ℕ
sum [] = 0
sum (a ∷ amounts) = a + sum amounts

-- The checked fold over amounts is their sum when that fits a `u128`, and nothing otherwise.
pub total-sum :
    (acc : ℕ) (amounts : List ℕ)
    → acc < 2 ^ 128
    → total acc amounts
      ≡ (if ltb (acc + sum amounts) (2 ^ 128) then some (acc + sum amounts) else none)
unfolding total checked_add
total-sum acc [] h = ground arith
total-sum acc (a ∷ amounts) h =
    let assoc : acc + (a + sum amounts) ≡ acc + a + sum amounts = omega arith in
    elim (Bool-cases (ltb (acc + a) (2 ^ 128))) [
      | inl e ↦ rw (assoc, e, checked_add, total) (total-sum (acc + a) amounts (ground arith))
      | inr e ↦ rw (assoc, e, checked_add, total) (ground arith)
    ]

classify-crypto : (x : Currency) (c : TureCurrency) → classify x ≡ crypto c → x ≡ from_ture c
unfolding classify from_ture
classify-crypto Currency.eth c h = let e : TureCurrency.eth ≡ c = cc in rw (sym e) refl
classify-crypto Currency.stq c h = let e : TureCurrency.stq ≡ c = cc in rw (sym e) refl
classify-crypto Currency.btc c h = let e : TureCurrency.btc ≡ c = cc in rw (sym e) refl
classify-crypto Currency.eur c h = cc
classify-crypto Currency.usd c h = cc
classify-crypto Currency.rub c h = cc

payment_kind-crypto :
    (o : RawOrder) (c : TureCurrency)
    → payment_kind o ≡ crypto_kind c
    → o.seller_currency ≡ from_ture c
unfolding payment_kind
payment_kind-crypto o c h = classify-crypto o.seller_currency c (ground arith)

-- What a list of orders that may be paid out is like.
abbrev pub PayableIn : Currency → RawOrder → Type 0
PayableIn c o = (o.state ≡ payment_to_seller_needed) × (o.seller_currency ≡ c)

abbrev pub IsPayable : TureCurrency → RawOrder → Type 0
IsPayable c = PayableIn (from_ture c)

none_wrong :
    (first : RawOrder) (c : TureCurrency) (orders : List RawOrder)
    → first.seller_currency ≡ from_ture c
    → any wrong_state orders ≡ false
    → any (differs_from first) orders ≡ false
    → All (IsPayable c) orders
none_wrong first c [] e h k = tt
none_wrong first c (o ∷ orders) e h k = (
  (
    state_code-injective o.state payment_to_seller_needed (ground arith),
    currency_eq→eq o.seller_currency first.seller_currency (ground arith) ∙ e,
  ),
  none_wrong first c orders e (ground arith) (ground arith),
)

pub validate-ok :
    (orders : List RawOrder) (out : OrdersForPayout)
    → validate_orders_for_payout orders ≡ ok out
    → All (IsPayable out.currency) orders × (out.orders ≡ map for_payout orders) × (orders ≢ [])
unfolding validate_orders_for_payout
validate-ok [] out h = cc
validate-ok (first ∷ rest) out h =
    let kind : payment_kind first ≡ crypto_kind out.currency = ground arith in
    let states : any wrong_state (first ∷ rest) ≡ false = ground arith in
    let same : any (differs_from first) (first ∷ rest) ≡ false = ground arith in
    (
      none_wrong first out.currency (first ∷ rest) (payment_kind-crypto first out.currency kind)
          states same,
      ground arith,
      λ e. cc,
    )

total-ok :
    (amounts : List ℕ) (gross : ℕ)
    → total 0 amounts ≡ some gross
    → (gross ≡ sum amounts) × (gross < 2 ^ 128)
total-ok amounts gross h =
    let e : total 0 amounts
        ≡ (if ltb (0 + sum amounts) (2 ^ 128) then some (0 + sum amounts) else none) =
      total-sum 0 amounts (omega arith) in
    (ground arith, ground arith)

totals_lem :
    (orders : List RawOrder)
    → map (λ (o : OrderForPayout). o.total_amount) (map for_payout orders)
      ≡ map (λ (o : RawOrder). o.total_amount) orders
totals_lem [] = refl
totals_lem (o ∷ orders) = ap (λ xs. o.total_amount ∷ xs) (totals_lem orders)

checked_sub-ok : (gross fee net : ℕ) → checked_sub gross fee ≡ some net → net + fee ≡ gross
unfolding checked_sub
checked_sub-ok gross fee net h = ground arith

none_there : {A : Type 0} (xs : List A) → (length xs == 0) ≡ true → xs ≡ []
none_there [] h = refl
none_there (x ∷ xs) h = ground arith

gross_lem :
    (orders : List RawOrder) (valid : OrdersForPayout) (gross : ℕ)
    → valid.orders ≡ map for_payout orders
    → total 0 (map (λ o. o.total_amount) valid.orders) ≡ some gross
    → (gross ≡ sum (map (λ o. o.total_amount) orders)) × (gross < 2 ^ 128)
gross_lem orders valid gross listed h =
    total-ok (map (λ (o : RawOrder). o.total_amount) orders) gross (
      ap (total 0)
        (sym (ap (map (λ (o : OrderForPayout). o.total_amount)) listed ∙ totals_lem orders))
      ∙ h)

abbrev built_payout :
    (user id now : ℕ) → PayOutToSellerPayload → TureCurrency → (gross net : ℕ) → Payout
built_payout user id now p c gross net = record {
  id = id;
  gross_amount = gross;
  net_amount = net;
  target = crypto_wallet (record {
    currency = c;
    wallet_address = p.wallet_address;
    blockchain_fee = p.blockchain_fee;
  });
  user_id = user;
  status = processing now;
  order_ids = p.order_ids;
}

get_many-all :
    (acl : Acl OrderAccess) (ids : List ℕ) (rows orders : List RawOrder)
    → get_many acl ids rows ≡ ok orders
    → orders ≡ keep_if (λ o. any (λ i. o.id == i) ids) rows
unfolding get_many
get_many-all acl ids rows orders h =
    let (done, _, r) =
      >>=-eq-ok (check_all acl read (keep_if (λ o. any (λ i. o.id == i) ids) rows)) _ h in
    sym (ok-injective r)

-- When the checks before a payout succeed, the orders that it pays are the table's orders with the
-- ids that it names: there is at least one, and there are as many as it names. Every order waits for
-- its payment and is sold in the wallet's currency; no link of payouts and orders links one of the
-- ids to a payout of the table; the gross amount is the sum of the orders' totals
-- and fits a `u128`; and the net amount and the fee add up to the gross amount.
pub prepare_payout-ok :
    {Value : Type 0} (acls : Acls) (user id now : ℕ) (p : PayOutToSellerPayload) (w : World Value)
    (out : Payout)
    → prepare_payout acls user id now p w ≡ ok out
    → (orders : List RawOrder) × (orders ≡ keep_if (λ o. any (λ i. o.id == i) p.order_ids) w.orders)
      × (orders ≢ [])
      × (length orders ≡ length p.order_ids)
      × All (IsPayable p.wallet_currency) orders
      × (any (links_payout p.order_ids w.payouts.payouts) w.payouts.order_payouts ≡ false)
      × (out.gross_amount ≡ sum (map (λ o. o.total_amount) orders))
      × (out.gross_amount < 2 ^ 128)
      × (out.net_amount + p.blockchain_fee ≡ out.gross_amount)
      × (out.order_ids ≡ p.order_ids)
unfolding prepare_payout
prepare_payout-ok acls user id now p w out h =
    let (orders, h1, r1) =
      >>=-eq-ok (map_err from_repo (get_many acls.orders p.order_ids w.orders)) _ h in
    let (len, r2) = guard-ok _ ServiceError.validation _ out r1 in
    let (valid, h3, r3) = >>=-eq-ok (validate_orders_for_payout orders) _ r2 in
    let (cur, r4) = guard-ok _ ServiceError.validation _ out r3 in
    let (existing, h5, r5) =
      >>=-eq-ok (map_err from_repo (get_by_order_ids acls.payouts p.order_ids w.payouts)) _ r4 in
    let (empty, r6) = guard-ok _ ServiceError.validation _ out r5 in
    let (gross, h7, r7) =
      >>=-eq-ok (ok_or (total 0 (map (λ o. o.total_amount) valid.orders)) ServiceError.internal) _
        r6 in
    let (net, h8, r8) =
      >>=-eq-ok (ok_or (checked_sub gross p.blockchain_fee) ServiceError.validation) _ r7 in
    let (payable, listed, some_lem) = validate-ok orders valid h3 in
    let same = currency_eq→eq (from_ture p.wallet_currency) (from_ture valid.currency) cur in
    let amount = gross_lem orders valid gross listed (ok_or-ok _ ServiceError.internal gross h7) in
    let built : ◌≡◌ {A = Result ServiceError Payout}
        (ok (built_payout user id now p valid.currency gross net)) (ok out) =
      r8 in
    let e : built_payout user id now p valid.currency gross net ≡ out = ok-injective built in
    (
      orders,
      get_many-all acls.orders p.order_ids w.orders orders (map_err-ok _ orders h1),
      some_lem,
      (==_iff (length orders) (length p.order_ids)).0 len,
      subst (λ c. All (PayableIn c) orders) (sym same) payable,
      get_by_order_ids-none acls.payouts p.order_ids w.payouts existing (map_err-ok _ existing h5)
          (none_there existing.payouts empty),
      ap (λ o. o.gross_amount) (sym e) ∙ amount.0,
      subst (λ o. o.gross_amount < 2 ^ 128) e amount.1,
      subst (λ o. o.net_amount + p.blockchain_fee ≡ o.gross_amount) e
          (checked_sub-ok gross p.blockchain_fee net (ok_or-ok _ ServiceError.validation net h8)),
      ap (λ o. o.order_ids) (sym e),
    )
