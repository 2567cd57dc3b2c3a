-- ===== src/Fees/Service.antt =====
-- The service of fees (src/services/fee.rs): what is asked of the card processor, and how the answer is
-- recorded.
use billing.Base.{
  ℕ, Bool, true, false, not, Option, none, some, List, [], ◌∷◌, any, map, length, ◌==◌,
  if◌then◌else◌, Result, ok, err, ok_or, map_err, ServiceError, from_repo, guard, ◌>>=◌, ◌>>◌,
}
use billing.Currency.{Currency, currency_eq}
use billing.Amount.{checked_add}
use billing.Acl.{Acl}
use billing.Orders.{RawOrder, OrderAccess}
use billing.Orders.Search.{OrderSearchResults}
use billing.Roles.{UserRole, get_by_store_id}
use billing.Customers.{DbCustomer, by_user_id}
use billing.Stripe.{NewCharge, Charge, StripeClient}
use billing.Fees.{
  Fee, FeeStatus, paid, fail, UpdateFee, SearchFee, by_order_id, by_order_ids, get, search, update,
}
use billing.Orders
use billing.Customers

-- The tables that the service uses and the card processor.
pub record World (Json G : Type 0) : Type 0 where
  pub fees : List (Fee Json)
  pub orders : List RawOrder
  pub roles : List (UserRole Json)
  pub customers : List DbCustomer
  pub processor : G

-- The access controls of the repositories, for the caller.
pub record Acls (Json : Type 0) : Type 0 where
  pub fees : Acl (Fee Json)
  pub orders : Acl OrderAccess
  pub customers : Acl ℕ

-- `FeeResponse`, its amount as the conversion gives it.
pub record FeeResponse (Json : Type 0) : Type 0 where
  pub id : ℕ
  pub order_id : ℕ
  pub amount : ℕ
  pub status : FeeStatus
  pub currency : Currency
  pub charge_id : Option ℕ
  pub metadata : Option Json

-- `collect::<HashSet<_>>()`: each value once.
unfoldable pub distinct : {A : Type 0} → (eq : A → A → Bool) → List A → List A
distinct eq [] = []
distinct eq (x ∷ xs) = let rest = distinct eq xs in if any (eq x) rest then rest else x ∷ rest

-- `into_iter().next()`
abbrev pub head : {A : Type 0} → List A → Option A
head [] = none
head (x ∷ xs) = some x

-- `status == FeeStatus::Paid`
unfoldable pub is_paid : FeeStatus → Bool
is_paid paid = true
is_paid _ = false

-- `verify_store_ids`
unfoldable pub verify_store_ids : List ℕ → Result ServiceError (Unit {0})
verify_store_ids store_ids = guard (length store_ids == 1) ServiceError.validation

module _ {Json : Type 0} where
  -- `validate_charge_fees`
  unfoldable pub validate_charge_fees : List (Fee Json) → Result ServiceError (Unit {0})
  unfolding is_paid
  validate_charge_fees [] = ok tt
  validate_charge_fees (f ∷ fees) =
      guard (not (is_paid f.status)) ServiceError.validation >> validate_charge_fees fees

  -- `extract_currency`
  unfoldable pub extract_currency : List (Fee Json) → Result ServiceError Currency
  unfolding distinct
  extract_currency fees =
      let currencies = distinct currency_eq (map (λ f. f.currency) fees) in
      guard (length currencies == 1) ServiceError.validation
      >> ok_or (head currencies) ServiceError.internal

  -- The fold of `total_amount`, from the sum so far.
  unfoldable pub add_fees : ℕ → List (Fee Json) → Option ℕ
  unfolding checked_add
  add_fees acc [] = some acc
  add_fees acc (f ∷ fees) = elim (checked_add acc f.amount) [
    | none ↦ none
    | some acc' ↦ add_fees acc' fees
  ]

  -- `total_amount`
  unfoldable pub total_amount : List (Fee Json) → Result ServiceError ℕ
  unfolding add_fees
  total_amount fees = ok_or (add_fees 0 fees) ServiceError.internal

  -- `update_fee` of `create_charge_by_fees`: the status and the charge, and nothing else.
  unfoldable pub update_fee : Charge → UpdateFee Json
  update_fee charge = record {
    order_id = none;
    amount = none;
    status = some (if charge.paid then paid else fail);
    currency = none;
    charge_id = some charge.id;
    metadata = none;
    crypto_currency = none;
    crypto_amount = none;
  }

module _ {Json G : Type 0} (client : StripeClient G) (to_f64 : Currency → ℕ → Option ℕ) where
  -- `FeeResponse::try_from_fee`; `to_f64` is the amount in whole units of the currency, as a float.
  unfoldable pub try_from_fee : Fee Json → Result ServiceError (FeeResponse Json)
  try_from_fee f = elim (to_f64 f.currency f.amount) [
    | none ↦ err ServiceError.internal
    | some amount ↦ ok (record {
      id = f.id;
      order_id = f.order_id;
      amount = amount;
      status = f.status;
      currency = f.currency;
      charge_id = f.charge_id;
      metadata = f.metadata;
    })
  ]

  module _ (acls : Acls Json) where
    -- `get_by_order_id`
    unfoldable pub get_by_order_id :
        ℕ → World Json G → Result ServiceError (Option (FeeResponse Json))
    unfolding get try_from_fee
    get_by_order_id o w = map_err from_repo (get acls.fees (by_order_id o) w.fees) >>= λ found.
        elim found [ none ↦ ok none | some f ↦ try_from_fee f >>= λ r. ok (some r) ]

    -- The updates of the fees, up to the first that fails.
    unfoldable pub update_all :
        UpdateFee Json
        → List (Fee Json)
        → List (Fee Json)
        → Result ServiceError (List (FeeResponse Json)) × List (Fee Json)
    unfolding update try_from_fee
    update_all u [] rows = (ok [], rows)
    update_all u (f ∷ fees) rows =
        let (r, rows') = update acls.fees f.id u rows in
        let (rest, rows'') = update_all u fees rows' in
        elim (map_err from_repo r >>= try_from_fee) [
          | err e ↦ (err e, rows')
          | ok response ↦ (rest >>= λ responses. ok (response ∷ responses), rows'')
        ]

    -- The transaction around them.
    unfoldable pub record_charge :
        Charge
        → List (Fee Json)
        → World Json G
        → Result ServiceError (List (FeeResponse Json)) × World Json G
    unfolding update_all update_fee
    record_charge charge fees w =
        let (r, rows) = update_all (update_fee charge) fees w.fees in
        elim r [ err e ↦ (err e, w) | ok responses ↦ (ok responses, record w { fees = rows }) ]

    -- What `create_charge_by_fees` reads and checks before it asks for a charge.
    unfoldable pub new_charge :
        (is_store : Json → Bool) → List (Fee Json) → World Json G → Result ServiceError NewCharge
    unfolding validate_charge_fees billing.Roles.get_by_store_id billing.Customers.get total_amount
        extract_currency
    new_charge is_store fees w =
        validate_charge_fees fees
        >> ok_or (get_by_store_id is_store w.roles) ServiceError.internal
        >>= λ owner.
            map_err from_repo
              (billing.Customers.get acls.customers (by_user_id owner.user_id) w.customers)
            >>= λ found. ok_or found ServiceError.validation >>= λ customer.
                total_amount fees >>= λ amount. extract_currency fees >>= λ currency. ok (record {
                  customer_id = customer.id;
                  amount = amount;
                  currency = currency;
                  capture = true;
                })

    -- `create_charge_by_fees`
    unfoldable pub create_charge_by_fees :
        (is_store : Json → Bool)
        → List (Fee Json)
        → World Json G
        → Result ServiceError (List (FeeResponse Json)) × World Json G
    unfolding new_charge record_charge
    create_charge_by_fees is_store fees w = elim (new_charge is_store fees w) [
      | err e ↦ (err e, w)
      | ok n ↦
          let (answer, g) = client.create_charge n w.processor in
          let w' = record w { processor = g } in
          elim answer [ err e ↦ (err e, w') | ok charge ↦ record_charge charge fees w' ]
    ]

    -- What `create_charge` reads: the fee, and the store of its order.
    unfoldable pub fee_and_store : SearchFee → World Json G → Result ServiceError (ℕ × Fee Json)
    unfolding get billing.Orders.get
    fee_and_store s w = map_err from_repo (get acls.fees s w.fees) >>= λ found.
        ok_or found ServiceError.internal >>= λ fee.
        map_err from_repo (billing.Orders.get acls.orders fee.order_id w.orders) >>= λ order.
        ok_or order ServiceError.internal >>= λ o. ok (o.store_id, fee)

    -- `create_charge`; `store_is` is the equality with the JSON value of a store's id.
    unfoldable pub create_charge :
        (store_is : ℕ → Json → Bool)
        → SearchFee
        → World Json G
        → Result ServiceError (FeeResponse Json) × World Json G
    unfolding fee_and_store create_charge_by_fees
    create_charge store_is s w = elim (fee_and_store s w) [
      | err e ↦ (err e, w)
      | ok (store, fee) ↦
          let (r, w') = create_charge_by_fees (store_is store) (fee ∷ []) w in
          (r >>= λ responses. ok_or (head responses) ServiceError.internal, w')
    ]

    -- What `create_charge_by_order_ids` reads: the one store of the orders, and their fees.
    unfoldable pub fees_and_store :
        (newest_first : List RawOrder → List RawOrder)
        → List ℕ
        → World Json G
        → Result ServiceError (ℕ × List (Fee Json))
    unfolding search billing.Orders.Search.search distinct verify_store_ids
    fees_and_store newest_first ids w =
        map_err from_repo (
          billing.Orders.Search.search newest_first acls.orders 0 (length ids)
            (billing.Orders.Search.by_order_ids ids) w.orders)
        >>= λ found.
            (let store_ids = distinct (λ a b. a == b) (map (λ o. o.store_id) found.orders) in
              verify_store_ids store_ids
              >> ok_or (head store_ids) ServiceError.internal
              >>= λ store.
                  map_err from_repo
                    (search acls.fees (by_order_ids (map (λ o. o.id) found.orders)) w.fees)
                  >>= λ fees. ok (store, fees))

    -- `create_charge_by_order_ids`, and so `create_charge_for_several_fees`.
    unfoldable pub create_charge_by_order_ids :
        (store_is : ℕ → Json → Bool)
        → (newest_first : List RawOrder → List RawOrder) → List ℕ
        → World Json G
        → Result ServiceError (List (FeeResponse Json)) × World Json G
    unfolding fees_and_store create_charge_by_fees
    create_charge_by_order_ids store_is newest_first ids w =
        elim (fees_and_store newest_first ids w) [
          | err e ↦ (err e, w)
          | ok (store, fees) ↦ create_charge_by_fees (store_is store) fees w
        ]
