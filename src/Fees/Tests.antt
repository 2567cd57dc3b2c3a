-- ===== src/Fees/Tests.antt =====
-- Two fees of one store at a card processor that makes every charge (src/services/fee.rs).
use billing.Base.{
  ℕ, ◌+◌, ◌≡◌, refl, ◌⊎◌, Bool, true, Option, none, some, List, [], ◌∷◌, All, length, ◌==◌, ok, err,
  ServiceError,
}
use billing.Currency.{Currency}
use billing.Acl.{store_manager, system_acl}
use billing.Stripe.{NewCharge, Charge, StripeClient}
use billing.Orders.{RawOrder}
use billing.Orders.State.{captured}
use billing.Fees.{Fee, FeeStatus, not_paid, paid, fail, by_order_id}
use billing.Fees.Service.{
  Acls, World, FeeResponse, create_charge, create_charge_by_fees, create_charge_by_order_ids,
  get_by_order_id,
}
use billing.Fees.Marking.{marked, Tells}
use billing.Fees.Charging.{Due, create_charge_by_fees_outcomes}
use billing.Fees.Once.{create_charge-once}

-- The processor counts what it takes.
abbrev client : StripeClient ℕ
client = record {
  create_customer_with_source = λ n g. (err ServiceError.internal, g);
  get_customer = λ i g. (err ServiceError.internal, g);
  delete_customer = λ i g. (err ServiceError.internal, g);
  update_customer = λ i u g. (err ServiceError.internal, g);
  create_charge = λ n g. (ok (record { id = 77; paid = true }), g + n.amount);
}

abbrev to_f64 : Currency → ℕ → Option ℕ
to_f64 c a = some a

abbrev store_is : ℕ → ℕ → Bool
store_is store j = j == store

abbrev acls : Acls ℕ
acls = record { fees = system_acl; orders = system_acl; customers = system_acl }

abbrev fee : (i o a : ℕ) → FeeStatus → Fee ℕ
fee i o a s = record {
  id = i;
  order_id = o;
  amount = a;
  status = s;
  currency = Currency.eur;
  charge_id = none;
  metadata = none;
  crypto_currency = none;
  crypto_amount = none;
}

abbrev order : (i store : ℕ) → RawOrder
order i store = record {
  id = i;
  seller_currency = Currency.eur;
  total_amount = 100;
  cashback_amount = 0;
  invoice_id = 50;
  store_id = store;
  state = captured;
  stripe_fee = none;
}

abbrev world : World ℕ ℕ
world = record {
  fees = fee 1 10 5 not_paid ∷ fee 2 11 6 fail ∷ fee 3 12 7 not_paid ∷ [];
  orders = order 10 30 ∷ order 11 30 ∷ order 12 31 ∷ [];
  roles = record { id = 1; user_id = 4; name = store_manager; info = some 30 } ∷ [];
  customers = record { id = 9; user_id = 4; email = none } ∷ [];
  processor = 0;
}

abbrev charged_fee : (i o a : ℕ) → Fee ℕ
charged_fee i o a = record (fee i o a paid) { charge_id = some 77 }

abbrev response : (i o a : ℕ) → FeeResponse ℕ
response i o a = record {
  id = i;
  order_id = o;
  amount = a;
  status = paid;
  currency = Currency.eur;
  charge_id = some 77;
  metadata = none;
}

-- Two orders of one store are charged at once; orders of two stores are not.
charged_both :
    create_charge_by_order_ids client to_f64 acls store_is (λ l. l) (10 ∷ 11 ∷ []) world ≡ (
      ok (response 1 10 5 ∷ response 2 11 6 ∷ []),
      record world {
        fees = charged_fee 1 10 5 ∷ charged_fee 2 11 6 ∷ fee 3 12 7 not_paid ∷ [];
        processor = 11;
      },
    )
unfolding create_charge_by_order_ids system_acl billing.Currency.currency_code
charged_both = refl

two_stores :
    create_charge_by_order_ids client to_f64 acls store_is (λ l. l) (10 ∷ 12 ∷ []) world
    ≡ (err ServiceError.validation, world)
unfolding create_charge_by_order_ids system_acl
two_stores = refl

looked_up : get_by_order_id client to_f64 acls 99 world ≡ ok none
unfolding get_by_order_id
looked_up = refl

create_charge_by_fees_outcomes_example :
    (let fees = fee 1 10 5 not_paid ∷ [] in
      let (r, w') = create_charge_by_fees client to_f64 acls (store_is 30) fees world in
      ((e : ServiceError) × (r ≡ err e) × (w' ≡ world))
      ⊎ ((n : NewCharge) × Due client to_f64 acls (store_is 30) fees world n
          × (let (answer, g) = client.create_charge n world.processor in
              ((e : ServiceError) × (r ≡ err e) × (w' ≡ record world { processor = g }))
              ⊎ ((charge : Charge) × (out : List (FeeResponse ℕ)) × (answer ≡ ok charge)
                  × (r ≡ ok out)
                  × All (Tells charge) out
                  × (length out ≡ length fees)
                  × (w' ≡ record world { processor = g; fees = marked charge fees world.fees })))))
create_charge_by_fees_outcomes_example =
    create_charge_by_fees_outcomes client to_f64 acls (store_is 30) (fee 1 10 5 not_paid ∷ []) world

charged_one :
    (create_charge client to_f64 acls store_is (by_order_id 10) world).0 ≡ ok (response 1 10 5)
unfolding create_charge system_acl
charged_one = refl

create_charge-once_example :
    (let w' = (create_charge client to_f64 acls store_is (by_order_id 10) world).1 in
      (e : ServiceError) × (create_charge client to_f64 acls store_is (by_order_id 10) w'
        ≡ (err e, w')))
create_charge-once_example =
    create_charge-once client to_f64 acls store_is (by_order_id 10) world (response 1 10 5)
      charged_one refl
