-- ===== src/Subscriptions/Collection.antt =====
-- The collection of what stores owe (`pay_subscriptions` of src/services/subscription_payment.rs): the
-- payments are prepared from the tables, collected at the card processor or the payments gateway, and
-- recorded. Generated ids are arguments.
use billing.Base.{
  ℕ, ◌+◌, Bool, true, Option, none, some, List, [], ◌∷◌, Result, ok, err, ok_or, map_err,
  ServiceError, from_repo, ◌>>=◌,
}
use billing.Currency.{TureCurrency, FiatCurrency, crypto, fiat, classify}
use billing.Acl.{Acl, system_acl}
use billing.Roles.{UserRole, get_by_store_id}
use billing.Customers.{DbCustomer, by_user_id}
use billing.Stripe.{StripeClient}
use billing.Accounts.{Account, get_by_wallet_address}
use billing.Accounts.Service.{PaymentsClient, SystemAccount, get_main_account}
use billing.Subscriptions.{Subscription, ByStores, subscriptions_to_pay, calculate_total_amount}
use billing.Subscriptions.Stores.{StoreSubscription}
use billing.Subscriptions.Repo.{by_id, update}
use billing.Subscriptions.Payments.{
  SubscriptionPayment, NewSubscriptionPayment, SubscriptionPaymentStatus, paid, failed,
}
use billing.Customers
use billing.Accounts.Service
use billing.Subscriptions.Stores
use billing.Subscriptions.Payments

-- What is prepared: the fields that the three preparations share.
pub record Preparation : Type 0 where
  pub store_subscription : StoreSubscription
  pub subscriptions : List Subscription
  pub total_amount : ℕ

-- `PaymentPreparation`, with what each of the three has besides.
pub data PaymentPreparation : Type 0 where
  fiat_preparation : FiatCurrency → (customer : DbCustomer) → Preparation → PaymentPreparation
  crypto_preparation :
      TureCurrency → (store_owner_account : Account) → Preparation → PaymentPreparation
  failed_preparation : Preparation → PaymentPreparation

-- `FinishedPayment`
pub record FinishedPayment : Type 0 where
  pub subscriptions : List Subscription
  pub subscription_payment : NewSubscriptionPayment

-- `CreateInternalTransaction`
pub record CreateInternalTransaction : Type 0 where
  pub id : ℕ
  pub from : ℕ
  pub to : ℕ
  pub amount : ℕ

-- The tables of subscriptions and payments, with the next key of the second.
pub record Ledger : Type 0 where
  pub subscriptions : List Subscription
  pub payments : List SubscriptionPayment
  pub next_id : ℕ

-- The tables that are only read.
pub record Sources (Json : Type 0) : Type 0 where
  pub stores : List StoreSubscription
  pub roles : List (UserRole Json)
  pub customers : List DbCustomer

-- All tables, the card processor and the accounts with the payments gateway.
pub record World (Json OrderState P G : Type 0) : Type 0 where
  pub ledger : Ledger
  pub sources : Sources Json
  pub accounts : billing.Accounts.Service.World OrderState G
  pub processor : P

-- The access controls of the repositories, for the caller.
pub record Acls : Type 0 where
  pub stores : Acl ℕ
  pub subscriptions : Acl ℕ
  pub customers : Acl ℕ
  pub payments : Acl ℕ

-- The new payment of a preparation.
abbrev pub payment_of :
    Preparation → (charge transaction : Option ℕ) → SubscriptionPaymentStatus → FinishedPayment
payment_of p charge transaction status = record {
  subscriptions = p.subscriptions;
  subscription_payment = record {
    store_id = p.store_subscription.store_id;
    amount = p.total_amount;
    currency = p.store_subscription.currency;
    charge_id = charge;
    transaction_id = transaction;
    status = status;
  };
}

-- `into_finished_payment`
unfoldable pub into_finished_payment : Preparation → FinishedPayment
into_finished_payment p = payment_of p none none failed

module _ (acls : Acls) where
  -- The inner loop of what is recorded.
  unfoldable pub set_payments :
      ℕ → List Subscription → List Subscription → Result ServiceError (Unit {0}) × List Subscription
  unfolding update
  set_payments p [] rows = (ok tt, rows)
  set_payments p (s ∷ subscriptions) rows =
      let (r, rows') = update acls.subscriptions (by_id s.id) p rows in
      let rest = set_payments p subscriptions rows' in
      elim r [ err e ↦ (err (from_repo e), rows') | ok _ ↦ rest ]

  -- The outer loop; `at` is the database's time.
  unfoldable pub record_all :
      (at : ℕ) → List FinishedPayment → Ledger → Result ServiceError (Unit {0}) × Ledger
  unfolding set_payments billing.Subscriptions.Payments.create
  record_all at [] l = (ok tt, l)
  record_all at (f ∷ finished) l =
      let (r, payments) =
        billing.Subscriptions.Payments.create acls.payments l.next_id at f.subscription_payment
          l.payments in
      let (done, subscriptions) = set_payments l.next_id f.subscriptions l.subscriptions in
      let rest =
        record_all at finished (record {
          subscriptions = subscriptions;
          payments = payments;
          next_id = l.next_id + 1;
        }) in
      elim (map_err from_repo r >>= λ payment. done) [ err e ↦ (err e, l) | ok _ ↦ rest ]

module _ {Json OrderState P G : Type 0} (acls : Acls) (store_is : ℕ → Json → Bool) where
  -- `payment_preparation`
  unfoldable pub payment_preparation :
      (store_owner : ℕ)
      → Preparation
      → World Json OrderState P G
      → Result ServiceError PaymentPreparation
  unfolding classify get_by_wallet_address system_acl billing.Customers.get
  payment_preparation owner p w = elim (classify p.store_subscription.currency) [
    | crypto c ↦ elim p.store_subscription.wallet_address [
      | none ↦ ok (failed_preparation p)
      | some address ↦
          elim (map_err from_repo (get_by_wallet_address system_acl address w.accounts.tables)) [
            | err e ↦ err e
            | ok none ↦ ok (failed_preparation p)
            | ok (some a) ↦ ok (crypto_preparation c a p)
          ]
    ]
    | fiat c ↦
        elim (map_err from_repo
          (billing.Customers.get acls.customers (by_user_id owner) w.sources.customers)) [
            | err e ↦ err e
            | ok none ↦ ok (failed_preparation p)
            | ok (some customer) ↦ ok (fiat_preparation c customer p)
          ]
  ]

  -- One round of `create_payment_preparations`.
  unfoldable pub prepare_store :
      ℕ → List Subscription → World Json OrderState P G → Result ServiceError PaymentPreparation
  unfolding billing.Subscriptions.Stores.get calculate_total_amount get_by_store_id
      payment_preparation
  prepare_store store subscriptions w =
      map_err from_repo (billing.Subscriptions.Stores.get acls.stores store w.sources.stores)
      >>= λ found. ok_or found ServiceError.internal >>= λ store_subscription.
          calculate_total_amount store_subscription.value subscriptions >>= λ total.
          ok_or (get_by_store_id (store_is store) w.sources.roles) ServiceError.internal
          >>= λ owner.
              payment_preparation owner.user_id
                (record {
                  store_subscription = store_subscription;
                  subscriptions = subscriptions;
                  total_amount = total;
                })
                w

  -- `create_payment_preparations`; one store that cannot be prepared stops all.
  unfoldable pub create_payment_preparations :
      ByStores → World Json OrderState P G → Result ServiceError (List PaymentPreparation)
  unfolding prepare_store
  create_payment_preparations [] w = ok []
  create_payment_preparations ((store, subscriptions) ∷ entries) w =
      prepare_store store subscriptions w >>= λ p.
      create_payment_preparations entries w >>= λ rest. ok (p ∷ rest)

  module _ (stripe : StripeClient P) (client : PaymentsClient G)
      (create_internal_transaction : CreateInternalTransaction
        → G
        → Result ServiceError (Unit {0}) × G)
      (system : List SystemAccount) where
    -- `collect_fiat_subscription`
    unfoldable pub collect_fiat_subscription :
        DbCustomer
        → Preparation
        → World Json OrderState P G
        → FinishedPayment × World Json OrderState P G
    collect_fiat_subscription customer p w =
        let (answer, processor) =
          stripe.create_charge
            (record {
              customer_id = customer.id;
              amount = p.total_amount;
              currency = p.store_subscription.currency;
              capture = true;
            })
            w.processor in
        let w' = record w { processor = processor } in
        elim answer [
          | ok charge ↦ (payment_of p (some charge.id) none paid, w')
          | err e ↦ (payment_of p none none failed, w')
        ]

    -- `collect_ture_subscription`; `id` is the generated id of the transaction.
    unfoldable pub collect_ture_subscription :
        (id : ℕ)
        → TureCurrency
        → Account
        → Preparation
        → World Json OrderState P G
        → FinishedPayment × World Json OrderState P G
    unfolding get_main_account
    collect_ture_subscription i c owner p w = elim (get_main_account client system c w.accounts) [
      | err e ↦ (payment_of p none (some i) failed, w)
      | ok main ↦
          let (answer, g) =
            create_internal_transaction
              (record { id = i; from = owner.id; to = main.account.id; amount = p.total_amount })
              w.accounts.gateway in
          let w' = record w { accounts = record (w.accounts) { gateway = g } } in
          elim answer [
            | ok _ ↦ (payment_of p none (some i) paid, w')
            | err e ↦ (payment_of p none (some i) failed, w')
          ]
    ]

    -- The match on a preparation.
    unfoldable pub collect :
        (id : ℕ)
        → PaymentPreparation
        → World Json OrderState P G
        → FinishedPayment × World Json OrderState P G
    unfolding collect_fiat_subscription collect_ture_subscription into_finished_payment
    collect i (fiat_preparation c customer p) w = collect_fiat_subscription customer p w
    collect i (crypto_preparation c owner p) w = collect_ture_subscription i c owner p w
    collect i (failed_preparation p) w = (into_finished_payment p, w)

    -- The stream of preparations, one after the other; `fresh` generates the ids.
    unfoldable pub collect_all :
        (fresh : ℕ → ℕ)
        → (count : ℕ) → List PaymentPreparation
        → World Json OrderState P G
        → List FinishedPayment × World Json OrderState P G
    unfolding collect
    collect_all fresh n [] w = ([], w)
    collect_all fresh n (p ∷ preparations) w =
        let (finished, w') = collect (fresh n) p w in
        let (rest, w'') = collect_all fresh (n + 1) preparations w' in (finished ∷ rest, w'')

    -- `pay_subscriptions`: what fails to be recorded is taken back, and what was collected is not.
    unfoldable pub pay_subscriptions :
        (now period at : ℕ)
        → (fresh : ℕ → ℕ) → World Json OrderState P G
        → Result ServiceError (Unit {0}) × World Json OrderState P G
    unfolding subscriptions_to_pay create_payment_preparations collect_all record_all
    pay_subscriptions now period at fresh w =
        elim (subscriptions_to_pay acls.subscriptions now period w.ledger.subscriptions >>= λ due.
        create_payment_preparations due w) [
          | err e ↦ (err e, w)
          | ok preparations ↦
              let (finished, w') = collect_all fresh 0 preparations w in
              let (r, ledger) = record_all acls at finished w'.ledger in
              elim r [ err e ↦ (err e, w') | ok _ ↦ (ok tt, record w' { ledger = ledger }) ]
        ]
