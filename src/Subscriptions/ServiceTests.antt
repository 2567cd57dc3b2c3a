-- ===== src/Subscriptions/ServiceTests.antt =====
-- Stores that owe and pay (src/services/subscription.rs, src/services/store_subscription.rs,
-- src/services/subscription_payment.rs).
use billing.Base.{
  ℕ, ◌+◌, ◌/◌, ◌^◌, suc, ◌≡◌, refl, inl, true, Option, none, some, List, [], ◌∷◌, length, map, ◌==◌,
  Result, ok, err, ServiceError,
}
use billing.Currency.{Currency}
use billing.Acl.{system_acl, store_manager}
use billing.Stripe.{StripeClient}
use billing.Accounts.Service.{PaymentsClient}
use billing.Subscriptions.{Subscription, ByStores, subscriptions_to_pay}
use billing.Subscriptions.Stores.{
  StoreSubscription, UpdateStoreSubscriptionRequest, trial, paid, free, update_store_subscription,
}
use billing.Subscriptions.Prices.{IsValid}
use billing.Subscriptions.Priced.{
  Request, create_request, update_request, serve_all, serve_all-IsValid,
}
use billing.Subscriptions.Repo.{NewSubscription}
use billing.Subscriptions.Accrual.{Tables, Date, create_all}
use billing.Subscriptions.Daily.{OnePerDay, create_all-OnePerDay}
use billing.Subscriptions.Recorded.{AllSettled}
use billing.Subscriptions.Payments.{failed, SubscriptionPaymentStatus}
use billing.Subscriptions.Collection.{Acls, World, CreateInternalTransaction, pay_subscriptions}
use billing.Subscriptions.Collected.{pay_subscriptions-AllSettled}
use billing.Subscriptions.Stores
use billing.Subscriptions.Payments

-- The payments gateway counts the accounts that it made.
abbrev create_wallet : ℕ → Result ServiceError ℕ × ℕ
create_wallet g = (ok (1000 + g), suc g)

abbrev store : (k : ℕ) → Currency → (value : ℕ) → Option ℕ → StoreSubscription
store k c value wallet = record {
  store_id = k;
  currency = c;
  value = value;
  wallet_address = wallet;
  trial_start_date = some 0;
  status = trial;
}

abbrev requests : List Request
requests =
    create_request 2 Currency.stq
    ∷ update_request 1 (record { currency = some Currency.stq; status = none })
    ∷ update_request 2 (record { currency = some Currency.btc; status = none })
    ∷ create_request 1 Currency.eur
    ∷ []

abbrev shop : billing.Subscriptions.Stores.World ℕ
shop = record { rows = store 1 Currency.eur 3 none ∷ []; gateway = 0 }

served : serve_all system_acl create_wallet requests shop ≡ record {
  rows =
      store 1 Currency.stq (10 ^ 18) (some 1001)
      ∷ record (store 2 Currency.stq (10 ^ 18) (some 1000)) { trial_start_date = none }
      ∷ [];
  gateway = 2;
}
unfolding update_store_subscription billing.Subscriptions.Stores.create_store_subscription
    system_acl
served = refl

serve_all-IsValid_example : IsValid (serve_all system_acl create_wallet requests shop).rows
serve_all-IsValid_example =
    serve_all-IsValid system_acl create_wallet requests shop
      (record { priced_rows = (inl (refl, refl), tt); keyed = (refl, tt) })

-- A day has 24 hours.
abbrev date_of : ℕ → Date
date_of hour = record { year = 2019; month = 2; day = hour / 24 }

abbrev new : ℕ → NewSubscription
new k = record { store_id = k; published_base_products_quantity = 5 }

abbrev tables : Tables
tables = record {
  stores =
      store 1 Currency.eur 3 none ∷ record (store 2 Currency.eur 3 none) { status = free } ∷ [];
  subscriptions = [];
  next_id = 1;
}

-- The first store's trial is over, and it owes once; the second one's is free; the third one's begins.
accrued :
    (create_all date_of system_acl system_acl 100 48 101
      (new 1 ∷ new 2 ∷ new 3 ∷ new 1 ∷ [])
      tables).1.subscriptions
    ≡ record {
      id = 1;
      store_id = 1;
      published_base_products_quantity = 5;
      subscription_payment_id = none;
      created_at = 101;
    }
      ∷ []
unfolding create_all system_acl
accrued = refl

create_all-OnePerDay_example :
    OnePerDay date_of
      (create_all date_of system_acl system_acl 100 48 101
        (new 1 ∷ new 1 ∷ [])
        tables).1.subscriptions
create_all-OnePerDay_example =
    create_all-OnePerDay date_of system_acl system_acl 100 48 101 refl (new 1 ∷ new 1 ∷ []) tables
      tt

abbrev acls : Acls
acls = record {
  stores = system_acl;
  subscriptions = system_acl;
  customers = system_acl;
  payments = system_acl;
}

abbrev stripe : StripeClient ℕ
stripe = record {
  create_customer_with_source = λ n g. (err ServiceError.internal, g);
  get_customer = λ i g. (err ServiceError.internal, g);
  delete_customer = λ i g. (err ServiceError.internal, g);
  update_customer = λ i u g. (err ServiceError.internal, g);
  create_charge = λ n g. (ok (record { id = 77; paid = true }), g + n.amount);
}

abbrev client : PaymentsClient ℕ
client = record {
  create_account = λ a g. (ok (1000 + a.id), g);
  delete_account = λ i g. g;
  get_balance = λ i g. some 0;
}

abbrev transfer : CreateInternalTransaction → ℕ → Result ServiceError (Unit {0}) × ℕ
transfer t g = (ok tt, g + t.amount)

abbrev owed_by : (i k : ℕ) → Subscription
owed_by i k = record {
  id = i;
  store_id = k;
  published_base_products_quantity = 5;
  subscription_payment_id = none;
  created_at = 0;
}

-- The first store's owner has a card, and the second one's wallet is not known.
abbrev world : World ℕ ℕ ℕ ℕ
world = record {
  ledger = record {
    subscriptions = owed_by 1 1 ∷ owed_by 2 2 ∷ owed_by 3 1 ∷ [];
    payments = [];
    next_id = 4;
  };
  sources = record {
    stores = store 1 Currency.eur 3 none ∷ store 2 Currency.stq 3 (some 8) ∷ [];
    roles =
        record { id = 1; user_id = 4; name = store_manager; info = some 1 }
        ∷ record { id = 2; user_id = 5; name = store_manager; info = some 2 }
        ∷ [];
    customers = record { id = 9; user_id = 4; email = none } ∷ [];
  };
  accounts = record { tables = record { accounts = []; invoices = [] }; gateway = 0 };
  processor = 0;
}

abbrev fresh : ℕ → ℕ
fresh n = n

abbrev paid_world : Result ServiceError (Unit {0}) × World ℕ ℕ ℕ ℕ
paid_world = pay_subscriptions acls (λ k j. j == k) stripe client transfer [] 100 48 101 fresh world

is_paid : paid_world.0 ≡ ok tt
unfolding pay_subscriptions system_acl
is_paid = refl

-- The failed payment is recorded and its subscription is not collected again.
recorded :
    map (λ (s : Subscription). s.subscription_payment_id) paid_world.1.ledger.subscriptions
    ≡ some 4 ∷ some 5 ∷ some 4 ∷ []
unfolding pay_subscriptions system_acl
recorded = refl

statuses :
    map
      (λ (p : billing.Subscriptions.Payments.SubscriptionPayment). p.payment.status)
      paid_world.1.ledger.payments
    ≡ SubscriptionPaymentStatus.paid ∷ SubscriptionPaymentStatus.failed ∷ []
unfolding pay_subscriptions system_acl
statuses = refl

pay_subscriptions-AllSettled_example :
    (due : ByStores) × (subscriptions_to_pay acls.subscriptions 100 48 world.ledger.subscriptions
      ≡ ok due)
    × AllSettled paid_world.1.ledger.subscriptions (map (λ (e : ℕ × List Subscription). e.1) due)
    × (length paid_world.1.ledger.payments ≡ length world.ledger.payments + length due)
pay_subscriptions-AllSettled_example =
    pay_subscriptions-AllSettled acls (λ k j. j == k) stripe client transfer [] 100 48 101 fresh
      world is_paid
