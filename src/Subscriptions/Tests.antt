-- ===== src/Subscriptions/Tests.antt =====
-- Subscriptions of three stores, as in the tests of src/services/subscription_payment.rs.
use billing.Base.{
  ℕ, ◌^◌, ◌≡◌, refl, none, some, List, [], ◌∷◌, ok, err, ServiceError, if◌then◌else◌, ltb,
}
use billing.Acl.{system_acl, unauthorized_acl}
use billing.Subscriptions.{Subscription, ByStores, subscriptions_to_pay, calculate_total_amount}
use billing.Subscriptions.Overdue.{entry, to_pay, Keyed, subscriptions_to_pay-to_pay}
use billing.Subscriptions.Owed.{owed, calculate_total_amount-owed}

-- The dates are hours.
abbrev subscription : ℕ → ℕ → ℕ → Subscription
subscription i store at = record {
  id = i;
  store_id = store;
  published_base_products_quantity = 3;
  subscription_payment_id = none;
  created_at = at;
}

abbrev rows : List Subscription
rows =
    subscription 1 1 0
    ∷ record (subscription 5 1 0) { subscription_payment_id = some 9 }
    ∷ subscription 2 1 48
    ∷ subscription 3 2 24
    ∷ subscription 4 3 48
    ∷ []

abbrev due : ByStores
due = (1, subscription 1 1 0 ∷ subscription 2 1 48 ∷ []) ∷ []

finds : subscriptions_to_pay system_acl 48 24 rows ≡ ok due
unfolding subscriptions_to_pay system_acl
finds = refl

subscriptions_to_pay-to_pay_example : Keyed due × ((k : ℕ) → entry k due ≡ to_pay 48 24 k rows)
subscriptions_to_pay-to_pay_example = subscriptions_to_pay-to_pay system_acl 48 24 rows due finds

refused : subscriptions_to_pay unauthorized_acl 48 24 rows ≡ err ServiceError.forbidden
unfolding subscriptions_to_pay unauthorized_acl
refused = refl

calculate_total_amount-owed_example :
    calculate_total_amount 10 rows
    ≡ (if ltb (owed 10 rows) (2 ^ 128) then ok (owed 10 rows) else err ServiceError.internal)
calculate_total_amount-owed_example = calculate_total_amount-owed 10 rows

owed_150 : calculate_total_amount 10 rows ≡ ok 150
unfolding calculate_total_amount
owed_150 = refl
