-- ===== src/Rates/Tests.antt =====
-- Exchange rates at a small table.
use billing.Base.{
  ℕ, ◌+◌, ◌≡◌, refl, Bool, true, false, none, some, List, [], ◌∷◌, ok, err, RepoError, arith,
  if◌then◌else◌, find,
}
use billing.Acl.{Acl, BillingRole, allows, system_acl}
use billing.Currency.{Currency}
use billing.Orders.State.{initial}
use billing.Orders.{RawOrder}
use billing.Rates.{
  RawOrderExchangeRate, NewOrderExchangeRate, LatestExchangeRates, Table, is_in_scope, active,
  expired, add_new_active_rate, get_active_rate_for_order, get_all_rates_for_order, is_active_of,
  delete_by_order_id,
}
use billing.Rates.Active.{AtMostOneActive, count_active}
use billing.Rates.Runs.{Call, run, run-AtMostOneActive}
use billing.Rates.Latest.{Replaced, add_new_active_rate-get_active_rate_for_order}

abbrev rate : ℕ → ℕ → Bool → RawOrderExchangeRate ℕ
rate i order is_live = record {
  id = i;
  order_id = order;
  exchange_id = none;
  exchange_rate = 100 + i;
  status = if is_live then active else expired;
  created_at = 1;
  updated_at = 1;
}

abbrev rates : Table ℕ
rates = record { rows = rate 1 20 false ∷ rate 2 20 true ∷ rate 3 21 true ∷ []; next_id = 4 }

abbrev new_rate : NewOrderExchangeRate ℕ
new_rate = record { order_id = 20; exchange_id = some 6; exchange_rate = 250 }

abbrev buyer_order : RawOrder
buyer_order = record {
  id = 20;
  seller_currency = Currency.stq;
  total_amount = 500;
  cashback_amount = 0;
  invoice_id = 90;
  store_id = 5;
  state = initial;
  stripe_fee = none;
}

-- The access control of a user.
abbrev acl_of : ℕ → Acl ℕ
acl_of user =
    allows (is_in_scope (buyer_order ∷ []) (record { id = 90; buyer_user_id = 7 } ∷ []) user)
      (BillingRole.user ∷ [])

one_active : AtMostOneActive rates
unfolding count_active
one_active o = ground arith

abbrev calls : List (Call ℕ)
calls =
    Call.add (acl_of 7) 50 new_rate
    ∷ Call.add (acl_of 8) 51 new_rate
    ∷ Call.add system_acl 52 new_rate
    ∷ Call.delete_one system_acl 1
    ∷ Call.expire_current system_acl 53 21
    ∷ []

run-AtMostOneActive_example : AtMostOneActive (run calls rates)
run-AtMostOneActive_example = run-AtMostOneActive calls rates one_active

add_new_active_rate-get_active_rate_for_order_example :
    (latest : LatestExchangeRates ℕ) × ((add_new_active_rate (acl_of 7) 50 new_rate rates).0
      ≡ ok latest)
    × (latest.active_rate ≡ record {
      id = 4;
      order_id = 20;
      exchange_id = new_rate.exchange_id;
      exchange_rate = new_rate.exchange_rate;
      status = active;
      created_at = 50;
      updated_at = 50;
    })
    × (get_active_rate_for_order (acl_of 7) 20 (add_new_active_rate (acl_of 7) 50 new_rate rates).1
        ≡ ok (some latest.active_rate))
    × Replaced (find (is_active_of 20) rates.rows) latest.last_expired_rate
unfolding allows is_in_scope
add_new_active_rate-get_active_rate_for_order_example =
    add_new_active_rate-get_active_rate_for_order (acl_of 7) (acl_of 7) 50 new_rate rates one_active
      refl refl

-- A user who is not the buyer may not set a rate.
add_refused : add_new_active_rate (acl_of 8) 50 new_rate rates ≡ (err RepoError.forbidden, rates)
unfolding add_new_active_rate allows is_in_scope
add_refused = refl

newest_first :
    get_all_rates_for_order system_acl 20 rates ≡ ok (rate 2 20 true ∷ rate 1 20 false ∷ [])
unfolding get_all_rates_for_order system_acl
newest_first = refl

delete_order :
    (delete_by_order_id system_acl 20 rates).1 ≡ record { rows = rate 3 21 true ∷ []; next_id = 4 }
unfolding delete_by_order_id system_acl
delete_order = refl
