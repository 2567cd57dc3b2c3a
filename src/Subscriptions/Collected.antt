-- ===== src/Subscriptions/Collected.antt =====
-- `pay_subscriptions` of src/services/subscription_payment.rs pays for what is overdue, once.
use billing.Base.{
  ℕ, ◌+◌, suc, ◌≡◌, refl, sym, ap, subst, ◌∙◌, ◌⊎◌, inl, inr, Bool, true, none, some, List, [], ◌∷◌,
  length, map, find, ◌==◌, arith, Option-cases, Result-cases, Result, ok, err, ok_or, map_err,
  ServiceError, from_repo, ◌>>=◌, >>=-eq-ok, ok-injective,
}
use billing.Currency.{CurrencyChoice, crypto, fiat, classify, TureCurrency, FiatCurrency}
use billing.Accounts.{Account}
use billing.Accounts.Service.{PaymentsClient, SystemAccount, get_main_account}
use billing.Roles.{get_by_store_id}
use billing.Stripe.{StripeClient}
use billing.Customers.{DbCustomer, by_user_id}
use billing.Customers
use billing.Subscriptions.{Subscription, ByStores, subscriptions_to_pay, calculate_total_amount}
use billing.Subscriptions.Stores.{StoreSubscription}
use billing.Subscriptions.Stores
use billing.Subscriptions.Recorded.{AllSettled, record_all-Records}
use billing.Subscriptions.Collection.{
  Acls, Ledger, World, Preparation, PaymentPreparation, FinishedPayment, CreateInternalTransaction,
  fiat_preparation, crypto_preparation, failed_preparation, payment_preparation, prepare_store,
  create_payment_preparations, collect_fiat_subscription, collect_ture_subscription, collect,
  collect_all, record_all, pay_subscriptions,
}

-- The subscriptions that a preparation pays for.
abbrev subscriptions_of : PaymentPreparation → List Subscription
subscriptions_of (fiat_preparation c customer p) = p.subscriptions
subscriptions_of (crypto_preparation c owner p) = p.subscriptions
subscriptions_of (failed_preparation p) = p.subscriptions

abbrev lists_of : ByStores → List (List Subscription)
lists_of due = map (λ (e : ℕ × List Subscription). e.1) due

length-map : {A B : Type 0} (f : A → B) (xs : List A) → length (map f xs) ≡ length xs
length-map f [] = refl
length-map f (x ∷ xs) = ap suc (length-map f xs)

choice-cases :
    (c : CurrencyChoice)
    → ((t : TureCurrency) × (c ≡ crypto t)) ⊎ ((f : FiatCurrency) × (c ≡ fiat f))
choice-cases (crypto t) = inl (t, refl)
choice-cases (fiat f) = inr (f, refl)

module _ {Json OrderState P G : Type 0} (acls : Acls) (store_is : ℕ → Json → Bool) where
  payment_preparation-subscriptions :
      (owner : ℕ) (p : Preparation) (w : World Json OrderState P G) (q : PaymentPreparation)
      → payment_preparation acls store_is owner p w ≡ ok q
      → subscriptions_of q ≡ p.subscriptions
  unfolding payment_preparation
  payment_preparation-subscriptions owner p w q h =
      elim (choice-cases (classify p.store_subscription.currency)) [
        | inl (c, is_crypto) ↦ elim (Option-cases p.store_subscription.wallet_address) [
          | inl no_wallet ↦
              let told = rw (is_crypto, no_wallet, payment_preparation) at h in
              ap subscriptions_of (sym (ok-injective told))
          | inr (address, has) ↦
              elim (Option-cases
                (find (λ (a : Account). a.wallet_address == address) w.accounts.tables.accounts)) [
                  | inl missing ↦
                      let told = rw (is_crypto, has, missing, payment_preparation) at h in
                      ap subscriptions_of (sym (ok-injective told))
                  | inr (a, found) ↦
                      let told = rw (is_crypto, has, found, payment_preparation) at h in
                      ap subscriptions_of (sym (ok-injective told))
                ]
        ]
        | inr (c, is_fiat) ↦
            elim (Result-cases (
              map_err from_repo
                (billing.Customers.get acls.customers (by_user_id owner) w.sources.customers))) [
                  | inr (e, refused) ↦
                      let wrong : ◌≡◌ {A = Result ServiceError PaymentPreparation} (err e) (ok q) =
                        rw (is_fiat, refused, payment_preparation) at h in
                      cc
                  | inl (none, found) ↦
                      let told = rw (is_fiat, found, payment_preparation) at h in
                      ap subscriptions_of (sym (ok-injective told))
                  | inl (some customer, found) ↦
                      let told = rw (is_fiat, found, payment_preparation) at h in
                      ap subscriptions_of (sym (ok-injective told))
                ]
      ]

  prepare_store-subscriptions :
      (store : ℕ) (subscriptions : List Subscription) (w : World Json OrderState P G)
      (q : PaymentPreparation)
      → prepare_store acls store_is store subscriptions w ≡ ok q
      → subscriptions_of q ≡ subscriptions
  unfolding prepare_store
  prepare_store-subscriptions store subscriptions w q h =
      let (found, h1, r1) =
        >>=-eq-ok
          (map_err from_repo (billing.Subscriptions.Stores.get acls.stores store w.sources.stores))
          _ h in
      let (s, h2, r2) = >>=-eq-ok (ok_or found ServiceError.internal) _ r1 in
      let (total, h3, r3) = >>=-eq-ok (calculate_total_amount s.value subscriptions) _ r2 in
      let (owner, h4, r4) =
        >>=-eq-ok (ok_or (get_by_store_id (store_is store) w.sources.roles) ServiceError.internal) _
          r3 in
      payment_preparation-subscriptions owner.user_id
        (record { store_subscription = s; subscriptions = subscriptions; total_amount = total }) w q
        r4

  create_payment_preparations-subscriptions :
      (due : ByStores) (w : World Json OrderState P G) (out : List PaymentPreparation)
      → create_payment_preparations acls store_is due w ≡ ok out
      → map subscriptions_of out ≡ lists_of due
  unfolding create_payment_preparations
  create_payment_preparations-subscriptions [] w out h =
      ap (map subscriptions_of) (sym (ok-injective h))
  create_payment_preparations-subscriptions ((store, subscriptions) ∷ due) w out h =
      let (p, h1, r1) = >>=-eq-ok (prepare_store acls store_is store subscriptions w) _ h in
      let (rest, h2, r2) = >>=-eq-ok (create_payment_preparations acls store_is due w) _ r1 in
      let one = prepare_store-subscriptions store subscriptions w p h1 in
      let others = create_payment_preparations-subscriptions due w rest h2 in
      ap (map subscriptions_of) (sym (ok-injective r2)) ∙ cc (one, others)

  module _ (stripe : StripeClient P) (client : PaymentsClient G)
      (transfer : CreateInternalTransaction → G → Result ServiceError (Unit {0}) × G)
      (system : List SystemAccount) where
    collect-subscriptions :
        (i : ℕ) (p : PaymentPreparation) (w : World Json OrderState P G)
        → (let (f, w') = collect acls store_is stripe client transfer system i p w in
            (f.subscriptions ≡ subscriptions_of p) × (w'.ledger ≡ w.ledger))
    unfolding collect collect_fiat_subscription collect_ture_subscription
    collect-subscriptions i (failed_preparation p) w = (refl, refl)
    collect-subscriptions i (fiat_preparation c customer p) w =
        let answer =
          (stripe.create_charge
            (record {
              customer_id = customer.id;
              amount = p.total_amount;
              currency = p.store_subscription.currency;
              capture = true;
            })
            w.processor).0 in
        elim (Result-cases answer) [
          | inl (charge, made) ↦ rw (collect_fiat_subscription, made) (refl, refl)
          | inr (e, refused) ↦ rw (collect_fiat_subscription, refused) (refl, refl)
        ]
    collect-subscriptions i (crypto_preparation c owner p) w =
        elim (Result-cases (get_main_account client system c w.accounts)) [
          | inr (e, none_there) ↦ rw (collect_ture_subscription, none_there) (refl, refl)
          | inl (main, found) ↦
              let answer =
                (transfer
                  (record {
                    id = i;
                    from = owner.id;
                    to = main.account.id;
                    amount = p.total_amount;
                  })
                  w.accounts.gateway).0 in
              elim (Result-cases answer) [
                | inl (done, made) ↦ rw (collect_ture_subscription, found, made) (refl, refl)
                | inr (e, refused) ↦ rw (collect_ture_subscription, found, refused) (refl, refl)
              ]
        ]

    collect_all-subscriptions :
        (fresh : ℕ → ℕ) (n : ℕ) (preparations : List PaymentPreparation)
        (w : World Json OrderState P G)
        → (let (finished, w') =
              collect_all acls store_is stripe client transfer system fresh n preparations w in
            (map (λ (f : FinishedPayment). f.subscriptions) finished
              ≡ map subscriptions_of preparations)
            × (w'.ledger ≡ w.ledger))
    unfolding collect_all
    collect_all-subscriptions fresh n [] w = (refl, refl)
    collect_all-subscriptions fresh n (p ∷ preparations) w =
        let w' = (collect acls store_is stripe client transfer system (fresh n) p w).1 in
        let (one, same) = collect-subscriptions (fresh n) p w in
        let (others, rest) = collect_all-subscriptions fresh (n + 1) preparations w' in
        (cc (one, others), rest ∙ same)

    -- If `pay_subscriptions` succeeds, then every subscription of the stores that `subscriptions_to_pay`
    -- found overdue has a payment in the table afterwards, whether the payment itself was made or failed,
    -- so that it is not collected a second time; and one payment is recorded for each of these stores.
    pub pay_subscriptions-AllSettled :
        (now period at : ℕ) (fresh : ℕ → ℕ) (w : World Json OrderState P G)
        → (pay_subscriptions acls store_is stripe client transfer system now period at fresh w).0
          ≡ ok tt
        → (let w' =
              (pay_subscriptions acls store_is stripe client transfer system now period at fresh
                w).1 in
            (due : ByStores) × (subscriptions_to_pay acls.subscriptions now period
                w.ledger.subscriptions
              ≡ ok due)
            × AllSettled w'.ledger.subscriptions (lists_of due)
            × (length w'.ledger.payments ≡ length w.ledger.payments + length due))
    unfolding pay_subscriptions
    pay_subscriptions-AllSettled now period at fresh w h =
        let to_pay = subscriptions_to_pay acls.subscriptions now period w.ledger.subscriptions in
        elim (Result-cases (to_pay >>= λ due. create_payment_preparations acls store_is due w)) [
          | inr (e, unprepared) ↦
              let wrong : ◌≡◌ {A = Result ServiceError (Unit {0})} (err e) (ok tt) =
                rw (unprepared, pay_subscriptions) at h in
              cc
          | inl (preparations, prepared) ↦
              let collected =
                collect_all acls store_is stripe client transfer system fresh 0 preparations w in
              let finished = collected.0 in
              let recorded = record_all acls at finished collected.1.ledger in
              elim (Result-cases recorded.0) [
                | inr (e, unrecorded) ↦
                    let wrong : ◌≡◌ {A = Result ServiceError (Unit {0})} (err e) (ok tt) =
                      rw (prepared, unrecorded, pay_subscriptions) at h in
                    cc
                | inl (done, is_recorded) ↦
                    let (due, found, made) = >>=-eq-ok to_pay _ prepared in
                    let lists = create_payment_preparations-subscriptions due w preparations made in
                    let (paid_for, ledger) = collect_all-subscriptions fresh 0 preparations w in
                    let (settled, keeps, len) =
                      record_all-Records acls at finished collected.1.ledger is_recorded in
                    let same = paid_for ∙ lists in
                    let count : length finished ≡ length due =
                      sym (length-map (λ (f : FinishedPayment). f.subscriptions) finished)
                      ∙ ap length same
                      ∙ length-map (λ (e : ℕ × List Subscription). e.1) due in
                    let before = ap (λ (l : Ledger). length l.payments) ledger in
                    rw (pay_subscriptions, prepared, is_recorded)
                      (
                        due,
                        found,
                        subst (AllSettled recorded.1.subscriptions) same settled,
                        omega (arith, len, count, before),
                      )
              ]
        ]
