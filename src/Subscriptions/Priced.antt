-- ===== src/Subscriptions/Priced.antt =====
-- The service of stores' subscriptions keeps the currencies and prices of the table
-- (src/services/store_subscription.rs).
use billing.Base.{
  ℕ, ◌≡◌, refl, sym, subst, ◌∙◌, inl, inr, none, some, List, [], ◌∷◌, Bool-cases, Option-cases,
  Result-cases, Result, ok, err, ok_or, map_err, ServiceError, from_repo, ◌>>=◌, >>=-eq-ok,
  ok_or-ok, map_err-ok, ok-injective,
}
use billing.Currency.{Currency, currency_eq}
use billing.Currency.Equality.{currency_eq→eq}
use billing.Acl.{Acl}
use billing.Subscriptions.Stores.{
  StoreSubscription, UpdateStoreSubscription, UpdateStoreSubscriptionRequest, World, changed,
  given_or, default_eur_cents_amount, default_stq_wei_amount, get, priced, from_request, store_new,
  create_store_subscription, in_currency, payload_for, update_store_subscription,
}
use billing.Subscriptions.Prices.{IsPriced, IsValid, create-IsValid, get-find, update-IsValid}

-- A request of the service.
pub data Request : Type 0 where
  create_request : ℕ → Currency → Request
  update_request : ℕ → UpdateStoreSubscriptionRequest → Request

module _ {G : Type 0} (acl : Acl ℕ) (create_wallet : G → Result ServiceError ℕ × G) where
  create_store_subscription-IsValid :
      (k : ℕ) (c : Currency) (w : World G)
      → IsValid w.rows
      → IsValid (create_store_subscription acl create_wallet k c w).1.rows
  unfolding create_store_subscription store_new
  create_store_subscription-IsValid k Currency.eur w h =
      create-IsValid acl (priced k Currency.eur default_eur_cents_amount none none) w.rows
        (inl (refl, refl)) h
  create_store_subscription-IsValid k Currency.stq w h =
      elim (Result-cases (create_wallet w.gateway).0) [
        | inr (e, failed) ↦ rw (create_store_subscription, failed) h
        | inl (address, made) ↦
            rw (create_store_subscription, made)
              (create-IsValid acl (priced k Currency.stq default_stq_wei_amount (some address) none)
                w.rows (inr (refl, refl, refl)) h)
      ]
  create_store_subscription-IsValid k Currency.eth w h = h
  create_store_subscription-IsValid k Currency.btc w h = h
  create_store_subscription-IsValid k Currency.usd w h = h
  create_store_subscription-IsValid k Currency.rub w h = h

  -- A change set of the service keeps the row that it was made for priced.
  in_currency-IsPriced :
      (request : UpdateStoreSubscriptionRequest) (old : StoreSubscription) (c : Currency) (g : G)
      (u : UpdateStoreSubscription)
      → (in_currency acl create_wallet (from_request request) old c g).0 ≡ ok u
      → IsPriced (changed u old)
  unfolding in_currency
  in_currency-IsPriced request old Currency.eur g u h =
      subst (λ x. IsPriced (changed x old)) (ok-injective h) (inl (refl, refl))
  in_currency-IsPriced request old Currency.stq g u h = elim (Option-cases old.wallet_address) [
    | inr (address, has) ↦
        let told = rw (has, in_currency) at h in
        subst (λ x. IsPriced (changed x old)) (ok-injective told) (inr (refl, refl, rw has refl))
    | inl no_wallet ↦ elim (Result-cases (create_wallet g).0) [
      | inr (e, failed) ↦
          let wrong : ◌≡◌ {A = Result ServiceError UpdateStoreSubscription} (err e) (ok u) =
            rw (no_wallet, failed, in_currency) at h in
          cc
      | inl (address, made) ↦
          let told = rw (no_wallet, made, in_currency) at h in
          subst (λ x. IsPriced (changed x old)) (ok-injective told) (inr (refl, refl, refl))
    ]
  ]
  in_currency-IsPriced request old Currency.eth g u h = cc
  in_currency-IsPriced request old Currency.btc g u h = cc
  in_currency-IsPriced request old Currency.usd g u h = cc
  in_currency-IsPriced request old Currency.rub g u h = cc

  -- A change set with neither a price nor a wallet, in the row's own currency if in any.
  same_currency-IsPriced :
      (request : UpdateStoreSubscriptionRequest) (old : StoreSubscription)
      → given_or request.currency old.currency ≡ old.currency
      → IsPriced old
      → IsPriced (changed (from_request request) old)
  same_currency-IsPriced request old same (inl (c, v)) = inl (same ∙ c, v)
  same_currency-IsPriced request old same (inr (c, v, wallet)) = inr (same ∙ c, v, wallet)

  payload_for-IsPriced :
      (request : UpdateStoreSubscriptionRequest) (old : StoreSubscription) (g : G)
      (u : UpdateStoreSubscription)
      → (payload_for acl create_wallet request old g).0 ≡ ok u
      → IsPriced old
      → IsPriced (changed u old)
  unfolding payload_for
  payload_for-IsPriced request old g u h p = elim (Option-cases request.currency) [
    | inl none_given ↦
        let told = rw (none_given, payload_for) at h in
        let same : given_or request.currency old.currency ≡ old.currency = rw none_given refl in
        subst (λ x. IsPriced (changed x old)) (ok-injective told)
          (same_currency-IsPriced request old same p)
    | inr (new, given) ↦ elim (Bool-cases (currency_eq new old.currency)) [
      | inl equal ↦
          let told = rw (given, equal, payload_for) at h in
          let same : given_or request.currency old.currency ≡ old.currency =
            rw given (currency_eq→eq new old.currency equal) in
          subst (λ x. IsPriced (changed x old)) (ok-injective told)
            (same_currency-IsPriced request old same p)
      | inr differs ↦
          in_currency-IsPriced request old new g u (rw (given, differs, payload_for) at h)
    ]
  ]

  update_store_subscription-IsValid :
      (k : ℕ) (request : UpdateStoreSubscriptionRequest) (w : World G)
      → IsValid w.rows
      → IsValid (update_store_subscription acl create_wallet k request w).1.rows
  unfolding update_store_subscription
  update_store_subscription-IsValid k request w h =
      let read_old =
        map_err from_repo (get acl k w.rows) >>= λ found. ok_or found ServiceError.not_found in
      elim (Result-cases read_old) [
        | inr (e, unread) ↦ rw (update_store_subscription, unread) h
        | inl (old, read_it) ↦
            let made = payload_for acl create_wallet request old w.gateway in
            elim (Result-cases made.0) [
              | inr (e, failed) ↦ rw (update_store_subscription, read_it, failed) h
              | inl (u, payload) ↦
                  let (found, h1, r1) =
                    >>=-eq-ok (map_err from_repo (get acl k w.rows)) _ read_it in
                  let here =
                    get-find acl k w.rows found (map_err-ok _ found h1)
                    ∙ ok_or-ok found ServiceError.not_found old r1 in
                  rw (update_store_subscription, read_it, payload)
                    (update-IsValid acl k u w.rows
                      (λ s is_s p.
                        let same : some s ≡ some old = sym is_s ∙ here in
                        let equal : s ≡ old = cc in
                        subst (λ x. IsPriced (changed u x)) (sym equal)
                          (payload_for-IsPriced request old w.gateway u payload
                            (subst IsPriced equal p)))
                      h)
            ]
      ]

  abbrev pub serve : Request → World G → World G
  serve (create_request k c) w = (create_store_subscription acl create_wallet k c w).1
  serve (update_request k r) w = (update_store_subscription acl create_wallet k r w).1

  abbrev pub serve_all : List Request → World G → World G
  serve_all [] w = w
  serve_all (r ∷ requests) w = serve_all requests (serve r w)

  -- If no two rows of the table are of one store, and each is in euros at the default price or in STQ
  -- at the default price with a wallet, then this is so after any sequence of requests for a new
  -- subscription and for an update, the refused ones included.
  pub serve_all-IsValid :
      (requests : List Request) (w : World G) → IsValid w.rows → IsValid (serve_all requests w).rows
  serve_all-IsValid [] w h = h
  serve_all-IsValid (create_request k c ∷ requests) w h =
      serve_all-IsValid requests (serve (create_request k c) w)
        (create_store_subscription-IsValid k c w h)
  serve_all-IsValid (update_request k r ∷ requests) w h =
      serve_all-IsValid requests (serve (update_request k r) w)
        (update_store_subscription-IsValid k r w h)
