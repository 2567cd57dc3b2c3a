-- ===== src/Customers/Creation.antt =====
-- What `create_customer_with_source` of src/services/customer.rs stores.
use billing.Base.{
  ℕ, Bytes, ◌≡◌, refl, subst, ap, ◌∙◌, ◌⊎◌, inl, inr, Option, none, some, List, [], ◌∷◌, ◌++◌, any,
  find, Bool-cases, Option-cases, Result-cases, Result, ok, err, ServiceError, RepoError,
}
use billing.Acl.{Acl, Resource, read, write}
use billing.Stripe.{StripeClient, StripeCustomer}
use billing.Customers.{DbCustomer, by_user_id, customer_has_id, matches, get, create}
use billing.Customers.Service.{
  World, NewCustomerWithSourceRequest, CustomerResponse, store_customer,
  create_customer_with_source, response,
}

create_outcomes :
    (acl : Acl ℕ) (n : DbCustomer) (rows : List DbCustomer)
    → ((create acl n rows).0 ≡ ok n × ((create acl n rows).1 ≡ rows ++ n ∷ []))
      ⊎ ((e : RepoError) × ((create acl n rows).0 ≡ err e) × ((create acl n rows).1 ≡ rows))
unfolding create
create_outcomes acl n rows = elim (Bool-cases (acl Resource.customer write (some n.user_id))) [
  | inr no_access ↦ rw (create, no_access) (inr (RepoError.forbidden, refl, refl))
  | inl access ↦ elim (Bool-cases (any (customer_has_id n.id) rows)) [
    | inl taken ↦ rw (create, access, taken) (inr (RepoError.constraints, refl, refl))
    | inr fresh ↦ rw (create, access, fresh) (inl (refl, refl))
  ]
]

get-none :
    (acl : Acl ℕ) (u : ℕ) (rows : List DbCustomer)
    → get acl (by_user_id u) rows ≡ ok none
    → find (matches (by_user_id u)) rows ≡ none
unfolding get
get-none acl u rows h = elim (Option-cases (find (matches (by_user_id u)) rows)) [
  | inl missing ↦ missing
  | inr (c, here) ↦ elim (Bool-cases (acl Resource.customer read (some c.user_id))) [
    | inl access ↦
        let wrong : ◌≡◌ {A = Result RepoError (Option DbCustomer)} (ok (some c)) (ok none) =
          rw (here, access, get) at h in
        cc
    | inr no_access ↦
        let wrong : ◌≡◌ {A = Result RepoError (Option DbCustomer)} (err RepoError.forbidden)
            (ok none) =
          rw (here, no_access, get) at h in
        cc
  ]
]

-- The row that a response tells of.
abbrev pub row : ℕ → CustomerResponse → DbCustomer
row u r = record { id = r.id; user_id = u; email = r.email }

module _ {G : Type 0} (client : StripeClient G) (parse_token : Bytes → Option ℕ) (acl : Acl ℕ) where
  -- The result of a call for a user, against the world before it.
  abbrev Created :
      ℕ
      → NewCustomerWithSourceRequest
      → World G
      → Result ServiceError CustomerResponse × World G
      → Type 0
  Created u payload w (r, w') =
      ((c : CustomerResponse)
        → r ≡ ok c
        → (find (matches (by_user_id u)) w.customers ≡ none)
          × (c.user_id ≡ u)
          × (w'.customers ≡ w.customers ++ row u c ∷ []))
      × ((e : ServiceError) → r ≡ err e → w'.customers ≡ w.customers)

  stored :
      (u : ℕ) (payload : NewCustomerWithSourceRequest) (s : StripeCustomer) (g : G) (w : World G)
      → find (matches (by_user_id u)) w.customers ≡ none
      → Created u payload w (store_customer client parse_token acl u s (record w { processor = g }))
  unfolding store_customer response
  stored u payload s g w absent =
      let n : DbCustomer = record { id = s.id; user_id = u; email = s.email } in
      elim (create_outcomes acl n w.customers) [
        | inl (made, rows) ↦
            rw (store_customer, made, rows)
              (
                λ c h.
                    let same : response n s ≡ c = cc in
                    subst
                      (λ x.
                        (find (matches (by_user_id u)) w.customers ≡ none)
                        × (x.user_id ≡ u)
                        × (w.customers ++ n ∷ [] ≡ w.customers ++ row u x ∷ []))
                      same (absent, refl, refl),
                λ e h. cc,
              )
        | inr (e, refused, rows) ↦ rw (store_customer, refused, rows) (λ c h. cc, λ f h. refl)
      ]

  -- For every user, request and world: `create_customer_with_source` succeeds only if no row of the
  -- table was of that user, and then adds exactly one row at the end, with the id and the email that
  -- it responds with, and of that user; if it fails, the table is unchanged.
  pub create_customer_with_source_outcomes :
      (u : ℕ) (payload : NewCustomerWithSourceRequest) (w : World G)
      → (let (r, w') = create_customer_with_source client parse_token acl (some u) payload w in
          ((c : CustomerResponse)
            → r ≡ ok c
            → (find (matches (by_user_id u)) w.customers ≡ none)
              × (c.user_id ≡ u)
              × (w'.customers ≡ w.customers ++ row u c ∷ []))
          × ((e : ServiceError) → r ≡ err e → w'.customers ≡ w.customers))
  unfolding create_customer_with_source
  create_customer_with_source_outcomes u payload w =
      elim (Result-cases (get acl (by_user_id u) w.customers)) [
        | inr (e, refused) ↦ rw (create_customer_with_source, refused) (λ c h. cc, λ f h. refl)
        | inl (found, got) ↦ elim (Option-cases found) [
          | inr (c, has) ↦ rw (create_customer_with_source, got, has) (λ x h. cc, λ f h. refl)
          | inl absent ↦
              let no_row = get-none acl u w.customers (got ∙ ap ok absent) in
              elim (Option-cases (parse_token payload.card_token)) [
                | inl bad ↦
                    rw (create_customer_with_source, got, absent, bad) (λ x h. cc, λ f h. refl)
                | inr (token, parsed) ↦
                    let asked =
                      client.create_customer_with_source
                        (record { email = payload.email; token = token }) w.processor in
                    elim (Result-cases asked.0) [
                      | inr (e, refused) ↦
                          rw (create_customer_with_source, got, absent, parsed, refused)
                            (λ x h. cc, λ f h. refl)
                      | inl (s, answered) ↦
                          rw (create_customer_with_source, got, absent, parsed, answered)
                            (stored u payload s asked.1 w no_row)
                    ]
              ]
        ]
      ]
