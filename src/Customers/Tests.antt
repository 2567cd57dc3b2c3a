-- ===== src/Customers/Tests.antt =====
-- A card processor that knows some customers (src/services/customer.rs).
use billing.Base.{
  ℕ, ◌≡◌, refl, Bytes, codes, true, not, Option, none, some, List, [], ◌∷◌, ◌++◌, any, find,
  keep_if, ◌==◌, if◌then◌else◌, ok, err, ServiceError,
}
use billing.Acl.{Acl, allows, user, Resource, write}
use billing.Stripe.{StripeClient, StripeCustomer, card_source, bank_account}
use billing.Customers.{DbCustomer, matches, by_user_id, is_in_scope}
use billing.Customers.Service.{
  World, NewCustomerWithSourceRequest, CustomerResponse, create_customer_with_source,
  delete_customer, get_customer, update_customer,
}
use billing.Customers.Deletion.{Deletable, left, delete_customer_outcomes}
use billing.Customers.Creation.{row, create_customer_with_source_outcomes}

abbrev known : ℕ → Option Bytes → StripeCustomer
known i email = record { id = i; email = email; sources = card_source 42 ∷ bank_account 7 ∷ [] }

abbrev client : StripeClient (List ℕ)
client = record {
  create_customer_with_source = λ n g. (ok (known 9 n.email), 9 ∷ g);
  get_customer =
      λ i g. (if any (λ j. j == i) g then ok (known i none) else err ServiceError.not_found, g);
  delete_customer = λ i g. (ok (any (λ j. j == i) g), keep_if (λ j. not (j == i)) g);
  update_customer = λ i u g. (ok (known i u.email), g);
  create_charge = λ n g. (err ServiceError.internal, g);
}

abbrev parse_token : Bytes → Option ℕ
parse_token [] = none
parse_token (c ∷ s) = some c

-- The access control of an ordinary user.
abbrev acl_of : ℕ → Acl ℕ
acl_of u = allows (is_in_scope u) (user ∷ [])

abbrev customer : (i u : ℕ) → DbCustomer
customer i u = record { id = i; user_id = u; email = none }

abbrev world : World (List ℕ)
world = record { customers = customer 5 1 ∷ []; processor = 5 ∷ [] }

abbrev request : NewCustomerWithSourceRequest
request = record { email = some (codes "a@b"); card_token = codes "tok" }

created : create_customer_with_source client parse_token (acl_of 2) (some 2) request world ≡ (
  ok (record { id = 9; user_id = 2; email = some (codes "a@b"); cards = 42 ∷ [] }),
  record {
    customers = customer 5 1 ∷ record { id = 9; user_id = 2; email = some (codes "a@b") } ∷ [];
    processor = 9 ∷ 5 ∷ [];
  },
)
unfolding create_customer_with_source billing.Acl.allows is_in_scope
created = refl

-- A user who asks to delete the customer of another one is refused, and the card processor has deleted
-- the customer.
deleted_anyway :
    delete_customer client parse_token (acl_of 2) 5 world
    ≡ (err ServiceError.forbidden, record { customers = customer 5 1 ∷ []; processor = [] })
unfolding delete_customer billing.Acl.allows is_in_scope
deleted_anyway = refl

-- An update whose card token does not parse has changed the row.
updated_anyway :
    update_customer client parse_token
      (acl_of 1)
      (some 1)
      (record { email = some (codes "x"); card_token = some [] })
      world
    ≡ (
      err ServiceError.internal,
      record {
        customers = record { id = 5; user_id = 1; email = some (codes "x") } ∷ [];
        processor = 5 ∷ [];
      },
    )
unfolding update_customer billing.Acl.allows is_in_scope
updated_anyway = refl

got :
    get_customer client parse_token (acl_of 1) (some 1) world
    ≡ (ok (some (record { id = 5; user_id = 1; email = none; cards = 42 ∷ [] })), world)
unfolding get_customer billing.Acl.allows is_in_scope
got = refl

delete_customer_outcomes_example :
    (let (r, w') = delete_customer client parse_token (acl_of 1) 5 world in
      let (answer, g) = client.delete_customer 5 world.processor in
      (w'.processor ≡ g)
      × (r ≡ ok tt
          → (answer ≡ ok true)
            × Deletable (acl_of 1) 5 world.customers
            × (w'.customers ≡ left (acl_of 1) 5 world.customers))
      × ((e : ServiceError) → r ≡ err e → w'.customers ≡ world.customers))
delete_customer_outcomes_example = delete_customer_outcomes client parse_token (acl_of 1) 5 world

create_customer_with_source_outcomes_example :
    (let (r, w') =
        create_customer_with_source client parse_token (acl_of 2) (some 2) request world in
      ((c : CustomerResponse)
        → r ≡ ok c
        → (find (matches (by_user_id 2)) world.customers ≡ none)
          × (c.user_id ≡ 2)
          × (w'.customers ≡ world.customers ++ row 2 c ∷ []))
      × ((e : ServiceError) → r ≡ err e → w'.customers ≡ world.customers))
create_customer_with_source_outcomes_example =
    create_customer_with_source_outcomes client parse_token (acl_of 2) 2 request world
