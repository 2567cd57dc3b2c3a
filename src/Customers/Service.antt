-- ===== src/Customers/Service.antt =====
-- The service of customers (src/services/customer.rs). Which texts are card tokens is declared outside
-- of the repository.
use billing.Base.{
  ℕ, Bytes, Option, none, some, List, [], ◌∷◌, if◌then◌else◌, Result, ok, err, ok_or, map_err,
  ServiceError, from_repo, ◌>>=◌,
}
use billing.Acl.{Acl}
use billing.Stripe.{
  PaymentSource, card_source, bank_account, other_source, StripeCustomer, UpdateCustomer,
  StripeClient,
}
use billing.Customers.{
  DbCustomer, UpdateDbCustomer, by_user_id, is_empty, get, create, update, delete,
}

-- The table and the card processor.
pub record World (G : Type 0) : Type 0 where
  pub customers : List DbCustomer
  pub processor : G

-- `NewCustomerWithSourceRequest`
pub record NewCustomerWithSourceRequest : Type 0 where
  pub email : Option Bytes
  pub card_token : Bytes

-- `UpdateCustomerRequest`
pub record UpdateCustomerRequest : Type 0 where
  pub email : Option Bytes
  pub card_token : Option Bytes

-- `CustomerResponse`
pub record CustomerResponse : Type 0 where
  pub id : ℕ
  pub user_id : ℕ
  pub email : Option Bytes
  pub cards : List ℕ

-- `get_customer_cards`
unfoldable pub get_customer_cards : List PaymentSource → List ℕ
get_customer_cards [] = []
get_customer_cards (card_source card ∷ sources) = card ∷ get_customer_cards sources
get_customer_cards (bank_account a ∷ sources) = get_customer_cards sources
get_customer_cards (other_source s ∷ sources) = get_customer_cards sources

-- A row and what the card processor knows of it.
unfoldable pub response : DbCustomer → StripeCustomer → CustomerResponse
unfolding get_customer_cards
response c s = record {
  id = c.id;
  user_id = c.user_id;
  email = c.email;
  cards = get_customer_cards s.sources;
}

-- `impl From<UpdateCustomerRequest> for UpdateDbCustomer`
abbrev pub from_request : UpdateCustomerRequest → UpdateDbCustomer
from_request payload = record { email = payload.email }

-- `try_from_request`
unfoldable pub try_from_request :
    (parse_token : Bytes → Option ℕ) → UpdateCustomerRequest → Result ServiceError UpdateCustomer
try_from_request parse_token payload = elim payload.card_token [
  | none ↦ ok (record { email = payload.email; token = none })
  | some text ↦ ok_or (parse_token text) ServiceError.internal >>= λ token.
      ok (record { email = payload.email; token = some token })
]

module _ {G : Type 0} (client : StripeClient G) (parse_token : Bytes → Option ℕ) (acl : Acl ℕ) where
  -- The end of `create_customer_with_source`: the card processor's customer is stored.
  unfoldable pub store_customer :
      ℕ → StripeCustomer → World G → Result ServiceError CustomerResponse × World G
  unfolding create response
  store_customer u s w =
      let n : DbCustomer = record { id = s.id; user_id = u; email = s.email } in
      let (r, rows) = create acl n w.customers in
      (map_err from_repo r >>= λ c. ok (response c s), record w { customers = rows })

  -- `create_customer_with_source`; `none` is a caller who is not logged in.
  unfoldable pub create_customer_with_source :
      Option ℕ
      → NewCustomerWithSourceRequest
      → World G
      → Result ServiceError CustomerResponse × World G
  unfolding get store_customer
  create_customer_with_source none payload w = (err ServiceError.forbidden, w)
  create_customer_with_source (some u) payload w = elim (get acl (by_user_id u) w.customers) [
    | err e ↦ (err (from_repo e), w)
    | ok (some c) ↦ (err ServiceError.internal, w)
    | ok none ↦ elim (parse_token payload.card_token) [
      | none ↦ (err ServiceError.internal, w)
      | some token ↦
          let (answer, g) =
            client.create_customer_with_source (record { email = payload.email; token = token })
              w.processor in
          elim answer [
            | err e ↦ (err e, record w { processor = g })
            | ok s ↦ store_customer u s (record w { processor = g })
          ]
    ]
  ]

  -- `get_customer`
  unfoldable pub get_customer :
      Option ℕ → World G → Result ServiceError (Option CustomerResponse) × World G
  unfolding get response
  get_customer none w = (err ServiceError.forbidden, w)
  get_customer (some u) w = elim (get acl (by_user_id u) w.customers) [
    | err e ↦ (err (from_repo e), w)
    | ok none ↦ (ok none, w)
    | ok (some c) ↦
        let (answer, g) = client.get_customer c.id w.processor in
        (answer >>= λ s. ok (some (response c s)), record w { processor = g })
  ]

  -- `delete` of the service: the card processor is asked first.
  unfoldable pub delete_customer : ℕ → World G → Result ServiceError (Unit {0}) × World G
  unfolding delete
  delete_customer i w =
      let (answer, g) = client.delete_customer i w.processor in
      elim answer [
        | err e ↦ (err e, record w { processor = g })
        | ok deleted ↦
            let (r, rows) = delete acl i w.customers in
            if deleted
            then (map_err from_repo r >>= λ c. ok tt, record { customers = rows; processor = g })
            else (err ServiceError.internal, record w { processor = g })
      ]

  -- The end of `update`: the card processor is told, after the row is changed.
  unfoldable pub update_at_processor :
      UpdateCustomerRequest → DbCustomer → World G → Result ServiceError CustomerResponse × World G
  unfolding try_from_request response
  update_at_processor payload c w = elim (try_from_request parse_token payload) [
    | err e ↦ (err e, w)
    | ok input ↦
        let (answer, g) = client.update_customer c.id input w.processor in
        (answer >>= λ s. ok (response c s), record w { processor = g })
  ]

  -- `update` of the service
  unfoldable pub update_customer :
      Option ℕ → UpdateCustomerRequest → World G → Result ServiceError CustomerResponse × World G
  unfolding get update is_empty update_at_processor
  update_customer none payload w = (err ServiceError.forbidden, w)
  update_customer (some u) payload w = elim (get acl (by_user_id u) w.customers) [
    | err e ↦ (err (from_repo e), w)
    | ok none ↦ (err ServiceError.not_found, w)
    | ok (some c) ↦
        let changes = from_request payload in
        let (r, rows) = update acl c.id changes w.customers in
        if is_empty changes then update_at_processor payload c w else elim r [
          | err e ↦ (err (from_repo e), record w { customers = rows })
          | ok c' ↦ update_at_processor payload c' (record w { customers = rows })
        ]
  ]
