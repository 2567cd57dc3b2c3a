-- ===== src/Customers/Deletion.antt =====
-- What `delete` of src/services/customer.rs does to the table and to the card processor.
use billing.Base.{
  ℕ, Bytes, ◌≡◌, refl, inl, inr, true, not, Option, some, List, find, keep_if, Bool-cases,
  Option-cases, Result-cases, ok, err, ServiceError, RepoError,
}
use billing.Acl.{Acl, Resource, write}
use billing.Stripe.{StripeClient}
use billing.Customers.{DbCustomer, customer_has_id, delete}
use billing.Customers.Service.{World, delete_customer}

-- A deletion that the repository makes, and one that it refuses.
module _ (acl : Acl ℕ) (i : ℕ) (rows : List DbCustomer) where
  abbrev pub Deletable : Type 0
  Deletable =
      (c : DbCustomer) × (find (customer_has_id i) rows ≡ some c)
      × (acl Resource.customer write (some c.user_id) ≡ true)

  abbrev pub left : List DbCustomer
  left = keep_if (λ x. not (customer_has_id i x)) rows

  pub delete_outcomes :
      ((r : Option DbCustomer)
        → (delete acl i rows).0 ≡ ok r
        → Deletable × ((delete acl i rows).1 ≡ left))
      × ((e : RepoError) → (delete acl i rows).0 ≡ err e → (delete acl i rows).1 ≡ rows)
  unfolding delete
  delete_outcomes = elim (Option-cases (find (customer_has_id i) rows)) [
    | inl missing ↦ rw (delete, missing) (λ r h. cc, λ e h. refl)
    | inr (c, here) ↦ elim (Bool-cases (acl Resource.customer write (some c.user_id))) [
      | inl access ↦ rw (delete, here, access) (λ r h. ((c, refl, access), refl), λ e h. cc)
      | inr no_access ↦ rw (delete, here, no_access) (λ r h. cc, λ e h. refl)
    ]
  ]

-- For every caller and every customer's id, `delete` of the service first asks the card processor to
-- delete the customer, whatever the caller's access is. It succeeds only if the processor answers that
-- it has deleted, the row exists and the caller has access to it, and then exactly the row of that id
-- is gone; if it fails, the table is unchanged.
pub delete_customer_outcomes :
    {G : Type 0} (client : StripeClient G) (parse_token : Bytes → Option ℕ) (acl : Acl ℕ) (i : ℕ)
    (w : World G)
    → (let (r, w') = delete_customer client parse_token acl i w in
        let (answer, g) = client.delete_customer i w.processor in
        (w'.processor ≡ g)
        × (r ≡ ok tt
            → (answer ≡ ok true)
              × Deletable acl i w.customers
              × (w'.customers ≡ left acl i w.customers))
        × ((e : ServiceError) → r ≡ err e → w'.customers ≡ w.customers))
unfolding delete_customer
delete_customer_outcomes client parse_token acl i w =
    let answer = (client.delete_customer i w.processor).0 in
    elim (Result-cases answer) [
      | inr (e, refused) ↦ rw (delete_customer, refused) (refl, λ h. cc, λ f h. refl)
      | inl (deleted, answered) ↦ elim (Bool-cases deleted) [
        | inr kept ↦ rw (delete_customer, answered, kept) (refl, λ h. cc, λ f h. refl)
        | inl gone ↦
            let (done, undone) = delete_outcomes acl i w.customers in
            elim (Result-cases (delete acl i w.customers).0) [
              | inl (c, deleted_row) ↦
                  let (row, rest) = done c deleted_row in
                  rw (delete_customer, answered, gone, deleted_row)
                    (refl, λ h. (refl, row, rest), λ f h. cc)
              | inr (e, refused) ↦
                  let same = undone e refused in
                  rw (delete_customer, answered, gone, refused) (refl, λ h. cc, λ f h. same)
            ]
      ]
    ]
