-- ===== src/Fees/Charging.antt =====
-- What `create_charge_by_fees` of src/services/fee.rs charges and records.
use billing.Base.{
  ℕ, ◌+◌, ◌^◌, ◌≡◌, refl, sym, subst, ap, ◌∙◌, ◌⊎◌, inl, inr, Bool, true, false, Option, none, some,
  List, [], ◌∷◌, All, any, map, length, ltb, ◌==◌, arith, Bool-cases, Result-cases, Result, ok, err,
  ok_or, map_err, ServiceError, from_repo, guard, ◌>>◌, >>=-eq-ok, ok_or-ok, map_err-ok,
  ok-injective,
}
use billing.Currency.{Currency, currency_eq}
use billing.Currency.Equality.{currency_eq→eq, currency_eq_refl}
use billing.Amount.{checked_add}
use billing.Stripe.{NewCharge, Charge, StripeClient}
use billing.Customers.{DbCustomer, by_user_id}
use billing.Customers
use billing.Roles.{get_by_store_id, UserRole}
use billing.Fees.{Fee}
use billing.Fees.Service.{
  Acls, World, FeeResponse, update_fee, update_all, is_paid, validate_charge_fees, distinct, head,
  extract_currency, add_fees, total_amount, record_charge, new_charge, create_charge_by_fees,
}
use billing.Fees.Marking.{marked, Tells, update_all-marked}

the_only_one :
    (found : List Currency) (c : Currency)
    → (guard (length found == 1) ServiceError.validation
        >> ok_or (head found) ServiceError.internal)
      ≡ ok c
    → found ≡ c ∷ []
the_only_one [] c h = cc
the_only_one (x ∷ []) c h = cc
the_only_one (x ∷ y ∷ found) c h =
    let many : (length (x ∷ y ∷ found) == 1) ≡ false = ground arith in
    let wrong : ◌≡◌ {A = Result ServiceError Currency} (err ServiceError.validation) (ok c) =
      rw many at h in
    cc

module _ {Json : Type 0} where
  -- The sum of the amounts of some fees.
  abbrev pub owed : List (Fee Json) → ℕ
  owed [] = 0
  owed (f ∷ fees) = f.amount + owed fees

  abbrev pub Unpaid : Fee Json → Type 0
  Unpaid f = is_paid f.status ≡ false

  abbrev pub IsIn : Currency → Fee Json → Type 0
  IsIn c f = f.currency ≡ c

  validate_charge_fees-Unpaid :
      (fees : List (Fee Json)) → validate_charge_fees fees ≡ ok tt → All Unpaid fees
  unfolding validate_charge_fees
  validate_charge_fees-Unpaid [] h = tt
  validate_charge_fees-Unpaid (f ∷ fees) h = elim (Bool-cases (is_paid f.status)) [
    | inl e ↦
        let wrong : ◌≡◌ {A = Result ServiceError (Unit {0})} (err ServiceError.validation) (ok tt) =
          rw (e, validate_charge_fees) at h in
        cc
    | inr e ↦ (e, validate_charge_fees-Unpaid fees (rw (e, validate_charge_fees) at h))
  ]

  add_fees-owed :
      (acc : ℕ) (fees : List (Fee Json)) (sum : ℕ)
      → add_fees acc fees ≡ some sum
      → sum ≡ acc + owed fees
  unfolding add_fees checked_add
  add_fees-owed acc [] sum h = ground arith
  add_fees-owed acc (f ∷ fees) sum h = elim (Bool-cases (ltb (acc + f.amount) (2 ^ 128))) [
    | inl fits ↦
        let rest : add_fees (acc + f.amount) fees ≡ some sum =
          rw (fits, add_fees, checked_add) at h in
        let it = add_fees-owed (acc + f.amount) fees sum rest in omega arith
    | inr too_much ↦
        let wrong : ◌≡◌ {A = Option ℕ} none (some sum) =
          rw (too_much, add_fees, checked_add) at h in
        cc
  ]

  -- A collection with one value has no other.
  any-IsIn :
      (c : Currency) (fees : List (Fee Json))
      → All (λ f. any (currency_eq f.currency) (c ∷ []) ≡ true) fees
      → All (IsIn c) fees
  any-IsIn c [] h = tt
  any-IsIn c (f ∷ fees) h = elim (Bool-cases (currency_eq f.currency c)) [
    | inl e ↦ (currency_eq→eq f.currency c e, any-IsIn c fees h.1)
    | inr e ↦ let wrong : false ≡ true = rw e at h.0 in cc
  ]

  abbrev Covered : List Currency → Fee Json → Type 0
  Covered found f = any (currency_eq f.currency) found ≡ true

  Covered-cons :
      (c : Currency) (found : List Currency) (fees : List (Fee Json))
      → All (Covered found) fees
      → All (Covered (c ∷ found)) fees
  Covered-cons c found [] h = tt
  Covered-cons c found (f ∷ fees) h = elim (Bool-cases (currency_eq f.currency c)) [
    | inl e ↦ (rw e refl, Covered-cons c found fees h.1)
    | inr e ↦ (rw e h.0, Covered-cons c found fees h.1)
  ]

  distinct-Covered :
      (fees : List (Fee Json))
      → All (Covered (distinct currency_eq (map (λ f. f.currency) fees))) fees
  unfolding distinct
  distinct-Covered [] = tt
  distinct-Covered (f ∷ fees) =
      let found = distinct currency_eq (map (λ x. x.currency) fees) in
      elim (Bool-cases (any (currency_eq f.currency) found)) [
        | inl again ↦
            let step : distinct currency_eq (map (λ x. x.currency) (f ∷ fees)) ≡ found =
              rw (distinct, again) refl in
            subst (λ d. All (Covered d) (f ∷ fees)) (sym step) (again, distinct-Covered fees)
        | inr first ↦
            let step : distinct currency_eq (map (λ x. x.currency) (f ∷ fees))
                ≡ f.currency ∷ found =
              rw (distinct, first) refl in
            subst (λ d. All (Covered d) (f ∷ fees)) (sym step)
              (
                rw (currency_eq_refl f.currency) refl,
                Covered-cons f.currency found fees (distinct-Covered fees),
              )
      ]

  extract_currency-IsIn :
      (fees : List (Fee Json)) (c : Currency) → extract_currency fees ≡ ok c → All (IsIn c) fees
  unfolding extract_currency
  extract_currency-IsIn fees c h =
      let found = distinct currency_eq (map (λ f. f.currency) fees) in
      any-IsIn c fees
        (subst (λ d. All (Covered d) fees) (the_only_one found c h) (distinct-Covered fees))

module _ {Json G : Type 0} (client : StripeClient G) (to_f64 : Currency → ℕ → Option ℕ)
    (acls : Acls Json) (is_store : Json → Bool) where
  -- What may be charged for some fees: none is paid, all are in the charge's currency, the amount is
  -- their sum, and the customer is that of the store's owner.
  pub record Due (fees : List (Fee Json)) (w : World Json G) (n : NewCharge) : Type 0 where
    pub unpaid : All Unpaid fees
    pub one_currency : All (IsIn n.currency) fees
    pub sum : n.amount ≡ owed fees
    pub captured : n.capture ≡ true
    pub of_owner :
        (owner : UserRole Json) × (customer : DbCustomer) × (get_by_store_id is_store w.roles
          ≡ some owner)
        × (billing.Customers.get acls.customers (by_user_id owner.user_id) w.customers
            ≡ ok (some customer))
        × (n.customer_id ≡ customer.id)

  new_charge-Due :
      (fees : List (Fee Json)) (w : World Json G) (n : NewCharge)
      → new_charge client to_f64 acls is_store fees w ≡ ok n
      → Due fees w n
  unfolding new_charge total_amount
  new_charge-Due fees w n h =
      let (owner, h1, r1) =
        >>=-eq-ok
          (validate_charge_fees fees
            >> ok_or (get_by_store_id is_store w.roles) ServiceError.internal)
          _ h in
      let (done, valid, role) = >>=-eq-ok (validate_charge_fees fees) _ h1 in
      let (found, h2, r2) =
        >>=-eq-ok
          (map_err from_repo
            (billing.Customers.get acls.customers (by_user_id owner.user_id) w.customers))
          _ r1 in
      let (customer, h3, r3) = >>=-eq-ok (ok_or found ServiceError.validation) _ r2 in
      let (amount, h4, r4) = >>=-eq-ok (total_amount fees) _ r3 in
      let (currency, h5, r5) = >>=-eq-ok (extract_currency fees) _ r4 in
      let built : ◌≡◌ {A = Result ServiceError NewCharge}
          (ok (record {
            customer_id = customer.id;
            amount = amount;
            currency = currency;
            capture = true;
          }))
          (ok n) =
        r5 in
      let same = ok-injective built in
      let got =
        map_err-ok _ found h2 ∙ ap ok (ok_or-ok found ServiceError.validation customer h3) in
      let sum = add_fees-owed 0 fees amount (ok_or-ok _ ServiceError.internal amount h4) in
      subst (Due fees w) same (record {
        unpaid = validate_charge_fees-Unpaid fees valid;
        one_currency = extract_currency-IsIn fees currency h5;
        sum = omega arith;
        captured = refl;
        of_owner = (owner, customer, ok_or-ok _ ServiceError.internal owner role, got, refl);
      })

  record_charge_outcomes :
      (charge : Charge) (fees : List (Fee Json)) (w : World Json G)
      → (let (r, w') = record_charge client to_f64 acls charge fees w in
          ((e : ServiceError) × (r ≡ err e) × (w' ≡ w))
          ⊎ ((out : List (FeeResponse Json)) × (r ≡ ok out)
              × All (Tells charge) out
              × (length out ≡ length fees)
              × (w' ≡ record w { fees = marked charge fees w.fees })))
  unfolding record_charge
  record_charge_outcomes charge fees w =
      elim (Result-cases (update_all client to_f64 acls (update_fee charge) fees w.fees).0) [
        | inr (e, failed) ↦ rw (record_charge, failed) (inl (e, refl, refl))
        | inl (out, done) ↦
            let (rows, tell, len) =
              update_all-marked client to_f64 acls charge fees w.fees out done in
            rw (record_charge, done)
              (inr (out, refl, tell, len, ap (λ l. record w { fees = l }) rows))
      ]

  -- For every list of fees: `create_charge_by_fees` either fails before the card processor is asked
  -- for anything and changes nothing, or it asks for exactly one charge, of the sum of the fees, all of
  -- which are unpaid and in the charge's currency, from the customer of the store's owner. In the
  -- second case it succeeds only if the charge was made, and then exactly the rows of these fees are
  -- marked with the charge and with whether it is paid, and there is a response for each fee that tells
  -- so; if it fails, the tables are unchanged.
  pub create_charge_by_fees_outcomes :
      (fees : List (Fee Json)) (w : World Json G)
      → (let (r, w') = create_charge_by_fees client to_f64 acls is_store fees w in
          ((e : ServiceError) × (r ≡ err e) × (w' ≡ w))
          ⊎ ((n : NewCharge) × Due fees w n
              × (let (answer, g) = client.create_charge n w.processor in
                  ((e : ServiceError) × (r ≡ err e) × (w' ≡ record w { processor = g }))
                  ⊎ ((charge : Charge) × (out : List (FeeResponse Json)) × (answer ≡ ok charge)
                      × (r ≡ ok out)
                      × All (Tells charge) out
                      × (length out ≡ length fees)
                      × (w' ≡ record w { processor = g; fees = marked charge fees w.fees })))))
  unfolding create_charge_by_fees
  create_charge_by_fees_outcomes fees w =
      elim (Result-cases (new_charge client to_f64 acls is_store fees w)) [
        | inr (e, refused) ↦ rw (create_charge_by_fees, refused) (inl (e, refl, refl))
        | inl (n, asked) ↦
            let (answer, g) = client.create_charge n w.processor in
            let due = new_charge-Due fees w n asked in
            elim (Result-cases answer) [
              | inr (e, failed) ↦
                  rw (create_charge_by_fees, asked, failed) (inr (n, due, inl (e, refl, refl)))
              | inl (charge, made) ↦
                  rw (create_charge_by_fees, asked, made)
                    (elim (record_charge_outcomes charge fees (record w { processor = g })) [
                      | inl (e, failed, same) ↦ inr (n, due, inl (e, failed, same))
                      | inr (out, done, tell, len, rows) ↦
                          inr (n, due, inr (charge, out, made, done, tell, len, rows))
                    ])
            ]
      ]
