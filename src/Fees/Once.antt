-- ===== src/Fees/Once.antt =====
-- A fee that is paid is not charged a second time (src/services/fee.rs).
use billing.Base.{
  ℕ, ◌≡◌, refl, sym, ap, subst, ◌∙◌, inl, inr, Bool, true, false, Option, none, some, List, [], ◌∷◌,
  All, any, find, ==_refl, if◌then◌else◌, Bool-cases, Option-cases, Result-cases, Result, ok, err,
  ok_or, map_err, RepoError, ServiceError, from_repo, ◌>>=◌, >>=-eq-ok, ok_or-ok, map_err-ok,
  ok-injective,
}
use billing.Currency.{Currency}
use billing.Acl.{Acl, Resource, read, check}
use billing.Stripe.{Charge, StripeClient}
use billing.Orders.{RawOrder}
use billing.Orders
use billing.Fees.{Fee, paid, SearchFee, matches, fee_has_id, get}
use billing.Fees.Service.{
  Acls, World, FeeResponse, is_paid, validate_charge_fees, fee_and_store, new_charge,
  create_charge_by_fees, create_charge, head,
}
use billing.Fees.Marking.{status_of, charged, marked, Tells}
use billing.Fees.Charging.{create_charge_by_fees_outcomes}

module _ {Json : Type 0} where
  matches-charged :
      (s : SearchFee) (c : Charge) (b : Bool) (r : Fee Json)
      → matches s (if b then charged c r else r) ≡ matches s r
  unfolding matches
  matches-charged (SearchFee.by_id i) c true r = refl
  matches-charged (SearchFee.by_id i) c false r = refl
  matches-charged (SearchFee.by_order_id i) c true r = refl
  matches-charged (SearchFee.by_order_id i) c false r = refl

  -- The first row that a search finds is found again, marked, once it is charged.
  find-marked :
      (s : SearchFee) (c : Charge) (f : Fee Json) (rows : List (Fee Json))
      → find (matches s) rows ≡ some f
      → find (matches s) (marked c (f ∷ []) rows) ≡ some (charged c f)
  find-marked s c f [] h = cc
  find-marked s c f (r ∷ rows) h =
      let b = any (λ x. fee_has_id x.id r) (f ∷ []) in
      elim (Bool-cases (matches s r)) [
        | inl here ↦
            let same : some r ≡ some f = rw here at h in
            let equal : r ≡ f = cc in
            let own : b ≡ true = rw (equal, ==_refl f.id) refl in
            rw (matches-charged s c b r, here, own) (ap (λ x. some (charged c x)) equal)
        | inr later ↦
            let rest = find-marked s c f rows (rw later at h) in
            rw (matches-charged s c b r, later) rest
      ]

  get-find :
      (acl : Acl (Fee Json)) (s : SearchFee) (rows : List (Fee Json)) (f : Fee Json)
      → get acl s rows ≡ ok (some f)
      → find (matches s) rows ≡ some f
  unfolding get
  get-find acl s rows f h = elim (Option-cases (find (matches s) rows)) [
    | inl missing ↦
        let wrong : ◌≡◌ {A = Result RepoError (Option (Fee Json))} (ok none) (ok (some f)) =
          rw (missing, get) at h in
        cc
    | inr (x, here) ↦
        let (done, allowed, told) =
          >>=-eq-ok (check acl Resource.fee read (some x)) (λ d. ok (some x))
            (rw (here, get) at h) in
        here ∙ ok-injective told
  ]

  head-Tells :
      (c : Charge) (out : List (FeeResponse Json)) (r : FeeResponse Json)
      → All (Tells c) out
      → head out ≡ some r
      → r.status ≡ status_of c
  head-Tells c [] r tell h = cc
  head-Tells c (x ∷ out) r tell h = let same : x ≡ r = cc in subst (Tells c) same tell.0

module _ {Json G : Type 0} (client : StripeClient G) (to_f64 : Currency → ℕ → Option ℕ)
    (acls : Acls Json) (store_is : ℕ → Json → Bool) where
  -- A paid fee is not charged.
  create_charge_by_fees-paid :
      (is_store : Json → Bool) (f : Fee Json) (w : World Json G)
      → f.status ≡ paid
      → create_charge_by_fees client to_f64 acls is_store (f ∷ []) w
        ≡ (err ServiceError.validation, w)
  unfolding create_charge_by_fees new_charge validate_charge_fees is_paid
  create_charge_by_fees-paid is_store f w h =
      rw (create_charge_by_fees, new_charge, validate_charge_fees, h) refl

  fee_and_store-find :
      (s : SearchFee) (store : ℕ) (f : Fee Json) (w : World Json G)
      → fee_and_store client to_f64 acls s w ≡ ok (store, f)
      → find (matches s) w.fees ≡ some f
  unfolding fee_and_store
  fee_and_store-find s store f w h =
      let (found, h1, r1) = >>=-eq-ok (map_err from_repo (get acls.fees s w.fees)) _ h in
      let (fee, h2, r2) = >>=-eq-ok (ok_or found ServiceError.internal) _ r1 in
      let (order, h3, r3) =
        >>=-eq-ok (map_err from_repo (billing.Orders.get acls.orders fee.order_id w.orders)) _ r2 in
      let (o, h4, r4) = >>=-eq-ok (ok_or order ServiceError.internal) _ r3 in
      let same : ◌≡◌ {A = ℕ × Fee Json} (o.store_id, fee) (store, f) = ok-injective r4 in
      let it = ok_or-ok found ServiceError.internal fee h2 in
      get-find acls.fees s w.fees f
        (map_err-ok _ found h1 ∙ ap ok it ∙ ap (λ (x : ℕ × Fee Json). ok (some x.1)) same)

  create_charge-read :
      (s : SearchFee) (store : ℕ) (f : Fee Json) (w : World Json G)
      → fee_and_store client to_f64 acls s w ≡ ok (store, f)
      → create_charge client to_f64 acls store_is s w ≡ (
          let (r, w') = create_charge_by_fees client to_f64 acls (store_is store) (f ∷ []) w in
          (r >>= λ responses. ok_or (head responses) ServiceError.internal, w'))
  unfolding create_charge
  create_charge-read s store f w h = rw (create_charge, h) refl

  -- The world that a paid charge leaves does not charge again.
  refused :
      (s : SearchFee) (c : Charge) (f : Fee Json) (store : ℕ) (w : World Json G) (g : G)
      → fee_and_store client to_f64 acls s w ≡ ok (store, f)
      → status_of c ≡ paid
      → (let w' : World Json G = record w { processor = g; fees = marked c (f ∷ []) w.fees } in
          (e : ServiceError) × (create_charge client to_f64 acls store_is s w' ≡ (err e, w')))
  unfolding create_charge
  refused s c f store w g h is_charged =
      let w' : World Json G = record w { processor = g; fees = marked c (f ∷ []) w.fees } in
      elim (Result-cases (fee_and_store client to_f64 acls s w')) [
        | inr (e, unread) ↦ (e, rw (create_charge, unread) refl)
        | inl ((store', f'), again) ↦
            let marks = find-marked s c f w.fees (fee_and_store-find s store f w h) in
            let finds = fee_and_store-find s store' f' w' again in
            let same : charged c f ≡ f' = cc in
            let now_paid = ap (λ (x : Fee Json). x.status) (sym same) ∙ is_charged in
            let stays = create_charge_by_fees-paid (store_is store') f' w' now_paid in
            (
              ServiceError.validation,
              create_charge-read s store' f' w' again
                  ∙ ap
                      (λ (x : Result ServiceError (List (FeeResponse Json)) × World Json G).
                        (x.0 >>= λ responses. ok_or (head responses) ServiceError.internal, x.1))
                      stays,
            )
      ]

  -- If `create_charge` succeeds, for a search that is by the fee's id or by its order, and the response
  -- says that the fee is paid, then the same call afterwards is refused, with no second charge: the
  -- world stays as it is.
  pub create_charge-once :
      (s : SearchFee) (w : World Json G) (response : FeeResponse Json)
      → (create_charge client to_f64 acls store_is s w).0 ≡ ok response
      → response.status ≡ paid
      → (let w' = (create_charge client to_f64 acls store_is s w).1 in
          (e : ServiceError) × (create_charge client to_f64 acls store_is s w' ≡ (err e, w')))
  unfolding create_charge
  create_charge-once s w response h is_charged =
      elim (Result-cases (fee_and_store client to_f64 acls s w)) [
        | inr (e, unread) ↦
            let wrong : ◌≡◌ {A = Result ServiceError (FeeResponse Json)} (err e) (ok response) =
              rw (unread, create_charge) at h in
            cc
        | inl ((store, f), read_it) ↦
            let step = create_charge-read s store f w read_it in
            let told : ((create_charge_by_fees client to_f64 acls (store_is store) (f ∷ []) w).0
                  >>= λ responses. ok_or (head responses) ServiceError.internal)
                ≡ ok response =
              ap (λ x. x.0) (sym step) ∙ h in
            elim (create_charge_by_fees_outcomes client to_f64 acls (store_is store) (f ∷ []) w) [
              | inl (e, failed, same) ↦
                  let wrong : ◌≡◌ {A = Result ServiceError (FeeResponse Json)} (err e)
                      (ok response) =
                    rw failed at told in
                  cc
              | inr (n, due, inl (e, failed, same)) ↦
                  let wrong : ◌≡◌ {A = Result ServiceError (FeeResponse Json)} (err e)
                      (ok response) =
                    rw failed at told in
                  cc
              | inr (n, due, inr (charge, out, made, done, tell, len, rows)) ↦
                  let first : ok_or (head out) ServiceError.internal ≡ ok response =
                    rw done at told in
                  let is_paid_now =
                    sym (
                      head-Tells charge out response tell
                        (ok_or-ok _ ServiceError.internal response first))
                    ∙ is_charged in
                  let left = ap (λ x. x.1) step ∙ rows in
                  subst
                    (λ x.
                      (e : ServiceError) × (create_charge client to_f64 acls store_is s x
                        ≡ (err e, x)))
                    (sym left)
                    (refused s charge f store w (client.create_charge n w.processor).1 read_it
                      is_paid_now)
            ]
      ]
