-- ===== src/Fees/Marking.antt =====
-- What the updates of `create_charge_by_fees` of src/services/fee.rs leave in the table.
use billing.Base.{
  All, ℕ, ◌≡◌, refl, sym, ap, ◌∙◌, inl, inr, Option, some, List, [], ◌∷◌, any, map, find, update_if,
  if◌then◌else◌, Bool-cases, Option-cases, Result-cases, Result, ok, err, map_err, RepoError,
  ServiceError, from_repo, ◌>>=◌, >>=-eq-ok, map_err-ok, ok-injective, subst, length, suc,
}
use billing.Currency.{Currency}
use billing.Acl.{Acl, Resource, write}
use billing.Stripe.{Charge, StripeClient}
use billing.Fees.{Fee, FeeStatus, fee_has_id, changed, update, paid, fail}
use billing.Fees.Service.{Acls, FeeResponse, update_fee, try_from_fee, update_all}

-- The status of a fee that is charged.
abbrev pub status_of : Charge → FeeStatus
status_of c = if c.paid then paid else fail

module _ {Json : Type 0} where
  -- The row of a fee that is charged.
  abbrev pub charged : Charge → Fee Json → Fee Json
  charged c f = record f { status = status_of c; charge_id = some c.id }

  -- The rows once some fees are charged: each of them, and no other row, is changed.
  abbrev pub marked : Charge → List (Fee Json) → List (Fee Json) → List (Fee Json)
  marked c fees rows = map (λ r. if any (λ f. fee_has_id f.id r) fees then charged c r else r) rows

  marked_none : (c : Charge) (rows : List (Fee Json)) → marked c [] rows ≡ rows
  marked_none c [] = refl
  marked_none c (r ∷ rows) = ap (λ l. r ∷ l) (marked_none c rows)

  marked_one :
      (c : Charge) (f : Fee Json) (fees rows : List (Fee Json))
      → marked c fees (update_if (fee_has_id f.id) (charged c) rows) ≡ marked c (f ∷ fees) rows
  marked_one c f fees [] = refl
  marked_one c f fees (r ∷ rows) = elim (Bool-cases (fee_has_id f.id r)) [
    | inl here ↦ elim (Bool-cases (any (λ x. fee_has_id x.id r) fees)) [
      | inl again ↦ rw (here, again) (ap (λ l. charged c r ∷ l) (marked_one c f fees rows))
      | inr once ↦ rw (here, once) (ap (λ l. charged c r ∷ l) (marked_one c f fees rows))
    ]
    | inr other ↦ rw other (
        ap (λ l. (if any (λ x. fee_has_id x.id r) fees then charged c r else r) ∷ l)
          (marked_one c f fees rows))
  ]

  update-ok :
      (acl : Acl (Fee Json)) (i : ℕ) (c : Charge) (rows : List (Fee Json)) (out : Fee Json)
      → (update acl i (update_fee c) rows).0 ≡ ok out
      → ((update acl i (update_fee c) rows).1 ≡ update_if (fee_has_id i) (charged c) rows)
        × (out.status ≡ status_of c)
  unfolding update update_fee changed
  update-ok acl i c rows out h = elim (Option-cases (find (fee_has_id i) rows)) [
    | inl missing ↦
        let wrong : ◌≡◌ {A = Result RepoError (Fee Json)} (err RepoError.not_found) (ok out) =
          rw (missing, update) at h in
        cc
    | inr (f, here) ↦ elim (Bool-cases (acl Resource.fee write (some f))) [
      | inr no_access ↦
          let wrong : ◌≡◌ {A = Result RepoError (Fee Json)} (err RepoError.forbidden) (ok out) =
            rw (here, no_access, update) at h in
          cc
      | inl access ↦
          let told : ◌≡◌ {A = Result RepoError (Fee Json)} (ok (charged c f)) (ok out) =
            rw (here, access, update) at h in
          let same : charged c f ≡ out = cc in
          rw (update, here, access) (refl, ap (λ (x : Fee Json). x.status) (sym same))
    ]
  ]

-- What a response tells of a charge.
abbrev pub Tells : {Json : Type 0} → Charge → FeeResponse Json → Type 0
Tells c r = r.status ≡ status_of c

module _ {Json G : Type 0} (client : StripeClient G) (to_f64 : Currency → ℕ → Option ℕ)
    (acls : Acls Json) where
  try_from_fee-status :
      (f : Fee Json) (r : FeeResponse Json)
      → try_from_fee client to_f64 f ≡ ok r
      → r.status ≡ f.status
  unfolding try_from_fee
  try_from_fee-status f r h = elim (Option-cases (to_f64 f.currency f.amount)) [
    | inl bad ↦
        let wrong : ◌≡◌ {A = Result ServiceError (FeeResponse Json)} (err ServiceError.internal)
            (ok r) =
          rw (bad, try_from_fee) at h in
        cc
    | inr (amount, good) ↦
        let told = rw (good, try_from_fee) at h in
        ap (λ (x : FeeResponse Json). x.status) (sym (ok-injective told))
  ]

  pub update_all-marked :
      (c : Charge) (fees rows : List (Fee Json)) (out : List (FeeResponse Json))
      → (update_all client to_f64 acls (update_fee c) fees rows).0 ≡ ok out
      → ((update_all client to_f64 acls (update_fee c) fees rows).1 ≡ marked c fees rows)
        × All (Tells c) out
        × (length out ≡ length fees)
  unfolding update_all
  update_all-marked c [] rows out h =
      let empty : [] ≡ out = ok-injective h in
      (sym (marked_none c rows), subst (All (Tells c)) empty tt, ap length (sym empty))
  update_all-marked c (f ∷ fees) rows out h =
      let first = update acls.fees f.id (update_fee c) rows in
      let told = map_err from_repo first.0 >>= try_from_fee client to_f64 in
      let rest = update_all client to_f64 acls (update_fee c) fees first.1 in
      elim (Result-cases told) [
        | inr (e, failed) ↦
            let wrong : ◌≡◌ {A = Result ServiceError (List (FeeResponse Json))} (err e) (ok out) =
              rw (failed, update_all) at h in
            cc
        | inl (response, done) ↦ elim (Result-cases rest.0) [
          | inr (e, failed) ↦
              let wrong : ◌≡◌ {A = Result ServiceError (List (FeeResponse Json))} (err e) (ok out) =
                rw (done, failed, update_all) at h in
              cc
          | inl (responses, others) ↦
              let all : ◌≡◌ {A = Result ServiceError (List (FeeResponse Json))}
                  (ok (response ∷ responses)) (ok out) =
                rw (done, others, update_all) at h in
              let (f', h1, converted) = >>=-eq-ok (map_err from_repo first.0) _ done in
              let (rows', status) = update-ok acls.fees f.id c rows f' (map_err-ok _ f' h1) in
              let (rest_rows, rest_tell, rest_len) =
                update_all-marked c fees first.1 responses others in
              let tells : All (Tells c) (response ∷ responses) =
                (try_from_fee-status f' response converted ∙ status, rest_tell) in
              let stored : (update_all client to_f64 acls (update_fee c) (f ∷ fees) rows).1
                  ≡ rest.1 =
                rw (update_all, done) refl in
              (
                stored ∙ rest_rows ∙ ap (marked c fees) rows' ∙ marked_one c f fees rows,
                subst (All (Tells c)) (ok-injective all) tells,
                ap length (sym (ok-injective all)) ∙ ap suc rest_len,
              )
        ]
      ]
