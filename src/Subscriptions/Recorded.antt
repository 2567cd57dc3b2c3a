-- ===== src/Subscriptions/Recorded.antt =====
-- What `pay_subscriptions` of src/services/subscription_payment.rs leaves to collect.
use billing.Base.{
  ℕ, ◌+◌, ◌≡◌, refl, sym, ap, subst, ◌∙◌, inl, inr, Bool, true, false, none, some, List, [], ◌∷◌,
  All, find, length, length-append, map, update_if, ◌==◌, arith, Bool-cases, Option-cases,
  Result-cases, Result, ok, err, RepoError, ServiceError, from_repo, ◌>>=◌,
}
use billing.Acl.{Acl, check, Resource, write}
use billing.Subscriptions.{Subscription, is_unpaid}
use billing.Subscriptions.Repo.{by_id, matches, into_expr, update, set_payment, get}
use billing.Subscriptions.Payments.{NewSubscriptionPayment, SubscriptionPayment, create, new_row}
use billing.Subscriptions.Collection.{Acls, Ledger, FinishedPayment, set_payments, record_all}

-- The row of an id has a payment.
abbrev pub Settled : List Subscription → ℕ → Type 0
Settled [] i = Unit
Settled (r ∷ rows) i = ((r.id == i) ≡ true → is_unpaid r ≡ false) × Settled rows i

-- The update of one id settles it, and nothing that is settled is undone.
update_if-Settled :
    (p : ℕ) (query : Subscription → Bool) (i : ℕ) (rows : List Subscription)
    → Settled rows i
    → Settled (update_if query (set_payment p) rows) i
unfolding is_unpaid
update_if-Settled p query i [] h = tt
update_if-Settled p query i (r ∷ rows) h = elim (Bool-cases (query r)) [
  | inl e ↦ rw e (λ same. refl, update_if-Settled p query i rows h.1)
  | inr e ↦ rw e (h.0, update_if-Settled p query i rows h.1)
]

update_if-settles :
    (p i : ℕ) (rows : List Subscription)
    → Settled (update_if (matches (by_id i)) (set_payment p) rows) i
unfolding is_unpaid matches
update_if-settles p i [] = tt
update_if-settles p i (r ∷ rows) = elim (Bool-cases (r.id == i)) [
  | inl e ↦ rw e (λ same. refl, update_if-settles p i rows)
  | inr e ↦ rw e (λ same. cc, update_if-settles p i rows)
]

module _ (acl : Acl ℕ) where
  -- What `update` for one id leaves.
  update-rows :
      (i p : ℕ) (rows : List Subscription) (s : Subscription)
      → (update acl (by_id i) p rows).0 ≡ ok s
      → (update acl (by_id i) p rows).1 ≡ update_if (matches (by_id i)) (set_payment p) rows
  unfolding update into_expr
  update-rows i p rows s h =
      let entry = get acl (by_id i) rows in
      let tested = entry >>= λ e.
      check acl Resource.subscription write (elim e [ none ↦ none | some x ↦ some x.store_id ]) in
      elim (Result-cases tested) [
        | inr (e, refused) ↦
            let wrong : ◌≡◌ {A = Result RepoError Subscription} (err e) (ok s) =
              rw (refused, update) at h in
            cc
        | inl (done, allowed) ↦ elim (Option-cases (find (matches (by_id i)) rows)) [
          | inl missing ↦
              let wrong : ◌≡◌ {A = Result RepoError Subscription} (err RepoError.not_found) (ok s) =
                rw (allowed, missing, update) at h in
              cc
          | inr (first, here) ↦ rw (update, allowed, here) refl
        ]
      ]

-- Rows where all subscriptions of some lists are settled.
abbrev pub AllSettled : List Subscription → List (List Subscription) → Type 0
AllSettled rows lists =
    All (λ subscriptions. All (λ (s : Subscription). Settled rows s.id) subscriptions) lists

-- What a step keeps settled.
abbrev pub Keeps : List Subscription → List Subscription → Type 0
Keeps before after = (i : ℕ) → Settled before i → Settled after i

All-Keeps :
    (before after : List Subscription) (subscriptions : List Subscription)
    → Keeps before after
    → All (λ (s : Subscription). Settled before s.id) subscriptions
    → All (λ (s : Subscription). Settled after s.id) subscriptions
All-Keeps before after [] k h = tt
All-Keeps before after (s ∷ subscriptions) k h =
    (k s.id h.0, All-Keeps before after subscriptions k h.1)

module _ (acls : Acls) where
  set_payments-Settled :
      (p : ℕ) (subscriptions rows : List Subscription)
      → (set_payments acls p subscriptions rows).0 ≡ ok tt
      → All
          (λ (s : Subscription). Settled (set_payments acls p subscriptions rows).1 s.id)
          subscriptions
        × Keeps rows (set_payments acls p subscriptions rows).1
  unfolding set_payments
  set_payments-Settled p [] rows h = (tt, λ i k. k)
  set_payments-Settled p (s ∷ subscriptions) rows h =
      let first = update acls.subscriptions (by_id s.id) p rows in
      elim (Result-cases first.0) [
        | inr (e, refused) ↦
            let wrong : ◌≡◌ {A = Result ServiceError (Unit {0})} (err (from_repo e)) (ok tt) =
              rw (refused, set_payments) at h in
            cc
        | inl (x, updated) ↦
            let same = update-rows acls.subscriptions s.id p rows x updated in
            let own : Settled first.1 s.id =
              subst (λ l. Settled l s.id) (sym same) (update_if-settles p s.id rows) in
            let keeps : Keeps rows first.1 = λ i k.
              subst (λ l. Settled l i) (sym same)
                (update_if-Settled p (matches (by_id s.id)) i rows k) in
            let (rest, rest_keeps) =
              set_payments-Settled p subscriptions first.1 (rw (updated, set_payments) at h) in
            let step : set_payments acls p (s ∷ subscriptions) rows
                ≡ set_payments acls p subscriptions first.1 =
              rw (set_payments, updated) refl in
            subst
              (λ x.
                All (λ (y : Subscription). Settled x.1 y.id) (s ∷ subscriptions) × Keeps rows x.1)
              (sym step) ((rest_keeps s.id own, rest), λ i k. rest_keeps i (keeps i k))
      ]

  create-length :
      (i at : ℕ) (n : NewSubscriptionPayment) (rows : List SubscriptionPayment)
      (p : SubscriptionPayment)
      → (create acls.payments i at n rows).0 ≡ ok p
      → length (create acls.payments i at n rows).1 ≡ length rows + 1
  unfolding create
  create-length i at n rows p h =
      elim (Bool-cases (acls.payments Resource.subscription_payment write (some n.store_id))) [
        | inl access ↦ rw (create, access) (length-append rows (new_row i at n ∷ []))
        | inr no_access ↦
            let wrong : ◌≡◌ {A = Result RepoError SubscriptionPayment} (err RepoError.forbidden)
                (ok p) =
              rw (no_access, create) at h in
            cc
      ]

  -- What recording some payments leaves of a ledger.
  abbrev pub Records : List FinishedPayment → Ledger → Ledger → Type 0
  Records finished before after =
      AllSettled after.subscriptions (map (λ f. f.subscriptions) finished)
      × Keeps before.subscriptions after.subscriptions
      × (length after.payments ≡ length before.payments + length finished)

  pub record_all-Records :
      (at : ℕ) (finished : List FinishedPayment) (l : Ledger)
      → (record_all acls at finished l).0 ≡ ok tt
      → Records finished l (record_all acls at finished l).1
  unfolding record_all
  record_all-Records at [] l h = (tt, (λ i k. k), omega arith)
  record_all-Records at (f ∷ finished) l h =
      let made = create acls.payments l.next_id at f.subscription_payment l.payments in
      let set = set_payments acls l.next_id f.subscriptions l.subscriptions in
      let l' : Ledger = record {
        subscriptions = set.1;
        payments = made.1;
        next_id = l.next_id + 1;
      } in
      elim (Result-cases made.0) [
        | inr (e, refused) ↦
            let wrong : ◌≡◌ {A = Result ServiceError (Unit {0})} (err (from_repo e)) (ok tt) =
              rw (refused, record_all) at h in
            cc
        | inl (p, created) ↦ elim (Result-cases set.0) [
          | inr (e, refused) ↦
              let wrong : ◌≡◌ {A = Result ServiceError (Unit {0})} (err e) (ok tt) =
                rw (created, refused, record_all) at h in
              cc
          | inl (done, settled) ↦
              let step : record_all acls at (f ∷ finished) l ≡ record_all acls at finished l' =
                rw (record_all, created, settled) refl in
              let (rest, rest_keeps, len) =
                record_all-Records at finished l' (ap (λ x. x.0) (sym step) ∙ h) in
              let (own, keeps) =
                set_payments-Settled l.next_id f.subscriptions l.subscriptions settled in
              let one = create-length l.next_id at f.subscription_payment l.payments p created in
              let l'' = (record_all acls at finished l').1 in
              let all : AllSettled l''.subscriptions
                  (map (λ (x : FinishedPayment). x.subscriptions) (f ∷ finished)) =
                (All-Keeps set.1 l''.subscriptions f.subscriptions rest_keeps own, rest) in
              subst (λ x. Records (f ∷ finished) l x.1) (sym step)
                (all, (λ i k. rest_keeps i (keeps i k)), omega (arith, len, one))
        ]
      ]
