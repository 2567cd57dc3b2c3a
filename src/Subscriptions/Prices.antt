-- ===== src/Subscriptions/Prices.antt =====
-- What the currencies and prices of stores' subscriptions can be, and that the repository's calls keep it
-- (src/repos/store_subscription.rs).
use billing.Base.{
  ℕ, ◌≡◌, refl, sym, ap, subst, ◌∙◌, ◌⊎◌, inl, inr, true, false, Option, some, is_some, List, [],
  ◌∷◌, ◌++◌, All, All-snoc, any, find, update_if, ◌==◌, ==_iff, arith, Bool-cases, Option-cases,
  Result-cases, ok, ◌>>=◌, ◌>>◌, >>=-eq-ok, ok-injective,
}
use billing.Currency.{Currency}
use billing.Acl.{Acl, Resource, read, write, check}
use billing.Subscriptions.Stores.{
  StoreSubscription, NewStoreSubscription, UpdateStoreSubscription, is_of_store, new_row, changed,
  default_eur_cents_amount, default_stq_wei_amount, create, get, check_update, update, sets_nothing,
}

-- Euros at the default price, or STQ at the default price with a wallet.
abbrev pub IsPriced : StoreSubscription → Type 0
IsPriced s =
    ((s.currency ≡ Currency.eur) × (s.value ≡ default_eur_cents_amount))
    ⊎ ((s.currency ≡ Currency.stq)
        × (s.value ≡ default_stq_wei_amount)
        × (is_some s.wallet_address ≡ true))

-- The primary key: no two rows are of one store.
abbrev pub Keyed : List StoreSubscription → Type 0
Keyed [] = Unit
Keyed (s ∷ rows) = (any (is_of_store s.store_id) rows ≡ false) × Keyed rows

pub record IsValid (rows : List StoreSubscription) : Type 0 where
  pub priced_rows : All IsPriced rows
  pub keyed : Keyed rows

any-append_false :
    (k : ℕ) (rows : List StoreSubscription) (n : StoreSubscription)
    → any (is_of_store k) rows ≡ false
    → (n.store_id == k) ≡ false
    → any (is_of_store k) (rows ++ n ∷ []) ≡ false
any-append_false k [] n h e = ground arith
any-append_false k (r ∷ rows) n h e = ground (arith, any-append_false k rows n)

Keyed-append :
    (rows : List StoreSubscription) (n : StoreSubscription)
    → Keyed rows
    → any (is_of_store n.store_id) rows ≡ false
    → Keyed (rows ++ n ∷ [])
Keyed-append [] n h e = (refl, tt)
Keyed-append (r ∷ rows) n h e =
    (any-append_false r.store_id rows n h.0 (ground arith), Keyed-append rows n h.1 (ground arith))

any-update_if :
    (j k : ℕ) (u : UpdateStoreSubscription) (rows : List StoreSubscription)
    → any (is_of_store j) (update_if (is_of_store k) (changed u) rows) ≡ any (is_of_store j) rows
any-update_if j k u [] = refl
any-update_if j k u (r ∷ rows) = elim (Bool-cases (is_of_store k r)) [
  | inl e ↦ rw (e, any-update_if j k u rows) refl
  | inr e ↦ rw (e, any-update_if j k u rows) refl
]

Keyed-update_if :
    (k : ℕ) (u : UpdateStoreSubscription) (rows : List StoreSubscription)
    → Keyed rows
    → Keyed (update_if (is_of_store k) (changed u) rows)
Keyed-update_if k u [] h = tt
Keyed-update_if k u (r ∷ rows) h = elim (Bool-cases (is_of_store k r)) [
  | inl e ↦ rw e (any-update_if r.store_id k u rows ∙ h.0, Keyed-update_if k u rows h.1)
  | inr e ↦ rw e (any-update_if r.store_id k u rows ∙ h.0, Keyed-update_if k u rows h.1)
]

update_if-absent :
    (k : ℕ) (u : UpdateStoreSubscription) (rows : List StoreSubscription)
    → any (is_of_store k) rows ≡ false
    → update_if (is_of_store k) (changed u) rows ≡ rows
update_if-absent k u [] h = refl
update_if-absent k u (r ∷ rows) h = elim (Bool-cases (is_of_store k r)) [
  | inl e ↦ let wrong : true ≡ false = rw e at h in cc
  | inr e ↦ rw e (ap (λ l. r ∷ l) (update_if-absent k u rows (rw e at h)))
]

-- A change to the row of one store.
All-update_if :
    (k : ℕ) (u : UpdateStoreSubscription) (rows : List StoreSubscription) (s : StoreSubscription)
    → IsValid rows
    → find (is_of_store k) rows ≡ some s
    → (IsPriced s → IsPriced (changed u s))
    → All IsPriced (update_if (is_of_store k) (changed u) rows)
All-update_if k u [] s h here keeps = tt
All-update_if k u (r ∷ rows) s h here keeps = elim (Bool-cases (is_of_store k r)) [
  | inl e ↦
      let same : some r ≡ some s = rw e at here in
      let equal : r ≡ s = cc in
      let key : r.store_id ≡ k = (==_iff r.store_id k).0 e in
      let gone : any (is_of_store k) rows ≡ false = rw key at h.keyed.0 in
      rw (e, update_if-absent k u rows gone)
        (
          subst (λ x. IsPriced x → IsPriced (changed u x)) (sym equal) keeps h.priced_rows.0,
          h.priced_rows.1,
        )
  | inr e ↦
      let rest : IsValid rows = record { priced_rows = h.priced_rows.1; keyed = h.keyed.1 } in
      rw e (h.priced_rows.0, All-update_if k u rows s rest (rw e at here) keeps)
]

module _ (acl : Acl ℕ) where
  pub create-IsValid :
      (n : NewStoreSubscription) (rows : List StoreSubscription)
      → IsPriced (new_row n)
      → IsValid rows
      → IsValid (create acl n rows).1
  unfolding create
  create-IsValid n rows p h =
      elim (Bool-cases (acl Resource.store_subscription write (some n.store_id))) [
        | inr no_access ↦ rw (create, no_access) h
        | inl access ↦ elim (Bool-cases (any (is_of_store n.store_id) rows)) [
          | inl taken ↦ rw (create, access, taken) h
          | inr fresh ↦
              rw (create, access, fresh)
                (record {
                  priced_rows = All-snoc IsPriced rows h.priced_rows p;
                  keyed = Keyed-append rows (new_row n) h.keyed fresh;
                })
        ]
      ]

  pub get-find :
      (k : ℕ) (rows : List StoreSubscription) (found : Option StoreSubscription)
      → get acl k rows ≡ ok found
      → find (is_of_store k) rows ≡ found
  unfolding get
  get-find k rows found h = elim (Option-cases (find (is_of_store k) rows)) [
    | inl missing ↦ let told = rw (missing, get) at h in missing ∙ ok-injective told
    | inr (s, here) ↦
        let (done, allowed, told) =
          >>=-eq-ok (check acl Resource.store_subscription read (some s.store_id))
            (λ d. ok (some s)) (rw (here, get) at h) in
        here ∙ ok-injective told
  ]

  pub update-IsValid :
      (k : ℕ) (u : UpdateStoreSubscription) (rows : List StoreSubscription)
      → ((s : StoreSubscription)
          → find (is_of_store k) rows ≡ some s
          → IsPriced s
          → IsPriced (changed u s))
      → IsValid rows
      → IsValid (update acl k u rows).1
  unfolding update
  update-IsValid k u rows keeps h =
      let tested = get acl k rows >>= λ entry. check_update acl u entry >> ok entry in
      elim (Result-cases tested) [
        | inr (e, refused) ↦ rw (update, refused) h
        | inl (entry, allowed) ↦ elim (Bool-cases (sets_nothing u)) [
          | inl nothing ↦ rw (update, allowed, nothing) h
          | inr something ↦ elim (Option-cases entry) [
            | inl missing ↦ rw (update, allowed, something, missing) h
            | inr (s, is_entry) ↦
                let (first, h1, r1) = >>=-eq-ok (get acl k rows) _ allowed in
                let (done, h2, r2) = >>=-eq-ok (check_update acl u first) _ r1 in
                let here = get-find k rows first h1 ∙ ok-injective r2 ∙ is_entry in
                rw (update, allowed, something, is_entry)
                  (record {
                    priced_rows = All-update_if k u rows s h here (keeps s here);
                    keyed = Keyed-update_if k u rows h.keyed;
                  })
          ]
        ]
      ]
