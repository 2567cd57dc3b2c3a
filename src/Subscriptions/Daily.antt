-- ===== src/Subscriptions/Daily.antt =====
-- How often `create_all` of src/services/subscription.rs makes a store owe.
use billing.Base.{
  ℕ, ◌≡◌, refl, sym, subst, inl, inr, Bool, true, false, ◌&&◌, some, List, [], ◌∷◌, ◌++◌, any,
  keep_if, ◌==◌, Bool-cases, Result-cases, ok, map_err, from_repo, ◌>>=◌, >>=-eq-ok, ok-injective,
}
use billing.Acl.{Acl, Resource, write}
use billing.Subscriptions.{Subscription, is_unpaid, check_stores}
use billing.Subscriptions.Repo.{
  NewSubscription, unpaid_of, matches, into_expr, search, create, new_row,
}
use billing.Subscriptions.Accrual.{
  Tables, Date, same_day, find_update_or_create_store_subscription, is_to_pay, add_unpaid, add_one,
  add_all, create_all,
}

-- Two ways in which rows do not clash.
other_day : (u v x y : Bool) → y ≡ false → (u && v && x && y) ≡ false
other_day u v x true h = cc
other_day false v x false h = refl
other_day true false x false h = refl
other_day true true false false h = refl
other_day true true true false h = refl

not_found : (u v x y : Bool) → (x && u && true) ≡ false → (u && v && x && y) ≡ false
not_found false v x y h = refl
not_found true v true y h = cc
not_found true false false y h = refl
not_found true true false y h = refl

module _ (date_of : ℕ → Date) where
  -- Two unpaid rows of one store and one day.
  abbrev pub clash : Subscription → Subscription → Bool
  clash s r =
      is_unpaid s
      && is_unpaid r
      && (s.store_id == r.store_id)
      && same_day (date_of s.created_at) (date_of r.created_at)

  -- No two unpaid rows are of one store and one day.
  abbrev pub OnePerDay : List Subscription → Type 0
  OnePerDay [] = Unit
  OnePerDay (s ∷ rows) = (any (clash s) rows ≡ false) × OnePerDay rows

  any-append_false :
      (s : Subscription) (rows : List Subscription) (n : Subscription)
      → any (clash s) rows ≡ false
      → clash s n ≡ false
      → any (clash s) (rows ++ n ∷ []) ≡ false
  any-append_false s [] n h e = rw e refl
  any-append_false s (r ∷ rows) n h e = elim (Bool-cases (clash s r)) [
    | inl c ↦ let wrong : true ≡ false = rw c at h in cc
    | inr c ↦ rw c (any-append_false s rows n (rw c at h) e)
  ]

  OnePerDay-append :
      (rows : List Subscription) (n : Subscription)
      → OnePerDay rows
      → any (λ s. clash s n) rows ≡ false
      → OnePerDay (rows ++ n ∷ [])
  OnePerDay-append [] n h e = (refl, tt)
  OnePerDay-append (s ∷ rows) n h e = elim (Bool-cases (clash s n)) [
    | inl c ↦ let wrong : true ≡ false = rw c at e in cc
    | inr c ↦ (any-append_false s rows n h.0 c, OnePerDay-append rows n h.1 (rw c at e))
  ]

  -- What the search for the unpaid rows of a store and the test of their days find.
  unpaid-clash :
      (now : ℕ) (n : Subscription) (rows : List Subscription)
      → date_of n.created_at ≡ date_of now
      → any
          (λ s. same_day (date_of s.created_at) (date_of now))
          (keep_if (matches (unpaid_of n.store_id)) rows)
        ≡ false
      → any (λ s. clash s n) rows ≡ false
  unfolding matches
  unpaid-clash now n [] d h = refl
  unpaid-clash now n (s ∷ rows) d h = elim (Bool-cases (matches (unpaid_of n.store_id) s)) [
    | inl selected ↦ elim (Bool-cases (same_day (date_of s.created_at) (date_of now))) [
      | inl same ↦ let wrong : true ≡ false = rw (selected, same) at h in cc
      | inr apart ↦
          let rest = unpaid-clash now n rows d (rw (selected, apart) at h) in
          let no_clash : clash s n ≡ false =
            other_day (is_unpaid s) (is_unpaid n) (s.store_id == n.store_id) _
              (subst (λ t. same_day (date_of s.created_at) t ≡ false) (sym d) apart) in
          rw no_clash rest
    ]
    | inr other ↦
        let rest = unpaid-clash now n rows d (rw other at h) in
        let no_clash : clash s n ≡ false =
          not_found (is_unpaid s) (is_unpaid n) (s.store_id == n.store_id)
            (same_day (date_of s.created_at) (date_of n.created_at)) other in
        rw no_clash rest
  ]

  module _ (stores_acl acl : Acl ℕ) (now max at : ℕ) (today : date_of at ≡ date_of now) where
    search-any :
        (k : ℕ) (rows unpaid : List Subscription)
        → search acl (unpaid_of k) rows ≡ ok unpaid
        → unpaid ≡ keep_if (matches (unpaid_of k)) rows
    unfolding search into_expr
    search-any k rows unpaid h =
        let (done, allowed, told) =
          >>=-eq-ok (check_stores acl (keep_if (matches (unpaid_of k)) rows))
            (λ d. ok (keep_if (matches (unpaid_of k)) rows)) h in
        sym (ok-injective told)

    create-OnePerDay :
        (i : ℕ) (n : NewSubscription) (rows : List Subscription)
        → OnePerDay rows
        → any (λ s. clash s (new_row i at n)) rows ≡ false
        → OnePerDay (create acl i at n rows).1
    unfolding create
    create-OnePerDay i n rows h e =
        elim (Bool-cases (acl Resource.subscription write (some n.store_id))) [
          | inl access ↦ rw (create, access) (OnePerDay-append rows (new_row i at n) h e)
          | inr no_access ↦ rw (create, no_access) h
        ]

    add_unpaid-OnePerDay :
        (n : NewSubscription) (t : Tables)
        → OnePerDay t.subscriptions
        → OnePerDay (add_unpaid date_of stores_acl acl now max at n t).1.subscriptions
    unfolding add_unpaid
    add_unpaid-OnePerDay n t h =
        elim (Result-cases (search acl (unpaid_of n.store_id) t.subscriptions)) [
          | inr (e, refused) ↦ rw (add_unpaid, refused) h
          | inl (unpaid, found) ↦
              elim (Bool-cases (any (λ s. same_day (date_of s.created_at) (date_of now)) unpaid)) [
                | inl there ↦ rw (add_unpaid, found, there) h
                | inr fresh ↦
                    let same = search-any n.store_id t.subscriptions unpaid found in
                    let none_today =
                      subst
                        (λ l. any (λ s. same_day (date_of s.created_at) (date_of now)) l ≡ false)
                        same fresh in
                    let apart =
                      unpaid-clash now (new_row t.next_id at n) t.subscriptions today none_today in
                    let kept = create-OnePerDay t.next_id n t.subscriptions h apart in
                    elim (Result-cases (create acl t.next_id at n t.subscriptions).0) [
                      | inl (s, made) ↦ rw (add_unpaid, found, fresh, made) kept
                      | inr (e, failed) ↦ rw (add_unpaid, found, fresh, failed) kept
                    ]
              ]
        ]

    add_one-OnePerDay :
        (n : NewSubscription) (t : Tables)
        → OnePerDay t.subscriptions
        → OnePerDay (add_one date_of stores_acl acl now max at n t).1.subscriptions
    unfolding add_one
    add_one-OnePerDay n t h =
        let (r, stores) =
          find_update_or_create_store_subscription stores_acl n.store_id now t.stores in
        elim (Result-cases (map_err from_repo r >>= is_to_pay now max)) [
          | inr (e, failed) ↦ rw (add_one, failed) h
          | inl (to_pay, decided) ↦ elim (Bool-cases to_pay) [
            | inl pays ↦
                rw (add_one, decided, pays)
                  (add_unpaid-OnePerDay n (record t { stores = stores }) h)
            | inr free ↦ rw (add_one, decided, free) h
          ]
        ]

    add_all-OnePerDay :
        (new : List NewSubscription) (t : Tables)
        → OnePerDay t.subscriptions
        → OnePerDay (add_all date_of stores_acl acl now max at new t).1.subscriptions
    unfolding add_all
    add_all-OnePerDay [] t h = h
    add_all-OnePerDay (n ∷ new) t h =
        let one = add_one date_of stores_acl acl now max at n t in
        let kept = add_one-OnePerDay n t h in
        elim (Result-cases one.0) [
          | inr (e, failed) ↦ rw (add_all, failed) kept
          | inl (done, added) ↦ rw (add_all, added) (add_all-OnePerDay new one.1 kept)
        ]

    -- If no two unpaid subscriptions in the table are of one store and one day, and the database's time is of
    -- the same day as the service's, then this holds after `create_all` of any list of subscriptions, which
    -- may name a store several times, whether it succeeds or fails.
    pub create_all-OnePerDay :
        (new : List NewSubscription) (t : Tables)
        → OnePerDay t.subscriptions
        → OnePerDay (create_all date_of stores_acl acl now max at new t).1.subscriptions
    unfolding create_all
    create_all-OnePerDay new t h =
        elim (Result-cases (add_all date_of stores_acl acl now max at new t).0) [
          | inr (e, failed) ↦ rw (create_all, failed) h
          | inl (done, added) ↦ rw (create_all, added) (add_all-OnePerDay new t h)
        ]
