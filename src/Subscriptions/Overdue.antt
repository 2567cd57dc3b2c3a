-- ===== src/Subscriptions/Overdue.antt =====
-- Which subscriptions `subscriptions_to_pay` of src/services/subscription_payment.rs collects.
use billing.Base.{
  ◌+◌, any, not, is_some, ltb, ℕ, ◌≡◌, refl, sym, ap, ◌∙◌, inl, inr, Bool, false, Option, none,
  some, List, [], ◌∷◌, ◌++◌, keep_if, ◌==◌, ==_iff, if◌then◌else◌, arith, Result, ok, err,
  ServiceError, from_repo, Bool-cases, Result-cases,
}
use billing.Acl.{Acl}
use billing.Subscriptions.{
  oldest, Subscription, ByStores, is_unpaid, check_stores, get_unpaid, push, push_all, is_overdue,
  subscriptions_to_pay,
}

-- The entry of a store.
unfoldable pub entry : ℕ → ByStores → Option (List Subscription)
entry k [] = none
entry k ((j, rows) ∷ entries) = if j == k then some rows else entry k entries

abbrev pub is_of_store : ℕ → Subscription → Bool
is_of_store k s = s.store_id == k

-- Some rows more for an entry; no entry for no rows.
unfoldable pub extended :
    Option (List Subscription) → List Subscription → Option (List Subscription)
extended none [] = none
extended none (s ∷ rows) = some (s ∷ rows)
extended (some old) rows = some (old ++ rows)

-- The keys differ.
abbrev pub Keyed : ByStores → Type 0
Keyed [] = Unit
Keyed (e ∷ entries) = (entry e.0 entries ≡ none) × Keyed entries

entry-push :
    (k : ℕ) (s : Subscription) (entries : ByStores)
    → entry k (push s entries)
      ≡ (if is_of_store k s then extended (entry k entries) (s ∷ []) else entry k entries)
unfolding entry push extended
entry-push k s [] = ground arith
entry-push k s ((j, rows) ∷ entries) = ground (arith, entry-push k s entries)

append_assoc : (xs ys zs : List Subscription) → (xs ++ ys) ++ zs ≡ xs ++ (ys ++ zs)
append_assoc [] ys zs = refl
append_assoc (x ∷ xs) ys zs = ap (λ r. x ∷ r) (append_assoc xs ys zs)

extended_twice :
    (o : Option (List Subscription)) (s : Subscription) (rows : List Subscription)
    → extended (extended o (s ∷ [])) rows ≡ extended o (s ∷ rows)
unfolding extended
extended_twice none s rows = refl
extended_twice (some old) s rows = ap some (append_assoc old (s ∷ []) rows)

append_nil : (xs : List Subscription) → xs ++ [] ≡ xs
append_nil [] = refl
append_nil (x ∷ xs) = ap (λ r. x ∷ r) (append_nil xs)

extended_nil : (o : Option (List Subscription)) → extended o [] ≡ o
unfolding extended
extended_nil none = refl
extended_nil (some old) = ap some (append_nil old)

entry-push_all :
    (k : ℕ) (rows : List Subscription) (entries : ByStores)
    → entry k (push_all rows entries) ≡ extended (entry k entries) (keep_if (is_of_store k) rows)
unfolding push_all
entry-push_all k [] entries = sym (extended_nil (entry k entries))
entry-push_all k (s ∷ rows) entries = elim (Bool-cases (is_of_store k s)) [
  | inl here ↦
      let one : entry k (push s entries) ≡ extended (entry k entries) (s ∷ []) =
        rw here at (entry-push k s entries) in
      rw here (
        entry-push_all k rows (push s entries)
        ∙ ap (λ o. extended o (keep_if (is_of_store k) rows)) one
        ∙ extended_twice (entry k entries) s (keep_if (is_of_store k) rows))
  | inr other ↦
      let one : entry k (push s entries) ≡ entry k entries = rw other at (entry-push k s entries) in
      rw other (
        entry-push_all k rows (push s entries)
        ∙ ap (λ o. extended o (keep_if (is_of_store k) rows)) one)
]

push-Keyed : (s : Subscription) (entries : ByStores) → Keyed entries → Keyed (push s entries)
unfolding push entry
push-Keyed s [] h = (refl, tt)
push-Keyed s ((j, rows) ∷ entries) h = elim (Bool-cases (j == s.store_id)) [
  | inl here ↦ rw here h
  | inr other ↦
      let apart : is_of_store j s ≡ false = ground arith in
      let none_of : entry j (push s entries) ≡ entry j entries =
        rw apart at (entry-push j s entries) in
      rw other (none_of ∙ h.0, push-Keyed s entries h.1)
]

push_all-Keyed :
    (rows : List Subscription) (entries : ByStores) → Keyed entries → Keyed (push_all rows entries)
unfolding push_all
push_all-Keyed [] entries h = h
push_all-Keyed (s ∷ rows) entries h = push_all-Keyed rows (push s entries) (push-Keyed s entries h)

-- An entry that passes a test.
abbrev pub retained :
    (List Subscription → Bool) → Option (List Subscription) → Option (List Subscription)
retained p none = none
retained p (some rows) = if p rows then some rows else none

entry-keep_if :
    (k : ℕ) (p : List Subscription → Bool) (entries : ByStores)
    → Keyed entries
    → entry k (keep_if (λ e. p e.1) entries) ≡ retained p (entry k entries)
unfolding entry
entry-keep_if k p [] h = refl
entry-keep_if k p ((j, rows) ∷ entries) h = elim (Bool-cases (j == k)) [
  | inl here ↦
      let same : j ≡ k = (==_iff j k).0 here in
      let gone : entry k entries ≡ none = rw same at h.0 in
      elim (Bool-cases (p rows)) [
        | inl kept ↦ rw (here, kept, here) refl
        | inr dropped ↦ rw (here, dropped) (entry-keep_if k p entries h.1 ∙ ap (retained p) gone)
      ]
  | inr other ↦ elim (Bool-cases (p rows)) [
    | inl kept ↦ rw (other, kept, other) (entry-keep_if k p entries h.1)
    | inr dropped ↦ rw (other, dropped) (entry-keep_if k p entries h.1)
  ]
]

-- A subscription without a payment, and one that is older than the period.
abbrev pub has_no_payment : Subscription → Bool
has_no_payment s = not (is_some s.subscription_payment_id)

abbrev pub older_than : (now period : ℕ) → Subscription → Bool
older_than now period s = ltb (s.created_at + period) now

-- What a store has to pay: all of its subscriptions without a payment, once one of them is older
-- than the period.
unfoldable pub to_pay : (now period k : ℕ) → List Subscription → Option (List Subscription)
to_pay now period k rows =
    let mine = keep_if (is_of_store k) (keep_if has_no_payment rows) in
    if any (older_than now period) mine then some mine else none

is_unpaid-same : (s : Subscription) → is_unpaid s ≡ has_no_payment s
unfolding is_unpaid
is_unpaid-same s = ground arith

is_unpaid_lem : (rows : List Subscription) → keep_if is_unpaid rows ≡ keep_if has_no_payment rows
is_unpaid_lem [] = refl
is_unpaid_lem (s ∷ rows) = rw (is_unpaid-same s, is_unpaid_lem rows) refl

-- The oldest of some subscriptions is overdue when one of them is.
is_overdue-any :
    (now period : ℕ) (rows : List Subscription)
    → is_overdue now period rows ≡ any (older_than now period) rows
unfolding is_overdue oldest
is_overdue-any now period [] = ground arith
is_overdue-any now period (s ∷ rows) = ground (arith, is_overdue-any now period rows)

retained-any :
    (p : List Subscription → Bool) (q : Subscription → Bool) (mine : List Subscription)
    → p mine ≡ any q mine
    → retained p (extended none mine) ≡ (if any q mine then some mine else none)
unfolding extended
retained-any p q [] h = refl
retained-any p q (s ∷ rest) h = rw h refl

keep_if-Keyed :
    (p : List Subscription → Bool) (entries : ByStores)
    → Keyed entries
    → Keyed (keep_if (λ e. p e.1) entries)
keep_if-Keyed p [] h = tt
keep_if-Keyed p ((j, rows) ∷ entries) h = elim (Bool-cases (p rows)) [
  | inl kept ↦
      rw kept (entry-keep_if j p entries h.1 ∙ ap (retained p) h.0, keep_if-Keyed p entries h.1)
  | inr dropped ↦ rw dropped (keep_if-Keyed p entries h.1)
]

-- If `subscriptions_to_pay` succeeds, then no two entries of the result are of one store, and a store
-- has an entry if and only if one of its subscriptions without a payment was created longer than the
-- period ago; the entry holds all of the store's subscriptions without a payment, the recent ones
-- included, in the order of the table.
pub subscriptions_to_pay-to_pay :
    (acl : Acl ℕ) (now period : ℕ) (rows : List Subscription) (out : ByStores)
    → subscriptions_to_pay acl now period rows ≡ ok out
    → Keyed out × ((k : ℕ) → entry k out ≡ to_pay now period k rows)
unfolding subscriptions_to_pay get_unpaid to_pay entry
subscriptions_to_pay-to_pay acl now period rows out e =
    elim (Result-cases (check_stores acl (keep_if is_unpaid rows))) [
      | inr (f, refused) ↦
          let wrong : ◌≡◌ {A = Result ServiceError ByStores} (err (from_repo f)) (ok out) =
            rw (refused, subscriptions_to_pay, get_unpaid) at e in
          cc
      | inl (done, allowed) ↦
          let unpaid = keep_if is_unpaid rows in
          let overdue = is_overdue now period in
          let kept = keep_if (λ x. overdue x.1) (push_all unpaid []) in
          let keyed = push_all-Keyed unpaid [] tt in
          let same : ◌≡◌ {A = Result ServiceError ByStores} (ok kept) (ok out) =
            rw (allowed, subscriptions_to_pay, get_unpaid) at e in
          let equal : out ≡ kept = cc in
          rw equal (
            keep_if-Keyed overdue (push_all unpaid []) keyed,
            λ k.
                entry-keep_if k overdue (push_all unpaid []) keyed
                ∙ ap (retained overdue) (entry-push_all k unpaid [])
                ∙ retained-any overdue (older_than now period) (keep_if (is_of_store k) unpaid)
                    (is_overdue-any now period (keep_if (is_of_store k) unpaid))
                ∙ ap
                    (λ r.
                      if any (older_than now period) (keep_if (is_of_store k) r)
                      then some (keep_if (is_of_store k) r)
                      else none)
                    (is_unpaid_lem rows),
          )
    ]
