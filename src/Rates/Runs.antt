-- ===== src/Rates/Runs.antt =====
-- Sequences of calls of src/repos/order_exchange_rates.rs, each by a caller of its own.
use billing.Base.{
  ℕ, ◌≤◌, ◌≡◌, inl, inr, Option, none, some, List, [], ◌∷◌, find, update_if, ok, arith, ◌==◌,
  ==_refl, Result-cases, Option-cases, not, ok_or, refl, ap, ◌⊎◌, >>=-eq-ok, RepoError, Bool-cases,
  ==_iff,
}
use billing.Acl.{Acl, Resource, write, check}
use billing.Rates.{
  RawOrderExchangeRate, NewOrderExchangeRate, Table, rate_has_id, is_of, is_active_of, expire,
  expire_found, inserted, raw_new_rate, add_new_active_rate, expire_current_active_rate, delete,
  delete_by_order_id,
}
use billing.Rates.Active.{
  count_active, AtMostOneActive, count-append, count-keep_if, count-expire, count-expire_found,
  count-none,
}

-- A call that changes the table, with the caller's access control and the clock's reading.
pub data Call (Number : Type 0) : Type 0 where
  add : Acl ℕ → (now : ℕ) → NewOrderExchangeRate Number → Call Number
  expire_current : Acl ℕ → (now order : ℕ) → Call Number
  delete_one : Acl ℕ → (id : ℕ) → Call Number
  delete_order : Acl ℕ → (order : ℕ) → Call Number

module _ {Number : Type 0} where
  unfoldable pub step : Call Number → Table Number → Table Number
  unfolding add_new_active_rate expire_current_active_rate delete delete_by_order_id
  step (Call.add acl now n) t = (add_new_active_rate acl now n t).1
  step (Call.expire_current acl now o) t = (expire_current_active_rate acl now o t).1
  step (Call.delete_one acl i) t = (delete acl i t).1
  step (Call.delete_order acl o) t = (delete_by_order_id acl o t).1

  unfoldable pub run : List (Call Number) → Table Number → Table Number
  unfolding step
  run [] t = t
  run (call ∷ calls) t = run calls (step call t)

  -- The update leaves the rows as they were, or the active rate that was found expires.
  pub expire_found-ok :
      (now : ℕ) (found : Option (RawOrderExchangeRate Number))
      (rows : List (RawOrderExchangeRate Number))
      {out : Option (RawOrderExchangeRate Number) × List (RawOrderExchangeRate Number)}
      → expire_found now found rows ≡ ok out
      → ((found ≡ none) × (out.1 ≡ rows))
        ⊎ ((r : RawOrderExchangeRate Number) × (found ≡ some r)
            × (out.1 ≡ update_if (rate_has_id r.id) (expire now) rows))
  unfolding expire_found
  expire_found-ok now none rows {out} e =
      let same : out ≡ (none, rows) = cc in inl (refl, ap (λ x. x.1) same)
  expire_found-ok now (some r) rows {out} e =
      let rows' = update_if (rate_has_id r.id) (expire now) rows in
      let (mid, _, last) =
        >>=-eq-ok (ok_or (find (rate_has_id r.id) rows') RepoError.not_found)
          (λ x. ok (some x, rows')) e in
      let same : out ≡ (some mid, rows') = cc in inr (r, refl, ap (λ x. x.1) same)

  -- After the update, the order of the new rate has no active one and the other orders have no more.
  pub expire_found-count :
      (o now : ℕ) (rows : List (RawOrderExchangeRate Number))
      {out : Option (RawOrderExchangeRate Number) × List (RawOrderExchangeRate Number)}
      → count_active o rows ≤ 1
      → expire_found now (find (is_active_of o) rows) rows ≡ ok out
      → (count_active o out.1 ≡ 0) × ((o' : ℕ) → count_active o' out.1 ≤ count_active o' rows)
  expire_found-count o now rows {out} h e =
      elim (expire_found-ok now (find (is_active_of o) rows) rows e) [
        | inl (nothing, same) ↦ rw same (count-none o rows nothing, λ o'. omega arith)
        | inr (r, found, same) ↦
            let less = count-expire_found o now (rate_has_id r.id) r rows found (==_refl r.id) in
            rw same (omega (arith, less), λ o'. count-expire o' now (rate_has_id r.id) rows)
      ]

  -- A new row is counted for its own order only.
  inserted-count :
      (o now next : ℕ) (n : NewOrderExchangeRate Number)
      → (n.order_id ≡ o) ⊎ (count_active o (inserted now next (raw_new_rate n) ∷ []) ≡ 0)
  unfolding count_active is_active_of inserted raw_new_rate
  inserted-count o now next n = elim (Bool-cases (n.order_id == o)) [
    | inl here ↦ inl ((==_iff n.order_id o).0 here)
    | inr other ↦ inr (rw other refl)
  ]

  singleton-count : (o : ℕ) (r : RawOrderExchangeRate Number) → count_active o (r ∷ []) ≤ 1
  unfolding count_active
  singleton-count o r = ground arith

  add-AtMostOneActive :
      (acl : Acl ℕ) (now : ℕ) (n : NewOrderExchangeRate Number) (t : Table Number)
      → AtMostOneActive t
      → AtMostOneActive (add_new_active_rate acl now n t).1
  unfolding add_new_active_rate
  add-AtMostOneActive acl now n t h o =
      elim (Result-cases (check acl Resource.order_exchange_rate write (some n.order_id))) [
        | inr (e, refused) ↦ rw (refused, add_new_active_rate) (h o)
        | inl (_, allowed) ↦
            let found = find (is_active_of n.order_id) t.rows in
            elim (Result-cases (expire_found now found t.rows)) [
              | inr (e, refused) ↦ rw (allowed, refused, add_new_active_rate) (h o)
              | inl (out, e) ↦
                  let row = inserted now t.next_id (raw_new_rate n) in
                  let (none_left, no_more) =
                    expire_found-count n.order_id now t.rows (h n.order_id) e in
                  rw (allowed, e, add_new_active_rate, count-append o out.1 row)
                    (elim (inserted-count o now t.next_id n) [
                      | inl same ↦
                          let none_left' : count_active o out.1 ≡ 0 = rw same at none_left in
                          omega (arith, none_left', singleton-count o row)
                      | inr zero' ↦ omega (arith, zero', no_more o, h o)
                    ])
            ]
      ]

  expire_current-AtMostOneActive :
      (acl : Acl ℕ) (now order : ℕ) (t : Table Number)
      → AtMostOneActive t
      → AtMostOneActive (expire_current_active_rate acl now order t).1
  unfolding expire_current_active_rate
  expire_current-AtMostOneActive acl now order t h o =
      elim (Result-cases (check acl Resource.order_exchange_rate write (some order))) [
        | inr (e, refused) ↦ rw (refused, expire_current_active_rate) (h o)
        | inl (_, allowed) ↦
            rw (allowed, expire_current_active_rate)
              (omega (arith, count-expire o now (is_active_of order) t.rows, h o))
      ]

  delete-AtMostOneActive :
      (acl : Acl ℕ) (i : ℕ) (t : Table Number)
      → AtMostOneActive t
      → AtMostOneActive (delete acl i t).1
  unfolding delete
  delete-AtMostOneActive acl i t h o = elim (Option-cases (find (rate_has_id i) t.rows)) [
    | inl missing ↦ rw (missing, delete) (h o)
    | inr (r, found) ↦
        elim (Result-cases (check acl Resource.order_exchange_rate write (some r.order_id))) [
          | inr (e, refused) ↦ rw (found, refused, delete) (h o)
          | inl (_, allowed) ↦
              rw (found, allowed, delete)
                (omega (arith, count-keep_if o (λ x. not (rate_has_id i x)) t.rows, h o))
        ]
  ]

  delete_by_order_id-AtMostOneActive :
      (acl : Acl ℕ) (order : ℕ) (t : Table Number)
      → AtMostOneActive t
      → AtMostOneActive (delete_by_order_id acl order t).1
  unfolding delete_by_order_id
  delete_by_order_id-AtMostOneActive acl order t h o =
      elim (Result-cases (check acl Resource.order_exchange_rate write (some order))) [
        | inr (e, refused) ↦ rw (refused, delete_by_order_id) (h o)
        | inl (_, allowed) ↦
            rw (allowed, delete_by_order_id)
              (omega (arith, count-keep_if o (λ x. not (is_of order x)) t.rows, h o))
      ]

  step-AtMostOneActive :
      (call : Call Number) (t : Table Number) → AtMostOneActive t → AtMostOneActive (step call t)
  unfolding step
  step-AtMostOneActive (Call.add acl now n) t h = add-AtMostOneActive acl now n t h
  step-AtMostOneActive (Call.expire_current acl now o) t h =
      expire_current-AtMostOneActive acl now o t h
  step-AtMostOneActive (Call.delete_one acl i) t h = delete-AtMostOneActive acl i t h
  step-AtMostOneActive (Call.delete_order acl o) t h = delete_by_order_id-AtMostOneActive acl o t h

  -- From a table in which no order has two active rates, every sequence of calls of
  -- `add_new_active_rate`, `expire_current_active_rate`, `delete` and `delete_by_order_id`, each
  -- with any access control and any reading of the clock, refused calls included, leaves a table
  -- in which no order has two.
  pub run-AtMostOneActive :
      (calls : List (Call Number)) (t : Table Number)
      → AtMostOneActive t
      → AtMostOneActive (run calls t)
  unfolding run
  run-AtMostOneActive [] t h = h
  run-AtMostOneActive (call ∷ calls) t h =
      run-AtMostOneActive calls (step call t) (step-AtMostOneActive call t h)
