-- ===== src/Rates/Latest.antt =====
-- What `get_active_rate_for_order` reads after the methods of src/repos/order_exchange_rates.rs that
-- replace or expire the rate of an order.
use billing.Base.{
  ℕ, ◌+◌, ◌≡◌, ◌≢◌, refl, ap, sym, ◌∙◌, inl, inr, true, false, Option, none, some, List, [], ◌∷◌,
  ◌++◌, find, update_if, ok, arith, ◌==◌, ==_refl, ==_iff, Bool-cases, Option-cases,
}
use billing.Acl.{Acl, Resource, read, write}
use billing.Rates.{
  RawOrderExchangeRate, NewOrderExchangeRate, LatestExchangeRates, Table, is_active_of, is_active,
  expire, active, expired, rate_has_id, expire_found, inserted, raw_new_rate, add_new_active_rate,
  expire_current_active_rate, get_active_rate_for_order,
}
use billing.Rates.Active.{AtMostOneActive, count-zero, expire-inactive}
use billing.Rates.Runs.{expire_found-count}

module _ {Number : Type 0} where
  find-append :
      (o : ℕ) (rows : List (RawOrderExchangeRate Number)) (r : RawOrderExchangeRate Number)
      → find (is_active_of o) rows ≡ none
      → is_active_of o r ≡ true
      → find (is_active_of o) (rows ++ r ∷ []) ≡ some r
  find-append o [] r e h = rw h refl
  find-append o (x ∷ rows) r e h = elim (Bool-cases (is_active_of o x)) [
    | inl here ↦ let wrong : some x ≡ none = rw here at e in cc
    | inr later ↦ rw later (find-append o rows r (rw later at e) h)
  ]

  inserted-active :
      (now next : ℕ) (n : NewOrderExchangeRate Number)
      → is_active_of n.order_id (inserted now next (raw_new_rate n)) ≡ true
  unfolding is_active_of is_active inserted raw_new_rate
  inserted-active now next n = rw (==_refl n.order_id) refl

  get_active-allowed :
      (acl : Acl ℕ) (order : ℕ) (t : Table Number)
      → acl Resource.order_exchange_rate read (some order) ≡ true
      → get_active_rate_for_order acl order t ≡ ok (find (is_active_of order) t.rows)
  unfolding get_active_rate_for_order
  get_active-allowed acl order t h = rw (h, get_active_rate_for_order) refl

  -- What became of the active rate that was found: it is in the result, expired.
  abbrev pub Replaced : (found last : Option (RawOrderExchangeRate Number)) → Type 0
  Replaced none last = last ≡ none
  Replaced (some r) last =
      (e : RawOrderExchangeRate Number) × (last ≡ some e) × (e.id ≡ r.id) × (e.status ≡ expired)

  find-has_id :
      (o : ℕ) (rows : List (RawOrderExchangeRate Number)) {r : RawOrderExchangeRate Number}
      → find (is_active_of o) rows ≡ some r
      → (now : ℕ)
      → (e : RawOrderExchangeRate Number) × (find
            (rate_has_id r.id)
            (update_if (rate_has_id r.id) (expire now) rows)
          ≡ some e)
        × (e.id ≡ r.id)
        × (e.status ≡ expired)
  unfolding expire
  find-has_id o [] e now = cc
  find-has_id o (x ∷ rows) {r} e now = elim (Bool-cases (x.id == r.id)) [
    | inl here ↦ (expire now x, rw (here, here) refl, (==_iff x.id r.id).0 here, refl)
    | inr later ↦ elim (Bool-cases (is_active_of o x)) [
      | inl active_one ↦
          let same : some x ≡ some r = rw active_one at e in
          let equal : x ≡ r = cc in let key : (x.id == r.id) ≡ true = rw equal (==_refl r.id) in cc
      | inr other ↦ rw (later, later) (find-has_id o rows (rw other at e) now)
    ]
  ]

  expire_found-total :
      (o now : ℕ) (rows : List (RawOrderExchangeRate Number))
      → (out : Option (RawOrderExchangeRate Number) × List (RawOrderExchangeRate Number))
        × (expire_found now (find (is_active_of o) rows) rows ≡ ok out)
        × Replaced (find (is_active_of o) rows) out.0
  unfolding expire_found
  expire_found-total o now rows = elim (Option-cases (find (is_active_of o) rows)) [
    | inl nothing ↦ rw (nothing, expire_found) ((none, rows), refl, refl)
    | inr (r, found) ↦
        let (e, again, key, status) = find-has_id o rows found now in
        rw (found, expire_found, again)
          ((some e, update_if (rate_has_id r.id) (expire now) rows), refl, (e, refl, key, status))
  ]

  -- If no order has two active rates, then a call of `add_new_active_rate` that is not refused
  -- succeeds: the new rate is active and carries the sequence's next key, the time of the call, and
  -- the order, the exchange and the number that were asked for; every
  -- caller who may read the order's rates reads it as the active one, and the result holds the rate
  -- that was active before, if there was one, with its status set to expired.
  pub add_new_active_rate-get_active_rate_for_order :
      (acl reader : Acl ℕ) (now : ℕ) (n : NewOrderExchangeRate Number) (t : Table Number)
      → AtMostOneActive t
      → acl Resource.order_exchange_rate write (some n.order_id) ≡ true
      → reader Resource.order_exchange_rate read (some n.order_id) ≡ true
      → (latest : LatestExchangeRates Number) × ((add_new_active_rate acl now n t).0 ≡ ok latest)
        × (latest.active_rate ≡ record {
          id = t.next_id;
          order_id = n.order_id;
          exchange_id = n.exchange_id;
          exchange_rate = n.exchange_rate;
          status = active;
          created_at = now;
          updated_at = now;
        })
        × (get_active_rate_for_order reader n.order_id (add_new_active_rate acl now n t).1
            ≡ ok (some latest.active_rate))
        × Replaced (find (is_active_of n.order_id) t.rows) latest.last_expired_rate
  unfolding add_new_active_rate inserted raw_new_rate
  add_new_active_rate-get_active_rate_for_order acl reader now n t h writes reads =
      let row = inserted now t.next_id (raw_new_rate n) in
      let (out, e, replaced) = expire_found-total n.order_id now t.rows in
      let gone =
        count-zero n.order_id out.1 (expire_found-count n.order_id now t.rows (h n.order_id) e).0 in
      rw (writes, e, add_new_active_rate)
        (
          record { active_rate = row; last_expired_rate = out.0 },
          refl,
          refl,
          get_active-allowed reader n.order_id
                (record { rows = out.1 ++ row ∷ []; next_id = t.next_id + 1 }) reads
              ∙ ap ok (find-append n.order_id out.1 row gone (inserted-active now t.next_id n)),
          replaced,
        )

  update_if-none :
      (o now : ℕ) (rows : List (RawOrderExchangeRate Number))
      → find (is_active_of o) (update_if (is_active_of o) (expire now) rows) ≡ none
  update_if-none o now [] = refl
  update_if-none o now (x ∷ rows) = elim (Bool-cases (is_active_of o x)) [
    | inl here ↦ rw (here, expire-inactive o now x) (update_if-none o now rows)
    | inr later ↦ rw (later, later) (update_if-none o now rows)
  ]

  other-inactive :
      (o o' : ℕ) (r : RawOrderExchangeRate Number)
      → o' ≢ o
      → is_active_of o r ≡ true
      → is_active_of o' r ≡ false
  unfolding is_active_of
  other-inactive o o' r d h = ground arith

  update_if-other :
      (o o' now : ℕ) (rows : List (RawOrderExchangeRate Number))
      → o' ≢ o
      → find (is_active_of o') (update_if (is_active_of o) (expire now) rows)
        ≡ find (is_active_of o') rows
  update_if-other o o' now [] d = refl
  update_if-other o o' now (x ∷ rows) d = elim (Bool-cases (is_active_of o x)) [
    | inl here ↦
        rw (here, expire-inactive o' now x, other-inactive o o' x d here)
          (update_if-other o o' now rows d)
    | inr later ↦ rw (later, update_if-other o o' now rows d) refl
  ]

  -- Whatever the table holds, a call of `expire_current_active_rate` that is not refused leaves the
  -- order without an active rate, and every other order with the active rate that it had, as a
  -- caller who may read all rates finds them.
  expire_current_active_rate-get_active_rate_for_order :
      (acl reader : Acl ℕ) (now order : ℕ) (t : Table Number)
      → acl Resource.order_exchange_rate write (some order) ≡ true
      → ((o : ℕ) → reader Resource.order_exchange_rate read (some o) ≡ true)
      → (get_active_rate_for_order reader order (expire_current_active_rate acl now order t).1
          ≡ ok none)
        × ((o : ℕ)
            → o ≢ order
            → get_active_rate_for_order reader o (expire_current_active_rate acl now order t).1
              ≡ get_active_rate_for_order reader o t)
  unfolding expire_current_active_rate
  expire_current_active_rate-get_active_rate_for_order acl reader now order t writes reads =
      rw (writes, expire_current_active_rate)
        (
          get_active-allowed reader order
                (record t { rows = update_if (is_active_of order) (expire now) t.rows })
                (reads order)
              ∙ ap ok (update_if-none order now t.rows),
          λ o d.
              get_active-allowed reader o
                (record t { rows = update_if (is_active_of order) (expire now) t.rows }) (reads o)
              ∙ ap ok (update_if-other order o now t.rows d)
              ∙ sym (get_active-allowed reader o t (reads o)),
        )
