-- ===== src/Rates/Active.antt =====
-- How many active rates an order has in the table `order_exchange_rates`, and what each update of
-- src/repos/order_exchange_rates.rs does to that number.
use billing.Base.{
  ℕ, suc, ◌+◌, ◌≤◌, ◌<◌, ◌≡◌, refl, inl, inr, Bool, true, false, none, some, List, [], ◌∷◌, ◌++◌,
  find, keep_if, update_if, arith, if◌then◌else◌, Bool-cases,
}
use billing.Rates.{RawOrderExchangeRate, Table, is_active_of, is_active, expire}

abbrev Rows : Type 0 → Type 0
Rows Number = List (RawOrderExchangeRate Number)

module _ {Number : Type 0} where
  -- The number of an order's active rates.
  unfoldable pub count_active : ℕ → Rows Number → ℕ
  unfolding is_active_of
  count_active o [] = 0
  count_active o (r ∷ rows) =
      let rest = count_active o rows in if is_active_of o r then suc rest else rest

  -- No order has two active rates.
  abbrev pub AtMostOneActive : Table Number → Type 0
  AtMostOneActive t = (o : ℕ) → count_active o t.rows ≤ 1

  pub expire-inactive :
      (o now : ℕ) (r : RawOrderExchangeRate Number) → is_active_of o (expire now r) ≡ false
  unfolding is_active_of is_active expire
  expire-inactive o now r = ground arith

  pub count-append :
      (o : ℕ) (rows : Rows Number) (r : RawOrderExchangeRate Number)
      → count_active o (rows ++ r ∷ []) ≡ count_active o rows + count_active o (r ∷ [])
  unfolding count_active
  count-append o [] r = omega arith
  count-append o (x ∷ rows) r = ground (arith, count-append o rows r)

  pub count-keep_if :
      (o : ℕ) (p : RawOrderExchangeRate Number → Bool) (rows : Rows Number)
      → count_active o (keep_if p rows) ≤ count_active o rows
  unfolding count_active
  count-keep_if o p [] = omega arith
  count-keep_if o p (x ∷ rows) = ground (arith, count-keep_if o p rows)

  -- Rows that expire are no longer counted.
  pub count-expire :
      (o now : ℕ) (p : RawOrderExchangeRate Number → Bool) (rows : Rows Number)
      → count_active o (update_if p (expire now) rows) ≤ count_active o rows
  unfolding count_active
  count-expire o now p [] = omega arith
  count-expire o now p (x ∷ rows) =
      ground (arith, expire-inactive o now x, count-expire o now p rows)

  -- When the order's first active rate expires, the order has one less.
  pub count-expire_found :
      (o now : ℕ) (p : RawOrderExchangeRate Number → Bool) (r : RawOrderExchangeRate Number)
      (rows : Rows Number)
      → find (is_active_of o) rows ≡ some r
      → p r ≡ true
      → count_active o (update_if p (expire now) rows) < count_active o rows
  unfolding count_active
  count-expire_found o now p r [] e h = cc
  count-expire_found o now p r (x ∷ rows) e h = elim (Bool-cases (is_active_of o x)) [
    | inl here ↦
        let same : some x ≡ some r = rw here at e in
        let hit : p x ≡ true = cc in
        rw (here, hit, expire-inactive o now x) (omega (arith, count-expire o now p rows))
    | inr later ↦
        let rest = count-expire_found o now p r rows (rw later at e) h in
        ground (arith, expire-inactive o now x)
  ]

  pub count-none :
      (o : ℕ) (rows : Rows Number) → find (is_active_of o) rows ≡ none → count_active o rows ≡ 0
  unfolding count_active
  count-none o [] e = refl
  count-none o (x ∷ rows) e = ground (arith, count-none o rows)

  pub count-zero :
      (o : ℕ) (rows : Rows Number) → count_active o rows ≡ 0 → find (is_active_of o) rows ≡ none
  unfolding count_active
  count-zero o [] e = refl
  count-zero o (x ∷ rows) e = ground (arith, count-zero o rows)
