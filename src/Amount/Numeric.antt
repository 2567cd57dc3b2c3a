-- ===== src/Amount/Numeric.antt =====
-- The conversion of amounts to Postgres's numeric type and back.
use billing.Base.{
  none, inl, inr, Bool-cases, ℕ, zero, suc, ◌+◌, ◌-◌, ◌*◌, ◌%◌, ◌^◌, ◌≤◌, ◌<◌, ◌≡◌, refl, ap, ◌∙◌,
  false, some, List, All, ltb, if◌then◌else◌, lt→ltb, length, arith, ok, err,
}
use native.Mathlib.Nat.{
  mul-mod_right, mul-le-mul_left, mod-eq_of_lt, mul_comm, pow-le-pow_right, pow-succ',
}
use billing.Amount.{
  checked_mul, positive, correction_overflow, digits_overflow, is_negative, to_base_10000,
  skip_zeros, reversed, add_digits, pow10, u128_to_pg_decimal, pg_decimal_to_u128,
}
use billing.Amount.Digits.{
  worth, IsDigit, to_base_10000-worth, to_base_10000-IsDigit, to_base_10000-length,
  skip_zeros-IsDigit, skip_zeros-worth, skip_zeros-le, add_digits-total, length-reversed,
  add_digits-reversed, pow-four,
}

-- The last step of the conversion, at a power of 10000.
correction :
    (k w : ℕ) → 10000 ^ k * w < 2 ^ 128 → checked_mul w (pow10 (4 * k)) ≡ some (10000 ^ k * w)
unfolding checked_mul pow10
correction k zero h = ground arith
correction k (suc w) h =
    let bound : 10000 ^ k < 2 ^ 128 =
      omega (arith, mul-le-mul_left {m = 1} {n = suc w} (10000 ^ k) (omega arith)) in
    let whole : 10 ^ (4 * k) % 2 ^ 128 ≡ 10000 ^ k = rw (pow-four k) (mod-eq_of_lt bound) in
    rw whole (rw (mul_comm (suc w) (10000 ^ k), lt→ltb (10000 ^ k * suc w) (2 ^ 128) h) refl)

-- Digits are read back from the numeric without their leading zeros.
read_back :
    (ds : List ℕ)
    → All IsDigit ds
    → 1 ≤ length ds
    → length ds < 2 ^ 15
    → worth ds < 2 ^ 128
    → pg_decimal_to_u128 (positive (length ds - 1) 0 (reversed (skip_zeros ds))) ≡ ok (worth ds)
unfolding pg_decimal_to_u128
read_back ds digits some_lem few h =
    let (k, l, w) = skip_zeros-worth ds in
    let short = skip_zeros ds in
    let sign : is_negative (length ds - 1) ≡ false = ground arith in
    let len : length (reversed short) ≡ length short = length-reversed short in
    let fits : ltb (length ds - 1 + 1) (length short) ≡ false = ground arith in
    let exp : length ds - 1 + 1 - length short ≡ k = omega arith in
    let whole : 10000 ^ k * worth short < 2 ^ 128 = omega arith in
    let read : add_digits (some 0) (reversed short) ≡ some (worth short) =
      add_digits-reversed short (skip_zeros-IsDigit ds digits) (omega (arith, skip_zeros-le ds)) in
    rw (sign, read, len, fits, exp, correction k (worth short) whole, w) refl

-- An amount below 2^128 is written to Postgres as a numeric that is read back as the same amount.
pub pg_decimal_to_u128-u128_to_pg_decimal :
    (v : ℕ) → v < 2 ^ 128 → pg_decimal_to_u128 (u128_to_pg_decimal v) ≡ ok v
unfolding u128_to_pg_decimal
pg_decimal_to_u128-u128_to_pg_decimal v h =
    let value : worth (to_base_10000 10 v) ≡ v = to_base_10000-worth 10 v (omega arith) in
    read_back (to_base_10000 10 v) (to_base_10000-IsDigit 10 v) (to_base_10000-length 9 v).0
      (omega (arith, (to_base_10000-length 10 v).1)) (rw value h)
    ∙ ap ok value

-- A numeric of digits below 10000 that are followed by `k` groups of zeros, at most nine, is read as
-- the number that it stands for when that fits a `u128`. Otherwise it is refused: with the error of
-- the loop over the digits if these alone do not fit, and with that of the correction if they do.
pub pg_decimal_to_u128-worth :
    (k : ℕ) (ds : List ℕ)
    → All IsDigit ds
    → k ≤ 9
    → 1 ≤ k + length ds
    → k + length ds < 2 ^ 15
    → pg_decimal_to_u128 (positive (k + length ds - 1) 0 (reversed ds)) ≡ (
        if ltb (worth ds) (2 ^ 128)
        then (if ltb (10000 ^ k * worth ds) (2 ^ 128)
            then ok (10000 ^ k * worth ds)
            else err correction_overflow)
        else err digits_overflow)
unfolding pg_decimal_to_u128 checked_mul pow10
pg_decimal_to_u128-worth k ds digits small some_lem few =
    let sign : is_negative (k + length ds - 1) ≡ false = ground arith in
    let len : length (reversed ds) ≡ length ds = length-reversed ds in
    let fits : ltb (k + length ds - 1 + 1) (length ds) ≡ false = ground arith in
    let exp : k + length ds - 1 + 1 - length ds ≡ k = omega arith in
    let bound : 10000 ^ k < 2 ^ 128 =
      omega (arith, pow-le-pow_right {n = 10000} (omega arith) {i = k} {j = 9} small) in
    let whole : 10 ^ (4 * k) % 2 ^ 128 ≡ 10000 ^ k = rw (pow-four k) (mod-eq_of_lt bound) in
    elim (Bool-cases (ltb (worth ds) (2 ^ 128))) [
      | inl few_digits ↦
          let read : add_digits (some 0) (reversed ds) ≡ some (worth ds) =
            rw few_digits at (add_digits-total ds digits) in
          rw (few_digits, sign, read, len, fits, exp, whole, mul_comm (worth ds) (10000 ^ k))
            (ground arith)
      | inr large ↦
          let read : add_digits (some 0) (reversed ds) ≡ none =
            rw large at (add_digits-total ds digits) in
          rw (large, sign, read) refl
    ]

wraps : (j : ℕ) → (q : ℕ) × (10 ^ (128 + j) ≡ 2 ^ 128 * q)
wraps zero = (5 ^ 128, refl)
wraps (suc j) =
    let (q, e) = wraps j in
    let next : 128 + suc j ≡ suc (128 + j) = omega arith in
    (10 * q, ap (λ (n : ℕ). 10 ^ n) next ∙ omega (arith, e, pow-succ' 10 (128 + j)))

pow10-wraps : (k : ℕ) → 32 ≤ k → pow10 (4 * k) ≡ 0
unfolding pow10
pow10-wraps k h =
    let (q, e) = wraps (4 * k - 128) in
    let exp : 4 * k ≡ 128 + (4 * k - 128) = omega arith in rw (exp, e) (mul-mod_right (2 ^ 128) q)

checked_mul-zero : (w : ℕ) → checked_mul w 0 ≡ some 0
unfolding checked_mul
checked_mul-zero w = ground arith

-- A numeric of digits below 10000 that are followed by 32 or more groups of zeros is read as zero,
-- where the power of ten wraps around, if its digits alone are worth less than 2^128, and is refused
-- with the error of the loop over the digits otherwise; the error of the correction never comes.
pub pg_decimal_to_u128-wraps :
    (k : ℕ) (ds : List ℕ)
    → All IsDigit ds
    → 32 ≤ k
    → k + length ds < 2 ^ 15
    → pg_decimal_to_u128 (positive (k + length ds - 1) 0 (reversed ds))
      ≡ (if ltb (worth ds) (2 ^ 128) then ok 0 else err digits_overflow)
unfolding pg_decimal_to_u128
pg_decimal_to_u128-wraps k ds digits large few =
    let sign : is_negative (k + length ds - 1) ≡ false = ground arith in
    let len : length (reversed ds) ≡ length ds = length-reversed ds in
    let fits : ltb (k + length ds - 1 + 1) (length ds) ≡ false = ground arith in
    let exp : k + length ds - 1 + 1 - length ds ≡ k = omega arith in
    elim (Bool-cases (ltb (worth ds) (2 ^ 128))) [
      | inl few_digits ↦
          let read : add_digits (some 0) (reversed ds) ≡ some (worth ds) =
            rw few_digits at (add_digits-total ds digits) in
          rw
            (
              few_digits,
              sign,
              read,
              len,
              fits,
              exp,
              pow10-wraps k large,
              checked_mul-zero (worth ds),
            )
            refl
      | inr many ↦
          let read : add_digits (some 0) (reversed ds) ≡ none =
            rw many at (add_digits-total ds digits) in
          rw (many, sign, read) refl
    ]
