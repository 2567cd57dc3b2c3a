-- ===== src/Amount/Digits.antt =====
-- Base 10000: what the digits of an amount are worth, and how many there are.
use billing.Base.{
  false, none, ltb, if◌then◌else◌, ℕ, zero, suc, ◌+◌, ◌*◌, ◌/◌, ◌^◌, ◌≤◌, ◌<◌, ◌≡◌, refl, ap, ◌∙◌,
  inl, inr, Option, some, List, [], ◌∷◌, ◌++◌, All, ◌==◌, ==_iff, length, length-append, Bool-cases,
  arith,
}
use native.Mathlib.Nat.{mul_assoc, pow-succ'}
use billing.Amount.{
  checked_add, checked_mul, to_base_10000, skip_zeros, reversed, add_digit, add_digits,
}

-- The number that digits stand for, the least significant one first.
abbrev pub worth : List ℕ → ℕ
worth [] = 0
worth (d ∷ ds) = d + 10000 * worth ds

abbrev pub IsDigit : ℕ → Type 0
IsDigit d = d < 10000

pow-suc : (f : ℕ) → 10000 ^ suc f ≡ 10000 * 10000 ^ f
pow-suc f = pow-succ' 10000 f

pow_times : (k w : ℕ) → 10000 ^ suc k * w ≡ 10000 * (10000 ^ k * w)
pow_times k w = ap (λ (x : ℕ). x * w) (pow-suc k) ∙ mul_assoc 10000 (10000 ^ k) w

pub to_base_10000-worth : (fuel v : ℕ) → v < 10000 ^ fuel → worth (to_base_10000 fuel v) ≡ v
unfolding to_base_10000
to_base_10000-worth zero v h = omega arith
to_base_10000-worth (suc fuel) v h = elim (Bool-cases (v / 10000 == 0)) [
  | inl e ↦ rw (e, to_base_10000) (ground arith)
  | inr e ↦
      rw (e, to_base_10000)
        (omega (arith, to_base_10000-worth fuel (v / 10000) (omega (arith, pow-suc fuel))))
]

pub to_base_10000-IsDigit : (fuel v : ℕ) → All IsDigit (to_base_10000 fuel v)
unfolding to_base_10000
to_base_10000-IsDigit zero v = tt
to_base_10000-IsDigit (suc fuel) v = elim (Bool-cases (v / 10000 == 0)) [
  | inl e ↦ rw (e, to_base_10000) (omega arith, tt)
  | inr e ↦ rw (e, to_base_10000) (omega arith, to_base_10000-IsDigit fuel (v / 10000))
]

pub skip_zeros-IsDigit : (ds : List ℕ) → All IsDigit ds → All IsDigit (skip_zeros ds)
unfolding skip_zeros
skip_zeros-IsDigit [] h = tt
skip_zeros-IsDigit (d ∷ ds) h = elim (Bool-cases (d == 0)) [
  | inl e ↦ rw (e, skip_zeros) (skip_zeros-IsDigit ds h.1)
  | inr e ↦ rw (e, skip_zeros) h
]

pub to_base_10000-length :
    (fuel v : ℕ)
    → (1 ≤ length (to_base_10000 (suc fuel) v)) × (length (to_base_10000 fuel v) ≤ fuel)
unfolding to_base_10000
to_base_10000-length fuel v = (omega arith, at_most fuel v)
  where
    at_most : (f w : ℕ) → length (to_base_10000 f w) ≤ f
    at_most zero w = omega arith
    at_most (suc f) w = elim (Bool-cases (w / 10000 == 0)) [
      | inl e ↦ rw (e, to_base_10000) (omega arith)
      | inr e ↦ rw (e, to_base_10000) (omega (arith, at_most f (w / 10000)))
    ]

-- How many zeros are skipped, and what the skipping divides by.
pub skip_zeros-worth :
    (ds : List ℕ)
    → (k : ℕ) × (length ds ≡ k + length (skip_zeros ds))
      × (worth ds ≡ 10000 ^ k * worth (skip_zeros ds))
unfolding skip_zeros
skip_zeros-worth [] = (0, refl, refl)
skip_zeros-worth (d ∷ ds) = elim (Bool-cases (d == 0)) [
  | inl e ↦
      let (k, l, w) = skip_zeros-worth ds in
      (
        suc k,
        rw (e, skip_zeros) (omega arith),
        rw (e, skip_zeros) (omega (arith, pow_times k (worth (skip_zeros ds)), (==_iff d 0).0 e)),
      )
  | inr e ↦ (0, rw (e, skip_zeros) (omega arith), rw (e, skip_zeros) (omega arith))
]

pub length-reversed : (ds : List ℕ) → length (reversed ds) ≡ length ds
length-reversed [] = refl
length-reversed (d ∷ ds) = omega (arith, length-append (reversed ds) (d ∷ []), length-reversed ds)

add_digits-append :
    (r : Option ℕ) (xs ys : List ℕ) → add_digits r (xs ++ ys) ≡ add_digits (add_digits r xs) ys
unfolding add_digits
add_digits-append r [] ys = refl
add_digits-append r (x ∷ xs) ys = add_digits-append (add_digit r x) xs ys

add_digit_lem :
    (r d : ℕ) → IsDigit d → d + 10000 * r < 2 ^ 128 → add_digit (some r) d ≡ some (d + 10000 * r)
unfolding add_digit checked_mul checked_add
add_digit_lem r d h b = ground arith

-- The loop over digits reads their worth, when that fits a `u128`.
pub add_digits-reversed :
    (ds : List ℕ)
    → All IsDigit ds
    → worth ds < 2 ^ 128
    → add_digits (some 0) (reversed ds) ≡ some (worth ds)
unfolding add_digits
add_digits-reversed [] h b = refl
add_digits-reversed (d ∷ ds) h b =
    add_digits-append (some 0) (reversed ds) (d ∷ [])
    ∙ rw (add_digits-reversed ds h.1 (omega arith)) (add_digit_lem (worth ds) d h.0 b)

add_digit-total :
    (r d : ℕ)
    → IsDigit d
    → r < 2 ^ 128
    → add_digit (some r) d ≡ (if ltb (d + 10000 * r) (2 ^ 128) then some (d + 10000 * r) else none)
unfolding add_digit checked_mul checked_add
add_digit-total r d h b = ground arith

-- The loop over digits reads their worth or overflows.
pub add_digits-total :
    (ds : List ℕ)
    → All IsDigit ds
    → add_digits (some 0) (reversed ds)
      ≡ (if ltb (worth ds) (2 ^ 128) then some (worth ds) else none)
unfolding add_digits add_digit
add_digits-total [] h = refl
add_digits-total (d ∷ ds) h =
    let split = add_digits-append (some 0) (reversed ds) (d ∷ []) in
    elim (Bool-cases (ltb (worth ds) (2 ^ 128))) [
      | inl fits ↦
          let read : add_digits (some 0) (reversed ds) ≡ some (worth ds) =
            rw fits at (add_digits-total ds h.1) in
          split ∙ rw read (add_digit-total (worth ds) d h.0 (ground arith))
      | inr large ↦
          let read : add_digits (some 0) (reversed ds) ≡ none =
            rw large at (add_digits-total ds h.1) in
          let over : ltb (d + 10000 * worth ds) (2 ^ 128) ≡ false = ground arith in
          split ∙ rw (read, over, add_digit) refl
    ]

-- Ten to four times a number.
pub pow-four : (k : ℕ) → 10 ^ (4 * k) ≡ 10000 ^ k
pow-four zero = refl
pow-four (suc k) =
    let e : 4 * suc k ≡ suc (suc (suc (suc (4 * k)))) = omega arith in
    rw e (
      omega (
        arith,
        pow-succ' 10 (suc (suc (suc (4 * k)))),
        pow-succ' 10 (suc (suc (4 * k))),
        pow-succ' 10 (suc (4 * k)),
        pow-succ' 10 (4 * k),
        pow-suc k,
        pow-four k,
      ))

pub skip_zeros-le : (ds : List ℕ) → worth (skip_zeros ds) ≤ worth ds
unfolding skip_zeros
skip_zeros-le [] = omega arith
skip_zeros-le (d ∷ ds) = elim (Bool-cases (d == 0)) [
  | inl e ↦ rw (e, skip_zeros) (omega (arith, skip_zeros-le ds))
  | inr e ↦ rw (e, skip_zeros) (omega arith)
]
