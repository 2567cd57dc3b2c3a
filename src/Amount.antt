-- ===== src/Amount.antt =====
-- Monetary amounts (src/models/amount.rs): a `u128`, its checked arithmetic, and the form in which
-- Postgres keeps it. An `i16` stands as its two's complement, a number below 2^16.
pub mod SuperUnits
pub mod Digits
pub mod Numeric
pub mod Tests
use billing.Base.{
  ℕ, zero, suc, ◌+◌, ◌-◌, ◌*◌, ◌/◌, ◌%◌, ◌^◌, Bool, true, false, not, Option, none, some, List, [],
  ◌∷◌, ◌++◌, ltb, leb, ◌==◌, if◌then◌else◌, length, Result, ok, err,
}

-- `u128::checked_add`, and so `Amount::checked_add`.
unfoldable pub checked_add : ℕ → ℕ → Option ℕ
checked_add a b = if ltb (a + b) (2 ^ 128) then some (a + b) else none

-- `Amount::checked_sub`
unfoldable pub checked_sub : ℕ → ℕ → Option ℕ
checked_sub a b = if leb b a then some (a - b) else none

-- `Amount::checked_mul`
unfoldable pub checked_mul : ℕ → ℕ → Option ℕ
checked_mul a b = if ltb (a * b) (2 ^ 128) then some (a * b) else none

-- `Amount::checked_div`
unfoldable pub checked_div : ℕ → ℕ → Option ℕ
checked_div a b = if b == 0 then none else some (a / b)

-- `impl From<Amount> for u64`
unfoldable pub to_u64 : ℕ → ℕ
to_u64 a = a % 2 ^ 64

-- diesel's `PgNumeric`; the digits are base 10000, the most significant one first.
pub data PgNumeric : Type 0 where
  positive : (weight scale : ℕ) (digits : List ℕ) → PgNumeric
  negative : (weight scale : ℕ) (digits : List ℕ) → PgNumeric
  nan : PgNumeric

-- The deserialisation errors of `pg_decimal_to_u128`, in the order of its texts.
pub data NumericError : Type 0 where
  negative_number not_a_number nonzero_scale negative_weight digits_overflow negative_exponent
        correction_overflow :
      NumericError

-- The sign of an `i16`, and its conversion by `as u128`, which extends the sign.
abbrev pub is_negative : ℕ → Bool
is_negative d = leb (2 ^ 15) d

abbrev pub as_u128 : ℕ → ℕ
as_u128 d = if is_negative d then 2 ^ 128 + d - 2 ^ 16 else d

-- `ToBase10000` on fuel: the digits, the least significant one first.
unfoldable pub to_base_10000 : ℕ → ℕ → List ℕ
to_base_10000 zero v = []
to_base_10000 (suc fuel) v =
    (v % 10000) ∷ (elim (v / 10000 == 0) [ true ↦ [] | false ↦ to_base_10000 fuel (v / 10000) ])

-- `skip_while(|digit| *digit == 0)`
unfoldable pub skip_zeros : List ℕ → List ℕ
skip_zeros [] = []
skip_zeros (d ∷ ds) = elim (d == 0) [ true ↦ skip_zeros ds | false ↦ d ∷ ds ]

abbrev pub reversed : List ℕ → List ℕ
reversed [] = []
reversed (d ∷ ds) = reversed ds ++ d ∷ []

-- `u128_to_pg_decimal`; a `u128` has at most ten digits.
unfoldable pub u128_to_pg_decimal : ℕ → PgNumeric
unfolding to_base_10000 skip_zeros
u128_to_pg_decimal v =
    let digits = to_base_10000 10 v in positive (length digits - 1) 0 (reversed (skip_zeros digits))

-- One round of the loop over the digits.
unfoldable pub add_digit : Option ℕ → ℕ → Option ℕ
unfolding checked_add checked_mul
add_digit none d = none
add_digit (some result) d = elim (checked_mul result 10000) [
  | none ↦ none
  | some res ↦ checked_add res (as_u128 d)
]

-- The loop over the digits; once it has failed it has returned.
unfoldable pub add_digits : Option ℕ → List ℕ → Option ℕ
unfolding add_digit
add_digits result [] = result
add_digits result (d ∷ ds) = add_digits (add_digit result d) ds

-- `10u128.pow(e)`, which wraps around in a release build.
unfoldable pub pow10 : ℕ → ℕ
pow10 e = 10 ^ e % 2 ^ 128

-- `pg_decimal_to_u128`
unfoldable pub pg_decimal_to_u128 : PgNumeric → Result NumericError ℕ
unfolding add_digits pow10 checked_mul
pg_decimal_to_u128 nan = err not_a_number
pg_decimal_to_u128 (negative weight scale digits) = err negative_number
pg_decimal_to_u128 (positive weight scale digits) =
    if not (scale == 0)
    then err nonzero_scale
    else if is_negative weight
    then err negative_weight
    else elim (add_digits (some 0) digits) [
      | none ↦ err digits_overflow
      | some result ↦
          if ltb (weight + 1) (length digits)
          then err negative_exponent
          else elim (checked_mul result (pow10 (4 * (weight + 1 - length digits)))) [
            | none ↦ err correction_overflow
            | some r ↦ ok r
          ]
    ]
