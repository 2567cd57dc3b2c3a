-- ===== src/Amount/Tests.antt =====
-- Conversions of amounts at concrete numbers.
use billing.Base.{
  ℕ, ◌+◌, ◌-◌, ◌*◌, ◌^◌, ◌≡◌, List, [], ◌∷◌, length, ltb, if◌then◌else◌, arith, ok, err,
}
use billing.Amount.{
  positive, correction_overflow, digits_overflow, reversed, u128_to_pg_decimal, pg_decimal_to_u128,
}
use billing.Amount.Digits.{worth}
use billing.Amount.Numeric.{
  pg_decimal_to_u128-u128_to_pg_decimal, pg_decimal_to_u128-worth, pg_decimal_to_u128-wraps,
}

-- The digits of 1000000001000000000000000000 without its four groups of zeros.
abbrev sample : List ℕ
sample = 10 ∷ 0 ∷ 1000 ∷ []

round_trip_example :
    pg_decimal_to_u128 (u128_to_pg_decimal 340000000000000000000) ≡ ok 340000000000000000000
round_trip_example = pg_decimal_to_u128-u128_to_pg_decimal 340000000000000000000 (omega arith)

worth_example : pg_decimal_to_u128 (positive (4 + length sample - 1) 0 (reversed sample)) ≡ (
    if ltb (worth sample) (2 ^ 128)
    then (if ltb (10000 ^ 4 * worth sample) (2 ^ 128)
        then ok (10000 ^ 4 * worth sample)
        else err correction_overflow)
    else err digits_overflow)
worth_example =
    pg_decimal_to_u128-worth 4 sample (omega arith) (omega arith) (omega arith) (omega arith)

wraps_example :
    pg_decimal_to_u128 (positive (32 + length sample - 1) 0 (reversed sample))
    ≡ (if ltb (worth sample) (2 ^ 128) then ok 0 else err digits_overflow)
wraps_example = pg_decimal_to_u128-wraps 32 sample (omega arith) (omega arith) (omega arith)
