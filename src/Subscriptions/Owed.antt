-- ===== src/Subscriptions/Owed.antt =====
-- The sum that `calculate_total_amount` of src/services/subscription_payment.rs charges.
use billing.Base.{
  ℕ, ◌+◌, ◌*◌, ◌^◌, ◌<◌, ◌≡◌, inl, inr, List, [], ◌∷◌, ltb, if◌then◌else◌, arith, ok, err,
  ServiceError, Bool-cases, ltb→lt,
}
use billing.Amount.{checked_add, checked_mul}
use billing.Subscriptions.{Subscription, from_quantity, add_amounts, calculate_total_amount}

-- What the subscriptions cost.
abbrev pub owed : (value : ℕ) → List Subscription → ℕ
owed value [] = 0
owed value (s ∷ rows) = from_quantity s.published_base_products_quantity * value + owed value rows

add_amounts-owed :
    (value total : ℕ) (rows : List Subscription)
    → total < 2 ^ 128
    → add_amounts value total rows ≡ (
        if ltb (total + owed value rows) (2 ^ 128)
        then ok (total + owed value rows)
        else err ServiceError.internal)
unfolding add_amounts
add_amounts-owed value total [] h = ground arith
add_amounts-owed value total (s ∷ rows) h =
    let amount = from_quantity s.published_base_products_quantity * value in
    let rest = owed value rows in
    let assoc : total + (amount + rest) ≡ total + amount + rest = omega arith in
    elim (Bool-cases (ltb amount (2 ^ 128))) [
      | inl fits ↦ elim (Bool-cases (ltb (total + amount) (2 ^ 128))) [
        | inl sum_fits ↦
            rw (assoc, fits, sum_fits, add_amounts, checked_add)
              (add_amounts-owed value (total + amount) rows
                (ltb→lt (total + amount) (2 ^ 128) sum_fits))
        | inr too_much ↦ rw (assoc, fits, too_much, add_amounts, checked_add) (ground arith)
      ]
      | inr too_much ↦ rw (assoc, too_much, add_amounts, checked_mul) (ground arith)
    ]

-- `calculate_total_amount` is the sum of what each subscription costs if that is below 2^128, and
-- an internal error otherwise.
pub calculate_total_amount-owed :
    (value : ℕ) (rows : List Subscription)
    → calculate_total_amount value rows ≡ (
        if ltb (owed value rows) (2 ^ 128) then ok (owed value rows) else err ServiceError.internal)
unfolding calculate_total_amount
calculate_total_amount-owed value rows =
    let zero_add : 0 + owed value rows ≡ owed value rows = omega arith in
    rw zero_add at (add_amounts-owed value 0 rows (omega arith))
