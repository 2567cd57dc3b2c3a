-- ===== src/Orders/Texts.antt =====
-- What the text forms of payment states accept (src/models/payment_state.rs).
use billing.Base.{
  ◌≡◌, ◌↔◌, refl, sym, ap, ◌∙◌, ℕ, Bytes, codes, bytes_eq_iff, to_ascii_lowercase, some, arith,
  ◌==◌, if◌then◌else◌,
}
use billing.Orders.State.{
  PaymentState, initial, declined, captured, refund_needed, refunded, paid_to_seller,
  payment_to_seller_needed, display, to_sql, match_text, from_str, from_sql, state_code,
}

match_text-to_sql : (s : PaymentState) → match_text (to_sql s) ≡ some s
unfolding match_text to_sql
match_text-to_sql initial = refl
match_text-to_sql _ = refl

to_sql_of_match : (v : Bytes) (s : PaymentState) → match_text v ≡ some s → v ≡ to_sql s
unfolding match_text to_sql
to_sql_of_match v s h = ground (
  arith,
  bytes_eq_iff v (codes "initial"),
  bytes_eq_iff v (codes "declined"),
  bytes_eq_iff v (codes "captured"),
  bytes_eq_iff v (codes "refunded"),
  bytes_eq_iff v (codes "refund_needed"),
  bytes_eq_iff v (codes "paid_to_seller"),
  bytes_eq_iff v (codes "payment_to_seller_needed"),
)

lowered : (s : PaymentState) → to_sql s ≡ display s
unfolding to_sql display
lowered initial = refl
lowered _ = refl

-- A column decodes to a payment state exactly when it holds the bytes written for that state; and
-- a text parses to a payment state exactly when its lowered form is the one displayed.
pub texts_iff :
    (v : Bytes) (s : PaymentState)
    → ((from_sql (some v) ≡ some s) ↔ (v ≡ to_sql s))
      × ((from_str v ≡ some s) ↔ (to_ascii_lowercase v ≡ display s))
unfolding from_sql from_str
texts_iff v s = (
  (to_sql_of_match v s, λ e. rw e (match_text-to_sql s)),
  (
    λ h. to_sql_of_match (to_ascii_lowercase v) s h ∙ lowered s,
    λ e. rw (e, sym (lowered s)) (match_text-to_sql s),
  ),
)

of_code : ℕ → PaymentState
of_code n =
    if n == 0
    then initial
    else if n == 1
    then declined
    else if n == 2
    then captured
    else if n == 3
    then refund_needed
    else if n == 4
    then refunded
    else if n == 5
    then paid_to_seller
    else payment_to_seller_needed

of_code-state_code : (s : PaymentState) → of_code (state_code s) ≡ s
unfolding of_code state_code
of_code-state_code initial = refl
of_code-state_code _ = refl

pub state_code-injective : (a b : PaymentState) → state_code a ≡ state_code b → a ≡ b
state_code-injective a b e = sym (of_code-state_code a) ∙ ap of_code e ∙ of_code-state_code b
