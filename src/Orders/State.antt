-- ===== src/Orders/State.antt =====
-- The payment state of an order and its text forms (src/models/payment_state.rs).
use billing.Base.{
  ℕ, Bytes, codes, bytes_eq, to_ascii_lowercase, Bool, Option, none, some, if◌then◌else◌, ◌==◌,
}

-- `PaymentState`
pub data PaymentState : Type 0 where
  initial declined captured refund_needed refunded paid_to_seller payment_to_seller_needed :
      PaymentState

-- `impl Display for PaymentState`, and the bytes of `impl ToSql`.
unfoldable pub display : PaymentState → Bytes
display initial = codes "initial"
display declined = codes "declined"
display captured = codes "captured"
display refunded = codes "refunded"
display refund_needed = codes "refund_needed"
display paid_to_seller = codes "paid_to_seller"
display payment_to_seller_needed = codes "payment_to_seller_needed"

-- `impl ToSql<VarChar, Pg> for PaymentState`
unfoldable pub to_sql : PaymentState → Bytes
to_sql initial = codes "initial"
to_sql declined = codes "declined"
to_sql captured = codes "captured"
to_sql refunded = codes "refunded"
to_sql refund_needed = codes "refund_needed"
to_sql paid_to_seller = codes "paid_to_seller"
to_sql payment_to_seller_needed = codes "payment_to_seller_needed"

-- The arms that `from_str` and `from_sql` share.
unfoldable pub match_text : Bytes → Option PaymentState
match_text s =
    if bytes_eq s (codes "initial")
    then some initial
    else if bytes_eq s (codes "declined")
    then some declined
    else if bytes_eq s (codes "captured")
    then some captured
    else if bytes_eq s (codes "refunded")
    then some refunded
    else if bytes_eq s (codes "refund_needed")
    then some refund_needed
    else if bytes_eq s (codes "paid_to_seller")
    then some paid_to_seller
    else if bytes_eq s (codes "payment_to_seller_needed")
    then some payment_to_seller_needed
    else none

-- `impl FromStr for PaymentState`
unfoldable pub from_str : Bytes → Option PaymentState
unfolding match_text
from_str s = match_text (to_ascii_lowercase s)

-- `impl FromSql<VarChar, Pg> for PaymentState`; both of its errors are `none`.
unfoldable pub from_sql : Option Bytes → Option PaymentState
unfolding match_text
from_sql none = none
from_sql (some v) = match_text v

-- The derived `PartialEq`.
unfoldable pub state_code : PaymentState → ℕ
state_code initial = 0
state_code declined = 1
state_code captured = 2
state_code refund_needed = 3
state_code refunded = 4
state_code paid_to_seller = 5
state_code payment_to_seller_needed = 6

abbrev pub state_eq : PaymentState → PaymentState → Bool
state_eq a b = state_code a == state_code b
