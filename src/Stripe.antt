-- ===== src/Stripe.antt =====
-- What the services use of the card processor: the client's interface (src/client/stripe/mod.rs) and
-- what it takes (src/client/stripe/types.rs), over a state of its own. Answers are those of an outside
-- service; ids, card tokens and cards stand as numbers.
use billing.Base.{ℕ, Bytes, Bool, Option, List, Result, ServiceError}
use billing.Currency.{Currency}

-- `NewCharge`
pub record NewCharge : Type 0 where
  pub customer_id : ℕ
  pub amount : ℕ
  pub currency : Currency
  pub capture : Bool

-- The fields of the processor's charge that are read.
pub record Charge : Type 0 where
  pub id : ℕ
  pub paid : Bool

-- The processor's `PaymentSource`.
pub data PaymentSource : Type 0 where
  card_source bank_account other_source : ℕ → PaymentSource

-- The fields of the processor's customer that are read.
pub record StripeCustomer : Type 0 where
  pub id : ℕ
  pub email : Option Bytes
  pub sources : List PaymentSource

-- `NewCustomerWithSource`
pub record NewCustomerWithSource : Type 0 where
  pub email : Option Bytes
  pub token : ℕ

-- `UpdateCustomer`
pub record UpdateCustomer : Type 0 where
  pub email : Option Bytes
  pub token : Option ℕ

-- `StripeClient`, the methods for customers and charges; a deletion is answered by whether it was done.
-- Errors are as the services convert them.
pub record StripeClient (G : Type 0) : Type 0 where
  pub create_customer_with_source :
      NewCustomerWithSource → G → Result ServiceError StripeCustomer × G
  pub get_customer : ℕ → G → Result ServiceError StripeCustomer × G
  pub delete_customer : ℕ → G → Result ServiceError Bool × G
  pub update_customer : ℕ → UpdateCustomer → G → Result ServiceError StripeCustomer × G
  pub create_charge : NewCharge → G → Result ServiceError Charge × G
