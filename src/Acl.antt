-- ===== src/Acl.antt =====
-- Access control: resources, actions, scopes and permissions (src/models/authorization), the roles'
-- permissions and the test that they pass (src/repos/acl).
pub mod Grants
pub mod Tests
use billing.Base.{
  ℕ, Bool, true, false, ◌&&◌, ◌||◌, Option, List, [], ◌∷◌, ◌++◌, ◌==◌, ltb, length, keep_if, Result,
  RepoError, guard,
}

-- `Resource`
pub data Resource : Type 0 where
  account billing_info order_info user_roles invoice order_exchange_rate payment_intent : Resource
  proxy_company_billing_info store_billing_type subscription store_subscription : Resource
  store_subscription_status subscription_payment customer fee payment_intent_invoice : Resource
  payment_intent_fee user_wallet payout : Resource

-- `Action`; named for the source's `Action::All`, `Read` and `Write`.
pub data Action : Type 0 where
  any_action read write : Action

-- `Scope`
pub data Scope : Type 0 where
  everything owned : Scope

-- `Permission`
pub record Permission : Type 0 where
  pub resource : Resource
  pub action : Action
  pub scope : Scope

-- The roles that the table names; `BillingRole` is declared outside of the repository, and a role
-- that is not named here has no permissions.
pub data BillingRole : Type 0 where
  superuser user store_manager financial_manager : BillingRole
  other : ℕ → BillingRole

-- The derived `PartialEq` of `Resource` and `Action`.
unfoldable pub resource_code : Resource → ℕ
resource_code Resource.account = 0
resource_code Resource.billing_info = 1
resource_code Resource.order_info = 2
resource_code Resource.user_roles = 3
resource_code Resource.invoice = 4
resource_code Resource.order_exchange_rate = 5
resource_code Resource.payment_intent = 6
resource_code Resource.proxy_company_billing_info = 7
resource_code Resource.store_billing_type = 8
resource_code Resource.subscription = 9
resource_code Resource.store_subscription = 10
resource_code Resource.store_subscription_status = 11
resource_code Resource.subscription_payment = 12
resource_code Resource.customer = 13
resource_code Resource.fee = 14
resource_code Resource.payment_intent_invoice = 15
resource_code Resource.payment_intent_fee = 16
resource_code Resource.user_wallet = 17
resource_code Resource.payout = 18

unfoldable pub action_eq : Action → Action → Bool
action_eq any_action any_action = true
action_eq read read = true
action_eq write write = true
action_eq _ _ = false

-- The three arms of `permission!`.
abbrev pub permission_all : Resource → Permission
permission_all r = record { resource = r; action = any_action; scope = everything }

abbrev pub permission_to : Resource → Action → Permission
permission_to r a = record { resource = r; action = a; scope = everything }

abbrev pub permission_in : Resource → Action → Scope → Permission
permission_in r a s = record { resource = r; action = a; scope = s }

-- The table that `ApplicationAcl::new` builds.
unfoldable pub permissions : BillingRole → List Permission
permissions superuser =
    permission_all Resource.order_info
    ∷ permission_all Resource.user_roles
    ∷ permission_all Resource.invoice
    ∷ permission_all Resource.account
    ∷ permission_all Resource.order_exchange_rate
    ∷ permission_all Resource.payment_intent
    ∷ permission_all Resource.payment_intent_fee
    ∷ permission_all Resource.payment_intent_invoice
    ∷ permission_all Resource.customer
    ∷ permission_all Resource.fee
    ∷ permission_all Resource.store_billing_type
    ∷ permission_all Resource.billing_info
    ∷ permission_all Resource.proxy_company_billing_info
    ∷ permission_all Resource.user_wallet
    ∷ permission_all Resource.payout
    ∷ permission_all Resource.subscription
    ∷ permission_all Resource.store_subscription
    ∷ permission_all Resource.store_subscription_status
    ∷ permission_all Resource.subscription_payment
    ∷ []
permissions user =
    permission_in Resource.user_roles read owned
    ∷ permission_in Resource.invoice read owned
    ∷ permission_in Resource.invoice write owned
    ∷ permission_in Resource.order_info write owned
    ∷ permission_in Resource.order_info read owned
    ∷ permission_in Resource.order_exchange_rate read owned
    ∷ permission_in Resource.order_exchange_rate write owned
    ∷ permission_to Resource.payment_intent read
    ∷ permission_to Resource.payment_intent write
    ∷ permission_in Resource.payment_intent_fee read owned
    ∷ permission_in Resource.payment_intent_invoice read owned
    ∷ permission_in Resource.customer read owned
    ∷ permission_in Resource.customer write owned
    ∷ permission_in Resource.user_wallet read owned
    ∷ permission_in Resource.user_wallet write owned
    ∷ permission_in Resource.payout read owned
    ∷ permission_in Resource.payout write owned
    ∷ []
permissions store_manager =
    permission_in Resource.order_info read owned
    ∷ permission_in Resource.user_roles read owned
    ∷ permission_in Resource.order_exchange_rate read owned
    ∷ permission_in Resource.order_exchange_rate write owned
    ∷ permission_in Resource.billing_info read owned
    ∷ permission_in Resource.billing_info write owned
    ∷ permission_in Resource.store_billing_type read owned
    ∷ permission_in Resource.store_billing_type write owned
    ∷ permission_to Resource.payment_intent read
    ∷ permission_to Resource.payment_intent write
    ∷ permission_in Resource.payment_intent_fee read owned
    ∷ permission_in Resource.payment_intent_invoice read owned
    ∷ permission_in Resource.fee read owned
    ∷ permission_in Resource.fee write owned
    ∷ permission_in Resource.user_wallet read owned
    ∷ permission_in Resource.user_wallet write owned
    ∷ permission_in Resource.payout read owned
    ∷ permission_in Resource.payout write owned
    ∷ permission_in Resource.store_subscription read owned
    ∷ permission_in Resource.store_subscription write owned
    ∷ []
permissions financial_manager =
    permission_to Resource.order_info read
    ∷ permission_to Resource.store_billing_type read
    ∷ permission_to Resource.billing_info read
    ∷ permission_to Resource.fee read
    ∷ permission_to Resource.fee write
    ∷ permission_to Resource.proxy_company_billing_info read
    ∷ permission_to Resource.payment_intent_fee read
    ∷ permission_to Resource.payment_intent_invoice read
    ∷ permission_to Resource.payment_intent read
    ∷ permission_to Resource.customer read
    ∷ permission_to Resource.user_wallet read
    ∷ permission_to Resource.payout read
    ∷ permission_to Resource.payout write
    ∷ permission_to Resource.subscription read
    ∷ permission_to Resource.store_subscription read
    ∷ permission_to Resource.store_subscription write
    ∷ permission_to Resource.store_subscription_status read
    ∷ permission_to Resource.store_subscription_status write
    ∷ permission_to Resource.subscription_payment read
    ∷ []
permissions (other n) = []

-- `roles.iter().flat_map(…)`
unfoldable pub all_permissions : List BillingRole → List Permission
unfolding permissions
all_permissions [] = []
all_permissions (role ∷ roles) = permissions role ++ all_permissions roles

-- The filter of `allows` on resource and action.
unfoldable pub covers : Resource → Action → Permission → Bool
unfolding resource_code action_eq
covers r a p =
    (resource_code p.resource == resource_code r)
    && (action_eq p.action a || action_eq p.action any_action)

-- What a repository's access control answers: `CheckScope` is applied to the object at hand.
abbrev pub Acl : Type 0 → Type 0
Acl T = Resource → Action → Option T → Bool

module _ {T : Type 0} where
  -- `ApplicationAcl::allows`, for the user whose scopes are tested.
  unfoldable pub allows : (is_in_scope : Scope → Option T → Bool) → List BillingRole → Acl T
  unfolding covers all_permissions
  allows is_in_scope roles r a obj = ltb 0 (
      length
        (keep_if (λ p. is_in_scope p.scope obj) (keep_if (covers r a) (all_permissions roles))))

  -- `SystemACL` and `UnauthorizedACL`.
  unfoldable pub system_acl : Acl T
  system_acl r a obj = true

  unfoldable pub unauthorized_acl : Acl T
  unauthorized_acl r a obj = false

  -- `acl::check`, its error as the repositories map it.
  abbrev pub check : Acl T → Resource → Action → Option T → Result RepoError (Unit {0})
  check acl r a obj = guard (acl r a obj) RepoError.forbidden
