-- ===== src/Acl/Grants.antt =====
-- Who is granted what by the permissions of the roles (src/repos/acl/mod.rs).
use billing.Base.{
  ℕ, ◌≡◌, refl, sym, ap, ◌∙◌, ◌⊎◌, inl, inr, Bool, true, false, ◌&&◌, ◌||◌, Option, List, [], ◌∷◌,
  ◌++◌, All, any, length, keep_if, ltb, arith, ◌==◌, if◌then◌else◌, Bool-cases,
}
use billing.Acl.{
  Resource, Action, Scope, Permission, BillingRole, everything, owned, read, write, any_action,
  superuser, user, store_manager, resource_code, action_eq, permissions, all_permissions, covers,
  allows,
}

-- The resource of a code.
abbrev of_code : ℕ → Resource
of_code n =
    if n == 0
    then Resource.account
    else if n == 1
    then Resource.billing_info
    else if n == 2
    then Resource.order_info
    else if n == 3
    then Resource.user_roles
    else if n == 4
    then Resource.invoice
    else if n == 5
    then Resource.order_exchange_rate
    else if n == 6
    then Resource.payment_intent
    else if n == 7
    then Resource.proxy_company_billing_info
    else if n == 8
    then Resource.store_billing_type
    else if n == 9
    then Resource.subscription
    else if n == 10
    then Resource.store_subscription
    else if n == 11
    then Resource.store_subscription_status
    else if n == 12
    then Resource.subscription_payment
    else if n == 13
    then Resource.customer
    else if n == 14
    then Resource.fee
    else if n == 15
    then Resource.payment_intent_invoice
    else if n == 16
    then Resource.payment_intent_fee
    else if n == 17
    then Resource.user_wallet
    else Resource.payout

of_code-resource_code : (r : Resource) → of_code (resource_code r) ≡ r
unfolding resource_code
of_code-resource_code Resource.account = refl
of_code-resource_code _ = refl

pub resource_code-injective : (r s : Resource) → resource_code r ≡ resource_code s → r ≡ s
resource_code-injective r s e =
    sym (of_code-resource_code r) ∙ ap of_code e ∙ of_code-resource_code s

superuser_grants :
    {T : Type 0} (is_in_scope : Scope → Option T → Bool) (obj : Option T)
    → is_in_scope everything obj ≡ true
    → (r : Resource) (a : Action)
    → any (λ p. covers r a p && is_in_scope p.scope obj) (permissions superuser) ≡ true
unfolding permissions covers resource_code action_eq
superuser_grants s obj h Resource.account any_action = rw h refl
superuser_grants s obj h Resource.account read = rw h refl
superuser_grants s obj h Resource.account write = rw h refl
superuser_grants s obj h _ any_action = rw h refl
superuser_grants s obj h _ read = rw h refl
superuser_grants s obj h _ write = rw h refl

-- The users' and the store managers' permissions that need no ownership.
unowned_grants :
    {T : Type 0} (is_in_scope : Scope → Option T → Bool) (r : Resource) (a : Action)
    (obj : Option T)
    → is_in_scope owned obj ≡ false
    → (any (λ p. covers r a p && is_in_scope p.scope obj) (permissions user) ≡ true)
      ⊎ (any (λ p. covers r a p && is_in_scope p.scope obj) (permissions store_manager) ≡ true)
    → r ≡ Resource.payment_intent
unfolding permissions covers
unowned_grants s r a obj own h =
    sym (resource_code-injective Resource.payment_intent r (ground arith))

module _ {T : Type 0} (is_in_scope : Scope → Option T → Bool) (r : Resource) (a : Action)
    (obj : Option T) where
  -- A permission that covers the request and whose scope holds the object.
  abbrev pub grants : Permission → Bool
  grants p = covers r a p && is_in_scope p.scope obj

  kept :
      (ps : List Permission)
      → ltb 0 (length (keep_if (λ p. is_in_scope p.scope obj) (keep_if (covers r a) ps)))
        ≡ any grants ps
  kept [] = refl
  kept (p ∷ ps) = ground (arith, kept ps)

  any-append : (ps qs : List Permission) → any grants (ps ++ qs) ≡ (any grants ps || any grants qs)
  any-append [] qs = refl
  any-append (p ∷ ps) qs = ground (arith, any-append ps qs)

  abbrev pub role_grants : BillingRole → Bool
  role_grants role = any grants (permissions role)

  all_grants :
      (roles : List BillingRole) → any grants (all_permissions roles) ≡ any role_grants roles
  unfolding all_permissions
  all_grants [] = refl
  all_grants (role ∷ roles) =
      any-append (permissions role) (all_permissions roles)
      ∙ ap (λ b. role_grants role || b) (all_grants roles)

  -- A request is allowed exactly when some role of the user has a permission that covers the
  -- resource and the action and whose scope holds the object.
  pub allows-any :
      (roles : List BillingRole) → allows is_in_scope roles r a obj ≡ any role_grants roles
  unfolding allows
  allows-any roles = kept (all_permissions roles) ∙ all_grants roles

  any_roles-append :
      (xs ys : List BillingRole)
      → any role_grants (xs ++ ys) ≡ (any role_grants xs || any role_grants ys)
  any_roles-append [] ys = refl
  any_roles-append (x ∷ xs) ys = ground (arith, any_roles-append xs ys)

  -- Further roles, before or after the others, take no right away.
  pub allows-append :
      (before roles after : List BillingRole)
      → allows is_in_scope roles r a obj ≡ true
      → allows is_in_scope (before ++ (roles ++ after)) r a obj ≡ true
  allows-append before roles after h =
      let e = allows-any roles in
      let f = allows-any (before ++ (roles ++ after)) in
      ground (arith, any_roles-append before (roles ++ after), any_roles-append roles after)

  -- A superuser may do everything to every resource, where the scope of all objects holds the one
  -- at hand.
  pub allows-superuser :
      (before after : List BillingRole)
      → is_in_scope everything obj ≡ true
      → allows is_in_scope (before ++ (superuser ∷ after)) r a obj ≡ true
  allows-superuser before after h =
      let f = allows-any (before ++ (superuser ∷ after)) in
      ground
        (arith, any_roles-append before (superuser ∷ after), superuser_grants is_in_scope obj h r a)

  -- Users and store managers who do not own the object reach payment intents only.
  pub allows-not_owned :
      (roles : List BillingRole)
      → All (λ role. (role ≡ user) ⊎ (role ≡ store_manager)) roles
      → is_in_scope owned obj ≡ false
      → allows is_in_scope roles r a obj ≡ true
      → r ≡ Resource.payment_intent
  allows-not_owned roles h own e = some_role roles h (sym (allows-any roles) ∙ e)
    where
      some_role :
          (xs : List BillingRole)
          → All (λ role. (role ≡ user) ⊎ (role ≡ store_manager)) xs
          → any role_grants xs ≡ true
          → r ≡ Resource.payment_intent
      some_role [] h e = cc
      some_role (x ∷ xs) h e = elim (Bool-cases (role_grants x)) [
        | inl g ↦
            unowned_grants is_in_scope r a obj own
              (elim h.0 [ inl u ↦ inl (rw u at g) | inr m ↦ inr (rw m at g) ])
        | inr n ↦ some_role xs h.1 (rw n at e)
      ]
