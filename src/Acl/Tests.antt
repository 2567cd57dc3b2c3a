-- ===== src/Acl/Tests.antt =====
-- Requests of concrete users.
use billing.Base.{ℕ, ◌≡◌, refl, inl, Bool, true, false, Option, none, some, [], ◌∷◌, ◌==◌}
use billing.Acl.{Resource, Scope, everything, owned, read, write, user, allows}
use billing.Acl.Grants.{allows-not_owned}

-- Objects are known by their owner; the user is number 7.
abbrev in_scope : Scope → Option ℕ → Bool
in_scope everything obj = true
in_scope owned none = false
in_scope owned (some n) = n == 7

own_payout : allows in_scope (user ∷ []) Resource.payout write (some 7) ≡ true
unfolding allows
own_payout = refl

someone_else : allows in_scope (user ∷ []) Resource.payment_intent read (some 8) ≡ true
unfolding allows
someone_else = refl

allows-not_owned_example : Resource.payment_intent ≡ Resource.payment_intent
allows-not_owned_example =
    allows-not_owned in_scope Resource.payment_intent read (some 8) (user ∷ []) (inl refl, tt) refl
      someone_else
