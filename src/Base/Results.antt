-- ===== src/Base/Results.antt =====
-- Results of fallible code, generic in the error, and the error kinds of the repository and the
-- service layer (src/repos/error.rs, src/services/error.rs).
use mathlib.Core.Path.{◌≡◌, refl}
use mathlib.Core.Bool.{Bool, true, false}
use mathlib.Core.Option.{Option, none, some}
use mathlib.Core.Logic.{◌⊎◌, inl, inr}

pub data Result {ℓ} (E : Type 0) (A : Type ℓ) : Type ℓ where
  ok : A → Result E A
  err : E → Result E A

infixl 5 ◌>>=◌ ◌>>◌
-- `Result::and_then`, which the `?` operator stands for.
abbrev pub ◌>>=◌ {κ ℓ} :
    {B : Type κ} {A : Type ℓ} {E : Type 0} (first : Result E A) (then' : A → Result E B)
    → Result E B
err failure >>= then' = err failure
ok value >>= then' = then' value

abbrev pub ◌>>◌ {κ} :
    {B : Type κ} {E : Type 0} (test : Result E (Unit {0})) (rest : Result E B) → Result E B
test >> rest = test >>= λ done. rest

module _ {ℓ} {E : Type 0} {A : Type ℓ} where
  abbrev pub ok_or : Option A → E → Result E A
  ok_or none e = err e
  ok_or (some a) e = ok a

  abbrev pub map_err : {F : Type 0} → (E → F) → Result E A → Result F A
  map_err f (ok a) = ok a
  map_err f (err e) = err (f e)

  pub Result-cases : (r : Result E A) → ((a : A) × (r ≡ ok a)) ⊎ ((e : E) × (r ≡ err e))
  Result-cases (ok a) = inl (a, refl)
  Result-cases (err e) = inr (e, refl)

-- An early return on a failed test.
abbrev pub guard : {E : Type 0} (test : Bool) → E → Result E (Unit {0})
guard false failure = err failure
guard true failure = ok tt

-- The two steps of a chain that ends well.
pub >>=-eq-ok {κ ℓ} :
    {B : Type κ} {A : Type ℓ} {E : Type 0} (first : Result E A) (next : A → Result E B) {out : B}
    → (first >>= next) ≡ ok out
    → (mid : A) × (first ≡ ok mid) × (next mid ≡ ok out)
>>=-eq-ok (err failure) next e = cc
>>=-eq-ok (ok value) next e = (value, refl, e)

-- `repos::ErrorKind`; what a validation message says is left out.
pub data RepoError : Type 0 where
  constraints internal forbidden not_found : RepoError

-- `services::ErrorKind`; what a validation error lists is left out.
pub data ServiceError : Type 0 where
  internal forbidden not_found validation : ServiceError

-- `event_handling::ErrorKind`; every error of a repository or a client becomes an internal one.
pub data HandlerError : Type 0 where
  internal currency_conversion already_done : HandlerError

-- `impl From<RepoErrorKind> for ErrorKind` of the services.
abbrev pub from_repo : RepoError → ServiceError
from_repo RepoError.constraints = ServiceError.validation
from_repo RepoError.forbidden = ServiceError.forbidden
from_repo RepoError.internal = ServiceError.internal
from_repo RepoError.not_found = ServiceError.internal

-- The parts of a chain of service calls that ends well.
pub guard-ok :
    {A : Type 0} (b : Bool) (e : ServiceError) (k : Result ServiceError A) (a : A)
    → (guard b e >> k) ≡ ok a
    → (b ≡ true) × (k ≡ ok a)
guard-ok true e k a h = (refl, h)
guard-ok false e k a h = cc

pub ok_or-ok :
    {A : Type 0} (o : Option A) (e : ServiceError) (a : A) → ok_or o e ≡ ok a → o ≡ some a
ok_or-ok none e a h = cc
ok_or-ok (some x) e a h = cc

pub map_err-ok :
    {A : Type 0} (r : Result RepoError A) (a : A) → map_err from_repo r ≡ ok a → r ≡ ok a
map_err-ok (ok x) a h = cc
map_err-ok (err x) a h = cc

pub ok-injective : {E A : Type 0} {a b : A} → ◌≡◌ {A = Result E A} (ok a) (ok b) → a ≡ b
ok-injective h = cc
