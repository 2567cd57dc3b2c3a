-- ===== src/Base/Lists.antt =====
-- Lists measured by the native numbers, Boolean filters and searches, and predicates over lists.
use Prim.Native.Nat.{ℕ, zero, suc, ◌+◌}
use mathlib.Core.Path.{◌≡◌, refl, ap}
use mathlib.Core.Bool.{Bool, true, false, ◌&&◌, ◌||◌}
use mathlib.Core.Option.{Option, none, some}
use mathlib.Core.List.{List, [], ◌∷◌, ◌++◌}
use native.Mathlib.Omega.{arith}
use billing.Base.Tests.{if◌then◌else◌}

module _ {ℓ} {A : Type ℓ} where
  abbrev pub length : List A → ℕ
  length [] = 0
  length (x ∷ xs) = suc (length xs)

  -- `Iterator::filter`, over a Boolean test.
  abbrev pub keep_if : (A → Bool) → List A → List A
  keep_if p [] = []
  keep_if p (x ∷ xs) = let rest = keep_if p xs in if p x then x ∷ rest else rest

  -- `Iterator::any`
  abbrev pub any : (A → Bool) → List A → Bool
  any p [] = false
  any p (x ∷ xs) = p x || any p xs

  -- `Iterator::all`
  abbrev pub all : (A → Bool) → List A → Bool
  all p [] = true
  all p (x ∷ xs) = p x && all p xs

  -- `Iterator::find`
  abbrev pub find : (A → Bool) → List A → Option A
  find p [] = none
  find p (x ∷ xs) = if p x then some x else find p xs

  -- `Iterator::take`
  abbrev pub take : ℕ → List A → List A
  take zero xs = []
  take (suc n) [] = []
  take (suc n) (x ∷ xs) = x ∷ take n xs

  -- `Iterator::skip`
  abbrev pub drop : ℕ → List A → List A
  drop zero xs = xs
  drop (suc n) [] = []
  drop (suc n) (x ∷ xs) = drop n xs

  -- Change the elements that a test selects.
  abbrev pub update_if : (A → Bool) → (A → A) → List A → List A
  update_if p f [] = []
  update_if p f (x ∷ xs) = (if p x then f x else x) ∷ update_if p f xs

  pub length-append : (xs ys : List A) → length (xs ++ ys) ≡ length xs + length ys
  length-append [] ys = omega arith
  length-append (x ∷ xs) ys = omega (arith, length-append xs ys)

  pub length-update_if :
      (p : A → Bool) (f : A → A) (xs : List A) → length (update_if p f xs) ≡ length xs
  length-update_if p f [] = refl
  length-update_if p f (x ∷ xs) = ap suc (length-update_if p f xs)

module _ {κ ℓ} {A : Type ℓ} where
  -- A predicate of every element.
  abbrev pub All : (Holds : A → Type κ) → List A → Type κ
  All Holds [] = Unit
  All Holds (a ∷ as') = Holds a × All Holds as'

  pub All-snoc :
      (Holds : A → Type κ) (xs : List A) {x : A} → All Holds xs → Holds x → All Holds (xs ++ x ∷ [])
  All-snoc Holds [] h last = (last, tt)
  All-snoc Holds (y ∷ xs) h last = (h.0, All-snoc Holds xs h.1 last)
