-- ===== src/Invoices/Captured.antt =====
-- The amount captured of an invoice and the amounts received for it, in the tables of
-- src/repos/invoices_v2.rs.
use billing.Base.{
  ℕ, ◌+◌, ◌≡◌, refl, inl, inr, false, not, List, [], ◌∷◌, ◌++◌, any, keep_if, arith, if◌then◌else◌,
  ◌==◌, Bool-cases,
}
use billing.Invoices.{RawAmountReceived, received_has_id}

-- The sum of the amounts received for an invoice.
unfoldable pub received : ℕ → List RawAmountReceived → ℕ
received k [] = 0
received k (r ∷ rows) =
    let rest = received k rows in if r.invoice_id == k then r.amount_received + rest else rest

-- No transaction is recorded twice.
abbrev pub Distinct : List RawAmountReceived → Type 0
Distinct [] = Unit
Distinct (r ∷ rows) = (any (received_has_id r.id) rows ≡ false) × Distinct rows

pub received-append :
    (k : ℕ) (rows : List RawAmountReceived) (r : RawAmountReceived)
    → received k (rows ++ r ∷ []) ≡ received k rows + received k (r ∷ [])
unfolding received
received-append k [] r = omega arith
received-append k (x ∷ rows) r = ground (arith, received-append k rows r)

pub received-own :
    (k : ℕ) (rows : List RawAmountReceived) (r : RawAmountReceived)
    → r.invoice_id ≡ k
    → received k (rows ++ r ∷ []) ≡ received k rows + r.amount_received
unfolding received
received-own k rows r e = ground (arith, received-append k rows r)

pub received-other :
    (k : ℕ) (rows : List RawAmountReceived) (r : RawAmountReceived)
    → (r.invoice_id == k) ≡ false
    → received k (rows ++ r ∷ []) ≡ received k rows
unfolding received
received-other k rows r e = ground (arith, received-append k rows r)

-- The amounts that go with an invoice are of no other.
pub received-keep_if :
    (k j : ℕ) (rows : List RawAmountReceived)
    → (j == k) ≡ false
    → received j (keep_if (λ r. not (r.invoice_id == k)) rows) ≡ received j rows
unfolding received
received-keep_if k j [] h = refl
received-keep_if k j (r ∷ rows) h = ground (arith, received-keep_if k j rows h)

any-keep_if :
    (i k : ℕ) (rows : List RawAmountReceived)
    → any (received_has_id i) rows ≡ false
    → any (received_has_id i) (keep_if (λ r. not (r.invoice_id == k)) rows) ≡ false
any-keep_if i k [] h = refl
any-keep_if i k (r ∷ rows) h = ground (arith, any-keep_if i k rows)

pub Distinct-keep_if :
    (k : ℕ) (rows : List RawAmountReceived)
    → Distinct rows
    → Distinct (keep_if (λ r. not (r.invoice_id == k)) rows)
Distinct-keep_if k [] h = tt
Distinct-keep_if k (r ∷ rows) h = elim (Bool-cases (r.invoice_id == k)) [
  | inl here ↦ rw here (Distinct-keep_if k rows h.1)
  | inr later ↦ rw later (any-keep_if r.id k rows h.0, Distinct-keep_if k rows h.1)
]

any-append :
    (i : ℕ) (rows : List RawAmountReceived) (r : RawAmountReceived)
    → any (received_has_id i) rows ≡ false
    → (r.id == i) ≡ false
    → any (received_has_id i) (rows ++ r ∷ []) ≡ false
any-append i [] r h e = ground arith
any-append i (x ∷ rows) r h e = ground (arith, any-append i rows r)

pub Distinct-append :
    (rows : List RawAmountReceived) (r : RawAmountReceived)
    → Distinct rows
    → any (received_has_id r.id) rows ≡ false
    → Distinct (rows ++ r ∷ [])
Distinct-append [] r h e = (refl, tt)
Distinct-append (x ∷ rows) r h e =
    (any-append x.id rows r h.0 (ground arith), Distinct-append rows r h.1 (ground arith))
