-- ===== src/Payouts/Roundtrip.antt =====
-- Payouts that are written are read back (src/models/payout.rs, src/repos/payouts.rs).
use billing.Base.{
  ℕ, ◌+◌, ◌≡◌, refl, ap, subst, ◌∙◌, inl, inr, true, false, some, List, [], ◌∷◌, ◌++◌, All, map,
  all, any, find, keep_if, arith, if◌then◌else◌, ◌==◌, ==_refl, ==_iff, Bool-cases, ok, ok_or,
  RepoError,
}
use billing.Currency.{TureCurrency, crypto, classify, from_ture}
use billing.Acl.{Acl, Resource, write}
use billing.Payouts.Records.{
  Payout, PayoutStatus, PayoutTarget, RawPayout, RawOrderPayout, crypto_wallet, processing,
  completed, raw_target, raw_order_ids, raw_status, try_into_domain, raw_new_payout,
  raw_new_order_payouts, initiated_at, completed_at, wallet_of,
}
use billing.Payouts.{Tables, insert_links, repeats, create, get_payout_by_id}

classify-from_ture : (c : TureCurrency) → classify (from_ture c) ≡ crypto c
unfolding classify from_ture
classify-from_ture TureCurrency.eth = refl
classify-from_ture _ = refl

raw_status_lem : (s : PayoutStatus) → raw_status (initiated_at s) (completed_at s) ≡ s
raw_status_lem (processing at) = refl
raw_status_lem (completed at done) = refl

raw_target-raw_new_payout : (p : Payout) → raw_target (raw_new_payout p) ≡ some p.target
unfolding raw_target raw_new_payout
raw_target-raw_new_payout p =
    rw (classify-from_ture (wallet_of p.target).currency, raw_target) (wallet_lem p.target)
  where
    wallet_lem : (t : PayoutTarget) → some (crypto_wallet (wallet_of t)) ≡ some t
    wallet_lem (crypto_wallet w) = refl

try_into_domain_of :
    (r : RawPayout) (links : List RawOrderPayout) (t : PayoutTarget) (ids : List ℕ)
    → raw_target r ≡ some t
    → raw_order_ids links ≡ some ids
    → try_into_domain r links
      ≡ some (record {
        id = r.id;
        gross_amount = r.gross_amount;
        net_amount = r.net_amount;
        target = t;
        user_id = r.user_id;
        status = raw_status r.initiated_at r.completed_at;
        order_ids = ids;
      })
unfolding try_into_domain
try_into_domain_of r links t ids h k = rw (h, k, try_into_domain) refl

abbrev links_of : ℕ → ℕ → List ℕ → List RawOrderPayout
links_of next i ids = (insert_links next (map (λ o. record { order_id = o; payout_id = i }) ids)).0

links_of-all :
    (next i : ℕ) (ids : List ℕ)
    → all (λ (x : RawOrderPayout). x.payout_id == i) (links_of next i ids) ≡ true
unfolding insert_links
links_of-all next i [] = refl
links_of-all next i (o ∷ ids) = rw (==_refl i) (links_of-all (next + 1) i ids)

links_of-orders :
    (next i : ℕ) (ids : List ℕ)
    → map (λ (x : RawOrderPayout). x.order_id) (links_of next i ids) ≡ ids
unfolding insert_links
links_of-orders next i [] = refl
links_of-orders next i (o ∷ ids) = ap (λ xs. o ∷ xs) (links_of-orders (next + 1) i ids)

raw_order_ids-links : (next i : ℕ) (ids : List ℕ) → raw_order_ids (links_of next i ids) ≡ some ids
unfolding raw_order_ids insert_links
raw_order_ids-links next i [] = refl
raw_order_ids-links next i (o ∷ ids) =
    rw (==_refl i, links_of-all (next + 1) i ids, links_of-orders (next + 1) i ids) refl

-- A payout's raw records, with whatever keys the sequence gives to its links, convert back to the
-- payout.
try_into_domain-raw_new_payout :
    (p : Payout) (next : ℕ)
    → try_into_domain (raw_new_payout p) (insert_links next (raw_new_order_payouts p)).0 ≡ some p
unfolding raw_new_payout raw_new_order_payouts
try_into_domain-raw_new_payout p next =
    try_into_domain_of (raw_new_payout p) _ p.target p.order_ids (raw_target-raw_new_payout p)
      (raw_order_ids-links next p.id p.order_ids)
    ∙ rw (raw_status_lem p.status) refl

-- Every link names a payout of the table.
abbrev pub Linked : Tables → Type 0
Linked t = All (λ l. any (λ p. p.id == l.payout_id) t.payouts ≡ true) t.order_payouts

links_of-payout :
    (next i k : ℕ) (ids : List ℕ)
    → keep_if (λ (l : RawOrderPayout). l.payout_id == k) (links_of next i ids)
      ≡ (if i == k then links_of next i ids else [])
unfolding insert_links
links_of-payout next i k [] = ground arith
links_of-payout next i k (o ∷ ids) = ground (arith, links_of-payout (next + 1) i k ids)

keep_if-append :
    (i : ℕ) (xs ys : List RawOrderPayout)
    → keep_if (λ (l : RawOrderPayout). l.payout_id == i) (xs ++ ys)
      ≡ keep_if (λ (l : RawOrderPayout). l.payout_id == i) xs
        ++ keep_if (λ (l : RawOrderPayout). l.payout_id == i) ys
keep_if-append i [] ys = refl
keep_if-append i (x ∷ xs) ys = ground (arith, keep_if-append i xs ys)

unlinked :
    (i : ℕ) (payouts : List RawPayout) (links : List RawOrderPayout)
    → any (λ (p : RawPayout). p.id == i) payouts ≡ false
    → All
        (λ (l : RawOrderPayout). any (λ (p : RawPayout). p.id == l.payout_id) payouts ≡ true)
        links
    → keep_if (λ (l : RawOrderPayout). l.payout_id == i) links ≡ []
unlinked i payouts [] h k = refl
unlinked i payouts (l ∷ links) h k = elim (Bool-cases (l.payout_id == i)) [
  | inl e ↦
      let c : any (λ (p : RawPayout). p.id == i) payouts ≡ true =
        subst (λ (n : ℕ). any (λ (p : RawPayout). p.id == n) payouts ≡ true)
          ((==_iff l.payout_id i).0 e) k.0 in
      cc
  | inr e ↦ rw e (unlinked i payouts links h k.1)
]

find-append :
    (i : ℕ) (payouts : List RawPayout) (r : RawPayout)
    → any (λ (p : RawPayout). p.id == i) payouts ≡ false
    → r.id ≡ i
    → find (λ (p : RawPayout). p.id == i) (payouts ++ r ∷ []) ≡ some r
find-append i [] r h e = ground (arith, ==_iff r.id i)
find-append i (x ∷ payouts) r h e = ground (arith, find-append i payouts r)

raw_new_payout-id : (p : Payout) → (raw_new_payout p).id ≡ p.id
unfolding raw_new_payout
raw_new_payout-id p = refl

own_links :
    (p : Payout) (t : Tables)
    → Linked t
    → any (λ x. x.id == p.id) t.payouts ≡ false
    → keep_if
        (λ (l : RawOrderPayout). l.payout_id == p.id)
        (t.order_payouts ++ (insert_links t.next_id (raw_new_order_payouts p)).0)
      ≡ (insert_links t.next_id (raw_new_order_payouts p)).0
unfolding raw_new_order_payouts
own_links p t linked fresh =
    keep_if-append p.id t.order_payouts (links_of t.next_id p.id p.order_ids)
    ∙ rw
        (
          unlinked p.id t.payouts t.order_payouts fresh linked,
          links_of-payout t.next_id p.id p.id p.order_ids,
          ==_refl p.id,
        )
        refl

get_payout_by_id_of :
    (i : ℕ) (t : Tables) (r : RawPayout) (p : Payout)
    → find (λ (x : RawPayout). x.id == i) t.payouts ≡ some r
    → try_into_domain r (keep_if (λ (l : RawOrderPayout). l.payout_id == r.id) t.order_payouts)
      ≡ some p
    → get_payout_by_id i t ≡ ok (some p)
unfolding get_payout_by_id
get_payout_by_id_of i t r p h d = rw (h, get_payout_by_id) (rw d refl)

-- Creating a payout of a new key, on tables whose links name payouts of the table, with orders that
-- are not repeated and by someone who may write it, answers with that payout, and reading its key
-- from the tables that it leaves answers with it too.
pub create-get_payout_by_id :
    (acl : Acl ℕ) (p : Payout) (t : Tables)
    → Linked t
    → acl Resource.payout write (some p.user_id) ≡ true
    → any (λ x. x.id == p.id) t.payouts ≡ false
    → repeats (raw_new_order_payouts p) ≡ false
    → ((create acl p t).0 ≡ ok p) × (get_payout_by_id p.id (create acl p t).1 ≡ ok (some p))
unfolding create
create-get_payout_by_id acl p t linked may fresh distinct =
    let r = raw_new_payout p in
    let links = (insert_links t.next_id (raw_new_order_payouts p)).0 in
    let t' : Tables = record {
      payouts = t.payouts ++ r ∷ [];
      order_payouts = t.order_payouts ++ links;
      next_id = (insert_links t.next_id (raw_new_order_payouts p)).1;
    } in
    let E : create acl p t ≡ (ok_or (try_into_domain r links) RepoError.internal, t') =
      rw (may, raw_new_payout-id p, fresh, distinct, create) refl in
    let back : try_into_domain r links ≡ some p = try_into_domain-raw_new_payout p t.next_id in
    (
      ap (λ x. x.0) E ∙ rw back refl,
      ap (λ x. get_payout_by_id p.id x.1) E
          ∙ get_payout_by_id_of p.id t' r p
              (find-append p.id t.payouts r fresh (raw_new_payout-id p))
              (ap (try_into_domain r) (own_links p t linked fresh) ∙ back),
    )
