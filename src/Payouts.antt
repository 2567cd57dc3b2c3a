-- ===== src/Payouts.antt =====
-- The payouts' repository over the tables `payouts` and `order_payouts` (src/repos/payouts.rs).
-- The foreign keys are taken to hold: the orders that a payout names exist.
pub mod Records
pub mod Roundtrip
pub mod Service
pub mod Unpaid
pub mod Payable
pub mod Sending
pub mod Completion
pub mod Tests
use billing.Base.{
  ℕ, ◌+◌, Bool, true, false, ◌||◌, ◌&&◌, not, Option, none, some, List, [], ◌∷◌, ◌++◌, map, any,
  find, keep_if, ◌==◌, if◌then◌else◌, Result, ok, err, ok_or, RepoError, ◌>>=◌, ◌>>◌,
}
use billing.Acl.{Acl, Resource, Action, Scope, everything, owned, read, write, check}
use Records.{
  Payout, RawPayout, RawOrderPayout, RawNewOrderPayout, try_into_domain, raw_new_payout,
  raw_new_order_payouts,
}

-- The two tables, with the sequence behind the links' keys.
pub record Tables : Type 0 where
  pub payouts : List RawPayout
  pub order_payouts : List RawOrderPayout
  pub next_id : ℕ

-- `is_in_scope`; the access object is the user of the payout.
unfoldable pub is_in_scope : ℕ → Scope → Option ℕ → Bool
is_in_scope user everything obj = true
is_in_scope user owned none = false
is_in_scope user owned (some owner) = owner == user

-- `INSERT INTO order_payouts … RETURNING *`: the rows returned and the next key.
unfoldable pub insert_links : ℕ → List RawNewOrderPayout → List RawOrderPayout × ℕ
insert_links next [] = ([], next)
insert_links next (n ∷ new) =
    let rest = insert_links (next + 1) new in
    (record { id = next; order_id = n.order_id; payout_id = n.payout_id } ∷ rest.0, rest.1)

-- The unique key of the links: of the orders that a new payout names, no two are the same.
unfoldable pub repeats : List RawNewOrderPayout → Bool
repeats [] = false
repeats (n ∷ new) =
    any (λ m. (m.order_id == n.order_id) && (m.payout_id == n.payout_id)) new || repeats new

-- `PayoutsByOrderIds`; the map has one entry for each order.
pub record PayoutsByOrderIds : Type 0 where
  pub payouts : List (ℕ × Payout)
  pub order_ids_without_payout : List ℕ

-- `HashMap::insert`
unfoldable pub insert_payout : ℕ → Payout → List (ℕ × Payout) → List (ℕ × Payout)
insert_payout k p [] = (k, p) ∷ []
insert_payout k p (e ∷ entries) =
    let rest = insert_payout k p entries in if e.0 == k then (k, p) ∷ entries else e ∷ rest

-- `acc.extend(entries)`
unfoldable pub extend : List ℕ → Payout → List (ℕ × Payout) → List (ℕ × Payout)
unfolding insert_payout
extend [] p entries = entries
extend (i ∷ ids) p entries = extend ids p (insert_payout i p entries)

-- A row of the join of links and payouts.
abbrev pub Joined : Type 0
Joined = RawOrderPayout × RawPayout

-- The links of some orders, each with its payout, in the order of the links.
unfoldable pub join : List ℕ → List RawPayout → List RawOrderPayout → List Joined
join ids payouts [] = []
join ids payouts (l ∷ links) =
    let rest = join ids payouts links in
    if any (λ i. l.order_id == i) ids
    then elim (find (λ p. p.id == l.payout_id) payouts) [ none ↦ rest | some p ↦ (l, p) ∷ rest ]
    else rest

-- `group_by` of itertools: runs of neighbours of one payout.
unfoldable pub group_by : List Joined → List (RawPayout × List RawOrderPayout)
group_by [] = []
group_by ((l, p) ∷ rows) = elim (group_by rows) [
  | [] ↦ (p, l ∷ []) ∷ []
  | (q, ls) ∷ groups ↦ if p.id == q.id then (p, l ∷ ls) ∷ groups else (p, l ∷ []) ∷ (q, ls) ∷ groups
]

-- The `try_fold` over the groups.
unfoldable pub collect :
    List (RawPayout × List RawOrderPayout)
    → List (ℕ × Payout)
    → Result RepoError (List (ℕ × Payout))
unfolding extend try_into_domain
collect [] acc = ok acc
collect ((r, links) ∷ groups) acc = elim (try_into_domain r links) [
  | none ↦ err RepoError.internal
  | some p ↦ collect groups (extend p.order_ids p acc)
]

-- `get_payouts_by_order_ids`
unfoldable pub get_payouts_by_order_ids : List ℕ → Tables → Result RepoError PayoutsByOrderIds
unfolding join group_by collect
get_payouts_by_order_ids [] t = ok (record { payouts = []; order_ids_without_payout = [] })
get_payouts_by_order_ids (i ∷ ids) t =
    let records = join (i ∷ ids) t.payouts t.order_payouts in
    collect (group_by records) [] >>= λ payouts. ok (record {
      payouts = payouts;
      order_ids_without_payout =
          keep_if (λ k. not (any (λ r. r.0.order_id == k) records)) (i ∷ ids);
    })

-- `get_payout_by_id`
unfoldable pub get_payout_by_id : ℕ → Tables → Result RepoError (Option Payout)
unfolding try_into_domain
get_payout_by_id i t = elim (find (λ p. p.id == i) t.payouts) [
  | none ↦ ok none
  | some r ↦ elim (try_into_domain r (keep_if (λ l. l.payout_id == r.id) t.order_payouts)) [
    | none ↦ err RepoError.internal
    | some p ↦ ok (some p)
  ]
]

-- `get_payout_by_order_id`
unfoldable pub get_payout_by_order_id : ℕ → Tables → Result RepoError (Option Payout)
unfolding try_into_domain
get_payout_by_order_id order t = elim (find (λ l. l.order_id == order) t.order_payouts) [
  | none ↦ ok none
  | some l ↦ elim (find (λ p. p.id == l.payout_id) t.payouts) [
    | none ↦ err RepoError.not_found
    | some r ↦
        elim (try_into_domain r (keep_if (λ x. x.payout_id == l.payout_id) t.order_payouts)) [
          | none ↦ err RepoError.internal
          | some p ↦ ok (some p)
        ]
  ]
]

-- `SET completed_at = now`
abbrev pub complete : ℕ → RawPayout → RawPayout
complete now r = record r { completed_at = some now }

module _ (acl : Acl ℕ) where
  -- The check that follows a read of a payout.
  abbrev pub check_payout : Payout → Result RepoError (Unit {0})
  check_payout p = check acl Resource.payout read (some p.user_id)

  -- The match that ends `get` and `get_by_order_id`.
  abbrev pub checked_payout : Option Payout → Result RepoError (Option Payout)
  checked_payout none = ok none
  checked_payout (some p) = check_payout p >> ok (some p)

  -- `get` and `get_by_order_id`
  unfoldable pub get : ℕ → Tables → Result RepoError (Option Payout)
  unfolding get_payout_by_id
  get i t = get_payout_by_id i t >>= checked_payout

  unfoldable pub get_by_order_id : ℕ → Tables → Result RepoError (Option Payout)
  unfolding get_payout_by_order_id
  get_by_order_id order t = get_payout_by_order_id order t >>= checked_payout

  abbrev pub check_entries : List (ℕ × Payout) → Result RepoError (Unit {0})
  check_entries [] = ok tt
  check_entries (e ∷ entries) = check_payout e.1 >> check_entries entries

  -- `get_by_order_ids`
  unfoldable pub get_by_order_ids : List ℕ → Tables → Result RepoError PayoutsByOrderIds
  unfolding get_payouts_by_order_ids
  get_by_order_ids ids t =
      get_payouts_by_order_ids ids t >>= λ found. check_entries found.payouts >> ok found

  -- `create`: both inserts are one transaction, and the records are converted after its commit.
  unfoldable pub create : Payout → Tables → Result RepoError Payout × Tables
  unfolding raw_new_payout raw_new_order_payouts insert_links repeats try_into_domain
  create p t = elim (check acl Resource.payout write (some p.user_id)) [
    | err e ↦ (err e, t)
    | ok _ ↦
        let r = raw_new_payout p in
        let new = raw_new_order_payouts p in
        if any (λ x. x.id == r.id) t.payouts || repeats new
        then (err RepoError.constraints, t)
        else let (links, next) = insert_links t.next_id new in
          (
            ok_or (try_into_domain r links) RepoError.internal,
            record {
              payouts = t.payouts ++ r ∷ [];
              order_payouts = t.order_payouts ++ links;
              next_id = next;
            },
          )
  ]

  -- `mark_as_completed`: the update has no filter, so that it is of every row.
  unfoldable pub mark_as_completed : ℕ → ℕ → Tables → Result RepoError Payout × Tables
  unfolding get_payout_by_id
  mark_as_completed now i t = elim (find (λ p. p.id == i) t.payouts) [
    | none ↦ (err RepoError.not_found, t)
    | some r ↦ elim (check acl Resource.payout write (some r.user_id)) [
      | err e ↦ (err e, t)
      | ok _ ↦
          let t' : Tables = record t { payouts = map (complete now) t.payouts } in
          (get_payout_by_id i t' >>= λ p. ok_or p RepoError.internal, t')
    ]
  ]
