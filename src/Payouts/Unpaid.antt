-- ===== src/Payouts/Unpaid.antt =====
-- When `get_by_order_ids` of src/repos/payouts.rs finds no payout of some orders.
use billing.Base.{
  if◌then◌else◌, ℕ, ◌≡◌, ◌≢◌, refl, ap, ◌∙◌, inl, inr, Bool, false, ◌&&◌, none, some, List, [], ◌∷◌,
  any, find, ◌==◌, arith, Bool-cases, Option-cases, Result, ok, err, RepoError, ok-injective,
  >>=-eq-ok,
}
use billing.Acl.{Acl}
use billing.Payouts.Records.{Payout, RawPayout, RawOrderPayout, try_into_domain, raw_order_ids}
use billing.Payouts.{
  Tables, PayoutsByOrderIds, Joined, insert_payout, extend, join, group_by, collect,
  get_payouts_by_order_ids, get_by_order_ids,
}

-- A link of one of the orders to a payout of the table.
abbrev pub links_payout : List ℕ → List RawPayout → RawOrderPayout → Bool
links_payout ids payouts l =
    any (λ i. l.order_id == i) ids && any (λ r. r.id == l.payout_id) payouts

insert_payout-some :
    (k : ℕ) (p : Payout) (entries : List (ℕ × Payout)) → insert_payout k p entries ≢ []
unfolding insert_payout
insert_payout-some k p [] h = cc
insert_payout-some k p (e ∷ entries) h = elim (Bool-cases (e.0 == k)) [
  | inl here ↦ let wrong : ◌≡◌ {A = List (ℕ × Payout)} ((k, p) ∷ entries) [] = rw here at h in cc
  | inr other ↦
      let wrong : ◌≡◌ {A = List (ℕ × Payout)} (e ∷ insert_payout k p entries) [] = rw other at h in
      cc
]

extend-some :
    (ids : List ℕ) (p : Payout) (entries : List (ℕ × Payout))
    → entries ≢ []
    → extend ids p entries ≢ []
unfolding extend
extend-some [] p entries h = h
extend-some (i ∷ ids) p entries h =
    extend-some ids p (insert_payout i p entries) (insert_payout-some i p entries)

collect-some :
    (groups : List (RawPayout × List RawOrderPayout)) (acc out : List (ℕ × Payout))
    → acc ≢ []
    → collect groups acc ≡ ok out
    → out ≢ []
unfolding collect
collect-some [] acc out some_acc h = λ e. some_acc (ok-injective h ∙ e)
collect-some ((r, links) ∷ groups) acc out some_acc h =
    elim (Option-cases (try_into_domain r links)) [
      | inl n ↦
          let wrong : ◌≡◌ {A = Result RepoError (List (ℕ × Payout))} (err RepoError.internal)
              (ok out) =
            rw (collect, n) at h in
          cc
      | inr (p, s) ↦
          let rest : collect groups (extend p.order_ids p acc) ≡ ok out = rw (collect, s) at h in
          collect-some groups (extend p.order_ids p acc) out
            (extend-some p.order_ids p acc some_acc) rest
    ]

try_into_domain-some :
    (r : RawPayout) (l : RawOrderPayout) (links : List RawOrderPayout) (p : Payout)
    → try_into_domain r (l ∷ links) ≡ some p
    → p.order_ids ≢ []
unfolding try_into_domain raw_order_ids
try_into_domain-some r l links p h e = ground arith

group_by-some :
    (x : Joined) (rows : List Joined)
    → (r : RawPayout) × (links : List RawOrderPayout) × (groups : List
        (RawPayout × List RawOrderPayout))
      × (group_by (x ∷ rows) ≡ (r, x.0 ∷ links) ∷ groups)
unfolding group_by
group_by-some (l, p) rows =
    elim (group_by rows)
      as (λ g.
        (r : RawPayout) × (links : List RawOrderPayout) × (groups : List
          (RawPayout × List RawOrderPayout))
        × (◌≡◌ {A = List (RawPayout × List RawOrderPayout)}
            (elim g [
              | [] ↦ (p, l ∷ []) ∷ []
              | (q, ls) ∷ groups ↦
                  if p.id == q.id then (p, l ∷ ls) ∷ groups else (p, l ∷ []) ∷ (q, ls) ∷ groups
            ])
            ((r, l ∷ links) ∷ groups))) [
              | [] ↦ (p, [], [], refl)
              | (q, ls) ∷ groups ↦ elim (Bool-cases (p.id == q.id)) [
                | inl same ↦ (p, ls, groups, rw same refl)
                | inr apart ↦ (p, [], (q, ls) ∷ groups, rw apart refl)
              ]
            ]

-- Rows of the join are collected to at least one entry.
collect-none : (rows : List Joined) → collect (group_by rows) [] ≡ ok [] → rows ≡ []
unfolding collect
collect-none [] h = refl
collect-none (x ∷ rows) h =
    let (r, links, groups, g) = group_by-some x rows in
    elim (Option-cases (try_into_domain r (x.0 ∷ links))) [
      | inl n ↦
          let wrong : ◌≡◌ {A = Result RepoError (List (ℕ × Payout))} (err RepoError.internal)
              (ok []) =
            rw (g, collect, n) at h in
          cc
      | inr (p, s) ↦
          let rest : collect groups (extend p.order_ids p []) ≡ ok [] = rw (g, collect, s) at h in
          absurd (
            collect-some groups (extend p.order_ids p []) []
              (extend-ids p.order_ids p (try_into_domain-some r x.0 links p s)) rest refl)
    ]
  where
    extend-ids : (ids : List ℕ) (p : Payout) → ids ≢ [] → extend ids p [] ≢ []
    extend-ids [] p d h = d refl
    extend-ids (i ∷ ids) p d h =
        extend-some ids p (insert_payout i p []) (insert_payout-some i p []) h

find-any :
    (k : ℕ) (payouts : List RawPayout)
    → find (λ r. r.id == k) payouts ≡ none
    → any (λ r. r.id == k) payouts ≡ false
find-any k [] h = refl
find-any k (r ∷ payouts) h = ground (arith, find-any k payouts)

join-none :
    (ids : List ℕ) (payouts : List RawPayout) (links : List RawOrderPayout)
    → join ids payouts links ≡ []
    → any (links_payout ids payouts) links ≡ false
unfolding join
join-none ids payouts [] h = refl
join-none ids payouts (l ∷ links) h = elim (Bool-cases (any (λ i. l.order_id == i) ids)) [
  | inr apart ↦
      let rest : join ids payouts links ≡ [] = rw (join, apart) at h in
      rw apart (join-none ids payouts links rest)
  | inl named ↦ elim (Option-cases (find (λ p. p.id == l.payout_id) payouts)) [
    | inl n ↦
        let rest : join ids payouts links ≡ [] = rw (join, named, n) at h in
        rw (named, find-any l.payout_id payouts n) (join-none ids payouts links rest)
    | inr (p, s) ↦
        let wrong : ◌≡◌ {A = List Joined} ((l, p) ∷ join ids payouts links) [] =
          rw (join, named, s) at h in
        cc
  ]
]

-- If no payout is found for some orders, then no link of one of them is to a payout of the table.
pub get_by_order_ids-none :
    (acl : Acl ℕ) (ids : List ℕ) (t : Tables) (found : PayoutsByOrderIds)
    → get_by_order_ids acl ids t ≡ ok found
    → found.payouts ≡ []
    → any (links_payout ids t.payouts) t.order_payouts ≡ false
unfolding get_by_order_ids get_payouts_by_order_ids
get_by_order_ids-none acl [] t found h e =
    join-none [] t.payouts t.order_payouts (join-nil t.payouts t.order_payouts)
  where
    join-nil : (payouts : List RawPayout) (links : List RawOrderPayout) → join [] payouts links ≡ []
    join-nil payouts [] = refl
    join-nil payouts (l ∷ links) = join-nil payouts links
get_by_order_ids-none acl (i ∷ ids) t found h e =
    let (got, h1, r1) = >>=-eq-ok (get_payouts_by_order_ids (i ∷ ids) t) _ h in
    let (payouts, h2, r2) =
      >>=-eq-ok (collect (group_by (join (i ∷ ids) t.payouts t.order_payouts)) []) _ h1 in
    let (done, h3, r3) = >>=-eq-ok (billing.Payouts.check_entries acl got.payouts) _ r1 in
    let same : got ≡ found = ok-injective r3 in
    let listed = ap (λ x. x.payouts) (ok-injective r2) in
    let empty : payouts ≡ [] = listed ∙ ap (λ x. x.payouts) same ∙ e in
    join-none (i ∷ ids) t.payouts t.order_payouts
      (collect-none (join (i ∷ ids) t.payouts t.order_payouts) (h2 ∙ ap ok empty))
