-- ===== src/Payouts/Completion.antt =====
-- What the handling of `PayoutInitiated` sends and marks (src/event_handling/handlers.rs,
-- src/repos/payouts.rs).
use billing.Base.{
  ℕ, ◌+◌, ◌≤◌, ◌≡◌, refl, sym, ap, subst, ◌∙◌, ◌⊎◌, inl, inr, Bool, true, false, Option, none, some,
  List, [], ◌∷◌, ◌++◌, All, map, any, find, length, keep_if, arith, if◌then◌else◌, ◌==◌, Bool-cases,
  Option-cases, Result-cases, Result, ok, err, RepoError,
}
use billing.Base.{==_iff}
use billing.Currency.{TureCurrency}
use billing.Acl.{Acl, Resource, read, write}
use billing.Payouts.Records.{
  Payout, PayoutStatus, RawPayout, RawOrderPayout, processing, completed, raw_status,
  try_into_domain, wallet_of,
}
use billing.Payouts.{Tables, get, get_payout_by_id, complete, mark_as_completed}
use billing.Payouts.Sending.{
  Tx, Gateway, World, Outcome, create_payout_tx, mark_payout_as_completed, pay_out,
  handle_payout_initiated, handle_all,
}

-- How many of the transactions have a key.
abbrev pub times : ℕ → List Tx → ℕ
times i txs = length (keep_if (λ t. t.id == i) txs)

times-append :
    (i : ℕ) (txs : List Tx) (t : Tx)
    → times i (txs ++ t ∷ []) ≡ times i txs + (if t.id == i then 1 else 0)
times-append i [] t = ground arith
times-append i (x ∷ txs) t = ground (arith, times-append i txs t)

any-times : (i : ℕ) (txs : List Tx) → any (λ t. t.id == i) txs ≡ false → times i txs ≡ 0
any-times i [] h = refl
any-times i (x ∷ txs) h = ground (arith, any-times i txs)

-- What payouts rely on the gateway for: it knows which transactions it has taken, and a call that
-- makes one adds it, or adds nothing, whatever it answers.
pub record Recorded {G : Type 0} (client : Gateway G) (sent : G → List Tx) : Type 0 where
  pub answers :
      (i : ℕ) (g : G) (b : Bool)
      → client.get_transaction i g ≡ some b
      → b ≡ any (λ t. t.id == i) (sent g)
  pub adds :
      (tx : Tx) (g : G)
      → (sent (client.create_external_transaction tx g).1 ≡ sent g)
        ⊎ (sent (client.create_external_transaction tx g).1 ≡ sent g ++ tx ∷ [])

module _ {G : Type 0} (client : Gateway G) (main_account : TureCurrency → Option ℕ) (acl : Acl ℕ)
    (sent : G → List Tx) (recorded : Recorded client sent) where
  create-times :
      (p : Payout) (w : World G) (i : ℕ)
      → times i (sent (create_payout_tx client main_account acl p w).1.gateway)
        ≤ times i (sent w.gateway) + (if p.id == i then 1 else 0)
  unfolding create_payout_tx
  create-times p w i = elim (Option-cases (main_account (wallet_of p.target).currency)) [
    | inl e ↦ rw (e, create_payout_tx) (omega arith)
    | inr (account, e) ↦
        let tx : Tx = record {
          id = p.id;
          from = account;
          to = (wallet_of p.target).wallet_address;
          amount = p.gross_amount;
          currency = (wallet_of p.target).currency;
          fee = (wallet_of p.target).blockchain_fee;
        } in
        elim (recorded.adds tx w.gateway) [
          | inl s ↦ rw (e, create_payout_tx) (rw s (omega arith))
          | inr s ↦
              rw (e, create_payout_tx) (rw s (omega (arith, times-append i (sent w.gateway) tx)))
        ]
  ]

  create-once :
      (p : Payout) (w : World G) (i : ℕ)
      → any (λ t. t.id == p.id) (sent w.gateway) ≡ false
      → times i (sent w.gateway) ≤ 1
      → times i (sent (create_payout_tx client main_account acl p w).1.gateway) ≤ 1
  create-once p w i absent h = elim (Bool-cases (p.id == i)) [
    | inl e ↦
        let zero_lem : times i (sent w.gateway) ≡ 0 =
          subst (λ k. times k (sent w.gateway) ≡ 0) ((==_iff p.id i).0 e)
            (any-times p.id (sent w.gateway) absent) in
        ground (arith, create-times p w i)
    | inr e ↦ ground (arith, create-times p w i)
  ]

  pay_out-times :
      (now : ℕ) (p : Payout) (w : World G) (i : ℕ)
      → times i (sent w.gateway) ≤ 1
      → times i (sent (pay_out client main_account acl now p w).1.gateway) ≤ 1
  unfolding pay_out mark_payout_as_completed
  pay_out-times now p w i h = elim (Option-cases (client.get_transaction p.id w.gateway)) [
    | inl e ↦ rw (e, pay_out) h
    | inr (true, e) ↦ rw (e, pay_out) h
    | inr (false, e) ↦
        let once = create-once p w i (sym (recorded.answers p.id w.gateway false e)) h in
        elim (Result-cases (create_payout_tx client main_account acl p w).0) [
          | inl (u, k) ↦ rw (e, k, pay_out) once
          | inr (x, k) ↦ rw (e, k, pay_out) once
        ]
  ]

  handle-times :
      (now j : ℕ) (w : World G) (i : ℕ)
      → times i (sent w.gateway) ≤ 1
      → times i (sent (handle_payout_initiated client main_account acl now j w).1.gateway) ≤ 1
  unfolding handle_payout_initiated
  handle-times now j w i h = elim (Result-cases (get acl j w.tables)) [
    | inr (x, e) ↦ rw (e, handle_payout_initiated) h
    | inl (none, e) ↦ rw (e, handle_payout_initiated) h
    | inl (some p, e) ↦ rw (e, handle_payout_initiated) (by_status p p.status)
  ]
    where
      by_status :
          (p : Payout) (s : PayoutStatus)
          → times i (
              sent
                (elim s as (λ x. Outcome G) [
                  | processing at ↦ pay_out client main_account acl now p w
                  | completed at done ↦ (ok tt, w)
                ]).1.gateway)
            ≤ 1
      by_status p (processing at) = pay_out-times now p w i h
      by_status p (completed at done) = h

  -- However often and in whatever order payouts are handled, and whichever of the gateway's calls
  -- fail, at most one transaction of a payout's key is made, if there was at most one before.
  pub handle_all-once :
      (events : List (ℕ × ℕ)) (w : World G) (i : ℕ)
      → times i (sent w.gateway) ≤ 1
      → times i (sent (handle_all client main_account acl events w).gateway) ≤ 1
  unfolding handle_all
  handle_all-once [] w i h = h
  handle_all-once (e ∷ events) w i h =
      handle_all-once events (handle_payout_initiated client main_account acl e.0 e.1 w).1 i
        (handle-times e.0 e.1 w i h)

-- Every row of the table is marked as completed at a time.
abbrev pub AllCompleted : ℕ → List RawPayout → Type 0
AllCompleted now payouts = All (λ r. r.completed_at ≡ some now) payouts

completed-map : (now : ℕ) (payouts : List RawPayout) → AllCompleted now (map (complete now) payouts)
completed-map now [] = tt
completed-map now (r ∷ payouts) = (refl, completed-map now payouts)

the_row : {x r : RawPayout} → some x ≡ some r → x ≡ r
the_row g = cc

find-completed :
    (now i : ℕ) (payouts : List RawPayout) (r : RawPayout)
    → AllCompleted now payouts
    → find (λ (p : RawPayout). p.id == i) payouts ≡ some r
    → r.completed_at ≡ some now
find-completed now i [] r h e = cc
find-completed now i (x ∷ payouts) r h e = elim (Bool-cases (x.id == i)) [
  | inl k ↦
      let g : some x ≡ some r = rw k at e in subst (λ x. x.completed_at ≡ some now) (the_row g) h.0
  | inr k ↦ find-completed now i payouts r h.1 (rw k at e)
]

try_into_domain-status :
    (r : RawPayout) (links : List RawOrderPayout) (p : Payout)
    → try_into_domain r links ≡ some p
    → p.status ≡ raw_status r.initiated_at r.completed_at
unfolding try_into_domain
try_into_domain-status r links p h = ground arith

get_payout_by_id-status :
    (now i : ℕ) (t : Tables) (p : Payout)
    → AllCompleted now t.payouts
    → get_payout_by_id i t ≡ ok (some p)
    → (at : ℕ) × (p.status ≡ completed at now)
unfolding get_payout_by_id
get_payout_by_id-status now i t p h e =
    elim (Option-cases (find (λ (x : RawPayout). x.id == i) t.payouts)) [
      | inl f ↦
          let E : get_payout_by_id i t ≡ ok none = rw (f, get_payout_by_id) refl in
          let k : ◌≡◌ {A = Result RepoError (Option Payout)} (ok none) (ok (some p)) = sym E ∙ e in
          cc
      | inr (r, f) ↦
          elim (Option-cases (
            try_into_domain r
              (keep_if (λ (l : RawOrderPayout). l.payout_id == r.id) t.order_payouts))) [
                | inl d ↦
                    let E : get_payout_by_id i t ≡ err RepoError.internal =
                      rw (f, get_payout_by_id) (rw d refl) in
                    let k : ◌≡◌ {A = Result RepoError (Option Payout)} (err RepoError.internal)
                        (ok (some p)) =
                      sym E ∙ e in
                    cc
                | inr (q, d) ↦
                    let E : get_payout_by_id i t ≡ ok (some q) =
                      rw (f, get_payout_by_id) (rw d refl) in
                    let k : ◌≡◌ {A = Result RepoError (Option Payout)} (ok (some q)) (ok (some p)) =
                      sym E ∙ e in
                    let same : q ≡ p = cc in
                    let done = find-completed now i t.payouts r h f in
                    (
                      r.initiated_at,
                      ap (λ x. x.status) (sym same)
                          ∙ try_into_domain-status r
                              (keep_if (λ (l : RawOrderPayout). l.payout_id == r.id)
                                t.order_payouts)
                              q d
                          ∙ ap (raw_status r.initiated_at) done,
                    )
              ]
    ]

module _ {G : Type 0} (client : Gateway G) (main_account : TureCurrency → Option ℕ)
    (acl : Acl ℕ) where
  settled :
      (now later j : ℕ) (w : World G)
      → AllCompleted now w.tables.payouts
      → (handle_payout_initiated client main_account acl later j w).1 ≡ w
  unfolding handle_payout_initiated get
  settled now later j w h = elim (Result-cases (get_payout_by_id j w.tables)) [
    | inr (x, e) ↦ rw (e, handle_payout_initiated) refl
    | inl (none, e) ↦ rw (e, handle_payout_initiated) refl
    | inl (some p, e) ↦ elim (Bool-cases (acl Resource.payout read (some p.user_id))) [
      | inl c ↦
          let s = (get_payout_by_id-status now j w.tables p h e).1 in
          rw (e, c, handle_payout_initiated) (rw s refl)
      | inr c ↦ rw (e, c, handle_payout_initiated) refl
    ]
  ]

  -- Marking one payout as completed marks every payout of the table as completed, and from then on
  -- the handling of `PayoutInitiated`, for whichever payout, changes neither the tables nor the
  -- gateway: a payout that had not been sent is never sent.
  pub mark_as_completed-all :
      (now later i j : ℕ) (t : Tables) (g : G) (r : RawPayout)
      → find (λ p. p.id == i) t.payouts ≡ some r
      → acl Resource.payout write (some r.user_id) ≡ true
      → AllCompleted now (mark_as_completed acl now i t).1.payouts
        × ((handle_payout_initiated client main_account acl later j
              (record { tables = (mark_as_completed acl now i t).1; gateway = g })).1
            ≡ record { tables = (mark_as_completed acl now i t).1; gateway = g })
  unfolding mark_as_completed
  mark_as_completed-all now later i j t g r f may =
      let all_lem : AllCompleted now (mark_as_completed acl now i t).1.payouts =
        rw (f, may, mark_as_completed) (completed-map now t.payouts) in
      (
        all_lem,
        settled now later j (record { tables = (mark_as_completed acl now i t).1; gateway = g })
            all_lem,
      )
