-- ===== src/Orders/Refunds.antt =====
-- What a decline and a capture answer and write (src/services/order.rs).
use billing.Base.{
  List, ◌==◌, map_err, from_repo, ok_or, >>=-eq-ok, map_err-ok, ok_or-ok, ℕ, ◌≡◌, ◌≢◌, refl, sym,
  ap, ◌∙◌, inl, inr, true, not, Option, none, some, [], ◌∷◌, ◌++◌, find, update_if, arith, ==_refl,
  Bool-cases, Option-cases, Result-cases, Result, ok, err, ServiceError,
}
use billing.Currency.{is_fiat}
use billing.Acl.{Acl, Resource, write}
use billing.PaymentIntents.{
  PaymentIntent, PaymentIntentInvoice, get_payment_intent, get_payment_intent_invoice,
}
use billing.Orders.Texts.{state_code-injective}
use billing.Orders.State.{PaymentState, initial, declined, state_eq}
use billing.Orders.{RawOrder, order_has_id, update_row, update_state, set_state}
use billing.Orders.Service.{
  World, Acls, Refund, found, charge_of, store_state, order_decline_fiat, order_decline,
  order_capture,
}
use billing.Orders.Edges.{state_of, found-find, find-id, state_of-set_state}

err-ok : (x : ServiceError) → ◌≡◌ {A = Result ServiceError (Unit {0})} (err x) (ok tt) → ⊥
err-ok x h = cc

link-found :
    (acl : Acl PaymentIntentInvoice) (k : ℕ) (rows : List PaymentIntentInvoice)
    (link : PaymentIntentInvoice)
    → get_payment_intent_invoice acl k rows ≡ ok (some link)
    → find (λ l. l.invoice_id == k) rows ≡ some link
unfolding get_payment_intent_invoice
link-found acl k rows link h = ground arith

intent-found :
    (acl : Acl ℕ) (k : ℕ) (rows : List PaymentIntent) (intent : PaymentIntent)
    → get_payment_intent acl k rows ≡ ok (some intent)
    → find (λ p. p.id == k) rows ≡ some intent
unfolding get_payment_intent
intent-found acl k rows intent h = ground arith

module _ {Value : Type 0} (acls : Acls) where
  -- A write of a state that succeeds: the order is there, and only its state is new.
  store_state-ok :
      (i : ℕ) (s : PaymentState) (w : World Value)
      → (store_state acls i s w).0 ≡ ok tt
      → (store_state acls i s w).1
        ≡ record w { orders = update_if (order_has_id i) (set_state s) w.orders }
  unfolding store_state update_state update_row
  store_state-ok i s w h = elim (Bool-cases (acls.orders Resource.order_info write none)) [
    | inr e ↦
        let E : (store_state acls i s w).0 ≡ err ServiceError.forbidden = rw (e, update_row) refl in
        absurd (err-ok ServiceError.forbidden (sym E ∙ h))
    | inl e ↦ elim (Option-cases (find (order_has_id i) w.orders)) [
      | inl f ↦
          let E : (store_state acls i s w).0 ≡ err ServiceError.internal =
            rw (e, f, update_row) refl in
          absurd (err-ok ServiceError.internal (sym E ∙ h))
      | inr (o, f) ↦ rw (e, f, update_row) refl
    ]
  ]

  -- The charge of an order is that of the payment intent that its invoice is linked to.
  charge_of-ok :
      (o : RawOrder) (w : World Value) (charge : ℕ)
      → charge_of acls o w ≡ ok charge
      → (link : PaymentIntentInvoice) × (intent : PaymentIntent) × (find
            (λ l. l.invoice_id == o.invoice_id)
            w.payment_intents_invoices
          ≡ some link)
        × (find (λ p. p.id == link.payment_intent_id) w.payment_intents ≡ some intent)
        × (intent.charge_id ≡ some charge)
  unfolding charge_of
  charge_of-ok o w charge h =
      let (l, h1, r1) =
        >>=-eq-ok
          (map_err from_repo (
            get_payment_intent_invoice acls.payment_intents_invoices o.invoice_id
              w.payment_intents_invoices))
          _ h in
      let (link, h2, r2) = >>=-eq-ok (ok_or l ServiceError.internal) _ r1 in
      let (p, h3, r3) =
        >>=-eq-ok
          (map_err from_repo
            (get_payment_intent acls.payment_intents link.payment_intent_id w.payment_intents))
          _ r2 in
      let (intent, h4, r4) = >>=-eq-ok (ok_or p ServiceError.internal) _ r3 in
      (
        link,
        intent,
        link-found acls.payment_intents_invoices o.invoice_id w.payment_intents_invoices link
            (map_err-ok _ l h1 ∙ ap ok (ok_or-ok l ServiceError.internal link h2)),
        intent-found acls.payment_intents link.payment_intent_id w.payment_intents intent
            (map_err-ok _ p h3 ∙ ap ok (ok_or-ok p ServiceError.internal intent h4)),
        ok_or-ok intent.charge_id ServiceError.internal charge r4,
      )

  -- A decline of an initial order of a fiat currency that answers with success has refunded the
  -- order's total amount once, from the charge of the payment intent that the order's invoice is
  -- linked to, and has declined the order;
  -- the other tables and the earlier refunds are as they were.
  pub order_decline-refund :
      (refund : Refund → Result ServiceError (Unit {0})) (i : ℕ) (w : World Value) (o : RawOrder)
      → found acls i w ≡ ok o
      → is_fiat o.seller_currency ≡ true
      → (order_decline refund acls i w).0 ≡ ok tt
      → (charge : ℕ) × ((link : PaymentIntentInvoice) × (intent : PaymentIntent) × (find
              (λ l. l.invoice_id == o.invoice_id)
              w.payment_intents_invoices
            ≡ some link)
          × (find (λ p. p.id == link.payment_intent_id) w.payment_intents ≡ some intent)
          × (intent.charge_id ≡ some charge))
        × ((order_decline refund acls i w).1 ≡ record w {
          orders = update_if (order_has_id i) (set_state declined) w.orders;
          refunds =
              w.refunds
              ++ record { charge_id = charge; amount = o.total_amount; order_id = i } ∷ [];
        })
        × (state_of i (order_decline refund acls i w).1.orders ≡ some declined)
  unfolding order_decline order_decline_fiat
  order_decline-refund refund i w o h f r =
      let found_lem = found-find acls i w o h in
      let own : o.id ≡ i = find-id i w.orders o found_lem in
      elim (Bool-cases (not (state_eq o.state initial))) [
        | inl e ↦
            let E : order_decline refund acls i w ≡ (err ServiceError.validation, w) =
              rw (h, e, order_decline) refl in
            absurd (err-ok _ (sym (ap (λ p. p.0) E) ∙ r))
        | inr e ↦ elim (Result-cases (charge_of acls o w)) [
          | inr (x, c) ↦
              let E : order_decline refund acls i w ≡ (err x, w) =
                rw (h, e, f, c, order_decline, order_decline_fiat) refl in
              absurd (err-ok _ (sym (ap (λ p. p.0) E) ∙ r))
          | inl (charge, c) ↦
              let asked : Refund = record {
                charge_id = charge;
                amount = o.total_amount;
                order_id = o.id;
              } in
              elim (Result-cases (refund asked)) [
                | inr (x, k) ↦
                    let E : order_decline refund acls i w ≡ (err x, w) =
                      rw (h, e, f, c, k, order_decline, order_decline_fiat) refl in
                    absurd (err-ok x (sym (ap (λ p. p.0) E) ∙ r))
                | inl (u, k) ↦
                    let w' : World Value = record w { refunds = w.refunds ++ asked ∷ [] } in
                    let E : order_decline refund acls i w ≡ store_state acls o.id declined w' =
                      rw (h, e, f, c, k, order_decline, order_decline_fiat) refl in
                    let written = store_state-ok o.id declined w' (sym (ap (λ p. p.0) E) ∙ r) in
                    let whole = ap (λ p. p.1) E ∙ written in
                    (
                      charge,
                      charge_of-ok o w charge c,
                      whole ∙ rw own refl,
                      ap (λ x. state_of i x.orders) whole
                          ∙ rw own (
                              state_of-set_state i i declined w.orders o found_lem
                              ∙ rw (==_refl i) refl),
                    )
              ]
        ]
      ]

  -- A capture or decline of an order that is found but not initial is refused as invalid, and
  -- nothing is written or refunded.
  pub order_decline-wrong_state :
      {Event : Type 0} (to_value : Event → Option Value) (from_value : Value → Option Event)
      (event : ℕ → Event) (refund : Refund → Result ServiceError (Unit {0})) (now i : ℕ)
      (w : World Value) (o : RawOrder)
      → found acls i w ≡ ok o
      → o.state ≢ initial
      → (order_decline refund acls i w ≡ (err ServiceError.validation, w))
        × (order_capture to_value from_value event now acls i w ≡ (err ServiceError.validation, w))
  unfolding order_decline order_capture
  order_decline-wrong_state to_value from_value event refund now i w o h n =
      let e : not (state_eq o.state initial) ≡ true =
        ground (arith, state_code-injective o.state initial) in
      (rw (h, e, order_decline) refl, rw (h, e, order_capture) refl)
