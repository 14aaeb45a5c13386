-- ===== src/Orders/CancelOutcome.antt =====
-- What a cancellation of an order leaves.
use space_next_door_core_api.Base.{
  Bool, true, false, Option, none, some, List, ◌∷◌, last?, ◌≡◌, refl, ◌⊎◌, inl, inr, Bool-cases,
  Option-cases,
}
use space_next_door_core_api.Catalog.{OrderStatus}
use space_next_door_core_api.Orders.Cancel.{
  close_order, refund_order, refund_pick_up, PickUp, CancelState, CancelOrderCalls, is_open,
  cancel_at_partner, cancel_order, update_order, cancel_at_status, refund_converted,
}
use space_next_door_core_api.Orders.Types.{
  OrderTransaction, OrderError, set_status, GogoxOrderStatus, is_pending, order_status_of,
  partner_changed,
}
use space_next_door_core_api.Base.Int.{ℤ}
use space_next_door_core_api.Base.Result.{Result, ok, err}
use space_next_door_core_api.Payments.Stripe.{calculate_amount_in_currency, StripeError}
use space_next_door_core_api.Payments.World.{Charge}

-- The partner knows: there is no pick-up service, or its order is cancelled.
abbrev pub Told : Option PickUp → CancelState → Type 0
Told p s' = (p ≡ none) ⊎ (s'.partner_cancelled ≡ true)

-- The oldest transaction, if there is one, is refunded with the amount of the pick-up service.
abbrev pub Refunded : Option PickUp → Option OrderTransaction → List Charge → List Charge → Type 0
Refunded p none before after = after ≡ before
Refunded p (some t) before after =
    (pick : PickUp) × (amount : ℤ) × (p ≡ some pick)
    × (calculate_amount_in_currency pick.amount pick.currency ≡ ok amount)
    × (after ≡ record { id = t.stripe_charge_id; amount = amount } ∷ before)

-- By how it ended.
abbrev pub CancelLeaves :
    Option PickUp → CancelState → Result OrderError (Unit {0}) × CancelState → Type 0
CancelLeaves p s (ok x, s') =
    (is_open s.ledger.rows.status ≡ true)
    × Told p s'
    × Refunded p (last? s.ledger.rows.transactions) s.refunds s'.refunds
    × (s'.ledger ≡ record s.ledger { rows = set_status OrderStatus.cancelled s.ledger.rows })
CancelLeaves p s (err e, s') =
    ((s'.ledger ≡ s.ledger)
      × ((s'.refunds ≡ s.refunds)
          ⊎ Refunded p (last? s.ledger.rows.transactions) s.refunds s'.refunds))
    ⊎ ((status : GogoxOrderStatus) × (is_pending (order_status_of status) ≡ false)
        × (e ≡ partner_changed)
        × (s'.refunds ≡ s.refunds)
        × (s'.partner_cancelled ≡ s.partner_cancelled)
        × (s'.ledger
            ≡ record s.ledger { rows = set_status (order_status_of status) s.ledger.rows }))

close_order-CancelLeaves :
    (written : Bool) (p : Option PickUp) (s s' : CancelState)
    → is_open s.ledger.rows.status ≡ true
    → Told p s'
    → Refunded p (last? s.ledger.rows.transactions) s.refunds s'.refunds
    → s'.ledger ≡ s.ledger
    → CancelLeaves p s (close_order written s')
unfolding close_order
close_order-CancelLeaves true p s s' o k r e = (o, k, r, rw e refl)
close_order-CancelLeaves false p s s' o k r e = inl (e, inr r)

refund_converted-CancelLeaves :
    (c : CancelOrderCalls) (pick : PickUp) (t : OrderTransaction) (r : Result StripeError ℤ)
    (s s' : CancelState)
    → calculate_amount_in_currency pick.amount pick.currency ≡ r
    → is_open s.ledger.rows.status ≡ true
    → s'.partner_cancelled ≡ true
    → last? s.ledger.rows.transactions ≡ some t
    → s'.refunds ≡ s.refunds
    → s'.ledger ≡ s.ledger
    → CancelLeaves (some pick) s (refund_converted c r t.stripe_charge_id s')
unfolding refund_converted
refund_converted-CancelLeaves c pick t (err x) s s' q o k l h e = inl (e, inl h)
refund_converted-CancelLeaves c pick t (ok amount) s s' q o k l h e = elim (Bool-cases c.refund) [
  | inl w ↦ rw w (
      close_order-CancelLeaves c.update (some pick) s _ o (inr k)
        (rw l (pick, amount, refl, q, rw h refl)) e)
  | inr w ↦ rw w (inl (e, inl h))
]

refund_order-CancelLeaves :
    (c : CancelOrderCalls) (pick : PickUp) (s s' : CancelState)
    → is_open s.ledger.rows.status ≡ true
    → s'.partner_cancelled ≡ true
    → s'.refunds ≡ s.refunds
    → s'.ledger ≡ s.ledger
    → CancelLeaves (some pick) s (refund_order c (some pick) (last? s.ledger.rows.transactions) s')
unfolding refund_order refund_pick_up
refund_order-CancelLeaves c pick s s' o k r e =
    elim (Option-cases (last? s.ledger.rows.transactions)) [
      | inl q ↦ rw q (close_order-CancelLeaves c.update (some pick) s s' o (inr k) (rw q r) e)
      | inr (t, q) ↦ rw q (refund_converted-CancelLeaves c pick t _ s s' refl o k q r e)
    ]

no_pick_up-CancelLeaves :
    (c : CancelOrderCalls) (s : CancelState)
    → is_open s.ledger.rows.status ≡ true
    → CancelLeaves none s (refund_order c none (last? s.ledger.rows.transactions) s)
unfolding refund_order refund_pick_up refund_converted
no_pick_up-CancelLeaves c s o = elim (Option-cases (last? s.ledger.rows.transactions)) [
  | inl q ↦ rw q (close_order-CancelLeaves c.update none s s o (inl refl) (rw q refl) refl)
  | inr (t, q) ↦ rw q (inl (refl, inl refl))
]

moved_on-CancelLeaves :
    (written : Bool) (p : Option PickUp) (status : GogoxOrderStatus) (s : CancelState)
    → is_pending (order_status_of status) ≡ false
    → CancelLeaves p s (update_order written (order_status_of status) partner_changed s)
unfolding update_order
moved_on-CancelLeaves true p status s h = inr (status, h, refl, refl, refl, refl)
moved_on-CancelLeaves false p status s h = inl (refl, inl refl)

cancel_at_status-CancelLeaves :
    (c : CancelOrderCalls) (p : PickUp) (status : Option GogoxOrderStatus) (s : CancelState)
    → is_open s.ledger.rows.status ≡ true
    → CancelLeaves (some p) s (cancel_at_status c p status s)
unfolding cancel_at_status
cancel_at_status-CancelLeaves c p none s o = inl (refl, inl refl)
cancel_at_status-CancelLeaves c p (some GogoxOrderStatus.pending) s o =
    elim (Bool-cases c.cancel_partner) [
      | inl w ↦
          rw w (
            refund_order-CancelLeaves c p s (record s { partner_cancelled = true }) o refl refl
              refl)
      | inr w ↦ rw w (inl (refl, inl refl))
    ]
cancel_at_status-CancelLeaves c p (some GogoxOrderStatus.active) s o =
    moved_on-CancelLeaves c.update (some p) GogoxOrderStatus.active s refl
cancel_at_status-CancelLeaves c p (some GogoxOrderStatus.cancelled) s o =
    moved_on-CancelLeaves c.update (some p) GogoxOrderStatus.cancelled s refl
cancel_at_status-CancelLeaves c p (some GogoxOrderStatus.completed) s o =
    moved_on-CancelLeaves c.update (some p) GogoxOrderStatus.completed s refl

cancel_at_partner-CancelLeaves :
    (c : CancelOrderCalls) (p : Option PickUp) (s : CancelState)
    → is_open s.ledger.rows.status ≡ true
    → CancelLeaves p s (cancel_at_partner c p s)
unfolding cancel_at_partner
cancel_at_partner-CancelLeaves c none s o = no_pick_up-CancelLeaves c s o
cancel_at_partner-CancelLeaves c (some p) s o =
    cancel_at_status-CancelLeaves c p p.partner_status s o

-- For every order and every way that the calls can end: a success was of a pending or a confirmed
-- order that is now cancelled, at the partner too when it has a pick-up, and its oldest transaction,
-- if any, is refunded with the pick-up's amount; a throw leaves the rows, with no refund or with that
-- one, or it takes over a partner's status that is not pending, and refunds nothing.
pub cancel_order-CancelLeaves :
    (c : CancelOrderCalls) (is_found : Bool) (p : Option PickUp) (s : CancelState)
    → CancelLeaves p s (cancel_order c is_found p s)
unfolding cancel_order
cancel_order-CancelLeaves c false p s = inl (refl, inl refl)
cancel_order-CancelLeaves c true p s = elim (Bool-cases (is_open s.ledger.rows.status)) [
  | inl e ↦ rw e (cancel_at_partner-CancelLeaves c p s e)
  | inr e ↦ rw e (inl (refl, inl refl))
]
