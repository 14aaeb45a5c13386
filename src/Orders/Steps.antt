-- ===== src/Orders/Steps.antt =====
-- Sequences of payments, by `payOrder` and with the booking, cancellations and time-outs of one
-- order.
use space_next_door_core_api.Base.{
  ℕ, suc, ◌==◌, Bool, true, false, Option, none, some, List, [], ◌∷◌, ◌+◌, ◌≤◌, if◌then◌else◌, All,
  ◌≡◌, refl, ap, ◌⊎◌, inl, inr, arith, Bool-cases,
}
use space_next_door_core_api.Catalog.{OrderStatus, TransactionType}
use space_next_door_core_api.Orders.Cancel.{CancelState, cancel_order, CancelOrderCalls, PickUp}
use space_next_door_core_api.Payments.Ledger.{Ledger}
use space_next_door_core_api.Orders.Pay.{PayOrderCalls, PaidOrder, pay_order}
use space_next_door_core_api.Orders.Types.{
  OrderTransaction, OrderRows, is_pending, set_status, OrderError,
}
use space_next_door_core_api.Orders.WithBooking.{
  pay_with_booking, BookingPaymentLeaves, pay_with_booking-BookingPaymentLeaves,
}
use space_next_door_core_api.Payments.PayBooking.{Booking, Calls}
use space_next_door_core_api.Payments.World.{Charge, Db}
use space_next_door_core_api.Base.Int.{ℤ}
use space_next_door_core_api.Base.Result.{Result, ok, err}
use space_next_door_core_api.Orders.PayOutcome.{OrderLeaves, pay_order-OrderLeaves}
use space_next_door_core_api.Orders.CancelOutcome.{CancelLeaves, cancel_order-CancelLeaves}

-- One event: `paid` is `payOrder`, `paid_with_booking` is `payBooking` on the order's booking, and
-- `timed_out` is the job of src/cron-job/cancel-bookings on an order that is old enough.
pub data OrderEvent : Type 0 where
  paid : PayOrderCalls → Option PaidOrder → OrderEvent
  paid_with_booking : Calls → Booking → ℤ → Db → OrderEvent
  cancelled : CancelOrderCalls → Bool → Option PickUp → OrderEvent
  timed_out : OrderEvent

-- `updateOrderStatus(CANCELLED, { status: PENDING })`, which writes no history.
unfoldable pub time_out_order : OrderRows → OrderRows
time_out_order rows =
    if is_pending rows.status then record rows { status = OrderStatus.cancelled } else rows

unfoldable pub order_event : OrderEvent → CancelState → CancelState
unfolding time_out_order pay_with_booking
order_event (OrderEvent.paid c o) s = record s { ledger = (pay_order c o s.ledger).1 }
order_event (OrderEvent.paid_with_booking c b total db) s = record s {
  ledger = pay_with_booking c b total db s.ledger;
}
order_event (OrderEvent.cancelled c is_found p) s = (cancel_order c is_found p s).1
order_event OrderEvent.timed_out s = record s {
  ledger = record s.ledger { rows = time_out_order s.ledger.rows };
}

unfoldable pub run_order : List OrderEvent → CancelState → CancelState
unfolding order_event
run_order [] s = s
run_order (e ∷ es) s = run_order es (order_event e s)

-- Stripe refunds what a failed payment asks it to, and a booking that is paid has a provider.
abbrev pub Refunds : OrderEvent → Type 0
Refunds (OrderEvent.paid c o) = c.refund ≡ true
Refunds (OrderEvent.paid_with_booking c b total db) = (c.refund ≡ true) × (c.provider_found ≡ true)
Refunds (OrderEvent.cancelled c is_found p) = Unit {0}
Refunds OrderEvent.timed_out = Unit {0}

-- 1 for the charge that is counted, and 0 for another.
pub one_if : ℕ → ℕ → ℕ
one_if k id = if id == k then 1 else 0

-- How often a charge was made, refunded, and recorded as a transaction.
abbrev pub times_charged : ℕ → List Charge → ℕ
times_charged k [] = 0
times_charged k (c ∷ cs) = one_if k c.id + times_charged k cs

abbrev pub times_refunded : ℕ → List ℕ → ℕ
times_refunded k [] = 0
times_refunded k (id ∷ ids) = one_if k id + times_refunded k ids

abbrev pub times_recorded : ℕ → List OrderTransaction → ℕ
times_recorded k [] = 0
times_recorded k (t ∷ ts) = one_if k t.stripe_charge_id + times_recorded k ts

-- The payments of the order by itself.
abbrev pub paid_alone : List OrderTransaction → ℕ
paid_alone [] = 0
paid_alone (t ∷ ts) = elim t.type as (λ _. ℕ) [
  | TransactionType.order ↦ suc (paid_alone ts)
  | _ ↦ paid_alone ts
]

-- A pending order has no transaction, it is paid by itself at most once, and every charge was made
-- as often as it is recorded and refunded.
pub record OrderInv (l : Ledger OrderRows) : Type 0 where
  pub unpaid : (is_pending l.rows.status ≡ false) ⊎ (l.rows.transactions ≡ [])
  pub once : paid_alone l.rows.transactions ≤ 1
  pub balanced :
      (k : ℕ)
      → times_charged k l.charges
        ≡ times_recorded k l.rows.transactions + times_refunded k l.refunds

closed-OrderInv :
    (status : OrderStatus) (l : Ledger OrderRows)
    → is_pending status ≡ false
    → OrderInv l
    → OrderInv (record l { rows = set_status status l.rows })
closed-OrderInv status l h i = record { unpaid = inl h; once = i.once; balanced = i.balanced }

pending_unpaid :
    (l : Ledger OrderRows) → OrderInv l → is_pending l.rows.status ≡ true → l.rows.transactions ≡ []
pending_unpaid l i p = elim i.unpaid [ inl h ↦ grind arith | inr h ↦ h ]

-- The rows are kept, and a charge that is added is refunded.
kept-OrderInv :
    (l l' : Ledger OrderRows)
    → l'.rows ≡ l.rows
    → ((k : ℕ)
        → times_charged k l'.charges + times_refunded k l.refunds
          ≡ times_charged k l.charges + times_refunded k l'.refunds)
    → OrderInv l
    → OrderInv l'
kept-OrderInv l l' w e i = record {
  unpaid = rw w i.unpaid;
  once = rw w i.once;
  balanced = λ k. omega (arith, e k, i.balanced k, ap (λ x. times_recorded k x.transactions) w);
}

same_stripe :
    (l l' : Ledger OrderRows)
    → l'.charges ≡ l.charges
    → l'.refunds ≡ l.refunds
    → (k : ℕ)
    → times_charged k l'.charges + times_refunded k l.refunds
      ≡ times_charged k l.charges + times_refunded k l'.refunds
same_stripe l l' c r k = omega (arith, ap (times_charged k) c, ap (times_refunded k) r)

refunded_stripe :
    (l l' : Ledger OrderRows) (id : ℕ) (amount : ℤ)
    → l'.charges ≡ record { id = id; amount = amount } ∷ l.charges
    → l'.refunds ≡ id ∷ l.refunds
    → (k : ℕ)
    → times_charged k l'.charges + times_refunded k l.refunds
      ≡ times_charged k l.charges + times_refunded k l'.refunds
refunded_stripe l l' id amount c r k =
    omega (arith, ap (times_charged k) c, ap (times_refunded k) r)

-- One charge and its transaction are added.
recorded_stripe :
    (l l' : Ledger OrderRows) (id : ℕ) (amount : ℤ) (t : OrderTransaction)
    → OrderInv l
    → l'.charges ≡ record { id = id; amount = amount } ∷ l.charges
    → l'.refunds ≡ l.refunds
    → t.stripe_charge_id ≡ id
    → l'.rows.transactions ≡ t ∷ l.rows.transactions
    → (k : ℕ)
    → times_charged k l'.charges
      ≡ times_recorded k l'.rows.transactions + times_refunded k l'.refunds
recorded_stripe l l' id amount t i c r e w k = omega (
  arith,
  i.balanced k,
  ap (times_charged k) c,
  ap (times_refunded k) r,
  ap (one_if k) e,
  ap (times_recorded k) w,
)

paid-OrderInv :
    (o : PaidOrder) (l : Ledger OrderRows) (r : Result OrderError (Unit {0}) × Ledger OrderRows)
    → OrderLeaves o l r
    → OrderInv l
    → OrderInv r.1
paid-OrderInv o l (ok x, l') (f, r, (id, amount, q, c, w, p)) i =
    let t = pending_unpaid l i p in
    record {
      unpaid = rw w (inl refl);
      once = rw w (rw t (omega arith));
      balanced = recorded_stripe l l' id amount _ i c r refl (ap (λ x. x.transactions) w);
    }
paid-OrderInv o l (err e, l') (w, inl q) i =
    kept-OrderInv l l' w (same_stripe l l' (ap (λ x. x.charges) q) (ap (λ x. x.refunds) q)) i
paid-OrderInv o l (err e, l') (w, inr (inl (x, q, b))) i =
    kept-OrderInv l l' w (same_stripe l l' (ap (λ x. x.charges) b) (ap (λ x. x.refunds) b)) i
paid-OrderInv o l (err e, l') (w, inr (inr (inl (c, r, f)))) i =
    kept-OrderInv l l' w (same_stripe l l' c r) i
paid-OrderInv o l (err e, l') (w, inr (inr (inr (id, amount, f, c, r)))) i =
    kept-OrderInv l l' w (refunded_stripe l l' id amount c r) i

with_booking-OrderInv :
    (l l' : Ledger OrderRows) → BookingPaymentLeaves l l' → OrderInv l → OrderInv l'
with_booking-OrderInv l l' (inl (w, inl (c, r))) i = kept-OrderInv l l' w (same_stripe l l' c r) i
with_booking-OrderInv l l' (inl (w, inr (id, amount, c, r))) i =
    kept-OrderInv l l' w (refunded_stripe l l' id amount c r) i
with_booking-OrderInv l l' (inr (id, amount, total, c, r, w)) i = record {
  unpaid = rw w (inl refl);
  once = rw w i.once;
  balanced = recorded_stripe l l' id amount _ i c r refl (ap (λ x. x.transactions) w);
}

pay_order-OrderInv :
    (c : PayOrderCalls) (o : Option PaidOrder) (l : Ledger OrderRows)
    → c.refund ≡ true
    → OrderInv l
    → OrderInv (pay_order c o l).1
unfolding pay_order
pay_order-OrderInv c none l k i = i
pay_order-OrderInv c (some o) l k i = paid-OrderInv o l _ (pay_order-OrderLeaves c o l k) i

cancelled-OrderInv :
    (p : Option PickUp) (s : CancelState) (r : Result OrderError (Unit {0}) × CancelState)
    → CancelLeaves p s r
    → OrderInv s.ledger
    → OrderInv r.1.ledger
cancelled-OrderInv p s (ok x, s') (o, k, h, e) i = rw e (closed-OrderInv _ s.ledger refl i)
cancelled-OrderInv p s (err x, s') (inl (e, h)) i = rw e i
cancelled-OrderInv p s (err x, s') (inr (status, h, q, r, k, e)) i =
    rw e (closed-OrderInv _ s.ledger h i)

timed_out-OrderInv :
    (l : Ledger OrderRows) → OrderInv l → OrderInv (record l { rows = time_out_order l.rows })
unfolding time_out_order
timed_out-OrderInv l i = elim (Bool-cases (is_pending l.rows.status)) [
  | inl e ↦ rw e (record { unpaid = inl refl; once = i.once; balanced = i.balanced })
  | inr e ↦ rw e (record { unpaid = i.unpaid; once = i.once; balanced = i.balanced })
]

order_event-OrderInv :
    (e : OrderEvent) (s : CancelState)
    → Refunds e
    → OrderInv s.ledger
    → OrderInv (order_event e s).ledger
unfolding order_event
order_event-OrderInv (OrderEvent.paid c o) s k i = pay_order-OrderInv c o s.ledger k i
order_event-OrderInv (OrderEvent.paid_with_booking c b total db) s k i =
    with_booking-OrderInv s.ledger _
      (pay_with_booking-BookingPaymentLeaves c b total db s.ledger k.0 k.1) i
order_event-OrderInv (OrderEvent.cancelled c is_found p) s k i =
    cancelled-OrderInv p s _ (cancel_order-CancelLeaves c is_found p s) i
order_event-OrderInv OrderEvent.timed_out s k i = timed_out-OrderInv s.ledger i

-- Whatever payments by `payOrder` or with the booking, cancellations and time-outs an order goes
-- through, in any order and with any failures but that of Stripe's refund of a failed payment and
-- that of a booking without a provider, and from any state in which this holds: it has no
-- transaction while it is pending, it is paid by itself at most once, and every charge made for it
-- is recorded as one of its transactions or refunded, as often as it was made. A payment with the
-- booking may come on top of its own.
pub run_order-OrderInv :
    (es : List OrderEvent) (s : CancelState)
    → All Refunds es
    → OrderInv s.ledger
    → OrderInv (run_order es s).ledger
unfolding run_order
run_order-OrderInv [] s k i = i
run_order-OrderInv (e ∷ es) s (k, ks) i =
    run_order-OrderInv es (order_event e s) ks (order_event-OrderInv e s k i)
