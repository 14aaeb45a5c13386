-- ===== src/Orders/WithBooking.antt =====
-- `payBooking` of src/bookings/booking.service.ts as the order of the booking sees it: it pays for
-- `booking.orders[0]` with the booking, whatever the order's status is.
use space_next_door_core_api.Base.{
  true, false, ◌∙◌, Bool-cases, none, some, [], ◌∷◌, ◌++◌, if◌then◌else◌, is_some, map, ℕ, ◌≡◌,
  refl, ◌⊎◌, inl, inr, arith,
}
use space_next_door_core_api.Catalog.{BookingStatus, same_status, OrderStatus, TransactionType}
use space_next_door_core_api.Orders.Types.{OrderRows, OrderTransaction, set_status}
use space_next_door_core_api.Payments.Ledger.{Ledger}
use space_next_door_core_api.Payments.PayBooking.{
  Booking, Calls, pay_booking, try_pay, catch_pay, try_catch, pay_amount, begin, amount_to_pay,
}
use space_next_door_core_api.Payments.PayBooking.Outcome.{
  pay_booking-IsPaid, pay_booking_reserved, pay_amount_ok,
}
use space_next_door_core_api.Payments.PayBooking.Refusal.{IsSettled, pay_booking-IsSettled}
use space_next_door_core_api.Payments.World.{Db, TransactionRow, TxState, World, PayError}
use space_next_door_core_api.Payments.Stripe.{StripeError, calculate_amount_in_currency}
use space_next_door_core_api.Base.Result.{Result, ok, err}
use space_next_door_core_api.Base.Int.{ℤ}

-- The payment's world, with Stripe's side of the order; its transactions are those it will add.
abbrev pub world_of : Db → Ledger OrderRows → World
world_of db l =
    let d = record db { order_confirmed = false; transactions = [] } in
    record {
      committed = d;
      pending = d;
      t = TxState.finished;
      in_flight = l.in_flight;
      charges = l.charges;
      refunds = l.refunds;
      charge = none;
    }

-- `order_id: booking?.orders?.[0]?.id`: the row is of the order as well.
abbrev pub order_transaction : TransactionRow → OrderTransaction
order_transaction t = record {
  stripe_charge_id = t.stripe_charge_id;
  amount = t.amount;
  type = t.type;
}

-- What the payment has committed, on the order's rows.
unfoldable pub take_over : Db → OrderRows → OrderRows
take_over d rows =
    let rows' = record rows {
      transactions = map order_transaction d.transactions ++ rows.transactions;
    } in
    if d.order_confirmed then set_status OrderStatus.confirmed rows' else rows'

unfoldable pub pay_with_booking : Calls → Booking → ℤ → Db → Ledger OrderRows → Ledger OrderRows
unfolding take_over pay_booking
pay_with_booking c b total db l =
    let w = (pay_booking c (some (record b { order_total = some total })) (world_of db l)).1 in
    record {
      rows = take_over w.committed l.rows;
      in_flight = w.in_flight;
      charges = w.charges;
      refunds = w.refunds;
    }

try_pay_confirms :
    (c : Calls) (b : Booking) (amount : ℤ) (w : World)
    → is_some b.order_total ≡ true
    → (try_pay c b amount w).0 ≡ ok tt
    → (try_pay c b amount w).1.committed.order_confirmed ≡ true
unfolding try_pay
try_pay_confirms c b amount w o h = ground arith

try_pay_keeps :
    (c : Calls) (b : Booking) (amount : ℤ) (w : World) {e : PayError}
    → c.provider_found ≡ true
    → (try_pay c b amount w).0 ≡ err e
    → (try_pay c b amount w).1.committed ≡ w.committed
unfolding try_pay
try_pay_keeps c b amount w p h = ground arith

IsKept : Db → Db → Type 0
IsKept d d' = (d'.order_confirmed ≡ d.order_confirmed) × (d'.transactions ≡ d.transactions)

catch_pay_keeps :
    (c : Calls) (w : World) (d : Db) → w.committed ≡ d → IsKept d (catch_pay c w).committed
unfolding catch_pay IsKept
catch_pay_keeps c w d h = ground arith

try_catch_keeps :
    (c : Calls) (r : Result PayError (Unit {0}) × World) (d : Db) {e : PayError}
    → ((e' : PayError) → r.0 ≡ err e' → r.1.committed ≡ d)
    → (try_catch c r).0 ≡ err e
    → IsKept d (try_catch c r).1.committed
unfolding try_catch
try_catch_keeps c (ok x, w) d k h = cc
try_catch_keeps c (err e, w) d k h = catch_pay_keeps c w d (k e refl)

pay_amount_keeps :
    (c : Calls) (b : Booking) (w : World) (r : Result StripeError ℤ) {e : PayError}
    → c.provider_found ≡ true
    → (pay_amount c b (begin w) r).0 ≡ err e
    → IsKept w.committed (pay_amount c b (begin w) r).1.committed
unfolding pay_amount IsKept
pay_amount_keeps c b w (err x) p h = (refl, refl)
pay_amount_keeps c b w (ok amount) p h =
    try_catch_keeps c (try_pay c b amount (begin w)) w.committed
      (λ e' k. try_pay_keeps c b amount (begin w) {e = e'} p k) h

pay_booking_keeps :
    (c : Calls) (b : Booking) (w : World) {e : PayError}
    → c.provider_found ≡ true
    → (pay_booking c (some b) w).0 ≡ err e
    → IsKept w.committed (pay_booking c (some b) w).1.committed
unfolding pay_booking IsKept
pay_booking_keeps c b w {e} p h =
    elim (Bool-cases (same_status w.committed.status BookingStatus.reserved)) [
      | inl r ↦ rw r (
          pay_amount_keeps c b w (calculate_amount_in_currency (amount_to_pay b) b.currency) {e = e}
            p (rw r at h))
      | inr r ↦ rw r (refl, refl)
    ]

pay_booking_confirms :
    (c : Calls) (b : Booking) (w : World)
    → is_some b.order_total ≡ true
    → (pay_booking c (some b) w).0 ≡ ok tt
    → (pay_booking c (some b) w).1.committed.order_confirmed ≡ true
pay_booking_confirms c b w o h =
    let (reserved, same) = pay_booking_reserved c b w h in
    let (amount, converted, tried, same') =
      pay_amount_ok c b (begin w) (calculate_amount_in_currency (amount_to_pay b) b.currency)
        (rw same at h) in
    let whole = same ∙ same' in rw whole (try_pay_confirms c b amount (begin w) o tried)

-- The order is as it was, and nothing is charged, or the one charge is refunded; or it is confirmed,
-- with one charge and the one transaction of it, whatever it was before.
abbrev pub BookingPaymentLeaves : Ledger OrderRows → Ledger OrderRows → Type 0
BookingPaymentLeaves l l' =
    ((l'.rows ≡ l.rows)
      × (((l'.charges ≡ l.charges) × (l'.refunds ≡ l.refunds))
          ⊎ ((id : ℕ) × (amount : ℤ) × (l'.charges
                ≡ record { id = id; amount = amount } ∷ l.charges)
              × (l'.refunds ≡ id ∷ l.refunds))))
    ⊎ ((id : ℕ) × (amount : ℤ) × (paid : ℤ) × (l'.charges
          ≡ record { id = id; amount = amount } ∷ l.charges)
        × (l'.refunds ≡ l.refunds)
        × (l'.rows ≡ record {
          status = OrderStatus.confirmed;
          history = OrderStatus.confirmed ∷ l.rows.history;
          transactions =
              record { stripe_charge_id = id; amount = paid; type = TransactionType.booking_order }
              ∷ l.rows.transactions;
        }))

-- An answer is a success or a throw.
ended : (r : Result PayError (Unit {0})) → (r ≡ ok tt) ⊎ ((e : PayError) × (r ≡ err e))
ended (ok x) = inl refl
ended (err e) = inr (e, refl)

taken_over :
    (d : Db) (t : TransactionRow) (rows : OrderRows)
    → d.order_confirmed ≡ true
    → d.transactions ≡ t ∷ []
    → take_over d rows ≡ record {
      status = OrderStatus.confirmed;
      history = OrderStatus.confirmed ∷ rows.history;
      transactions = order_transaction t ∷ rows.transactions;
    }
unfolding take_over
taken_over d t rows h k = rw (h, k) refl

left_alone :
    (d : Db) (rows : OrderRows)
    → d.order_confirmed ≡ false
    → d.transactions ≡ []
    → take_over d rows ≡ rows
unfolding take_over
left_alone d rows h k = rw (h, k) refl

settled_leaves :
    (w w' : World)
    → IsSettled w w'
    → ((w'.charges ≡ w.charges) × (w'.refunds ≡ w.refunds))
      ⊎ ((id : ℕ) × (amount : ℤ) × (w'.charges ≡ record { id = id; amount = amount } ∷ w.charges)
          × (w'.refunds ≡ id ∷ w.refunds))
settled_leaves w w' (IsSettled.untouched x y) = inl (x, y)
settled_leaves w w' (IsSettled.refunded id amount x y) = inr (id, amount, x, y)

pub pay_with_booking-BookingPaymentLeaves :
    (c : Calls) (b : Booking) (total : ℤ) (db : Db) (l : Ledger OrderRows)
    → c.refund ≡ true
    → c.provider_found ≡ true
    → BookingPaymentLeaves l (pay_with_booking c b total db l)
unfolding pay_with_booking IsKept
pay_with_booking-BookingPaymentLeaves c b total db l r p =
    let b' = record b { order_total = some total } in
    let w = world_of db l in
    let d = (pay_booking c (some b') w).1.committed in
    elim (ended (pay_booking c (some b') w).0) [
      | inl h ↦
          let (id, charged, reserved, converted, paid, unrefunded, closed) =
            pay_booking-IsPaid c b' w h in
          inr (
            id,
            charged,
            amount_to_pay b',
            paid.charges,
            unrefunded,
            taken_over d _ l.rows (pay_booking_confirms c b' w refl h) paid.transactions,
          )
      | inr (e, h) ↦
          let (unconfirmed, unrecorded) = pay_booking_keeps c b' w {e = e} p h in
          inl (
            left_alone d l.rows unconfirmed unrecorded,
            settled_leaves w _ (pay_booking-IsSettled c (some b') w {e = e} r h),
          )
    ]
