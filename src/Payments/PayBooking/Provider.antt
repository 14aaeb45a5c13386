-- ===== src/Payments/PayBooking/Provider.antt =====
-- A booking whose provider is not found. The code reads `booking.provider?.email` and
-- `booking.provider.first_name`; the second throws after the commit, inside the `try`.
use space_next_door_core_api.Base.{ℕ, true, false, some, ◌∷◌, ◌≡◌, arith}
use space_next_door_core_api.Base.Int.{ℤ}
use space_next_door_core_api.Base.Result.{Result, ok, err}
use space_next_door_core_api.Catalog.{BookingStatus, RenewalStatus}
use space_next_door_core_api.Payments.Stripe.{StripeError, calculate_amount_in_currency}
use space_next_door_core_api.Payments.World.{World, TxState, PayError, call_failed}
use space_next_door_core_api.Payments.PayBooking.{
  Booking, Calls, amount_to_pay, begin, try_pay, try_catch, pay_amount, pay_booking,
}
use space_next_door_core_api.Payments.PayBooking.Outcome.{
  pay_booking_reserved, pay_amount_ok, charge_of, pay_booking_of_reserved,
}

abbrev pub with_provider : Calls → Calls
with_provider c = record c { provider_found = true }

-- The payment is committed, and then refunded.
pub record IsLost (id : ℕ) (w w' : World) : Type 0 where
  pub status : w'.committed.status ≡ BookingStatus.confirmed
  pub renewal : w'.committed.renewal_status ≡ RenewalStatus.paid
  pub refunds : w'.refunds ≡ id ∷ w.refunds

try_pay_late :
    (c : Calls) (b : Booking) (amount : ℤ) (w : World) {id : ℕ}
    → c.provider_found ≡ false
    → c.charge ≡ some id
    → (try_pay (with_provider c) b amount (begin w)).0 ≡ ok tt
    → let (r, w') = try_pay c b amount (begin w) in
      (r ≡ err call_failed)
      × (w'.charge ≡ some id)
      × (w'.t ≡ TxState.finished)
      × (w'.committed.status ≡ BookingStatus.confirmed)
      × (w'.committed.renewal_status ≡ RenewalStatus.paid)
      × (w'.refunds ≡ w.refunds)
unfolding try_pay
try_pay_late c b amount w e f h = ground arith

catch_late :
    (c : Calls) (w : World) (r : Result PayError (Unit {0}) × World) {id : ℕ}
    → c.refund ≡ true
    → r.0 ≡ err call_failed
    → r.1.charge ≡ some id
    → r.1.t ≡ TxState.finished
    → r.1.committed.status ≡ BookingStatus.confirmed
    → r.1.committed.renewal_status ≡ RenewalStatus.paid
    → r.1.refunds ≡ w.refunds
    → ((try_catch c r).0 ≡ err call_failed) × IsLost id w (try_catch c r).1
unfolding try_catch
catch_late c w (ok x, w') h a b d s p q = cc
catch_late c w (err e, w') h a b d s p q = ground arith

pay_amount_late :
    (c : Calls) (b : Booking) (w : World) (r : Result StripeError ℤ)
    → c.provider_found ≡ false
    → c.refund ≡ true
    → (pay_amount (with_provider c) b (begin w) r).0 ≡ ok tt
    → (id : ℕ) × ((pay_amount c b (begin w) r).0 ≡ err call_failed)
      × IsLost id w (pay_amount c b (begin w) r).1
pay_amount_late c b w r e f h =
    let (amount, converted, tried, same) = pay_amount_ok (with_provider c) b (begin w) r h in
    let (id, k) = charge_of (with_provider c) b amount (begin w) tried in
    let (x0, x1, x2, x3, x4, x5) = try_pay_late c b amount w e k tried in
    let done = catch_late c w (try_pay c b amount (begin w)) f x0 x1 x2 x3 x4 x5 in
    rw converted (unfold pay_amount in (id, done.0, done.1))

-- If a payment would succeed with the provider found, then without it, and with a refund that goes
-- through, the method throws and the customer has the charge back, but the booking stays confirmed
-- and its renewal paid.
pub pay_booking_without_provider :
    (c : Calls) (b : Booking) (w : World)
    → c.provider_found ≡ false
    → c.refund ≡ true
    → (pay_booking (with_provider c) (some b) w).0 ≡ ok tt
    → (id : ℕ) × ((pay_booking c (some b) w).0 ≡ err call_failed)
      × IsLost id w (pay_booking c (some b) w).1
pay_booking_without_provider c b w e f h =
    let (reserved, same) = pay_booking_reserved (with_provider c) b w h in
    let late =
      pay_amount_late c b w (calculate_amount_in_currency (amount_to_pay b) b.currency) e f
        (rw same at h) in
    rw (pay_booking_of_reserved c b w reserved) late
