-- ===== src/Payments/PayBooking/Outcome.antt =====
-- How a payment ends.
use space_next_door_core_api.Base.{ℕ, some, ◌∷◌, ◌≡◌, refl, ◌∙◌, inl, inr, arith, Bool-cases}
use space_next_door_core_api.Base.Int.{ℤ}
use space_next_door_core_api.Base.Result.{Result, ok, err}
use space_next_door_core_api.Catalog.{BookingStatus, RenewalStatus, same_status, same_status_eq}
use space_next_door_core_api.Payments.Stripe.{StripeError, calculate_amount_in_currency}
use space_next_door_core_api.Payments.World.{World, PayError}
use space_next_door_core_api.Payments.PayBooking.{
  begin, pay_amount, Booking, Calls, amount_to_pay, transaction_type, try_pay, try_catch,
  pay_booking,
}

-- The rows and the charge of a booking that was paid with charge `id` of `charged`.
pub record IsPaid (b : Booking) (id : ℕ) (charged : ℤ) (w w' : World) : Type 0 where
  pub status : w'.committed.status ≡ BookingStatus.confirmed
  pub renewal : w'.committed.renewal_status ≡ RenewalStatus.paid
  pub history : w'.committed.history ≡ BookingStatus.confirmed ∷ w.committed.history
  pub transactions :
      w'.committed.transactions
      ≡ record { stripe_charge_id = id; amount = amount_to_pay b; type = transaction_type b }
        ∷ w.committed.transactions
  pub charges : w'.charges ≡ record { id = id; amount = charged } ∷ w.charges

pub charge_of :
    (c : Calls) (b : Booking) (amount : ℤ) (w : World)
    → (try_pay c b amount w).0 ≡ ok tt
    → (id : ℕ) × (c.charge ≡ some id)
unfolding try_pay
charge_of c b amount w h = ground arith

try_pay-IsPaid :
    (c : Calls) (b : Booking) (amount : ℤ) (w : World) {id : ℕ}
    → c.charge ≡ some id
    → (try_pay c b amount (begin w)).0 ≡ ok tt
    → IsPaid b id amount w (try_pay c b amount (begin w)).1
unfolding try_pay
try_pay-IsPaid c b amount w e h = ground arith

try_pay_settled :
    (c : Calls) (b : Booking) (amount : ℤ) (w : World) {id : ℕ}
    → c.charge ≡ some id
    → (try_pay c b amount (begin w)).0 ≡ ok tt
    → let w' = (try_pay c b amount (begin w)).1 in
      (w'.refunds ≡ w.refunds) × (w'.in_flight ≡ w.in_flight)
unfolding try_pay
try_pay_settled c b amount w e h = ground arith

try_catch_ok :
    (c : Calls) (r : Result PayError (Unit {0}) × World)
    → (try_catch c r).0 ≡ ok tt
    → (r.0 ≡ ok tt) × (try_catch c r ≡ r)
unfolding try_catch
try_catch_ok c (ok x, w) h = (refl, refl)
try_catch_ok c (err e, w) h = cc

pub pay_amount_ok :
    (c : Calls) (b : Booking) (w : World) (r : Result StripeError ℤ)
    → (pay_amount c b w r).0 ≡ ok tt
    → (amount : ℤ) × (r ≡ ok amount)
      × ((try_pay c b amount w).0 ≡ ok tt)
      × (pay_amount c b w r ≡ try_pay c b amount w)
unfolding pay_amount
pay_amount_ok c b w (err e) h = cc
pay_amount_ok c b w (ok amount) h =
    let (tried, same) = try_catch_ok c (try_pay c b amount w) h in (amount, refl, tried, same)

err_ne_ok : {e : PayError} → ◌≡◌ {A = Result PayError (Unit {0})} (err e) (ok tt) → ⊥
err_ne_ok h = cc

pub pay_booking_reserved :
    (c : Calls) (b : Booking) (w : World)
    → (pay_booking c (some b) w).0 ≡ ok tt
    → (w.committed.status ≡ BookingStatus.reserved)
      × (pay_booking c (some b) w
          ≡ pay_amount c b (begin w) (calculate_amount_in_currency (amount_to_pay b) b.currency))
unfolding pay_booking
pay_booking_reserved c b w h =
    elim (Bool-cases (same_status w.committed.status BookingStatus.reserved)) [
      | inl e ↦ (same_status_eq w.committed.status BookingStatus.reserved e, rw e)
      | inr e ↦ absurd (err_ne_ok (rw e at h))
    ]

pub pay_booking_of_reserved :
    (c : Calls) (b : Booking) (w : World)
    → w.committed.status ≡ BookingStatus.reserved
    → pay_booking c (some b) w
      ≡ pay_amount c b (begin w) (calculate_amount_in_currency (amount_to_pay b) b.currency)
unfolding pay_booking
pay_booking_of_reserved c b w e = rw e

-- For every way that the calls can end, a payment that succeeds found the booking reserved, and
-- leaves it confirmed with its first renewal paid, one more history entry, one more transaction
-- row that names the one new Stripe charge, nothing refunded, and no transaction unfinished. The
-- charge is the amount to pay in the currency's unit.
pub pay_booking-IsPaid :
    (c : Calls) (b : Booking) (w : World)
    → (pay_booking c (some b) w).0 ≡ ok tt
    → let w' = (pay_booking c (some b) w).1 in
      (id : ℕ) × (charged : ℤ) × (w.committed.status ≡ BookingStatus.reserved)
      × (calculate_amount_in_currency (amount_to_pay b) b.currency ≡ ok charged)
      × IsPaid b id charged w w'
      × (w'.refunds ≡ w.refunds)
      × (w'.in_flight ≡ w.in_flight)
pay_booking-IsPaid c b w h =
    let (reserved, same) = pay_booking_reserved c b w h in
    let (amount, converted, tried, same') =
      pay_amount_ok c b (begin w) (calculate_amount_in_currency (amount_to_pay b) b.currency)
        (rw same at h) in
    let (id, e) = charge_of c b amount (begin w) tried in
    let whole = same ∙ same' in
    let (unrefunded, closed) = try_pay_settled c b amount w e tried in
    (
      id,
      amount,
      reserved,
      converted,
      rw whole (try_pay-IsPaid c b amount w e tried),
      rw whole unrefunded,
      rw whole closed,
    )
