-- ===== src/Payments/PayBooking/Refusal.antt =====
-- How a payment that fails leaves Stripe and the rows.
use space_next_door_core_api.Base.{
  ℕ, true, Option, none, some, ◌∷◌, ◌≡◌, refl, ◌⊎◌, inl, inr, arith, Bool-cases, Option-cases,
}
use space_next_door_core_api.Base.Int.{ℤ}
use space_next_door_core_api.Base.Result.{Result, ok, err}
use space_next_door_core_api.Catalog.{BookingStatus, same_status}
use space_next_door_core_api.Payments.Stripe.{StripeError, calculate_amount_in_currency}
use space_next_door_core_api.Payments.World.{World, PayError}
use space_next_door_core_api.Payments.PayBooking.{
  Booking, Calls, amount_to_pay, begin, try_pay, catch_pay, try_catch, pay_amount, pay_booking,
}

-- Stripe's side is as it was, or has one more charge and the refund of that charge.
pub data IsSettled (w w' : World) : Type 0 where
  untouched : w'.charges ≡ w.charges → w'.refunds ≡ w.refunds → IsSettled w w'
  refunded :
      (id : ℕ) (amount : ℤ)
      → w'.charges ≡ record { id = id; amount = amount } ∷ w.charges
      → w'.refunds ≡ id ∷ w.refunds
      → IsSettled w w'

-- What the `try` leaves: the variable names the charge, if one was made.
data IsTried (w w' : World) : Type 0 where
  uncharged : w'.charge ≡ none → w'.charges ≡ w.charges → w'.refunds ≡ w.refunds → IsTried w w'
  charged :
      (id : ℕ) (amount : ℤ)
      → w'.charge ≡ some id
      → w'.charges ≡ record { id = id; amount = amount } ∷ w.charges
      → w'.refunds ≡ w.refunds
      → IsTried w w'

try_pay_uncharged :
    (c : Calls) (b : Booking) (amount : ℤ) (w : World)
    → c.charge ≡ none
    → let w' = (try_pay c b amount (begin w)).1 in
      (w'.charge ≡ none) × (w'.charges ≡ w.charges) × (w'.refunds ≡ w.refunds)
unfolding try_pay
try_pay_uncharged c b amount w e = ground arith

try_pay_charged :
    (c : Calls) (b : Booking) (amount : ℤ) (w : World) {id : ℕ}
    → c.charge ≡ some id
    → let w' = (try_pay c b amount (begin w)).1 in
      (w'.refunds ≡ w.refunds)
      × (((w'.charge ≡ none) × (w'.charges ≡ w.charges))
          ⊎ ((w'.charge ≡ some id)
              × (w'.charges ≡ record { id = id; amount = amount } ∷ w.charges)))
unfolding try_pay
try_pay_charged c b amount w e = ground arith

try_pay-IsTried :
    (c : Calls) (b : Booking) (amount : ℤ) (w : World) → IsTried w (try_pay c b amount (begin w)).1
try_pay-IsTried c b amount w = elim (Option-cases c.charge) [
  | inl e ↦ let (x, y, z) = try_pay_uncharged c b amount w e in uncharged x y z
  | inr (id, e) ↦
      let (z, split) = try_pay_charged c b amount w e in
      elim split [ inl (x, y) ↦ uncharged x y z | inr (x, y) ↦ charged id amount x y z ]
]

catch_pay-IsSettled :
    (c : Calls) (w w' : World) → c.refund ≡ true → IsTried w w' → IsSettled w (catch_pay c w')
unfolding catch_pay
catch_pay-IsSettled c w w' h (uncharged x y z) = untouched (ground arith) (ground arith)
catch_pay-IsSettled c w w' h (charged id amount x y z) =
    refunded id amount (ground arith) (ground arith)

try_catch-IsSettled :
    (c : Calls) (w : World) (r : Result PayError (Unit {0}) × World) {e : PayError}
    → c.refund ≡ true
    → (try_catch c r).0 ≡ err e
    → IsTried w r.1
    → IsSettled w (try_catch c r).1
unfolding try_catch
try_catch-IsSettled c w (ok x, w') h k t = cc
try_catch-IsSettled c w (err e, w') h k t = catch_pay-IsSettled c w w' h t

pay_amount-IsSettled :
    (c : Calls) (b : Booking) (w : World) (r : Result StripeError ℤ) {e : PayError}
    → c.refund ≡ true
    → (pay_amount c b (begin w) r).0 ≡ err e
    → IsSettled w (pay_amount c b (begin w) r).1
unfolding pay_amount
pay_amount-IsSettled c b w (err x) h k = untouched refl refl
pay_amount-IsSettled c b w (ok amount) h k =
    try_catch-IsSettled c w (try_pay c b amount (begin w)) h k (try_pay-IsTried c b amount w)

-- For every booking and every way that the calls can end in which Stripe's refund goes through, a
-- payment that throws has charged the customer nothing, or has charged once and refunded exactly
-- that charge.
pub pay_booking-IsSettled :
    (c : Calls) (b : Option Booking) (w : World) {e : PayError}
    → c.refund ≡ true
    → (pay_booking c b w).0 ≡ err e
    → IsSettled w (pay_booking c b w).1
unfolding pay_booking
pay_booking-IsSettled c none w h k = untouched refl refl
pay_booking-IsSettled c (some b) w {e} h k =
    elim (Bool-cases (same_status w.committed.status BookingStatus.reserved)) [
      | inl r ↦ rw r (
          pay_amount-IsSettled c b w (calculate_amount_in_currency (amount_to_pay b) b.currency)
            {e = e} h (rw r at k))
      | inr r ↦ rw r (untouched refl refl)
    ]
