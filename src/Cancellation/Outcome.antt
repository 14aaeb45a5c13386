-- ===== src/Cancellation/Outcome.antt =====
-- How a cancellation ends.
use space_next_door_core_api.Base.{ℕ, true, false, none, some, ◌≡◌, refl}
use space_next_door_core_api.Base.Int.{ℤ}
use space_next_door_core_api.Base.Result.{Result, ok, err}
use space_next_door_core_api.Payments.Stripe.{StripeError}
use space_next_door_core_api.Payments.Refund.{
  State, RefundPayload, RefundCalls, refund, record_refund, send_refund, refund_with,
}
use space_next_door_core_api.Cancellation.{
  CancelledBooking, CancelCalls, get_refund_payload_from_booking, cancellation_fee, cancel_payload,
  finish_cancel, mark_cancelled, cancel_booking, refund_failed,
}

-- Stripe turns the refund down.
pub record IsDeclined (c : CancelCalls) : Type 0 where
  pub upsert_history : c.upsert_history ≡ true
  pub save : c.save ≡ true
  pub create : (id : ℕ) × (c.refund.create ≡ some id)
  pub card : c.refund.retrieve_card ≡ true
  pub ids : c.refund.ids ≡ true
  pub transaction : c.refund.create_transaction ≡ true
  pub declined : c.refund.stripe_refund ≡ false
  pub commit : c.commit ≡ true

send_declined :
    (c : RefundCalls) (id : ℕ) (p : RefundPayload) (r : Result StripeError ℤ) (s : State)
    → c.stripe_refund ≡ false
    → send_refund c false id p r s ≡ (ok none, s)
unfolding send_refund
send_declined c id p (err e) s h = refl
send_declined c id p (ok a) s h = rw h

refund_declined :
    (c : RefundCalls) (p : RefundPayload) (s : State) {id : ℕ}
    → c.create ≡ some id
    → c.retrieve_card ≡ true
    → c.ids ≡ true
    → c.create_transaction ≡ true
    → c.stripe_refund ≡ false
    → refund c false p s ≡ (ok none, record s { pending = record_refund p s.pending })
unfolding refund
refund_declined c p s {id} h a b d e = rw (h, refund_with, a, b, d, send_declined c id p _ _ e)

-- If every call goes through but Stripe's refund, then the customer of a confirmed booking, whose
-- move in date is not reached, gets an error, and yet the booking is cancelled, and the refund and
-- its transaction are on record, though Stripe has refunded nothing.
pub cancel_booking_declined :
    (c : CancelCalls) (booking : CancelledBooking) (days : ℤ) (s : State)
    → IsDeclined c
    → let d = get_refund_payload_from_booking booking in
      let (r, s') = cancel_booking c (some booking) false days s in
      (r ≡ err refund_failed)
      × (s'.sent ≡ s.sent)
      × (s'.committed
          ≡ record_refund (cancel_payload d (cancellation_fee d days)) (mark_cancelled s.committed))
unfolding cancel_booking
cancel_booking_declined c booking days s h =
    rw
      (
        h.upsert_history,
        h.save,
        refund_declined c.refund _ _ (h.create).1 h.card h.ids h.transaction h.declined,
        finish_cancel,
        h.commit,
      )
      (refl, refl, refl)
