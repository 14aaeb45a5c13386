-- ===== src/Cancellation.antt =====
-- src/bookings/booking.service.ts: `getRefundPayloadFromBooking` and `cancelBooking`.
pub mod Fees
pub mod Charge
pub mod Outcome
use space_next_door_core_api.Base.{
  ℕ, zero, suc, Bool, true, false, Option, none, some, List, [], ◌∷◌, ◌++◌, ◌&&◌, ◌||◌, not, ◌+◌,
  ◌-◌, ◌*◌, ◌/◌, ◌%◌, ◌≤◌, ◌<◌, if◌then◌else◌, leb, ltb, ◌==◌, length, is_some, last?, head?, any,
  all, All, filter, find, includes, get_or, map, ◌≡◌, refl, sym, ap, ◌∙◌, ◌≢◌, ◌↔◌, ◌⊎◌, inl, inr,
  arith, Bool-cases, Option-cases,
}
use mathlib.Core.List.{reverse}
use space_next_door_core_api.Base.Int.{ℤ, pos, ◌+ℤ◌, ◌-ℤ◌, ◌*ℤ◌, max_ℤ, leb_ℤ, ltb_ℤ}
use space_next_door_core_api.Base.Round.{to_fixed}
use space_next_door_core_api.Base.Result.{Result, ok, err}
use space_next_door_core_api.Catalog.{BookingStatus, RefundType}
use space_next_door_core_api.Payments.Stripe.{Currency}
use space_next_door_core_api.Payments.Refund.{
  Rows, State, RefundPayload, RefundCalls, RefundError, refund,
}

pub record BookingTransaction : Type 0 where
  pub stripe_charge_id : ℕ
  pub amount : ℤ
  pub currency : Currency
  pub order_amount : Option ℤ

pub record FirstRenewal : Type 0 where
  pub insurance_amount : Option ℤ
  pub deposit_amount : Option ℤ

-- The termination, with the charge of its renewal's transaction.
pub record Termination : Type 0 where
  pub unused_days_amount : ℤ
  pub charge_id : Option ℕ

pub record CancelledBooking : Type 0 where
  pub transactions : List BookingTransaction
  pub renewal : Option FirstRenewal
  pub termination : Option Termination

pub record UnusedDaysOption : Type 0 where
  pub amount : ℤ
  pub charge_id : Option ℕ

-- `stripe_charge_id` is `none` for the empty string.
pub record RefundDetails : Type 0 where
  pub stripe_charge_id : Option ℕ
  pub insurance_amount : ℤ
  pub deposited_amount : ℤ
  pub total_amount : ℤ
  pub order_amount : ℤ
  pub currency : Currency
  pub unused_days_option : Option UnusedDaysOption

-- Amounts are in cents, so `>= 1` is `>= 100`.
unfoldable pub get_unused_days_option : Option Termination → Option UnusedDaysOption
get_unused_days_option none = none
get_unused_days_option (some t) =
    if leb_ℤ (pos 100) t.unused_days_amount
    then some (record { amount = t.unused_days_amount; charge_id = t.charge_id })
    else none

abbrev pub is_charge : Option UnusedDaysOption → ℕ → Bool
is_charge none id = false
is_charge (some o) id = elim o.charge_id [ none ↦ false | some i ↦ i == id ]

-- The test of the loop: the transaction covers the deposit and is not the one that the unused
-- days are refunded on.
abbrev pub covers_deposit : ℤ → Option UnusedDaysOption → BookingTransaction → Bool
covers_deposit deposit unused t =
    leb_ℤ deposit t.amount && not (is_charge unused t.stripe_charge_id)

-- The charge of the last transaction that passes, and else of the first transaction.
unfoldable pub refund_charge : ℤ → Option UnusedDaysOption → List BookingTransaction → Option ℕ
refund_charge deposit unused transactions =
    elim (find (covers_deposit deposit unused) (reverse transactions)) [
      | some t ↦ some t.stripe_charge_id
      | none ↦ elim (head? transactions) [ none ↦ none | some t ↦ some t.stripe_charge_id ]
    ]

abbrev first_amount : Option BookingTransaction → ℤ
first_amount none = pos 0
first_amount (some t) = t.amount

abbrev first_order : Option BookingTransaction → ℤ
first_order none = pos 0
first_order (some t) = get_or t.order_amount (pos 0)

abbrev first_currency : Option BookingTransaction → Currency
first_currency none = Currency.missing
first_currency (some t) = t.currency

abbrev insurance_of : Option FirstRenewal → ℤ
insurance_of none = pos 0
insurance_of (some r) = get_or r.insurance_amount (pos 0)

abbrev deposit_of : Option FirstRenewal → ℤ
deposit_of none = pos 0
deposit_of (some r) = get_or r.deposit_amount (pos 0)

unfoldable pub get_refund_payload_from_booking : CancelledBooking → RefundDetails
unfolding get_unused_days_option refund_charge
get_refund_payload_from_booking booking =
    let first = head? booking.transactions in
    let unused = get_unused_days_option booking.termination in
    let deposit = deposit_of booking.renewal in
    record {
      stripe_charge_id = refund_charge deposit unused booking.transactions;
      insurance_amount = insurance_of booking.renewal;
      deposited_amount = deposit;
      total_amount = first_amount first;
      order_amount = first_order first;
      currency = first_currency first;
      unused_days_option = unused;
    }

pub record CancellationFee : Type 0 where
  pub refund_amount : ℤ
  pub penalty_percent : ℕ

-- What is left of the payment for the rent.
unfoldable pub rent_amount : RefundDetails → ℤ
rent_amount d =
    max_ℤ (d.total_amount -ℤ d.insurance_amount -ℤ d.order_amount -ℤ d.deposited_amount) (pos 0)

-- What is refunded in any case.
abbrev pub kept_safe : RefundDetails → ℤ
kept_safe d = d.deposited_amount +ℤ d.insurance_amount +ℤ d.order_amount

-- The three `if`s on `differenceInDays`, a whole number, and the rounding after them; half the
-- rent and the rest are halves of a cent.
unfoldable pub cancellation_fee : RefundDetails → ℤ → CancellationFee
unfolding rent_amount
cancellation_fee d days =
    if leb_ℤ (pos 14) days
    then record { refund_amount = to_fixed d.total_amount 1; penalty_percent = 0 }
    else (if leb_ℤ (pos 7) days
        then record {
          refund_amount = to_fixed (rent_amount d +ℤ kept_safe d *ℤ pos 2) 2;
          penalty_percent = 50;
        }
        else record { refund_amount = to_fixed (kept_safe d) 1; penalty_percent = 100 })

pub data CancelError : Type 0 where
  no_booking_found move_in_reached refund_failed call_failed : CancelError

pub record CancelBookingResponse : Type 0 where
  pub id : ℕ
  pub refunded_amount : ℤ
  pub penalty_applied : Bool
  pub penalty_percent : ℕ

-- How the calls around the refund end.
pub record CancelCalls : Type 0 where
  pub upsert_history : Bool
  pub save : Bool
  pub refund : RefundCalls
  pub commit : Bool

unfoldable pub cancel_payload : RefundDetails → CancellationFee → RefundPayload
cancel_payload d fee = record {
  amount = fee.refund_amount;
  penalty_percent = fee.penalty_percent;
  type = RefundType.refund_cancel_booking;
  charge_id = d.stripe_charge_id;
  currency = d.currency;
}

-- `if (!refundId) throw`, after the commit.
unfoldable pub respond :
    RefundDetails → CancellationFee → Option ℕ → Result CancelError CancelBookingResponse
respond d fee none = err refund_failed
respond d fee (some id) = ok (record {
  id = id;
  refunded_amount = fee.refund_amount;
  penalty_applied =
      not (leb_ℤ d.total_amount fee.refund_amount && leb_ℤ fee.refund_amount d.total_amount);
  penalty_percent = fee.penalty_percent;
})

-- The end of the method, from how the refund ended.
unfoldable pub finish_cancel :
    CancelCalls
    → RefundDetails
    → CancellationFee
    → Result RefundError (Option ℕ) × State
    → Result CancelError CancelBookingResponse × State
unfolding respond
finish_cancel c d fee (err e, s) = (err call_failed, s)
finish_cancel c d fee (ok refund_id, s) =
    if c.commit
    then (respond d fee refund_id, record s { committed = s.pending; in_flight = s.in_flight - 1 })
    else (err call_failed, s)

-- The status and the history row, written in the transaction.
unfoldable pub mark_cancelled : Rows → Rows
mark_cancelled rows = record rows {
  status = BookingStatus.cancelled;
  history = BookingStatus.cancelled ∷ rows.history;
}

-- `found` is the customer's confirmed booking of that id; `started` tells whether the move in date
-- at midnight has been reached, and `days` is `differenceInDays`. No call is in a `try`.
unfoldable pub cancel_booking :
    CancelCalls
    → Option CancelledBooking
    → Bool
    → ℤ
    → State
    → Result CancelError CancelBookingResponse × State
unfolding finish_cancel cancel_payload cancellation_fee mark_cancelled
cancel_booking c none started days s = (err no_booking_found, s)
cancel_booking c (some booking) started days s =
    let d = get_refund_payload_from_booking booking in
    let fee = cancellation_fee d days in
    let s₁ = record s { pending = s.committed; in_flight = s.in_flight + 1 } in
    if started
    then (err move_in_reached, s)
    else (if c.upsert_history && c.save
        then finish_cancel c d fee (
            refund c.refund false (cancel_payload d fee)
              (record s₁ { pending = mark_cancelled s₁.pending }))
        else (err call_failed, s₁))
