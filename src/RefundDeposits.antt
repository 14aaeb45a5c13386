-- ===== src/RefundDeposits.antt =====
-- src/cron-job/refund-deposit/refund-deposit.cron.ts: the job that refunds deposits, on one booking
-- that is completed and whose termination is old enough.
pub mod Once
use space_next_door_core_api.Base.{
  ℕ, zero, suc, Bool, true, false, Option, none, some, List, [], ◌∷◌, ◌++◌, ◌&&◌, ◌||◌, not, ◌+◌,
  ◌-◌, ◌*◌, ◌/◌, ◌%◌, ◌≤◌, ◌<◌, if◌then◌else◌, leb, ltb, ◌==◌, length, is_some, last?, head?, any,
  all, All, filter, find, includes, get_or, map, ◌≡◌, refl, sym, ap, ◌∙◌, ◌≢◌, ◌↔◌, ◌⊎◌, inl, inr,
  arith, Bool-cases, Option-cases,
}
use space_next_door_core_api.Catalog.{RefundType}
use space_next_door_core_api.Payments.Refund.{RefundCalls, RefundRow, State, RefundPayload, refund}
use space_next_door_core_api.Cancellation.{
  RefundDetails, CancelledBooking, get_refund_payload_from_booking,
}
use space_next_door_core_api.Base.Int.{leb_ℤ, pos}

-- How the calls of one run end: the update of the booking, and those of the two refunds.
pub record DepositCalls : Type 0 where
  pub update : Bool
  pub deposit : RefundCalls
  pub unused_days : RefundCalls

-- The booking's mark, and what the refund service works on.
pub record DepositState : Type 0 where
  pub is_deposit_refunded : Bool
  pub refunds : State

abbrev pub is_deposit : RefundRow → Bool
is_deposit r = elim r.type [
  | RefundType.refund_deposit ↦ true
  | RefundType.refund_cancel_booking ↦ false
  | RefundType.refund_unused_days ↦ false
]

-- `getUnUpdatedRefundBookings` and the update: a booking with a refund of its deposit is marked.
unfoldable pub mark_refunded : Bool → DepositState → DepositState
mark_refunded updated s =
    if updated && any is_deposit s.refunds.committed.refunds
    then record s { is_deposit_refunded = true }
    else s

abbrev pub deposit_refund : RefundDetails → RefundPayload
deposit_refund d = record {
  amount = d.deposited_amount;
  penalty_percent = 0;
  type = RefundType.refund_deposit;
  charge_id = d.stripe_charge_id;
  currency = d.currency;
}

-- The refund of unused days, where there is one. Amounts are in cents, so `>= 1` is `>= 100`.
unfoldable pub refund_unused_days : RefundCalls → RefundDetails → State → State
unfolding refund
refund_unused_days c d s = elim d.unused_days_option [
  | none ↦ s
  | some u ↦
      if leb_ℤ (pos 100) u.amount
      then (refund c true
          (record {
            amount = u.amount;
            penalty_percent = 0;
            type = RefundType.refund_unused_days;
            charge_id = u.charge_id;
            currency = d.currency;
          })
          s).1
      else s
]

-- Both refunds, each in a transaction of its own, one after the other (the source starts them
-- together); what they throw is logged.
unfoldable pub refund_booking : DepositCalls → CancelledBooking → State → State
unfolding refund refund_unused_days get_refund_payload_from_booking
refund_booking c booking s =
    let d = get_refund_payload_from_booking booking in
    refund_unused_days c.unused_days d (refund c.deposit true (deposit_refund d) s).1

-- One run: the query takes the booking only when it is not marked.
unfoldable pub refund_booking_cron : DepositCalls → CancelledBooking → DepositState → DepositState
unfolding mark_refunded refund_booking
refund_booking_cron c booking s =
    let s' = mark_refunded c.update s in
    if s'.is_deposit_refunded
    then s'
    else record s' { refunds = refund_booking c booking s'.refunds }

-- The runs of several days.
unfoldable pub refund_runs : List DepositCalls → CancelledBooking → DepositState → DepositState
unfolding refund_booking_cron
refund_runs [] booking s = s
refund_runs (c ∷ cs) booking s = refund_runs cs booking (refund_booking_cron c booking s)
