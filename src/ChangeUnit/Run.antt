-- ===== src/ChangeUnit/Run.antt =====
-- `changeBookingUnit` of src/bookings/booking.service.ts, from the checks to the refunds.
use space_next_door_core_api.Base.{
  ℕ, Bool, true, false, Option, none, some, List, [], ◌∷◌, ◌++◌, ◌&&◌, not, if◌then◌else◌,
}
use space_next_door_core_api.Catalog.{RefundType}
use space_next_door_core_api.Calendar.{Calendar}
use space_next_door_core_api.ChangeUnit.Request.{
  check_change, UnitBooking, NewSpace, UnitRenewal, ChangeError, ChangeBookingUnitPayload,
  call_failed, not_found,
}
use space_next_door_core_api.ChangeUnit.Change.{
  refund_old, pay_unit_change_amount, ChangeCalls, ChangeBookingUnitResp, fail_change, PayUnitCalls,
  changed_rows, UnitRows, unit_refund,
}
use space_next_door_core_api.Payments.Ledger.{Attempt, Ledger, commit_in, begin_in}
use space_next_door_core_api.Base.Int.{leb_ℤ, ℤ}
use space_next_door_core_api.ChangeUnit.Swap.{
  unused_days_of, partial_renewal, UnusedDays, UnitChangeRenewal, is_swapped, no_days,
}
use space_next_door_core_api.Taxes.{TaxOwner, Tax}
use space_next_door_core_api.Base.Result.{Result, err, ok}
use space_next_door_core_api.Payments.Refund.{RefundCalls, RefundPayload, State}
use space_next_door_core_api.Payments.Stripe.{Currency}
use space_next_door_core_api.Base.Round.{to_fixed}
use space_next_door_core_api.Base.Number.{Number}

module _ (cal : Calendar) where
  open cal use {Date}

  -- What the change is worked out to be. `is_swapped` tells whether the days that are left move to
  -- the new unit at once.
  pub record UnitChange : Type 0 where
    pub booking : UnitBooking cal
    pub space : NewSpace
    pub last : UnitRenewal cal
    pub is_applied : Bool
    pub is_swapped : Bool
    pub days : UnusedDays
    pub new_renewal : UnitChangeRenewal cal

  unfoldable pub unit_change :
      (List TaxOwner → List Tax)
      → ℤ
      → Date
      → ChangeBookingUnitPayload
      → UnitBooking cal
      → NewSpace
      → UnitRenewal cal
      → UnitChange
  unfolding unused_days_of partial_renewal
  unit_change find_all create_days today payload b n last =
      let swapped = is_swapped cal payload.apply_immidiately today last in
      let days =
        (if swapped then unused_days_of cal find_all b n.price_per_month today last else no_days) in
      record {
        booking = b;
        space = n;
        last = last;
        is_applied = payload.apply;
        is_swapped = swapped;
        days = days;
        new_renewal = partial_renewal cal create_days b n.price_per_month today days;
      }

  -- `booking.deposited_amount !== newPricePerMonth`.
  abbrev pub moves_deposit : UnitChange → Bool
  moves_deposit u = not (
      leb_ℤ u.booking.deposited_amount u.space.price_per_month
      && leb_ℤ u.space.price_per_month u.booking.deposited_amount)

  abbrev pub unit_resp : UnitChange → ChangeBookingUnitResp
  unit_resp u = record {
    is_changed = u.is_applied;
    old_space_price = u.booking.base_amount;
    new_space_price = u.space.price_per_month;
    deposit_refunded_amount = u.booking.deposited_amount;
    deposit_charged_amount = u.space.price_per_month;
    days = u.days;
    has_refund_error = false;
  }

  -- The refunds that are asked for after the commit.
  abbrev pub old_refunds : ChangeCalls → UnitChange → List (RefundCalls × RefundPayload)
  old_refunds c u =
      (if moves_deposit u
        then (c.old_deposit, unit_refund RefundType.refund_deposit u.booking.deposited_amount) ∷ []
        else [])
      ++ (if u.is_swapped
          then (c.old_renewal, unit_refund RefundType.refund_unused_days u.days.total_paid) ∷ []
          else [])

  -- What `payUnitChangeAmount` throws loses the id of a charge that was made.
  abbrev pub paid :
      Attempt × Ledger (UnitRows cal) → Result ChangeError (Option ℕ) × Ledger (UnitRows cal)
  paid (Attempt.recorded id, s) = (ok (some id), s)
  paid (Attempt.uncharged, s) = (err call_failed, s)
  paid (Attempt.lost id, s) = (err call_failed, s)

  unfoldable pub pay_if :
      Bool
      → PayUnitCalls
      → Currency
      → Number
      → Ledger (UnitRows cal)
      → Result ChangeError (Option ℕ) × Ledger (UnitRows cal)
  unfolding pay_unit_change_amount
  pay_if false c currency amount s = (ok none, s)
  pay_if true c currency amount s = paid (pay_unit_change_amount cal c currency amount s)

  unfoldable pub after_renewal :
      ChangeCalls
      → Date
      → UnitChange
      → Option ℕ
      → Result ChangeError (Option ℕ) × Ledger (UnitRows cal)
      → Result ChangeError ChangeBookingUnitResp × Ledger (UnitRows cal)
  unfolding fail_change changed_rows
  after_renewal c today u deposit (err e, s) = fail_change cal c deposit none s
  after_renewal c today u deposit (ok renewal, s) =
      if c.save && c.commit
      then (
        ok (unit_resp u),
        commit_in
            (changed_rows cal u.is_swapped today u.space u.last u.new_renewal deposit renewal
              s.rows)
            s,
      )
      else fail_change cal c deposit renewal s

  unfoldable pub after_deposit :
      ChangeCalls
      → Date
      → UnitChange
      → Result ChangeError (Option ℕ) × Ledger (UnitRows cal)
      → Result ChangeError ChangeBookingUnitResp × Ledger (UnitRows cal)
  unfolding after_renewal pay_if
  after_deposit c today u (err e, s) = fail_change cal c none none s
  after_deposit c today u (ok deposit, s) =
      if u.is_swapped && not (c.calculate_tax && c.create_renewal)
      then fail_change cal c deposit none s
      else after_renewal c today u deposit
          (pay_if u.is_swapped c.renewal u.booking.currency u.days.amount_to_be_paid s)

  -- After the checks, with the transaction begun; the test is `payload.apply`. Without it the source
  -- returns before it ends the transaction.
  unfoldable pub run_if :
      Bool
      → ChangeCalls
      → Date
      → UnitChange
      → Ledger (UnitRows cal)
      → Result ChangeError ChangeBookingUnitResp × Ledger (UnitRows cal)
  unfolding after_deposit
  run_if true c today u s = after_deposit c today u (
      pay_if (moves_deposit u) c.deposit u.booking.currency
        (some (to_fixed u.space.price_per_month 1)) s)
  run_if false c today u s =
      if u.is_swapped && not c.calculate_tax
      then fail_change cal c none none s
      else (ok (unit_resp u), s)

  unfoldable pub refund_change :
      ChangeCalls
      → UnitChange
      → Result ChangeError ChangeBookingUnitResp × Ledger (UnitRows cal)
      → State
      → Result ChangeError ChangeBookingUnitResp × (Ledger (UnitRows cal) × State)
  unfolding refund_old
  refund_change c u (err e, s) t = (err e, (s, t))
  refund_change c u (ok resp, s) t =
      if u.is_applied
      then (let (fine, t') = refund_old (old_refunds c u) t in
          (ok (record resp { has_refund_error = not fine }), (s, t')))
      else (ok resp, (s, t))

  -- The change after its checks, which throw before there is a transaction.
  unfoldable pub change_from :
      (List TaxOwner → List Tax)
      → ChangeCalls
      → ℤ
      → Date
      → ChangeBookingUnitPayload
      → NewSpace
      → Result ChangeError (UnitBooking cal × UnitRenewal cal × Date)
      → Ledger (UnitRows cal)
      → State
      → Result ChangeError ChangeBookingUnitResp × (Ledger (UnitRows cal) × State)
  unfolding unit_change run_if refund_change
  change_from find_all c create_days today payload n (err e) s t = (err e, (s, t))
  change_from find_all c create_days today payload n (ok (b, last, date)) s t =
      let u = unit_change find_all create_days today payload b n last in
      refund_change c u (run_if payload.apply c today u (begin_in s)) t

  -- `is_found` tells whether the booking is active; `t` is what the refund service works on.
  unfoldable pub change_booking_unit :
      (List TaxOwner → List Tax)
      → ChangeCalls
      → ℤ
      → Date
      → ChangeBookingUnitPayload
      → Bool
      → Option NewSpace
      → Ledger (UnitRows cal)
      → State
      → Result ChangeError ChangeBookingUnitResp × (Ledger (UnitRows cal) × State)
  unfolding check_change change_from
  change_booking_unit find_all c create_days today payload is_found none s t =
      (err not_found, (s, t))
  change_booking_unit find_all c create_days today payload is_found (some n) s t =
      change_from find_all c create_days today payload n
        (check_change cal payload today (if is_found then some s.rows.booking else none) n) s t
