-- ===== src/Tests/TerminationJobTests.antt =====
-- The job that terminates bookings.
use space_next_door_core_api.Catalog.{TerminationStatus, RenewalStatus, BookingStatus}
use space_next_door_core_api.Payments.Stripe.{Currency}
use space_next_door_core_api.Base.{true, false, none, some, [], ◌∷◌, ltb, ◌≡◌, refl, inr, arith}
use space_next_door_core_api.Terminations.Request.{
  TerminationDues, termination_dues, LoadedBooking, calculate_termination, get_termination_date,
}
use space_next_door_core_api.Terminations.Payment.{PayCalls, TerminationState}
use space_next_door_core_api.Payments.Ledger.{Ledger}
use space_next_door_core_api.Terminations.Job.{
  RequestCalls, RequestRows, terminate_one, update_termination_status, job_args,
}
use space_next_door_core_api.Terminations.JobOutcome.{
  DuesLeave, IsPayable, terminate_one_terminates,
}
use space_next_door_core_api.Terminations.Dues.{DueRenewal, calculate_failed_renewal_amount}
use space_next_door_core_api.Tests.Sample.{plain_days}
use space_next_door_core_api.Base.Int.{pos, ◌≤ℤ◌, ◌+ℤ◌, ◌*ℤ◌}
use space_next_door_core_api.Base.Result.{ok}
use space_next_door_core_api.Base.Round.{to_fixed}

abbrev failed_renewal : DueRenewal plain_days
failed_renewal = record {
  status = RenewalStatus.failed;
  renewal_start_date = 10;
  renewal_end_date = 40;
  total_amount = pos 27_000;
  discount_amount = pos 0;
  promotion_format = none;
}

abbrev late_booking : LoadedBooking plain_days
late_booking = record {
  status = BookingStatus.active;
  base_amount = pos 30_000;
  move_in_date = 10;
  has_termination = false;
  promotions = [];
  renewals = failed_renewal ∷ [];
}

abbrev late_dues : TerminationDues plain_days
late_dues = termination_dues plain_days (pos 14) job_args 20 25 late_booking

late_booking_dues :
    calculate_termination plain_days (pos 14) job_args 20 25 (some late_booking) ≡ ok late_dues
unfolding calculate_termination
late_booking_dues = refl

late_dues-le : pos 100 ≤ℤ late_dues.total_amount
unfolding termination_dues calculate_failed_renewal_amount to_fixed ◌+ℤ◌ ◌*ℤ◌
late_dues-le = omega arith

abbrev requested : Ledger (RequestRows plain_days)
requested = record {
  rows = record { terminations = []; move_out_date = some 25; is_termination_requested = false };
  in_flight = 0;
  charges = [];
  refunds = [];
}

abbrev request_calls : RequestCalls
request_calls = record { create = true; save = true; commit = true }

abbrev pay_calls : PayCalls
pay_calls = record {
  retrieve_card = true;
  charge = some 12;
  ids = true;
  write = true;
  commit = true;
  refund = true;
  save_failed = true;
}

pay_calls-IsPayable : IsPayable pay_calls
pay_calls-IsPayable = record {
  retrieve_card = refl;
  charge = refl;
  ids = refl;
  write = refl;
  commit = refl;
}

late_dues_date : ltb 26 late_dues.termination_date ≡ false
unfolding termination_dues get_termination_date
late_dues_date = refl

terminate_one_terminates_example :
    (s' : TerminationState) × (terminate_one plain_days
        (pos 14)
        request_calls
        pay_calls
        20
        25
        late_booking
        (pos 30_000)
        Currency.sgd
        (some 7)
        requested
      ≡ some s')
    × (let rows = update_termination_status plain_days 26 late_dues.termination_date s'.rows in
        (rows.status ≡ TerminationStatus.terminated)
        × DuesLeave late_dues.total_amount Currency.sgd requested.charges s'.charges
            rows.payment_status rows.transactions)
terminate_one_terminates_example =
    terminate_one_terminates plain_days (pos 14) request_calls pay_calls 20 25 26 late_booking
      (pos 30_000) Currency.sgd 7 requested refl pay_calls-IsPayable refl late_booking_dues
      (inr late_dues-le) late_dues_date
