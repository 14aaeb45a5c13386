-- ===== src/Terminations/Job.antt =====
-- `requestTermination` and `updateTerminationStatus` of src/terminations/termination.service.ts, and
-- the job of src/cron-job/termination/terminate-bookings.cron.ts on one booking. Mails are left out.
use space_next_door_core_api.Base.{
  ℕ, Bool, true, false, Option, none, some, List, [], ◌∷◌, ◌&&◌, not, if◌then◌else◌,
}
use space_next_door_core_api.Calendar.{Calendar}
use space_next_door_core_api.Terminations.Request.{
  TerminationError, TerminationArgs, calculate_termination, TerminationDues, LoadedBooking,
}
use space_next_door_core_api.Payments.Ledger.{Ledger, begin_in, end_in, commit_in}
use space_next_door_core_api.Catalog.{TerminationStatus, TerminationPaymentStatus}
use space_next_door_core_api.Terminations.Payment.{
  TerminationRows, pay_termination_dues, PayCalls, TerminationState,
}
use space_next_door_core_api.Base.Int.{ℤ, ltb_ℤ, pos, leb_ℤ}
use space_next_door_core_api.Payments.Stripe.{Currency}
use space_next_door_core_api.Base.Result.{Result, err, ok}

-- How the calls of a request end: the new row, the booking's save, and the commit.
pub record RequestCalls : Type 0 where
  pub create : Bool
  pub save : Bool
  pub commit : Bool

pub data RequestError : Type 0 where
  refused : TerminationError → RequestError
  request_failed : RequestError

-- The arguments that the job requests with.
abbrev pub job_args : TerminationArgs
job_args = record { exclude_notice_dues = true; use_move_out_date = true; is_cron = true }

module _ (cal : Calendar) where
  open cal use {Date, is_after}

  -- The row of a termination; the table's default for its payment is pending.
  pub record TerminationRow : Type 0 where
    pub move_out_date : Date
    pub dues : TerminationDues cal
    pub is_overdue : Bool
    pub is_auto_created : Bool
    pub status : TerminationStatus
    pub payment_status : TerminationPaymentStatus

  pub record RequestRows : Type 0 where
    pub terminations : List TerminationRow
    pub move_out_date : Option Date
    pub is_termination_requested : Bool

  unfoldable pub new_termination : TerminationArgs → ℤ → Date → TerminationDues cal → TerminationRow
  new_termination args deposited move_out d = record {
    move_out_date = move_out;
    dues = d;
    is_overdue = ltb_ℤ deposited d.total_amount;
    is_auto_created = args.is_cron;
    status =
        (if leb_ℤ d.total_amount (pos 0)
          then TerminationStatus.scheduled
          else TerminationStatus.requested);
    payment_status = TerminationPaymentStatus.pending;
  }

  abbrev pub add_termination : TerminationRow → RequestRows → RequestRows
  add_termination t rows = record {
    terminations = t ∷ rows.terminations;
    move_out_date = some t.move_out_date;
    is_termination_requested = true;
  }

  -- The `try`, once the dues are worked out; its `catch` rolls back.
  unfoldable pub record_request :
      RequestCalls
      → TerminationArgs
      → ℤ
      → Date
      → Result TerminationError (TerminationDues cal)
      → Ledger RequestRows
      → Result RequestError TerminationRow × Ledger RequestRows
  unfolding new_termination
  record_request c args deposited move_out (err e) s = (err (refused e), end_in s)
  record_request c args deposited move_out (ok d) s =
      let t = new_termination args deposited move_out d in
      if c.create && (c.save && c.commit)
      then (ok t, commit_in (add_termination t s.rows) s)
      else (err request_failed, end_in s)

  -- `deposited` is the booking's deposit, which is read when the booking was found.
  unfoldable pub request_termination :
      ℤ
      → RequestCalls
      → TerminationArgs
      → Date
      → Date
      → Option (LoadedBooking cal)
      → ℤ
      → Ledger RequestRows
      → Result RequestError TerminationRow × Ledger RequestRows
  unfolding record_request calculate_termination
  request_termination notice_days c args now move_out booking deposited s =
      record_request c args deposited move_out
        (calculate_termination cal notice_days args now move_out booking) (begin_in s)

  -- The termination as its payment sees it.
  abbrev pub payment_state : TerminationRow → Ledger RequestRows → TerminationState
  payment_state t s = record {
    rows = record { status = t.status; payment_status = t.payment_status; transactions = [] };
    in_flight = s.in_flight;
    charges = s.charges;
    refunds = s.refunds;
  }

  -- `if (termination.total_amount > 0)` the job pays; what the payment throws is logged.
  unfoldable pub pay_request :
      PayCalls → Currency → Option ℕ → TerminationRow → TerminationState → TerminationState
  unfolding pay_termination_dues
  pay_request c currency customer t s =
      if ltb_ℤ (pos 0) t.dues.total_amount
      then (pay_termination_dues c
          (some (record {
            total_amount = t.dues.total_amount;
            currency = currency;
            stripe_customer_id = customer;
          }))
          s).1
      else s

  -- What the job leaves of the termination of one booking; nothing when the request throws.
  abbrev pub after_request :
      PayCalls
      → Currency
      → Option ℕ
      → Result RequestError TerminationRow × Ledger RequestRows
      → Option TerminationState
  after_request c currency customer (err e, s) = none
  after_request c currency customer (ok t, s) =
      some (pay_request c currency customer t (payment_state t s))

  unfoldable pub terminate_one :
      ℤ
      → RequestCalls
      → PayCalls
      → Date
      → Date
      → LoadedBooking cal
      → ℤ
      → Currency
      → Option ℕ
      → Ledger RequestRows
      → Option TerminationState
  unfolding request_termination pay_request
  terminate_one notice_days rc pc now move_out b deposited currency customer s =
      after_request pc currency customer
        (request_termination notice_days rc job_args now move_out (some b) deposited s)

  abbrev pub is_scheduled : TerminationStatus → Bool
  is_scheduled TerminationStatus.scheduled = true
  is_scheduled _ = false

  -- `updateTerminationStatus` with the filter of the job, on one row: scheduled, and due at `now`, which
  -- the job sets 15 minutes back.
  unfoldable pub update_termination_status : Date → Date → TerminationRows → TerminationRows
  update_termination_status now termination_date rows =
      if is_scheduled rows.status && not (is_after termination_date now)
      then record rows { status = TerminationStatus.terminated }
      else rows
