-- ===== src/Terminations/Request.antt =====
-- src/terminations/termination.service.ts: `calculateTermination`, with the time of the request and
-- the rows of the booking as arguments. The several readings of the clock are one.
use space_next_door_core_api.Base.{
  Bool, true, false, Option, none, some, List, ◌||◌, not, if◌then◌else◌, last?,
}
use space_next_door_core_api.Catalog.{BookingStatus}
use space_next_door_core_api.Calendar.{Calendar}
use space_next_door_core_api.Terminations.Dues.{
  DueRenewal, calculate_promotion_dues, calculate_failed_renewal_amount,
}
use space_next_door_core_api.Base.Int.{ℤ, max_ℤ, pos, ◌+ℤ◌, ◌*ℤ◌}
use space_next_door_core_api.Base.Result.{Result, err, ok}
use space_next_door_core_api.Base.Round.{to_fixed}
use space_next_door_core_api.BookingPromotions.{BookingPromotion}

pub data TerminationError : Type 0 where
  more_than_one_month before_tomorrow booking_not_found booking_not_active : TerminationError
  booking_not_started already_requested : TerminationError

pub record TerminationArgs : Type 0 where
  pub exclude_notice_dues : Bool
  pub use_move_out_date : Bool
  pub is_cron : Bool

abbrev pub is_running : BookingStatus → Bool
is_running BookingStatus.active = true
is_running BookingStatus.confirmed = true
is_running _ = false

module _ (cal : Calendar) where
  open cal use {Date, add_day, add_month, diff_day, is_before, is_after}

  -- The rows that the method loads; `has_termination` tells whether one was requested before.
  pub record LoadedBooking : Type 0 where
    pub status : BookingStatus
    pub base_amount : ℤ
    pub move_in_date : Date
    pub has_termination : Bool
    pub promotions : List (BookingPromotion cal)
    pub renewals : List (DueRenewal cal)

  pub record TerminationDues : Type 0 where
    pub termination_date : Date
    pub notice_period_amount : ℤ
    pub promo_amount : ℤ
    pub failed_renewals_amount : ℤ
    pub remaining_days_amount : ℤ
    pub unused_days_amount : ℤ
    pub total_amount : ℤ

  unfoldable pub get_termination_date : ℤ → TerminationArgs → Date → Date → Date
  get_termination_date notice_days args now move_out =
      let notice = add_day now notice_days in
      if args.use_move_out_date || is_after move_out notice then move_out else notice

  -- `lastRenewal && dayjs(lastRenewal.renewal_end_date).isAfter(terminationDate)`, and `isBefore`.
  abbrev pub ends_after : Option (DueRenewal cal) → Date → Bool
  ends_after none d = false
  ends_after (some r) d = is_after r.renewal_end_date d

  abbrev pub ends_before : Option (DueRenewal cal) → Date → Bool
  ends_before none d = false
  ends_before (some r) d = is_before r.renewal_end_date d

  -- `a.diff(b, 'days')` from the end of the last renewal, and to it.
  abbrev pub days_after : Option (DueRenewal cal) → Date → ℤ
  days_after none d = pos 0
  days_after (some r) d = diff_day r.renewal_end_date d

  abbrev pub days_before : Option (DueRenewal cal) → Date → ℤ
  days_before none d = pos 0
  days_before (some r) d = diff_day d r.renewal_end_date

  -- `parseFloat(((base_amount / 30) * days).toFixed(2))`.
  abbrev pub amount_of_days : ℤ → ℤ → ℤ
  amount_of_days base days = to_fixed (base *ℤ days) 30

  unfoldable pub unused_days_amount : ℤ → Option (DueRenewal cal) → Date → ℤ
  unused_days_amount base last date =
      if ends_after last date
      then max_ℤ (amount_of_days base (days_after last date)) (pos 0)
      else pos 0

  unfoldable pub next_days_to_be_charged : ℤ → Option (DueRenewal cal) → Date → Date → Date → ℤ
  next_days_to_be_charged notice_days last now move_out date =
      if ends_before last date
      then days_before last date +ℤ pos 1
      else max_ℤ (diff_day move_out now +ℤ pos 1) notice_days

  unfoldable pub notice_period_amount :
      ℤ → TerminationArgs → ℤ → Option (DueRenewal cal) → Date → Date → Date → ℤ
  unfolding next_days_to_be_charged
  notice_period_amount notice_days args base last now move_out date =
      if args.exclude_notice_dues || ends_after last date
      then pos 0
      else amount_of_days base (next_days_to_be_charged notice_days last now move_out date)

  -- The amounts, after the checks.
  unfoldable pub termination_dues :
      ℤ → TerminationArgs → Date → Date → LoadedBooking → TerminationDues
  unfolding get_termination_date unused_days_amount notice_period_amount
  termination_dues notice_days args now move_out b =
      let date = get_termination_date notice_days args now move_out in
      let last = last? b.renewals in
      let notice = notice_period_amount notice_days args b.base_amount last now move_out date in
      let promo =
        (if args.is_cron then pos 0 else calculate_promotion_dues cal b.promotions b.renewals) in
      let failed = calculate_failed_renewal_amount cal now b.promotions b.renewals in
      record {
        termination_date = date;
        notice_period_amount = notice;
        promo_amount = promo;
        failed_renewals_amount = failed.failed_renewals_amount;
        remaining_days_amount = failed.remaining_days_amount_before_today;
        unused_days_amount = unused_days_amount b.base_amount last date;
        total_amount =
            to_fixed
              (notice +ℤ promo +ℤ failed.failed_renewals_amount
                +ℤ failed.remaining_days_amount_before_today)
              1;
      }

  -- The checks on the booking that was found.
  unfoldable pub terminate_booking :
      ℤ
      → TerminationArgs
      → Date
      → Date
      → Option LoadedBooking
      → Result TerminationError TerminationDues
  unfolding termination_dues
  terminate_booking notice_days args now move_out none = err booking_not_found
  terminate_booking notice_days args now move_out (some b) =
      if not (is_running b.status)
      then err booking_not_active
      else (if is_after b.move_in_date now
          then err booking_not_started
          else (if b.has_termination
              then err already_requested
              else ok (termination_dues notice_days args now move_out b)))

  unfoldable pub calculate_termination :
      ℤ
      → TerminationArgs
      → Date
      → Date
      → Option LoadedBooking
      → Result TerminationError TerminationDues
  unfolding terminate_booking
  calculate_termination notice_days args now move_out booking =
      if is_after move_out (add_month now 1)
      then err more_than_one_month
      else (if is_before move_out (add_day now (pos 1))
          then err before_tomorrow
          else terminate_booking notice_days args now move_out booking)
