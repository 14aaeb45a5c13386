-- ===== src/Lifecycle.antt =====
-- The status of the bookings: `updateBookingsStatus` (src/bookings/booking.service.ts) and the jobs
-- of src/cron-job/active-bookings and src/cron-job/cancel-bookings that call it. Messages to
-- customers, providers and the review service are left out; times are in milliseconds.
pub mod Jobs
pub mod Steps
use space_next_door_core_api.Base.{
  ℕ, zero, suc, Bool, true, false, Option, none, some, List, [], ◌∷◌, ◌++◌, ◌&&◌, ◌||◌, not, ◌+◌,
  ◌-◌, ◌*◌, ◌/◌, ◌%◌, ◌≤◌, ◌<◌, if◌then◌else◌, leb, ltb, ◌==◌, length, is_some, last?, head?, any,
  all, All, filter, find, includes, get_or, map, ◌≡◌, refl, sym, ap, ◌∙◌, ◌≢◌, ◌↔◌, ◌⊎◌, inl, inr,
  arith, Bool-cases, Option-cases,
}
use space_next_door_core_api.Base.Int.{ℤ, leb_ℤ, pos, ◌-ℤ◌}
use space_next_door_core_api.Catalog.{BookingStatus, same_status}

pub record BookingRow : Type 0 where
  pub id : ℕ
  pub status : BookingStatus
  pub created_at : ℤ
  pub move_in_date : ℤ
  pub move_out_date : Option ℤ

-- The filter's `_eq` of the status and `_lte` of the dates, where they are given.
pub record BookingsFilter : Type 0 where
  pub status : Option BookingStatus
  pub created_at : Option ℤ
  pub move_in_date : Option ℤ
  pub move_out_date : Option ℤ

-- `_eq` and `_lte` in SQL: a missing date is not at most a bound.
abbrev is_status : Option BookingStatus → BookingStatus → Bool
is_status none s = true
is_status (some t) s = same_status s t

abbrev pub is_lte : Option ℤ → Option ℤ → Bool
is_lte none d = true
is_lte (some bound) none = false
is_lte (some bound) (some d) = leb_ℤ d bound

unfoldable pub matches : BookingsFilter → BookingRow → Bool
matches f b =
    is_status f.status b.status
    && (is_lte f.created_at (some b.created_at)
        && (is_lte f.move_in_date (some b.move_in_date) && is_lte f.move_out_date b.move_out_date))

unfoldable pub update_row : BookingStatus → BookingsFilter → BookingRow → BookingRow
unfolding matches
update_row status f b = if matches f b then record b { status = status } else b

pub record UpdatedBookings : Type 0 where
  pub modified : ℕ
  pub bookings : List BookingRow

-- `bookingEntity.update(..., { returning: true })`: the answer and the table.
unfoldable pub update_bookings_status :
    BookingStatus → BookingsFilter → List BookingRow → UpdatedBookings × List BookingRow
unfolding update_row
update_bookings_status status f rows =
    let found = map (update_row status f) (filter (matches f) rows) in
    (record { modified = length found; bookings = found }, map (update_row status f) rows)

abbrev pub move_ins : ℤ → BookingsFilter
move_ins now = record {
  status = some BookingStatus.confirmed;
  created_at = none;
  move_in_date = some now;
  move_out_date = none;
}

abbrev pub move_outs : ℤ → BookingsFilter
move_outs now = record {
  status = some BookingStatus.active;
  created_at = none;
  move_in_date = none;
  move_out_date = some now;
}

-- The job of the move ins and move outs, each with its own `new Date()`. `updated` tells whether the
-- first update goes through: it is in a `try` whose `catch` only logs.
unfoldable pub active_bookings_cron : Bool → ℤ → ℤ → List BookingRow → List BookingRow
unfolding update_bookings_status
active_bookings_cron updated now now' rows =
    let rows' =
      if updated
      then (update_bookings_status BookingStatus.active (move_ins now) rows).1
      else rows in
    (update_bookings_status BookingStatus.completed (move_outs now') rows').1

-- 15 minutes.
abbrev pub payment_window : ℤ
payment_window = pos 900_000

abbrev pub unpaid : ℤ → BookingsFilter
unpaid now = record {
  status = some BookingStatus.reserved;
  created_at = some (now -ℤ payment_window);
  move_in_date = none;
  move_out_date = none;
}

-- The job that gives up bookings which were not paid in time.
unfoldable pub cancel_booking_cron : ℤ → List BookingRow → UpdatedBookings × List BookingRow
unfolding update_bookings_status
cancel_booking_cron now rows = update_bookings_status BookingStatus.cancelled (unpaid now) rows
