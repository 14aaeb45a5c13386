-- ===== src/ChangeUnit/Request.antt =====
-- `changeBookingUnit` of src/bookings/booking.service.ts: the rows, and what is asked for before
-- anything is changed. The active booking and the active space that the queries find are arguments.
use space_next_door_core_api.Base.{
  ℕ, Bool, false, Option, none, some, List, [], ◌∷◌, not, ◌==◌, find,
}
use space_next_door_core_api.Calendar.{Calendar}
use space_next_door_core_api.Base.Int.{ℤ, leb_ℤ, pos}
use space_next_door_core_api.Catalog.{is_paid, BookingStatus, RenewalStatus}
use space_next_door_core_api.Base.Result.{Result, ◌>>=◌, ◌>>◌, or_throw, throw_if, ok}
use space_next_door_core_api.Payments.Stripe.{Currency}

pub data ChangeError : Type 0 where
  not_found other_site same_unit termination_requested move_out_near last_unpaid : ChangeError
  no_paid_renewal no_next_renewal call_failed : ChangeError

pub record ChangeBookingUnitPayload : Type 0 where
  pub new_space_id : ℕ
  pub apply_immidiately : Bool
  pub apply : Bool

-- The space with its base price.
pub record NewSpace : Type 0 where
  pub id : ℕ
  pub site_id : ℕ
  pub price_per_month : ℤ

-- A tax on a renewal; `is_site` is `entity_type === TaxEntityType.SITE`.
pub record RenewalTax : Type 0 where
  pub renewal_id : Option ℕ
  pub is_site : Bool
  pub tax_amount : ℤ

module _ (cal : Calendar) where
  open cal use {Date, diff_month}

  pub record UnitRenewal : Type 0 where
    pub id : ℕ
    pub status : RenewalStatus
    pub renewal_end_date : Date
    pub next_renewal_date : Option Date

  -- The renewals stand newest first, as the query orders them.
  pub record UnitBooking : Type 0 where
    pub id : ℕ
    pub status : BookingStatus
    pub site_id : ℕ
    pub space_id : ℕ
    pub base_amount : ℤ
    pub deposited_amount : ℤ
    pub currency : Currency
    pub move_out_date : Option Date
    pub is_termination_requested : Bool
    pub renewals : List UnitRenewal
    pub applied_taxes : List RenewalTax

  abbrev is_near : Date → Option Date → Bool
  is_near today none = false
  is_near today (some move_out) = leb_ℤ (diff_month move_out today) (pos 1)

  abbrev is_newest_paid : List UnitRenewal → Bool
  is_newest_paid [] = false
  is_newest_paid (r ∷ rs) = is_paid r.status

  -- The checks of a space that was found, down to the renewal that the change starts from and its next date.
  unfoldable pub check_change :
      ChangeBookingUnitPayload
      → Date
      → Option UnitBooking
      → NewSpace
      → Result ChangeError (UnitBooking × UnitRenewal × Date)
  check_change payload today booking n = do
    b ← or_throw booking not_found
    throw_if (not (n.site_id == b.site_id)) other_site
    throw_if (payload.new_space_id == b.space_id) same_unit
    throw_if b.is_termination_requested termination_requested
    throw_if (is_near today b.move_out_date) move_out_near
    throw_if (not (is_newest_paid b.renewals)) last_unpaid
    r ← or_throw (find (λ r. is_paid r.status) b.renewals) no_paid_renewal
    d ← or_throw r.next_renewal_date no_next_renewal
    ok (b, r, d)
