-- ===== src/ChangeUnit/Swap.antt =====
-- `changeBookingUnit` of src/bookings/booking.service.ts: the days of the last paid renewal that are
-- left, what was paid for them, and what they cost in the new unit.
use space_next_door_core_api.Base.{
  ℕ, Bool, false, Option, none, some, List, ◌&&◌, if◌then◌else◌, ◌==◌, find,
}
use space_next_door_core_api.Catalog.{RenewalStatus, RenewalType}
use space_next_door_core_api.Calendar.{Calendar}
use space_next_door_core_api.Base.Int.{ℤ, pos, max_ℤ, ltb_ℤ, ◌*ℤ◌, ◌+ℤ◌}
use space_next_door_core_api.Base.Number.{Number, fixed, add}
use space_next_door_core_api.ChangeUnit.Request.{UnitBooking, RenewalTax, UnitRenewal}
use space_next_door_core_api.Taxes.{TaxOwner, Tax, calculate_tax}
use space_next_door_core_api.Renewals.Payload.{RenewalPayload, get_renewal_payload}
use space_next_door_core_api.Base.Round.{to_fixed}

-- What the days were paid and what they are to be paid.
pub record UnusedDays : Type 0 where
  pub unused_days : ℤ
  pub amount_paid : ℤ
  pub tax_amount_paid : ℤ
  pub total_paid : ℤ
  pub total_tax : Number
  pub amount_to_be_paid : Number

-- `Math.max(parseFloat(((price / 30) * days).toFixed(2)), 0)`.
unfoldable pub amount_for_days : ℤ → ℤ → ℤ
amount_for_days price days = max_ℤ (to_fixed (price *ℤ days) 30) (pos 0)

-- Nothing is moved when the change waits for the next renewal.
abbrev pub no_days : UnusedDays
no_days = record {
  unused_days = pos 0;
  amount_paid = pos 0;
  tax_amount_paid = pos 0;
  total_paid = pos 0;
  total_tax = some (pos 0);
  amount_to_be_paid = some (pos 0);
}

module _ (cal : Calendar) where
  open cal use {Date, diff_day, add_day, is_after}

  abbrev pub is_tax_of : ℕ → RenewalTax → Bool
  is_tax_of renewal t = elim t.renewal_id [ none ↦ false | some id ↦ (id == renewal) && t.is_site ]

  unfoldable pub is_swapped : Bool → Date → UnitRenewal cal → Bool
  is_swapped immediately today last =
      immediately && is_after last.renewal_end_date (add_day today (pos 1))

  -- The days are at most those of a month.
  unfoldable pub days_left : Date → UnitRenewal cal → ℤ
  days_left today last =
      let days = diff_day last.renewal_end_date today in
      if ltb_ℤ (pos 30) days then pos 30 else days

  -- The tax on the rent that was paid for the days.
  unfoldable pub tax_for_days : Option RenewalTax → ℤ → ℤ
  unfolding amount_for_days
  tax_for_days none days = pos 0
  tax_for_days (some t) days = amount_for_days t.tax_amount days

  unfoldable pub unused_days_of :
      (List TaxOwner → List Tax) → UnitBooking cal → ℤ → Date → UnitRenewal cal → UnusedDays
  unfolding days_left tax_for_days
  unused_days_of find_all b price today last =
      let days = days_left today last in
      let paid = amount_for_days b.base_amount days in
      let tax = tax_for_days (find (is_tax_of last.id) b.applied_taxes) days in
      let to_be_paid = amount_for_days price days in
      let taxes = calculate_tax find_all (record {
        site_id = some b.site_id;
        insurance_id = none;
        pickup_service_id = none;
        space_price = some to_be_paid;
        insurance_price = none;
        pickup_service_price = none;
      }) in
      record {
        unused_days = days;
        amount_paid = paid;
        tax_amount_paid = tax;
        total_paid = to_fixed (paid +ℤ tax) 1;
        total_tax = taxes.total_tax;
        amount_to_be_paid = fixed (add (some to_be_paid) taxes.total_tax);
      }

  -- The renewal that is created for the days: it starts tomorrow, in the new unit's price.
  pub record UnitChangeRenewal : Type 0 where
    pub payload : RenewalPayload cal
    pub total_tax_amount : Number
    pub total_amount : Number

  unfoldable pub partial_renewal : ℤ → UnitBooking cal → ℤ → Date → UnusedDays → UnitChangeRenewal
  partial_renewal create_days b price today u = record {
    payload = get_renewal_payload cal create_days (record {
      insurance_price_per_day = pos 0;
      deposit_amount = pos 0;
      renewal_start_date = add_day today (pos 1);
      next_renewal_date_of_last = none;
      booking_id = b.id;
      base_amount = price;
      discounted_amount = pos 0;
      status = RenewalStatus.un_paid;
      type = RenewalType.partial_subscription;
      transaction_id = none;
      move_out_date = b.move_out_date;
    });
    total_tax_amount = u.total_tax;
    total_amount = u.amount_to_be_paid;
  }
