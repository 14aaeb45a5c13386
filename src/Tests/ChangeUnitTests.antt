-- ===== src/Tests/ChangeUnitTests.antt =====
-- The change of a booking's unit.
use space_next_door_core_api.Base.{ℕ, true, false, none, some, List, [], ◌∷◌, find, map, ◌≡◌, refl}
use space_next_door_core_api.ChangeUnit.Request.{
  NewSpace, UnitBooking, ChangeBookingUnitPayload, UnitRenewal,
}
use space_next_door_core_api.Catalog.{RenewalStatus, BookingStatus}
use space_next_door_core_api.Payments.Stripe.{Currency, calculate_amount_in_currency}
use space_next_door_core_api.Payments.Ledger.{Ledger}
use space_next_door_core_api.Taxes.{TaxOwner, Tax, calculate_tax}
use space_next_door_core_api.Base.Int.{ℤ, pos}
use space_next_door_core_api.ChangeUnit.Run.{change_booking_unit}
use space_next_door_core_api.ChangeUnit.Swap.{is_tax_of, is_swapped}
use space_next_door_core_api.ChangeUnit.Change.{
  PayUnitCalls, ChangeCalls, UnitRows, pay_unit_change_amount,
}
use space_next_door_core_api.Payments.Refund.{State, RefundCalls, Rows}
use space_next_door_core_api.ChangeUnit.SwapBounds.{tax_of}
use space_next_door_core_api.Tests.Sample.{plain_days, vat}
use space_next_door_core_api.ChangeUnit.ChangeOutcome.{
  ChangeLeaves, change_booking_unit-ChangeLeaves,
}
use space_next_door_core_api.ChangeUnit.OldRefunds.{change_booking_unit-IsIdle}

abbrev taxes : List TaxOwner → List Tax
taxes owners = vat ∷ []

abbrev paid_month : UnitRenewal plain_days
paid_month = record {
  id = 6;
  status = RenewalStatus.paid;
  renewal_end_date = 40;
  next_renewal_date = some 37;
}

abbrev old_unit : UnitBooking plain_days
old_unit = record {
  id = 8;
  status = BookingStatus.active;
  site_id = 4;
  space_id = 21;
  base_amount = pos 30_000;
  deposited_amount = pos 30_000;
  currency = Currency.sgd;
  move_out_date = none;
  is_termination_requested = false;
  renewals = paid_month ∷ [];
  applied_taxes = record { renewal_id = some 6; is_site = true; tax_amount = pos 2100 } ∷ [];
}

abbrev new_unit : NewSpace
new_unit = record { id = 22; site_id = 4; price_per_month = pos 36_000 }

abbrev at_once : ChangeBookingUnitPayload
at_once = record { new_space_id = 22; apply_immidiately = true; apply = true }

abbrev payment : ℕ → PayUnitCalls
payment charge = record {
  ids = true;
  retrieve_card = true;
  charge = some charge;
  create_transaction = true;
}

abbrev refund_calls : RefundCalls
refund_calls = record {
  create = some 5;
  retrieve_card = true;
  ids = true;
  create_transaction = true;
  stripe_refund = true;
  save = true;
  commit = true;
}

-- The commit fails after both charges.
abbrev commit_fails : ChangeCalls
commit_fails = record {
  deposit = payment 11;
  calculate_tax = true;
  create_renewal = true;
  renewal = payment 12;
  save = true;
  commit = false;
  refund_deposit = true;
  refund_renewal = true;
  old_deposit = refund_calls;
  old_renewal = refund_calls;
}

abbrev unit_rows : Ledger (UnitRows plain_days)
unit_rows = record {
  rows = record { booking = old_unit; new_renewals = []; transactions = []; history = [] };
  in_flight = 0;
  charges = [];
  refunds = [];
}

abbrev refund_rows : State
refund_rows =
    let rows : Rows = record {
      status = BookingStatus.active;
      history = [];
      refunds = [];
      transactions = [];
    } in
    record { committed = rows; pending = rows; in_flight = 0; sent = [] }

-- The change fails after both charges, and refunds both.
commit_fails_run :
    let (r, (s', t')) =
      change_booking_unit plain_days taxes commit_fails
        (pos 3)
        20
        at_once
        true
        (some new_unit)
        unit_rows
        refund_rows in
    (map (λ c. c.id) s'.charges ≡ 12 ∷ 11 ∷ []) × (s'.refunds ≡ 12 ∷ 11 ∷ [])
unfolding change_booking_unit pay_unit_change_amount calculate_amount_in_currency is_swapped
    calculate_tax
commit_fails_run = (refl, refl)

change_booking_unit-ChangeLeaves_example :
    let (r, (s', t')) =
      change_booking_unit plain_days taxes commit_fails
        (pos 3)
        20
        at_once
        true
        (some new_unit)
        unit_rows
        refund_rows in
    ChangeLeaves plain_days true new_unit unit_rows (r, s')
change_booking_unit-ChangeLeaves_example =
    change_booking_unit-ChangeLeaves plain_days taxes commit_fails (pos 3) 20 at_once true new_unit
      unit_rows refund_rows
      (record { deposit = refl; renewal = refl; refund_deposit = refl; refund_renewal = refl })

change_booking_unit-IsIdle_example :
    let (r, (s', t')) =
      change_booking_unit plain_days taxes
        (record commit_fails { commit = true })
        (pos 3)
        20
        at_once
        true
        (some new_unit)
        unit_rows
        refund_rows in
    (t'.committed ≡ refund_rows.committed) × (t'.sent ≡ [])
change_booking_unit-IsIdle_example =
    change_booking_unit-IsIdle plain_days taxes (record commit_fails { commit = true }) (pos 3) 20
      at_once true (some new_unit) unit_rows refund_rows

abbrev old_tax : ℤ
old_tax = tax_of (find (is_tax_of plain_days 6) old_unit.applied_taxes)
