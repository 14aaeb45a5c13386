-- ===== src/Tests/PayRenewalTests.antt =====
-- The job that charges renewals.
use space_next_door_core_api.Base.{ℕ, true, false, none, some, List, [], ◌∷◌, All, ◌≡◌, refl}
use space_next_door_core_api.PayRenewals.Amounts.{
  taxed_renewal, RenewingBooking, is_renewal_due, new_renewal, projected_booking, month_discount,
}
use space_next_door_core_api.PayRenewals.RenewOutcome.{
  RenewLeaves, new_renewal_discount, renew_booking-RenewLeaves,
}
use space_next_door_core_api.PayRenewals.Retry.{RenewalRow, retry_renewals, RetryCalls, RenewalRows}
use space_next_door_core_api.Renewals.Projected.{
  RenewalInfo, get_renewal_info, get_renewal_projected_amount,
}
use space_next_door_core_api.PayRenewals.Liveness.{IsOpen, is_settled_row, retry_renewals_complete}
use space_next_door_core_api.Taxes.{TaxOwner, Tax, calculate_tax}
use space_next_door_core_api.Payments.Ledger.{Ledger}
use space_next_door_core_api.PayRenewals.Renew.{RenewCalls, BookingRows, renew_booking}
use space_next_door_core_api.Renewals.Payload.{get_renewal_payload}
use space_next_door_core_api.Catalog.{RenewalStatus, RenewalType}
use space_next_door_core_api.BookingPromotions.{get_booking_promotion_amount}
use space_next_door_core_api.Pricing.{taxable_rent}
use space_next_door_core_api.Payments.Stripe.{Currency}
use space_next_door_core_api.Tests.Sample.{plain_days, vat}
use space_next_door_core_api.Base.Int.{◌*ℤ◌, pos, ◌+ℤ◌, ◌-ℤ◌}
use space_next_door_core_api.Base.Result.{ok}
use space_next_door_core_api.Base.Round.{to_fixed}

abbrev taxes : List TaxOwner → List Tax
taxes owners = vat ∷ []

-- Stripe makes charge 11 and the row of the renewal cannot be updated.
abbrev update_fails : RetryCalls
update_fails = record {
  ids = true;
  retrieve_card = true;
  charge = some 11;
  create_transaction = true;
  update_renewal = false;
  create_redeem = true;
  commit = true;
  refund = true;
  mark = true;
}

abbrev failed_row : RenewalRow
failed_row = record {
  id = 3;
  status = RenewalStatus.failed;
  total_amount = pos 20_000;
  promotion_id = none;
  renewal_paid_date = none;
  last_attempt_date = none;
}

abbrev failed_rows : Ledger RenewalRows
failed_rows = record {
  rows = record { renewals = failed_row ∷ []; transactions = []; redeems = 0 };
  in_flight = 0;
  charges = [];
  refunds = [];
}

abbrev open_calls : RetryCalls
open_calls = record update_fails { update_renewal = true }

open_calls-IsOpen : IsOpen open_calls
open_calls-IsOpen = record {
  ids = refl;
  retrieve_card = refl;
  charge = refl;
  create_transaction = refl;
  update_renewal = refl;
  create_redeem = refl;
  commit = refl;
}

abbrev every_id : ℕ → RetryCalls
every_id id = open_calls

retry_renewals_complete_example :
    let (r, s') =
      retry_renewals every_id Currency.sgd (pos 1_000_000) (failed_row ∷ []) failed_rows in
    (r ≡ ok tt)
    × All (λ x. is_settled_row (pos 1_000_000) (failed_row ∷ []) x ≡ true) s'.rows.renewals
retry_renewals_complete_example =
    retry_renewals_complete every_id Currency.sgd (pos 1_000_000) failed_rows
      (λ id. open_calls-IsOpen) refl

-- The commit fails after the charge.
abbrev commit_fails : RenewCalls
commit_fails = record {
  ids = true;
  retrieve_card = true;
  charge = some 12;
  create_transaction = true;
  create_renewal = true;
  link_transaction = true;
  create_taxes = true;
  create_redeem = true;
  commit = false;
  create_failed = true;
  refund = true;
}

-- Open-ended, renewed on day 35.
abbrev active_booking : RenewingBooking plain_days
active_booking = record {
  id = 8;
  site_id = 4;
  base_amount = pos 30_000;
  currency = Currency.sgd;
  insurance_id = none;
  insurance_price_per_day = none;
  insurance_amount = none;
  move_out_date = none;
  is_termination_requested = false;
  stay = record { open_ended = true; commit_days = pos 0; commit_months = pos 0 };
  promotions = [];
  promotion_renewals = [];
  renewals = record { next_renewal_date = some 35; renewal_end_date = 38 } ∷ [];
}

abbrev next_month : RenewalInfo plain_days
next_month = record {
  renewal_type = RenewalType.full_subscription;
  renewal_start_date = 38;
  next_renewal_date_of_last = some 35;
}

abbrev no_renewals : Ledger (BookingRows plain_days)
no_renewals = record {
  rows = record { renewals = []; transactions = [] };
  in_flight = 0;
  charges = [];
  refunds = [];
}

active_booking_info : get_renewal_info plain_days none active_booking.renewals ≡ some next_month
unfolding get_renewal_info
active_booking_info = refl

active_booking_due : is_renewal_due plain_days 36 (some 35) none ≡ true
unfolding is_renewal_due
active_booking_due = refl

renew_booking-RenewLeaves_example :
    RenewLeaves plain_days Currency.sgd
      (new_renewal plain_days taxes (pos 3) active_booking next_month)
      no_renewals
      (renew_booking plain_days taxes commit_fails (pos 3) 36 active_booking no_renewals).1
renew_booking-RenewLeaves_example =
    renew_booking-RenewLeaves plain_days taxes commit_fails (pos 3) 36 active_booking no_renewals
      refl refl refl active_booking_info active_booking_due

active_booking_next :
    (taxed_renewal plain_days taxes (pos 3) active_booking next_month).next_renewal_sub_total
    ≡ some (pos 30_000)
unfolding taxed_renewal get_renewal_payload
active_booking_next = refl

active_booking_tax :
    (taxed_renewal plain_days taxes (pos 3) active_booking next_month).total_tax_amount
    ≡ some (pos 2_100)
unfolding taxed_renewal get_renewal_payload calculate_tax to_fixed ◌+ℤ◌ ◌*ℤ◌ taxable_rent
    get_booking_promotion_amount
active_booking_tax = refl

new_renewal_discount_example :
    let r = new_renewal plain_days taxes (pos 3) active_booking next_month in
    let p =
      get_renewal_projected_amount plain_days taxes
        (projected_booking plain_days active_booking)
        (pos 30_000)
        3
        none
        none in
    (r.total_amount
      ≡ some (
          r.sub_total_amount
          +ℤ r.deposit_amount
          +ℤ r.insurance_amount
          -ℤ (month_discount plain_days active_booking).discounted_amount
          +ℤ pos 2_100))
    × (r.discount_amount ≡ p.discount)
    × (r.next_renewal_total ≡ some p.total)
new_renewal_discount_example =
    new_renewal_discount plain_days taxes (pos 3) active_booking next_month (pos 30_000) (pos 2_100)
      active_booking_next (λ e. cc) active_booking_tax
