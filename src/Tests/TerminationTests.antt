-- ===== src/Tests/TerminationTests.antt =====
-- Terminations.
use space_next_door_core_api.Base.Int.{pos, ◌+ℤ◌, ◌*ℤ◌}
use space_next_door_core_api.Base.Round.{to_fixed}
use space_next_door_core_api.Base.Result.{ok}
use space_next_door_core_api.Catalog.{
  RenewalStatus, PromotionFormat, BookingStatus, PromotionBuyTypes, TerminationStatus,
  TerminationPaymentStatus,
}
use space_next_door_core_api.Terminations.Payment.{Termination}
use space_next_door_core_api.Payments.Stripe.{Currency}
use space_next_door_core_api.Tests.Sample.{plain_days}
use space_next_door_core_api.Base.{true, false, none, some, [], ◌∷◌, ◌≡◌, refl, ◌↔◌}
use space_next_door_core_api.Terminations.Request.{
  termination_dues, TerminationArgs, LoadedBooking, calculate_termination,
}
use space_next_door_core_api.Terminations.Payment.{PayCalls, TerminationState, pay_termination_dues}
use space_next_door_core_api.Terminations.Dues.{calculate_promotion_dues, DueRenewal}
use space_next_door_core_api.Terminations.Bounds.{IsAllowed, calculate_termination_iff}
use space_next_door_core_api.BookingPromotions.{BookingPromotion}
use space_next_door_core_api.Terminations.Outcome.{
  PaymentLeaves, pay_termination_dues-PaymentLeaves,
}

abbrev paid_renewal : DueRenewal plain_days
paid_renewal = record {
  status = RenewalStatus.paid;
  renewal_start_date = 10;
  renewal_end_date = 40;
  total_amount = pos 27_000;
  discount_amount = pos 3000;
  promotion_format = some PromotionFormat.public;
}

abbrev three_months : BookingPromotion plain_days
three_months = record {
  id = 2;
  format = PromotionFormat.public;
  applied_at = 10;
  customer_buys =
      record {
        type = PromotionBuyTypes.min_days;
        value = pos 90;
        site_ids = none;
        country_ids = none;
      }
      ∷ [];
  customer_gets = [];
}

-- After 1 of 3 months the discount is charged back.
charged_back :
    calculate_promotion_dues plain_days (three_months ∷ []) (paid_renewal ∷ []) ≡ pos 3000
unfolding calculate_promotion_dues to_fixed ◌*ℤ◌ ◌+ℤ◌
charged_back = refl

abbrev by_customer : TerminationArgs
by_customer = record { exclude_notice_dues = false; use_move_out_date = false; is_cron = false }

abbrev active_booking : LoadedBooking plain_days
active_booking = record {
  status = BookingStatus.active;
  base_amount = pos 30_000;
  move_in_date = 10;
  has_termination = false;
  promotions = three_months ∷ [];
  renewals = paid_renewal ∷ [];
}

calculate_termination_iff_example : IsAllowed plain_days 20 25 active_booking ↔ (
    calculate_termination plain_days (pos 14) by_customer 20 25 (some active_booking)
    ≡ ok (termination_dues plain_days (pos 14) by_customer 20 25 active_booking))
calculate_termination_iff_example =
    calculate_termination_iff plain_days (pos 14) by_customer 20 25 active_booking

abbrev dues : Termination
dues = record { total_amount = pos 3000; currency = Currency.sgd; stripe_customer_id = some 7 }

abbrev requested : TerminationState
requested = record {
  rows = record {
    status = TerminationStatus.requested;
    payment_status = TerminationPaymentStatus.pending;
    transactions = [];
  };
  in_flight = 0;
  charges = [];
  refunds = [];
}

abbrev commit_fails : PayCalls
commit_fails = record {
  retrieve_card = true;
  charge = some 11;
  ids = true;
  write = true;
  commit = false;
  refund = true;
  save_failed = true;
}

pay_termination_dues-PaymentLeaves_example :
    PaymentLeaves dues requested (pay_termination_dues commit_fails (some dues) requested)
pay_termination_dues-PaymentLeaves_example =
    pay_termination_dues-PaymentLeaves commit_fails dues requested refl refl
