-- ===== src/Tests/PayoutTests.antt =====
-- Payouts.
use space_next_door_core_api.Catalog.{RenewalStatus, PayoutStatus}
use space_next_door_core_api.Base.Int.{pos, ◌-ℤ◌, ◌*ℤ◌}
use space_next_door_core_api.Base.Round.{to_fixed}
use space_next_door_core_api.Base.{true, none, some, [], ◌∷◌, ◌≡◌, refl}
use space_next_door_core_api.Payouts.{payout_of, PaidRenewal, create_payouts_cron}
use space_next_door_core_api.Payouts.Amounts.{create_payouts_cron-owed}

abbrev paid_renewal : PaidRenewal
paid_renewal = record {
  id = 3;
  booking_id = 1;
  provider_id = some 8;
  status = RenewalStatus.paid;
  renewal_paid_date = some (pos 50);
  sub_total_amount = pos 30_000;
  commission = none;
}

abbrev unpaid_renewal : PaidRenewal
unpaid_renewal = record paid_renewal { id = 4; status = RenewalStatus.failed }

fifteen_per_cent : (payout_of 1500 paid_renewal).amount ≡ pos 25_500
unfolding payout_of to_fixed ◌-ℤ◌ ◌*ℤ◌
fifteen_per_cent = refl

create_payouts_cron-owed_example :
    create_payouts_cron 1500 (λ id. true) (pos 40) (pos 70) (unpaid_renewal ∷ paid_renewal ∷ []) []
    ≡ record {
      status = PayoutStatus.pending;
      booking_id = 1;
      renewal_id = 3;
      provider_id = some 8;
      amount = pos 25_500;
      commission_percentage = 1500;
    }
      ∷ []
unfolding to_fixed ◌-ℤ◌ ◌*ℤ◌
create_payouts_cron-owed_example =
    create_payouts_cron-owed 1500 (λ id. true) (pos 40) (pos 70)
      (unpaid_renewal ∷ paid_renewal ∷ []) []
