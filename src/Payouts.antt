-- ===== src/Payouts.antt =====
-- The job that creates the providers' payouts: src/cron-job/create-payouts/create-payouts.cron.ts,
-- with `getByPaidDate` of src/bookings/renewals/renewal.service.ts. Amounts are in cents and
-- percentages in hundredths.
pub mod Amounts
use space_next_door_core_api.Base.{
  ℕ, zero, suc, Bool, true, false, Option, none, some, List, [], ◌∷◌, ◌++◌, ◌&&◌, ◌||◌, not, ◌+◌,
  ◌-◌, ◌*◌, ◌/◌, ◌%◌, ◌≤◌, ◌<◌, if◌then◌else◌, leb, ltb, ◌==◌, length, is_some, last?, head?, any,
  all, All, filter, find, includes, get_or, map, ◌≡◌, refl, sym, ap, ◌∙◌, ◌≢◌, ◌↔◌, ◌⊎◌, inl, inr,
  arith, Bool-cases, Option-cases,
}
use space_next_door_core_api.Base.Int.{ℤ, leb_ℤ, ◌-ℤ◌, ltb_ℤ, ◌*ℤ◌, pos}
use space_next_door_core_api.Catalog.{RenewalStatus, PayoutStatus, is_paid}
use space_next_door_core_api.Base.Round.{to_fixed}

pub record PaidRenewal : Type 0 where
  pub id : ℕ
  pub booking_id : ℕ
  pub provider_id : Option ℕ
  pub status : RenewalStatus
  pub renewal_paid_date : Option ℤ
  pub sub_total_amount : ℤ
  pub commission : Option ℕ

pub record Payout : Type 0 where
  pub status : PayoutStatus
  pub booking_id : ℕ
  pub renewal_id : ℕ
  pub provider_id : Option ℕ
  pub amount : ℤ
  pub commission_percentage : ℕ

abbrev is_within : ℤ → ℤ → Option ℤ → Bool
is_within start end none = false
is_within start end (some d) = leb_ℤ start d && ltb_ℤ d end

-- `getByPaidDate`: `[start, end)`, and paid.
unfoldable pub get_by_paid_date : ℤ → ℤ → List PaidRenewal → List PaidRenewal
get_by_paid_date start end renewals =
    filter (λ r. is_within start end r.renewal_paid_date && is_paid r.status) renewals

module _ (default_commission : ℕ) where
  -- `commission?.percentage || defaultCommission`; the default is from the configuration.
  unfoldable pub commission_percentage : Option ℕ → ℕ
  commission_percentage none = default_commission
  commission_percentage (some zero) = default_commission
  commission_percentage (some (suc n)) = suc n

  unfoldable pub commission_amount : PaidRenewal → ℤ
  unfolding commission_percentage
  commission_amount r =
      to_fixed (r.sub_total_amount *ℤ pos (commission_percentage r.commission)) 10_000

  unfoldable pub payout_of : PaidRenewal → Payout
  unfolding commission_amount
  payout_of r = record {
    status = PayoutStatus.pending;
    booking_id = r.booking_id;
    renewal_id = r.id;
    provider_id = r.provider_id;
    amount = r.sub_total_amount -ℤ commission_amount r;
    commission_percentage = commission_percentage r.commission;
  }

  -- The loop; `created` tells whether the creation and the commit for a renewal go through.
  unfoldable pub payouts_loop : (ℕ → Bool) → List PaidRenewal → List Payout → List Payout
  unfolding payout_of
  payouts_loop created [] payouts = payouts
  payouts_loop created (r ∷ rs) payouts =
      payouts_loop created rs (if created r.id then payouts ++ (payout_of r ∷ []) else payouts)

  -- The job, on the table of payouts.
  unfoldable pub create_payouts_cron :
      (ℕ → Bool) → ℤ → ℤ → List PaidRenewal → List Payout → List Payout
  unfolding payouts_loop get_by_paid_date
  create_payouts_cron created start end renewals payouts =
      payouts_loop created (get_by_paid_date start end renewals) payouts
