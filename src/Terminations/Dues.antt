-- ===== src/Terminations/Dues.antt =====
-- src/terminations/termination.service.ts: `isCommitmentFailed`, `calculatePromotionDues` and
-- `calculateFailedRenewalAmount`, over the renewals and the promotions of one booking.
use space_next_door_core_api.Base.{
  Bool, true, false, Option, none, some, List, [], ◌∷◌, ◌&&◌, ◌||◌, if◌then◌else◌, last?, head?,
  filter,
}
use space_next_door_core_api.Calendar.{Calendar, is_same_or_after}
use space_next_door_core_api.BookingPromotions.{BookingPromotion}
use space_next_door_core_api.Catalog.{
  RenewalStatus, is_paid, PromotionFormat, is_public, is_min_days, is_voucher,
}
use space_next_door_core_api.Base.Round.{to_fixed}
use space_next_door_core_api.Base.Int.{ℤ, pos, ◌+ℤ◌, max_ℤ, ltb_ℤ, ◌*ℤ◌}
use space_next_door_core_api.Promotions.Types.{CustomerBuys}

module _ (cal : Calendar) where
  open cal use {Date, add_day, diff_day, diff_month, is_before, is_after}

  -- A renewal with the format of its `booking_promotion`, if it has one.
  pub record DueRenewal : Type 0 where
    pub status : RenewalStatus
    pub renewal_start_date : Date
    pub renewal_end_date : Date
    pub total_amount : ℤ
    pub discount_amount : ℤ
    pub promotion_format : Option PromotionFormat

  pub record CommitmentFailed : Type 0 where
    pub public_failed : Bool
    pub voucher_failed : Bool

  -- From the first renewal's start to 5 days after the last one's end, in months.
  unfoldable pub months_between : Option DueRenewal → Option DueRenewal → ℤ
  months_between none l = pos 0
  months_between (some f) none = pos 0
  months_between (some f) (some l) =
      diff_month (add_day l.renewal_end_date (pos 5)) f.renewal_start_date

  unfoldable pub months_after_promo : List DueRenewal → BookingPromotion cal → ℤ
  unfolding months_between
  months_after_promo renewals p =
      let after = filter (λ r. is_same_or_after cal r.renewal_start_date p.applied_at) renewals in
      months_between (head? after) (last? after)

  -- `months < value / 30` for a promotion that asks for a number of days.
  unfoldable pub is_short : ℤ → List CustomerBuys → Bool
  is_short months [] = false
  is_short months (buys ∷ more) = is_min_days buys.type && ltb_ℤ (months *ℤ pos 30) buys.value

  unfoldable pub fail_promotion :
      List DueRenewal → BookingPromotion cal → CommitmentFailed → CommitmentFailed
  unfolding months_after_promo is_short
  fail_promotion renewals p r =
      if is_short (months_after_promo renewals p) p.customer_buys
      then (if is_public p.format
          then record r { public_failed = true }
          else (if is_voucher p.format then record r { voucher_failed = true } else r))
      else r

  unfoldable pub commitment_loop :
      List DueRenewal → List (BookingPromotion cal) → CommitmentFailed → CommitmentFailed
  unfolding fail_promotion
  commitment_loop renewals [] r = r
  commitment_loop renewals (p ∷ ps) r = commitment_loop renewals ps (fail_promotion renewals p r)

  unfoldable pub is_commitment_failed :
      List (BookingPromotion cal) → List DueRenewal → CommitmentFailed
  unfolding commitment_loop
  is_commitment_failed promotions renewals =
      commitment_loop renewals promotions (record { public_failed = false; voucher_failed = false })

  -- `failedForPublicPromo || failedForPrivatePromo`.
  abbrev pub is_failed_for : CommitmentFailed → Option PromotionFormat → Bool
  is_failed_for failed none = false
  is_failed_for failed (some f) =
      failed.public_failed && is_public f || failed.voucher_failed && is_voucher f

  unfoldable pub promotion_dues_loop : CommitmentFailed → List DueRenewal → ℤ → ℤ
  promotion_dues_loop failed [] acc = acc
  promotion_dues_loop failed (r ∷ rs) acc = promotion_dues_loop failed rs (
      if is_paid r.status && is_failed_for failed r.promotion_format
      then acc +ℤ r.discount_amount
      else acc)

  unfoldable pub calculate_promotion_dues : List (BookingPromotion cal) → List DueRenewal → ℤ
  unfolding is_commitment_failed promotion_dues_loop
  calculate_promotion_dues promotions renewals =
      let failed = is_commitment_failed promotions renewals in
      to_fixed
        (if failed.public_failed || failed.voucher_failed
          then promotion_dues_loop failed renewals (pos 0)
          else pos 0)
        1

  pub record FailedRenewals : Type 0 where
    pub failed_renewals_amount : ℤ
    pub remaining_days_amount_before_today : ℤ

  -- The amount of a renewal, with its discount where that is to be paid back.
  unfoldable pub amount_due : CommitmentFailed → DueRenewal → ℤ
  amount_due failed r =
      if is_failed_for failed r.promotion_format
      then r.total_amount +ℤ r.discount_amount
      else r.total_amount

  unfoldable pub fail_renewal :
      Date → CommitmentFailed → DueRenewal → FailedRenewals → FailedRenewals
  unfolding amount_due
  fail_renewal now failed r s =
      let due = amount_due failed r in
      if is_paid r.status then s else record {
        failed_renewals_amount =
            (if is_before r.renewal_end_date now
              then s.failed_renewals_amount +ℤ due
              else s.failed_renewals_amount);
        remaining_days_amount_before_today =
            (if is_before r.renewal_start_date now && is_after r.renewal_end_date now
              then max_ℤ (to_fixed (due *ℤ diff_day now r.renewal_start_date) 30) (pos 0)
              else s.remaining_days_amount_before_today);
      }

  unfoldable pub failed_renewals_loop :
      Date → CommitmentFailed → List DueRenewal → FailedRenewals → FailedRenewals
  unfolding fail_renewal
  failed_renewals_loop now failed [] s = record {
    failed_renewals_amount = to_fixed s.failed_renewals_amount 1;
    remaining_days_amount_before_today = to_fixed s.remaining_days_amount_before_today 1;
  }
  failed_renewals_loop now failed (r ∷ rs) s =
      failed_renewals_loop now failed rs (fail_renewal now failed r s)

  unfoldable pub calculate_failed_renewal_amount :
      Date → List (BookingPromotion cal) → List DueRenewal → FailedRenewals
  unfolding failed_renewals_loop is_commitment_failed
  calculate_failed_renewal_amount now promotions renewals =
      failed_renewals_loop now (is_commitment_failed promotions renewals) renewals
        (record { failed_renewals_amount = pos 0; remaining_days_amount_before_today = pos 0 })
