-- ===== src/Terminations/Bounds.antt =====
-- What a termination charges and gives back.
use space_next_door_core_api.Base.Result.{ok}
use space_next_door_core_api.Base.{
  Bool, true, false, some, List, [], ◌∷◌, ◌||◌, if◌then◌else◌, last?, All, ◌≡◌, refl, ◌↔◌, ◌⊎◌, inl,
  inr, arith, Bool-cases,
}
use space_next_door_core_api.Calendar.{Calendar}
use space_next_door_core_api.Terminations.Dues.{
  DueRenewal, promotion_dues_loop, calculate_promotion_dues, CommitmentFailed, is_commitment_failed,
  is_failed_for,
}
use space_next_door_core_api.Base.Int.{ℤ, pos, ◌+ℤ◌, ◌≤ℤ◌, +ℤ_parts, max_ℤ_nonneg}
use space_next_door_core_api.Catalog.{is_paid}
use space_next_door_core_api.Terminations.Request.{
  LoadedBooking, termination_dues, calculate_termination, notice_period_amount, is_running,
  terminate_booking, TerminationArgs, unused_days_amount, get_termination_date, ends_after,
  amount_of_days, days_after,
}
use space_next_door_core_api.BookingPromotions.{BookingPromotion}
use space_next_door_core_api.Base.Round.{to_fixed_one}

or_true : (a : Bool) (x : ℤ) → (if a || true then pos 0 else x) ≡ pos 0
or_true true x = refl
or_true false x = refl

module _ (cal : Calendar) where
  open cal use {Date, add_day, add_month, is_before, is_after}

  -- The discounts of the paid renewals.
  abbrev pub paid_discounts : List (DueRenewal cal) → ℤ
  paid_discounts [] = pos 0
  paid_discounts (r ∷ rs) =
      if is_paid r.status then r.discount_amount +ℤ paid_discounts rs else paid_discounts rs

  abbrev pub IsDiscounted : DueRenewal cal → Type 0
  IsDiscounted r = pos 0 ≤ℤ r.discount_amount

  paid_discounts_nonneg :
      (rs : List (DueRenewal cal)) → All IsDiscounted rs → pos 0 ≤ℤ paid_discounts rs
  paid_discounts_nonneg [] h = omega arith
  paid_discounts_nonneg (r ∷ rs) (a, b) =
      ground (arith, paid_discounts_nonneg rs b, +ℤ_parts r.discount_amount (paid_discounts rs))

  promotion_dues_loop_bounds :
      (failed : CommitmentFailed cal) (rs : List (DueRenewal cal)) (acc : ℤ)
      → All IsDiscounted rs
      → (acc ≤ℤ promotion_dues_loop cal failed rs acc)
        × (promotion_dues_loop cal failed rs acc ≤ℤ acc +ℤ paid_discounts rs)
  unfolding promotion_dues_loop
  promotion_dues_loop_bounds failed [] acc h = omega (arith, +ℤ_parts acc (pos 0))
  promotion_dues_loop_bounds failed (r ∷ rs) acc (a, b) =
      let d = r.discount_amount in
      let rest = paid_discounts rs in
      elim (Bool-cases (is_paid r.status)) [
        | inl p ↦ elim (Bool-cases (is_failed_for cal failed r.promotion_format)) [
          | inl q ↦
              let (lo, hi) = promotion_dues_loop_bounds failed rs (acc +ℤ d) b in
              rw (p, q)
                (
                  omega (arith, lo, +ℤ_parts acc d),
                  omega (
                    arith,
                    hi,
                    +ℤ_parts acc d,
                    +ℤ_parts (acc +ℤ d) rest,
                    +ℤ_parts d rest,
                    +ℤ_parts acc (d +ℤ rest),
                  ),
                )
          | inr q ↦
              let (lo, hi) = promotion_dues_loop_bounds failed rs acc b in
              rw (p, q)
                (
                  lo,
                  omega (arith, hi, +ℤ_parts acc rest, +ℤ_parts d rest, +ℤ_parts acc (d +ℤ rest)),
                )
        ]
        | inr p ↦ rw p (promotion_dues_loop_bounds failed rs acc b)
      ]

  -- For every promotions and renewals of a booking whose discounts are not negative, what is charged
  -- back for a failed commitment is at least 0 and at most the discounts of the paid renewals.
  pub calculate_promotion_dues_bounds :
      (promotions : List (BookingPromotion cal)) (renewals : List (DueRenewal cal))
      → All IsDiscounted renewals
      → (pos 0 ≤ℤ calculate_promotion_dues cal promotions renewals)
        × (calculate_promotion_dues cal promotions renewals ≤ℤ paid_discounts renewals)
  unfolding calculate_promotion_dues
  calculate_promotion_dues_bounds promotions renewals h =
      let failed = is_commitment_failed cal promotions renewals in
      let total = promotion_dues_loop cal failed renewals (pos 0) in
      let (lo, hi) = promotion_dues_loop_bounds failed renewals (pos 0) h in
      elim (Bool-cases (failed.public_failed || failed.voucher_failed)) [
        | inl e ↦
            rw (e, to_fixed_one total)
              (lo, omega (arith, hi, +ℤ_parts (pos 0) (paid_discounts renewals)))
        | inr e ↦ rw (e, to_fixed_one (pos 0)) (omega arith, paid_discounts_nonneg renewals h)
      ]

  -- What the checks let through.
  pub record IsAllowed (now move_out : Date) (b : LoadedBooking cal) : Type 0 where
    pub is_active : is_running b.status ≡ true
    pub within_month : is_after move_out (add_month now 1) ≡ false
    pub from_tomorrow : is_before move_out (add_day now (pos 1)) ≡ false
    pub is_started : is_after b.move_in_date now ≡ false
    pub is_new : b.has_termination ≡ false

  -- For every request on a booking, the termination is worked out exactly when the booking is
  -- confirmed or active and has started, none was requested before, and the move out is at least a
  -- day from now and at most a month.
  pub calculate_termination_iff :
      (notice_days : ℤ) (args : TerminationArgs) (now move_out : Date) (b : LoadedBooking cal)
      → IsAllowed now move_out b ↔ (
          calculate_termination cal notice_days args now move_out (some b)
          ≡ ok (termination_dues cal notice_days args now move_out b))
  unfolding calculate_termination terminate_booking
  calculate_termination_iff notice_days args now move_out b = ground arith

  -- For every termination, the unused days given back are at least 0, the notice period is not charged
  -- where unused days are given back, and the total is the sum of its four parts.
  pub termination_dues_exclusive :
      (notice_days : ℤ) (args : TerminationArgs) (now move_out : Date) (b : LoadedBooking cal)
      → let d = termination_dues cal notice_days args now move_out b in
        (pos 0 ≤ℤ d.unused_days_amount)
        × ((d.notice_period_amount ≡ pos 0) ⊎ (d.unused_days_amount ≡ pos 0))
        × (d.total_amount
            ≡ d.notice_period_amount +ℤ d.promo_amount +ℤ d.failed_renewals_amount
              +ℤ d.remaining_days_amount)
  unfolding termination_dues notice_period_amount unused_days_amount
  termination_dues_exclusive notice_days args now move_out b =
      let date = get_termination_date cal notice_days args now move_out in
      let unused = amount_of_days cal b.base_amount (days_after cal (last? b.renewals) date) in
      elim (Bool-cases (ends_after cal (last? b.renewals) date)) [
        | inl e ↦
            rw e (max_ℤ_nonneg unused, inl (or_true args.exclude_notice_dues _), to_fixed_one _)
        | inr e ↦ rw e (omega arith, inr refl, to_fixed_one _)
      ]
