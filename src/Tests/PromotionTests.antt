-- ===== src/Tests/PromotionTests.antt =====
-- Promotions.
use space_next_door_core_api.Base.{
  ℕ, true, false, none, some, List, [], ◌∷◌, ◌+◌, ◌*◌, ltb, filter, ◌≡◌, refl, arith,
}
use space_next_door_core_api.Base.Int.{pos, ◌*ℤ◌, ◌+ℤ◌}
use space_next_door_core_api.Catalog.{PromotionFormat}
use space_next_door_core_api.Promotions.Filter.{get_filtered_promotions}
use space_next_door_core_api.Promotions.Amount.{
  get_promotion_amount, get_commitment, base_rent, or_promo, is_redeemable, apply_buys,
}
use space_next_door_core_api.Promotions.Bounds.{IsDiscount, get_promotion_amount-IsDiscount}
use space_next_door_core_api.Promotions.Eligible.{IsAnswer, get_promotion_amount-IsAnswer}
use space_next_door_core_api.BookingPromotions.{
  BookingPromotion, Renewal, get_booking_promotion_amount,
}
use space_next_door_core_api.BookingPromotions.Vouchers.{
  not_voucher, get_booking_promotion_amount-filter,
}
use space_next_door_core_api.Tests.Sample.{plain_days, first_month}
use space_next_door_core_api.Promotions.Gets.{add_discount}
use space_next_door_core_api.Base.Round.{to_fixed}

-- An open-ended stay at 300.00 a month gets 30.00 off.
ten_per_cent :
    (get_promotion_amount
      (λ _. first_month ∷ [])
      4
      (some 2)
      (pos 30_000)
      (get_commitment plain_days 0 none)
      none
      (some 9)
      1).discounted_amount
    ≡ pos 3000
unfolding get_promotion_amount get_commitment base_rent get_filtered_promotions add_discount
    to_fixed ◌*ℤ◌ ◌+ℤ◌ or_promo is_redeemable apply_buys
    space_next_door_core_api.Promotions.Amount.gets_loop
ten_per_cent = refl

get_promotion_amount-IsDiscount_example : IsDiscount (
    get_promotion_amount
      (λ _. first_month ∷ [])
      4
      (some 2)
      (pos 30_000)
      (get_commitment plain_days 0 none)
      none
      (some 9)
      1)
unfolding get_commitment
get_promotion_amount-IsDiscount_example =
    get_promotion_amount-IsDiscount (λ _. first_month ∷ []) 4 (some 2) (pos 30_000)
      (get_commitment plain_days 0 none) none (some 9) 1 (omega arith) (omega arith)

get_promotion_amount-IsAnswer_example : IsAnswer 4 (some 2) (
    get_promotion_amount
      (λ _. first_month ∷ [])
      4
      (some 2)
      (pos 30_000)
      (get_commitment plain_days 0 none)
      none
      (some 9)
      1)
get_promotion_amount-IsAnswer_example =
    get_promotion_amount-IsAnswer 4 (some 2) (λ _. first_month ∷ []) (pos 30_000)
      (get_commitment plain_days 0 none) none (some 9) 1

-- A voucher and a public promotion of a booking, applied on day 40.
abbrev booking_promotion : ℕ → PromotionFormat → BookingPromotion plain_days
booking_promotion id format = record {
  id = id;
  format = format;
  applied_at = 40;
  customer_buys = first_month.customer_buys;
  customer_gets = first_month.customer_gets;
}

abbrev both : List (BookingPromotion plain_days)
both = booking_promotion 1 PromotionFormat.voucher ∷ booking_promotion 2 PromotionFormat.public ∷ []

abbrev renewals : List (Renewal plain_days)
renewals = record { promotion_id = none; renewal_start_date = 30; next_renewal_date = some 60 } ∷ []

month_passes : (d a : ℕ) → ltb d a ≡ false → ltb a (d + 1 * 30) ≡ true
month_passes d a h = ground arith

get_booking_promotion_amount-filter_example :
    get_booking_promotion_amount plain_days both
      (pos 30_000)
      (get_commitment plain_days 0 none)
      none
      renewals
    ≡ get_booking_promotion_amount plain_days
        (filter (not_voucher plain_days) both)
        (pos 30_000)
        (get_commitment plain_days 0 none)
        none
        renewals
get_booking_promotion_amount-filter_example =
    get_booking_promotion_amount-filter plain_days month_passes both (pos 30_000)
      (get_commitment plain_days 0 none) none renewals refl
