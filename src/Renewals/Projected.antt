-- ===== src/Renewals/Projected.antt =====
-- `getRenewalInfo`, `getRenewalProjectedAmount` and `updateRenewalProjectedAmount` of
-- src/bookings/booking.service.ts. The booking's active promotions, which the promotion service
-- queries, stand in the booking.
use space_next_door_core_api.Base.{
  ℕ, Bool, Option, none, some, List, [], ◌&&◌, if◌then◌else◌, is_some, last?, get_or,
}
use space_next_door_core_api.Calendar.{Calendar}
use space_next_door_core_api.Base.Number.{sub, truthy, Number, fixed, sub, add}
use space_next_door_core_api.Base.Int.{ℤ, leb_ℤ, pos, ◌+ℤ◌}
use space_next_door_core_api.Catalog.{RenewalType}
use space_next_door_core_api.Promotions.Amount.{Commitment}
use space_next_door_core_api.Taxes.{TaxOwner, Tax, calculate_tax}
use space_next_door_core_api.BookingPromotions.{BookingPromotion, get_booking_promotion_amount}
use space_next_door_core_api.Pricing.{taxable_rent}

-- `x ? x : y` on an amount that may be missing.
abbrev pub amount_or : Option ℤ → ℤ → ℤ
amount_or none y = y
amount_or (some x) y = if leb_ℤ x (pos 0) && leb_ℤ (pos 0) x then y else x

-- `x || y` on ids.
abbrev pub id_or : Option ℕ → Option ℕ → Option ℕ
id_or x y = if truthy x then x else y

module _ (cal : Calendar) where
  open cal use {Date}

  -- The fields of a renewal that the next one starts from.
  pub record LastRenewal : Type 0 where
    pub next_renewal_date : Option Date
    pub renewal_end_date : Date

  pub record RenewalInfo : Type 0 where
    pub renewal_type : RenewalType
    pub renewal_start_date : Date
    pub next_renewal_date_of_last : Option Date

  -- Without a renewal the source throws.
  unfoldable pub get_renewal_info : Option Date → List LastRenewal → Option RenewalInfo
  get_renewal_info move_out renewals = elim (last? renewals) [
    | none ↦ none
    | some last ↦ some (record {
      renewal_type =
          (if is_some move_out
            then RenewalType.partial_subscription
            else RenewalType.full_subscription);
      renewal_start_date = last.renewal_end_date;
      next_renewal_date_of_last = last.next_renewal_date;
    })
  ]

  pub record ProjectedBooking : Type 0 where
    pub site_id : ℕ
    pub base_amount : ℤ
    pub insurance_id : Option ℕ
    pub insurance_amount : Option ℤ
    pub stay : Commitment
    pub promotions : List (BookingPromotion cal)

  pub record ProjectedAmount : Type 0 where
    pub sub_total : ℤ
    pub total : Number
    pub discount : ℤ

  unfoldable pub get_renewal_projected_amount :
      (List TaxOwner → List Tax) → ProjectedBooking → ℤ → ℕ → Option ℕ → Option ℤ → ProjectedAmount
  get_renewal_projected_amount find_all b next_sub_total for_month insurance_id insurance_amount =
      let insurance = amount_or insurance_amount (get_or b.insurance_amount (pos 0)) in
      let info =
        get_booking_promotion_amount cal b.promotions b.base_amount b.stay (some for_month) [] in
      let taxes = calculate_tax find_all (record {
        site_id = some b.site_id;
        insurance_id = id_or insurance_id b.insurance_id;
        pickup_service_id = none;
        space_price = some (taxable_rent next_sub_total info.discounted_amount);
        insurance_price = some insurance;
        pickup_service_price = none;
      }) in
      record {
        sub_total = next_sub_total;
        total = fixed (
            sub (add (some (next_sub_total +ℤ insurance)) taxes.total_tax)
              (some info.discounted_amount));
        discount = info.discounted_amount;
      }

  -- The columns of a renewal on the projection of the next.
  pub record ProjectedColumns : Type 0 where
    pub next_renewal_sub_total : Option ℤ
    pub next_renewal_total : Number
    pub next_renewal_discount : Option ℤ

  -- `written` tells whether the query and the update go through; what throws is only logged.
  unfoldable pub update_renewal_projected_amount :
      (List TaxOwner → List Tax) → Bool → ProjectedBooking → ℤ → ProjectedColumns → ProjectedColumns
  unfolding get_renewal_projected_amount
  update_renewal_projected_amount find_all written b next_sub_total row =
      let p = get_renewal_projected_amount find_all b next_sub_total 2 none none in
      if written
      then record {
        next_renewal_sub_total = some next_sub_total;
        next_renewal_total = some p.sub_total;
        next_renewal_discount = some p.discount;
      }
      else row
