-- ===== src/PayRenewals/Amounts.antt =====
-- src/cron-job/pay-renewals/pay-renewal.cron.ts: the amounts of the renewal that the job creates.
use space_next_door_core_api.Base.{
  ℕ, Bool, false, Option, none, some, List, ◌&&◌, not, ◌+◌, if◌then◌else◌, length, is_some, get_or,
}
use space_next_door_core_api.Calendar.{Calendar}
use space_next_door_core_api.Renewals.Projected.{
  ProjectedBooking, RenewalInfo, get_renewal_projected_amount, LastRenewal,
}
use space_next_door_core_api.Catalog.{RenewalStatus}
use space_next_door_core_api.BookingPromotions.{
  BookingPromotionAmount, get_booking_promotion_amount, BookingPromotion, Renewal,
}
use space_next_door_core_api.Taxes.{TaxOwner, Tax, calculate_tax}
use space_next_door_core_api.Base.Int.{ℤ, leb_ℤ, pos}
use space_next_door_core_api.Payments.Stripe.{Currency}
use space_next_door_core_api.Base.Number.{Number, fixed, add}
use space_next_door_core_api.Promotions.Amount.{Commitment}
use space_next_door_core_api.Renewals.Payload.{RenewalPayload, get_renewal_payload}
use space_next_door_core_api.Pricing.{taxable_rent}

module _ (cal : Calendar) where
  open cal use {Date, is_before_day}

  -- The booking as it is loaded, with its promotions and its renewals; `stay` is measured from today
  -- to the move out date.
  pub record RenewingBooking : Type 0 where
    pub id : ℕ
    pub site_id : ℕ
    pub base_amount : ℤ
    pub currency : Currency
    pub insurance_id : Option ℕ
    pub insurance_price_per_day : Option ℤ
    pub insurance_amount : Option ℤ
    pub move_out_date : Option Date
    pub is_termination_requested : Bool
    pub stay : Commitment
    pub promotions : List (BookingPromotion cal)
    pub promotion_renewals : List (Renewal cal)
    pub renewals : List (LastRenewal cal)

  pub record NewRenewal : Type 0 where
    pub status : RenewalStatus
    pub sub_total_amount : ℤ
    pub deposit_amount : ℤ
    pub insurance_amount : ℤ
    pub discount_amount : ℤ
    pub total_tax_amount : Number
    pub total_amount : Number
    pub next_renewal_sub_total : Option ℤ
    pub next_renewal_total : Option Number
    pub renewal_start_date : Date
    pub renewal_end_date : Date
    pub next_renewal_date : Option Date
    pub transaction_id : Option ℕ
    pub is_attempted : Bool
    pub is_redeemed : Bool

  -- The two `continue`s on the dates. A missing date is after no day.
  unfoldable pub is_renewal_due : Date → Option Date → Option Date → Bool
  is_renewal_due today none move_out = false
  is_renewal_due today (some next) none = not (is_before_day today next)
  is_renewal_due today (some next) (some out) =
      not (is_before_day today next) && is_before_day today out

  abbrev pub projected_booking : RenewingBooking → ProjectedBooking cal
  projected_booking b = record {
    site_id = b.site_id;
    base_amount = b.base_amount;
    insurance_id = b.insurance_id;
    insurance_amount = b.insurance_amount;
    stay = b.stay;
    promotions = b.promotions;
  }

  -- The discount on the month that is renewed.
  unfoldable pub month_discount : RenewingBooking → BookingPromotionAmount cal
  month_discount b =
      get_booking_promotion_amount cal b.promotions b.base_amount b.stay none b.promotion_renewals

  -- `getRenewalPayload` with the arguments of the job.
  unfoldable pub job_payload : ℤ → RenewingBooking → RenewalInfo cal → ℤ → RenewalPayload cal
  job_payload create_days b info discount = get_renewal_payload cal create_days (record {
    insurance_price_per_day = get_or b.insurance_price_per_day (pos 0);
    deposit_amount = pos 0;
    renewal_start_date = info.renewal_start_date;
    next_renewal_date_of_last = info.next_renewal_date_of_last;
    booking_id = b.id;
    base_amount = b.base_amount;
    discounted_amount = discount;
    status = RenewalStatus.paid;
    type = info.renewal_type;
    transaction_id = none;
    move_out_date = b.move_out_date;
  })

  -- `if (renewalPayload.next_renewal_sub_total)`: the projection also replaces the discount.
  unfoldable pub project_next :
      (List TaxOwner → List Tax) → RenewingBooking → Option ℤ → NewRenewal → NewRenewal
  project_next find_all b none r = r
  project_next find_all b (some next) r =
      let p =
        get_renewal_projected_amount cal find_all (projected_booking b) next (length b.renewals + 2)
          none none in
      if leb_ℤ next (pos 0) && leb_ℤ (pos 0) next
      then r
      else record r { next_renewal_total = some p.total; discount_amount = p.discount }

  -- The renewal with its tax and total, before the projection.
  unfoldable pub taxed_renewal :
      (List TaxOwner → List Tax) → ℤ → RenewingBooking → RenewalInfo cal → NewRenewal
  unfolding job_payload month_discount
  taxed_renewal find_all create_days b info =
      let promo = month_discount b in
      let payload = job_payload create_days b info promo.discounted_amount in
      let taxes = calculate_tax find_all (record {
        site_id = some b.site_id;
        insurance_id = b.insurance_id;
        pickup_service_id = none;
        space_price = some (taxable_rent payload.sub_total_amount promo.discounted_amount);
        insurance_price = b.insurance_amount;
        pickup_service_price = none;
      }) in
      record {
        status = payload.status;
        sub_total_amount = payload.sub_total_amount;
        deposit_amount = payload.deposit_amount;
        insurance_amount = payload.insurance_amount;
        discount_amount = payload.discount_amount;
        total_tax_amount = taxes.total_tax;
        total_amount = fixed (add (some payload.total_amount) taxes.total_tax);
        next_renewal_sub_total = payload.next_renewal_sub_total;
        next_renewal_total = none;
        renewal_start_date = payload.renewal_start_date;
        renewal_end_date = payload.renewal_end_date;
        next_renewal_date = payload.next_renewal_date;
        transaction_id = none;
        is_attempted = false;
        is_redeemed = is_some promo.promotion;
      }

  unfoldable pub new_renewal :
      (List TaxOwner → List Tax) → ℤ → RenewingBooking → RenewalInfo cal → NewRenewal
  unfolding project_next taxed_renewal
  new_renewal find_all create_days b info =
      let r = taxed_renewal find_all create_days b info in
      project_next find_all b r.next_renewal_sub_total r
