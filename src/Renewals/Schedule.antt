-- ===== src/Renewals/Schedule.antt =====
-- `paymentSchedule` of src/bookings/renewals/renewal.service.ts, with `fetchActivePromotions` and
-- `calculateMaxBuysDays`. The rows that it looks up are arguments.
use space_next_door_core_api.Base.{
  ℕ, zero, suc, Bool, false, Option, none, some, List, [], ◌∷◌, ◌&&◌, ◌||◌, not, ◌+◌, ◌*◌,
  if◌then◌else◌, ltb, ◌==◌, is_some, get_or, map,
}
use space_next_door_core_api.Base.Result.{◌>>=◌, ◌>>◌, Result, err, ok, throw_if}
use space_next_door_core_api.Promotions.Types.{CustomerBuys, Promotion, PromotionAmount}
use space_next_door_core_api.Catalog.{PromotionFormat, is_voucher, is_min_days, is_public}
use space_next_door_core_api.Base.Int.{ℤ, pos, pos_part, ltb_ℤ, ◌*ℤ◌, ◌+ℤ◌}
use space_next_door_core_api.Calendar.{Calendar}
use space_next_door_core_api.Taxes.{TaxOwner, Tax, calculate_tax}
use space_next_door_core_api.Promotions.Amount.{
  PromotionKey, get_promotion_amount, or_promo, get_commitment,
}
use space_next_door_core_api.Base.Number.{sub, Number, truthy, fixed, sub, add}
use space_next_door_core_api.Base.Round.{to_fixed}
use space_next_door_core_api.Pricing.{taxable_rent}

abbrev longer : ℤ → CustomerBuys → ℤ
longer days buys = if is_min_days buys.type && ltb_ℤ days buys.value then buys.value else days

abbrev longest : ℤ → List CustomerBuys → ℤ
longest days [] = days
longest days (buys ∷ more) = longest (longer days buys) more

-- The loops over the promotions and their `customer_buys`.
unfoldable pub max_buys_loop : ℤ → List (List CustomerBuys) → ℤ
max_buys_loop days [] = days
max_buys_loop days (buys ∷ more) = max_buys_loop (longest days buys) more

unfoldable pub calculate_max_buys_days : List (List CustomerBuys) → ℤ
unfolding max_buys_loop
calculate_max_buys_days promotions = max_buys_loop (pos 0) promotions

pub data ScheduleError : Type 0 where
  space_not_found no_pick_up_order : ScheduleError

-- The codes of a booking's promotions: the last voucher's and the last public one's.
pub record PromoCodes : Type 0 where
  pub promo_code : Option ℕ
  pub promo_id : Option ℕ

pub record AttachedPromotion : Type 0 where
  pub format : PromotionFormat
  pub code : Option ℕ
  pub promotion_id : Option ℕ
  pub customer_buys : List CustomerBuys

unfoldable pub codes_loop : List AttachedPromotion → PromoCodes → PromoCodes
codes_loop [] c = c
codes_loop (p ∷ ps) c = codes_loop ps (
    if is_voucher p.format
    then record c { promo_code = p.code }
    else (if is_public p.format then record c { promo_id = p.promotion_id } else c))

-- `orders.find((order) => !!order.order_pick_up_service_id)` of the orders' pick-up services, each
-- with the service that it is of; `undefined` has no property.
abbrev find_service : List (Option (Option ℕ)) → Result ScheduleError (Option ℕ)
find_service [] = err no_pick_up_order
find_service (none ∷ os) = find_service os
find_service (some service ∷ os) = ok service

unfoldable pub pickup_service_of :
    List (Option (Option ℕ)) → Option ℕ → Result ScheduleError (Option ℕ)
pickup_service_of [] before = ok before
pickup_service_of (o ∷ os) before = find_service (o ∷ os)

module _ (cal : Calendar) where
  open cal use {Date, add_day, add_month, diff_day, is_after}

  -- The space, the prices and the codes that the schedule is worked out from.
  pub record ScheduleArgs : Type 0 where
    pub site_id : ℕ
    pub country : Option ℕ
    pub price_per_month : ℤ
    pub move_in_date : Date
    pub move_out_date : Option Date
    pub insurance_id : Option ℕ
    pub insurance_price_per_day : Option ℤ
    pub pickup_service_id : Option ℕ
    pub pickup_fixed_price : Option ℤ
    pub promo_code : Option ℕ
    pub promo_id : Option ℕ

  pub record PaymentSchedule : Type 0 where
    pub from_date : Date
    pub to_date : Date
    pub applied_promotion : Option Promotion
    pub sub_total_amount : ℤ
    pub deposit_amount : ℤ
    pub insurance_price : ℤ
    pub service_price : ℤ
    pub discounted_amount : ℤ
    pub total_amount : Number

  -- `for (let m = 1; m < maxBuyDays / 30; m++)`, on fuel for the months.
  unfoldable pub later_start_dates : ℕ → Date → ℤ → ℕ → List Date
  later_start_dates zero move_in days m = []
  later_start_dates (suc fuel) move_in days m =
      let rest = later_start_dates fuel move_in days (m + 1) in
      if ltb_ℤ (pos (m * 30)) days then add_day (add_month move_in m) (pos 1) ∷ rest else []

  unfoldable pub renewal_start_dates : Date → ℤ → List Date
  unfolding later_start_dates
  renewal_start_dates move_in days = move_in ∷ later_start_dates (pos_part days) move_in days 1

  abbrev is_past : Option Date → Date → Bool
  is_past none d = false
  is_past (some move_out) d = is_after d move_out

  -- `if (moveOutDate && days < 30)`.
  unfoldable pub schedule_rent : ℤ → Option Date → ℤ → ℤ
  schedule_rent price none days = price
  schedule_rent price (some move_out) days =
      if ltb_ℤ days (pos 30) then to_fixed (price *ℤ days) 30 else price

  -- The promotion service's answer for the month; the voucher is only for the first one.
  unfoldable pub month_promotion :
      (List PromotionKey → List Promotion) → ScheduleArgs → ℕ → PromotionAmount
  month_promotion find_promotions a month =
      get_promotion_amount find_promotions a.site_id a.country a.price_per_month
        (get_commitment cal a.move_in_date a.move_out_date)
        (if ltb 1 month then none else a.promo_code) a.promo_id month

  unfoldable pub schedule_month :
      (List TaxOwner → List Tax)
      → (List PromotionKey → List Promotion)
      → ScheduleArgs
      → ℕ
      → Date
      → Date
      → PaymentSchedule
  unfolding schedule_rent month_promotion
  schedule_month find_all find_promotions a month start end_date =
      let info = month_promotion find_promotions a month in
      let named = is_some info.promotion || is_some info.public_promotion in
      let discounted = (if named then info.discounted_amount else pos 0) in
      let rent = schedule_rent a.price_per_month a.move_out_date (diff_day end_date start) in
      let insurance = get_or a.insurance_price_per_day (pos 0) *ℤ pos 30 in
      let deposit = (if month == 1 then rent else pos 0) in
      let service = (if month == 1 then get_or a.pickup_fixed_price (pos 0) else pos 0) in
      let taxes = calculate_tax find_all (record {
        site_id = some a.site_id;
        insurance_id = a.insurance_id;
        pickup_service_id = a.pickup_service_id;
        space_price = some (taxable_rent rent info.discounted_amount);
        insurance_price = some insurance;
        pickup_service_price = some service;
      }) in
      record {
        from_date = start;
        to_date = end_date;
        applied_promotion = (if named then info.promotion else none);
        sub_total_amount = rent;
        deposit_amount = deposit;
        insurance_price = insurance;
        service_price = service;
        discounted_amount = discounted;
        total_amount = fixed (
            sub (add (some (rent +ℤ insurance +ℤ deposit +ℤ service)) taxes.total_tax)
              (some discounted));
      }

  -- The loop over the start dates, which ends with the month of the move out.
  unfoldable pub schedule_loop :
      (List TaxOwner → List Tax)
      → (List PromotionKey → List Promotion)
      → ScheduleArgs
      → ℕ
      → List Date
      → List PaymentSchedule
  unfolding schedule_month
  schedule_loop find_all find_promotions a month [] = []
  schedule_loop find_all find_promotions a month (start ∷ starts) =
      let month_end = add_month start 1 in
      let is_last = is_past a.move_out_date month_end in
      let end_date = (if is_last then get_or a.move_out_date month_end else month_end) in
      let rest = schedule_loop find_all find_promotions a (month + 1) starts in
      schedule_month find_all find_promotions a (month + 1) start end_date
      ∷ (if is_last then [] else rest)

  -- After the lookups: `days` is `maxBuyDays`. Without a public promotion there is no schedule.
  unfoldable pub payment_schedule :
      (List TaxOwner → List Tax)
      → (List PromotionKey → List Promotion)
      → ScheduleArgs
      → ℤ
      → List PaymentSchedule
  unfolding schedule_loop renewal_start_dates
  payment_schedule find_all find_promotions a days =
      if truthy a.promo_id
      then schedule_loop find_all find_promotions a 0 (renewal_start_dates a.move_in_date days)
      else []

  -- The days that the promotions ask for; with neither code the promotions are not looked up.
  unfoldable pub schedule_days : (List PromotionKey → List Promotion) → Option ℕ → Option ℕ → ℤ
  unfolding calculate_max_buys_days
  schedule_days find_promotions promo_id promo_code =
      if truthy promo_id || truthy promo_code
      then calculate_max_buys_days
          (map (λ p. p.customer_buys) (find_promotions (or_promo promo_id promo_code)))
      else pos 0

  -- The call with a payload: `space` tells whether the space was found.
  unfoldable pub schedule_payload :
      (List TaxOwner → List Tax)
      → (List PromotionKey → List Promotion)
      → Bool
      → ScheduleArgs
      → Result ScheduleError (List PaymentSchedule)
  unfolding payment_schedule schedule_days
  schedule_payload find_all find_promotions space a =
      if not (truthy a.promo_id)
      then ok []
      else (if space
          then ok (
              payment_schedule find_all find_promotions a
                (schedule_days find_promotions a.promo_id a.promo_code))
          else err space_not_found)

  -- The call with a booking's id: the booking's orders and promotions replace the payload's codes.
  unfoldable pub schedule_booking :
      (List TaxOwner → List Tax)
      → (List PromotionKey → List Promotion)
      → Bool
      → ScheduleArgs
      → List (Option (Option ℕ))
      → List AttachedPromotion
      → Result ScheduleError (List PaymentSchedule)
  unfolding pickup_service_of codes_loop payment_schedule calculate_max_buys_days
  schedule_booking find_all find_promotions space a orders promotions = do
    service ← pickup_service_of orders a.pickup_service_id
    let codes = codes_loop promotions (record { promo_code = a.promo_code; promo_id = a.promo_id })
    let a' = record a {
      pickup_service_id = service;
      promo_code = codes.promo_code;
      promo_id = codes.promo_id;
    }
    throw_if (truthy codes.promo_id && not space) space_not_found
    ok (
        payment_schedule find_all find_promotions a'
          (calculate_max_buys_days (map (λ p. p.customer_buys) promotions)))
