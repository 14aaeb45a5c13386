-- ===== src/Pricing.antt =====
-- src/bookings/booking.service.ts: what a stay costs. `getTotalDays`,
-- `getDepositAndSubTotalAmount`, `calculateCheckOutPrice` with its `calculatePromotion`, and the
-- amounts that `create` stores. Amounts are whole cents. What the collaborators answer (the space,
-- the quotation item, the insurance, the logistics price) comes as arguments.
pub mod Agreement
pub mod Rent
use space_next_door_core_api.Base.{
  ℕ, zero, suc, Bool, true, false, Option, none, some, List, [], ◌∷◌, ◌++◌, ◌&&◌, ◌||◌, not, ◌+◌,
  ◌-◌, ◌*◌, ◌/◌, ◌%◌, ◌≤◌, ◌<◌, if◌then◌else◌, leb, ltb, ◌==◌, length, is_some, last?, head?, any,
  all, All, filter, find, includes, get_or, map, ◌≡◌, refl, sym, ap, ◌∙◌, ◌≢◌, ◌↔◌, ◌⊎◌, inl, inr,
  arith, Bool-cases, Option-cases,
}
use space_next_door_core_api.Base.Int.{ℤ, pos, ◌+ℤ◌, ◌-ℤ◌, ◌*ℤ◌, ltb_ℤ, leb_ℤ}
use space_next_door_core_api.Base.Round.{to_fixed}
use space_next_door_core_api.Base.Number.{Number, add, sub, fixed, truthy}
use space_next_door_core_api.Base.Result.{Result, ok, err, ◌>>=◌, ◌>>◌, or_throw, throw_if}
use space_next_door_core_api.Calendar.{Calendar}
use space_next_door_core_api.Promotions.Types.{Promotion, PromotionAmount}
use space_next_door_core_api.Taxes.{
  Tax, TaxOwner, CalculateTaxArgs, CalculateTaxResp, CheckoutAppliedTax, calculate_tax,
}

-- `null` if there is no end date.
unfoldable pub get_total_days : (cal : Calendar) → cal.Date → Option cal.Date → Option ℤ
get_total_days cal start none = none
get_total_days cal start (some end_date) = some (cal.diff_day end_date start +ℤ pos 1)

pub record DepositAndSubTotal : Type 0 where
  pub sub_total_amount : ℤ
  pub deposit_amount : ℤ

-- The two branches on `differenceInDays`.
abbrev pub by_days : ℤ → ℤ → ℤ
by_days price days = if leb_ℤ days (pos 30) then to_fixed (price *ℤ days) 30 else to_fixed price 1

unfoldable pub get_deposit_and_sub_total_amount :
    (cal : Calendar) → ℤ → cal.Date → Option cal.Date → DepositAndSubTotal
get_deposit_and_sub_total_amount cal price move_in none = record {
  sub_total_amount = to_fixed price 1;
  deposit_amount = to_fixed price 1;
}
get_deposit_and_sub_total_amount cal price move_in (some move_out) =
    let days = cal.diff_day move_out move_in +ℤ pos 1 in
    record { sub_total_amount = by_days price days; deposit_amount = by_days price days }

-- `if (totalDays && totalDays <= 30)`, where 0 and `null` are falsy.
unfoldable pub checkout_rent : ℤ → Option ℤ → ℤ
checkout_rent price none = price
checkout_rent price (some days) =
    if not (leb_ℤ days (pos 0) && leb_ℤ (pos 0) days) && leb_ℤ days (pos 30)
    then to_fixed (price *ℤ days) 30
    else price

-- The part of the answer that `calculatePromotion` fills.
pub record CheckoutPromotion : Type 0 where
  pub applied_promotion : Option Promotion
  pub public_promotion : Option Promotion
  pub discounted_amount : ℤ
  pub promotion_error : Bool

-- `info` is the promotion service's answer; an empty code is falsy.
unfoldable pub calculate_promotion : Option ℕ → Option ℕ → PromotionAmount → CheckoutPromotion
calculate_promotion promo_code promotion_id info =
    let nothing : CheckoutPromotion = record {
      applied_promotion = none;
      public_promotion = none;
      discounted_amount = pos 0;
      promotion_error = false;
    } in
    if truthy promo_code || truthy promotion_id
    then (if is_some info.promotion || is_some info.public_promotion
        then record {
          applied_promotion = info.promotion;
          public_promotion = info.public_promotion;
          discounted_amount = info.discounted_amount;
          promotion_error = false;
        }
        else record nothing { promotion_error = truthy promo_code })
    else nothing

-- The base of the tax on the space.
unfoldable pub taxable_rent : ℤ → ℤ → ℤ
taxable_rent rent discount = if ltb_ℤ (pos 0) discount then rent -ℤ discount else rent

pub data CheckoutError : Type 0 where
  space_not_found affiliate_space : CheckoutError

pub record Space : Type 0 where
  pub site_id : ℕ
  pub is_affiliate : Bool
  pub prices : List ℤ

pub record CheckOutPricePayload : Type 0 where
  pub insurance_id : Option ℕ
  pub pick_up_service_id : Option ℕ
  pub promo_code : Option ℕ
  pub promotion_id : Option ℕ

-- What the collaborators answer: the price of the active quotation item that the payload names,
-- the price per day of its insurance, and the logistics provider's estimate.
pub record Answers : Type 0 where
  pub quotation_price : Option ℤ
  pub insurance_price_per_day : Option ℤ
  pub logistics_amount : Option ℤ

pub record CheckOutPriceResp : Type 0 where
  pub insurance_price : ℤ
  pub service_price : ℤ
  pub sub_total_amount : ℤ
  pub deposit_amount : ℤ
  pub promotion : CheckoutPromotion
  pub total_tax : Number
  pub applied_taxes : List CheckoutAppliedTax
  pub payable_amount : Number

-- `space.prices[0].price_per_month || 0`, or the quotation's price; `create` takes the first price of
-- type BASE_PRICE, the only type that the code writes.
unfoldable pub space_price_per_month : Space → Option ℤ → ℤ
space_price_per_month space none = get_or (head? space.prices) (pos 0)
space_price_per_month space (some price) = price

-- The arithmetic after the lookups; `days` is `getTotalDays`.
unfoldable pub checkout_price :
    (List TaxOwner → List Tax)
    → Space
    → CheckOutPricePayload
    → Answers
    → Option ℤ
    → CheckoutPromotion
    → CheckOutPriceResp
unfolding checkout_rent taxable_rent space_price_per_month
checkout_price find_all space payload answers days promo =
    let insurance =
      (if truthy payload.insurance_id
        then get_or answers.insurance_price_per_day (pos 0) *ℤ pos 30
        else pos 0) in
    let service = get_or answers.logistics_amount (pos 0) in
    let rent = checkout_rent (space_price_per_month space answers.quotation_price) days in
    let taxes = calculate_tax find_all (record {
      site_id = some space.site_id;
      insurance_id = payload.insurance_id;
      pickup_service_id = payload.pick_up_service_id;
      space_price = some (taxable_rent rent promo.discounted_amount);
      insurance_price = some insurance;
      pickup_service_price = some service;
    }) in
    record {
      insurance_price = insurance;
      service_price = service;
      sub_total_amount = rent;
      deposit_amount = rent;
      promotion = promo;
      total_tax = taxes.total_tax;
      applied_taxes = taxes.taxes;
      payable_amount = fixed (
          sub (add (some (rent +ℤ insurance +ℤ rent +ℤ service)) taxes.total_tax)
            (some promo.discounted_amount));
    }

-- `price_of` is the promotion service, at the space's price.
unfoldable pub calculate_check_out_price :
    (List TaxOwner → List Tax)
    → (ℤ → PromotionAmount)
    → Option Space
    → CheckOutPricePayload
    → Answers
    → Option ℤ
    → Result CheckoutError CheckOutPriceResp
unfolding checkout_price calculate_promotion
calculate_check_out_price find_all price_of found payload answers days = do
  space ← or_throw found space_not_found
  throw_if space.is_affiliate affiliate_space
  ok (
      checkout_price find_all space payload answers days (
        calculate_promotion payload.promo_code payload.promotion_id
          (price_of (space_price_per_month space answers.quotation_price))))

-- The amounts of a new booking, as `create` stores them.
pub record BookingAmounts : Type 0 where
  pub deposited_amount : ℤ
  pub sub_total_amount : ℤ
  pub total_tax_amount : Number
  pub total_amount : Number
  pub discount_amount : ℤ

unfoldable pub create_amounts :
    (cal : Calendar)
    → (List TaxOwner → List Tax)
    → ℕ
    → ℤ
    → cal.Date
    → Option cal.Date
    → ℤ
    → BookingAmounts
unfolding get_deposit_and_sub_total_amount taxable_rent
create_amounts cal find_all site price move_in move_out discount =
    let rent = get_deposit_and_sub_total_amount cal price move_in move_out in
    let taxes = calculate_tax find_all (record {
      site_id = some site;
      insurance_id = none;
      pickup_service_id = none;
      space_price = some (taxable_rent rent.sub_total_amount discount);
      insurance_price = none;
      pickup_service_price = none;
    }) in
    record {
      deposited_amount = rent.deposit_amount;
      sub_total_amount = rent.sub_total_amount;
      total_tax_amount = taxes.total_tax;
      total_amount = fixed (
          sub (add (add (some rent.sub_total_amount) taxes.total_tax) (some rent.deposit_amount))
            (some discount));
      discount_amount = discount;
    }
