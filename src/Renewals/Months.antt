-- ===== src/Renewals/Months.antt =====
-- The months of a payment schedule, and its first month beside the checkout.
use space_next_door_core_api.Base.{
  ℕ, zero, suc, Bool, false, Option, none, some, List, ◌&&◌, ◌||◌, not, ◌+◌, ◌*◌, ◌≤◌, ◌<◌,
  if◌then◌else◌, ◌==◌, length, is_some, head?, get_or, ◌≡◌, refl, sym, ap, ◌∙◌, ◌⊎◌, inl, inr,
  arith, Bool-cases, ltb→lt,
}
use space_next_door_core_api.Calendar.{Calendar}
use space_next_door_core_api.Promotions.Amount.{
  initial, promotions_loop, Applied, Commitment, PromotionKey, get_promotion_amount,
  promotion_response, general_response, or_promo, base_rent, get_commitment,
}
use space_next_door_core_api.Renewals.Schedule.{
  renewal_start_dates, later_start_dates, payment_schedule, ScheduleArgs, PaymentSchedule,
  month_promotion,
}
use space_next_door_core_api.Promotions.Types.{Promotion, PromotionAmount}
use space_next_door_core_api.Base.Int.{ℤ, pos, ltb_ℤ, ◌+ℤ◌, ◌*ℤ◌}
use space_next_door_core_api.Base.Number.{truthy, Number, fixed, sub, add}
use space_next_door_core_api.Promotions.Filter.{get_filtered_promotions}
use space_next_door_core_api.Pricing.{
  Space, CheckOutPricePayload, checkout_price, calculate_promotion, space_price_per_month, Answers,
  taxable_rent,
}
use space_next_door_core_api.Taxes.{TaxOwner, Tax, calculate_tax}

module _ (cal : Calendar) where
  open cal use {Date}

  later_start_dates_count :
      (fuel : ℕ) (move_in : Date) (n m : ℕ)
      → n ≤ (m + fuel) * 30
      → let l = length (later_start_dates cal fuel move_in (pos n) m) in
        (n ≤ (m + l) * 30) × ((l ≡ 0) ⊎ ((m + l) * 30 < n + 30))
  unfolding later_start_dates
  later_start_dates_count zero move_in n m h = (omega arith, inl refl)
  later_start_dates_count (suc fuel) move_in n m h =
      let (a, b) = later_start_dates_count fuel move_in n (m + 1) (omega arith) in
      elim (Bool-cases (ltb_ℤ (pos (m * 30)) (pos n))) [
        | inl e ↦ rw e (
          omega (arith, a),
          inr (elim b [
            | inl none_left ↦ omega (arith, ltb→lt (m * 30 + 0) (n + 0) e, none_left)
            | inr more ↦ omega (arith, more)
          ]),
        )
        | inr e ↦ rw e (ground arith, inl refl)
      ]

  -- The loop's fuel is enough: for every number of days that the promotions ask for, the start dates
  -- are as many as the months that it takes to cover these days, and at least one.
  pub renewal_start_dates_count :
      (move_in : Date) (n : ℕ)
      → let l = length (renewal_start_dates cal move_in (pos n)) in
        (n ≤ l * 30) × ((l ≡ 1) ⊎ (l * 30 < n + 30))
  unfolding renewal_start_dates
  renewal_start_dates_count move_in n =
      let (a, b) = later_start_dates_count n move_in n 1 (omega arith) in
      (omega (arith, a), elim b [ inl e ↦ inl (omega (arith, e)) | inr e ↦ inr (omega (arith, e)) ])

  response_named :
      (price amount : ℤ) (r : Applied × ℤ)
      → let p = promotion_response price amount r in
        is_some p.promotion || is_some p.public_promotion ≡ false → p.discounted_amount ≡ pos 0
  unfolding promotion_response general_response
  response_named price amount (s, discounted) h = ground arith

  discount_named :
      (find_promotions : List PromotionKey → List Promotion) (site : ℕ) (country : Option ℕ)
      (price : ℤ) (stay : Commitment) (code id : Option ℕ) (month : ℕ)
      → let r = get_promotion_amount find_promotions site country price stay code id month in
        is_some r.promotion || is_some r.public_promotion ≡ false → r.discounted_amount ≡ pos 0
  unfolding get_promotion_amount general_response
  discount_named find_promotions site country price stay code id month h =
      elim (Bool-cases (
        (not (truthy code) && not (truthy id))
        || (length (find_promotions (or_promo id code)) == 0))) [
          | inl e ↦ rw e refl
          | inr e ↦ rw e (
              response_named price (base_rent price stay)
                (promotions_loop stay (base_rent price stay) month site country
                  (get_filtered_promotions (find_promotions (or_promo id code)))
                  (initial stay, pos 0))
                (rw e at h))
        ]

  -- The schedule of an open-ended stay with a public promotion and an insurance, and no pick-up.
  abbrev pub open_ended :
      Space → ℤ → Date → ℕ → Option ℤ → Option ℕ → ℕ → Option ℕ → ScheduleArgs cal
  open_ended space price move_in insurance per_day code id country = record {
    site_id = space.site_id;
    country = country;
    price_per_month = price;
    move_in_date = move_in;
    move_out_date = none;
    insurance_id = some (suc insurance);
    insurance_price_per_day = per_day;
    pickup_service_id = none;
    pickup_fixed_price = none;
    promo_code = code;
    promo_id = some (suc id);
  }

  abbrev pub insured : ℕ → Option ℕ → ℕ → CheckOutPricePayload
  insured insurance code id = record {
    insurance_id = some (suc insurance);
    pick_up_service_id = none;
    promo_code = code;
    promotion_id = some (suc id);
  }

  abbrev is_named : PromotionAmount → Bool
  is_named r = is_some r.promotion || is_some r.public_promotion

  calculated_discount :
      (code : Option ℕ) (id : ℕ) (r : PromotionAmount)
      → (is_named r ≡ false → r.discounted_amount ≡ pos 0)
      → (calculate_promotion code (some (suc id)) r).discounted_amount ≡ r.discounted_amount
  unfolding calculate_promotion
  calculated_discount code id r h = ground (arith, h)

  named_discount :
      (r : PromotionAmount)
      → (is_named r ≡ false → r.discounted_amount ≡ pos 0)
      → (if is_named r then r.discounted_amount else pos 0) ≡ r.discounted_amount
  named_discount r h = elim (Bool-cases (is_named r)) [
    | inl e ↦ rw e refl
    | inr e ↦ rw e (sym (h e))
  ]

  -- For an open-ended stay with a public promotion, an insurance and no pick-up service, for every
  -- space, quotation, tables of taxes and promotions, code and days that the promotions ask for, the
  -- first month of the payment schedule costs what the checkout asks for.
  pub payment_schedule-checkout :
      (find_all : List TaxOwner → List Tax) (find_promotions : List PromotionKey → List Promotion)
      (space : Space) (quotation per_day : Option ℤ) (move_in : Date) (country code : Option ℕ)
      (insurance id : ℕ) (days : ℤ)
      → let price = space_price_per_month space quotation in
        let answers : Answers = record {
          quotation_price = quotation;
          insurance_price_per_day = per_day;
          logistics_amount = none;
        } in
        let first = head? (
          payment_schedule cal find_all find_promotions
            (open_ended space price move_in insurance per_day code id country)
            days) in
        let quoted = checkout_price find_all space (insured insurance code id) answers none (
          calculate_promotion code (some (suc id)) (
            get_promotion_amount find_promotions space.site_id country price
              (get_commitment cal move_in none)
              code
              (some (suc id))
              1)) in
        (e : PaymentSchedule cal) × (first ≡ some e)
        × (e.total_amount ≡ quoted.payable_amount)
        × (e.discounted_amount ≡ quoted.promotion.discounted_amount)
  unfolding payment_schedule checkout_price month_promotion
  payment_schedule-checkout find_all find_promotions space quotation per_day move_in country code
        insurance id days =
      let price = space_price_per_month space quotation in
      let info =
        get_promotion_amount find_promotions space.site_id country price
          (get_commitment cal move_in none) code (some (suc id)) 1 in
      let h =
        discount_named find_promotions space.site_id country price (get_commitment cal move_in none)
          code (some (suc id)) 1 in
      let total : ℤ → ℤ → Number = λ taxed discount. fixed (
        sub
          (add (some (price +ℤ get_or per_day (pos 0) *ℤ pos 30 +ℤ price +ℤ pos 0))
            (calculate_tax find_all (record {
              site_id = some space.site_id;
              insurance_id = some (suc insurance);
              pickup_service_id = none;
              space_price = some (taxable_rent price taxed);
              insurance_price = some (get_or per_day (pos 0) *ℤ pos 30);
              pickup_service_price = some (pos 0);
            })).total_tax)
          (some discount)) in
      let same = named_discount info h ∙ sym (calculated_discount code id info h) in
      (
        _,
        refl,
        ap (total info.discounted_amount) (named_discount info h)
            ∙ ap (λ d. total d d) (sym (calculated_discount code id info h)),
        same,
      )
