-- ===== src/Tests/RenewalTests.antt =====
-- Renewals and payment schedules.
use space_next_door_core_api.Base.{
  false, none, some, List, [], ◌∷◌, ◌+◌, ◌*◌, ◌≤◌, ◌<◌, length, head?, ◌≡◌, refl, ◌⊎◌, arith,
}
use space_next_door_core_api.Taxes.{TaxOwner, Tax}
use space_next_door_core_api.Pricing.{
  Space, create_amounts, space_price_per_month, Answers, checkout_price, calculate_promotion,
}
use space_next_door_core_api.Base.Int.{◌+ℤ◌, pos}
use space_next_door_core_api.Renewals.Schedule.{
  renewal_start_dates, payment_schedule, PaymentSchedule,
}
use space_next_door_core_api.Promotions.Amount.{PromotionKey, get_promotion_amount, get_commitment}
use space_next_door_core_api.Promotions.Types.{Promotion}
use space_next_door_core_api.Renewals.Agreement.{IsCounted, first_renewal_total-eq}
use space_next_door_core_api.Tests.Sample.{plain_days, first_month, vat}
use space_next_door_core_api.Renewals.Months.{
  renewal_start_dates_count, open_ended, insured, payment_schedule-checkout,
}
use space_next_door_core_api.Renewals.Payload.{first_renewal_total, first_renewal}

abbrev taxes : List TaxOwner → List Tax
taxes owners = vat ∷ []

abbrev offers : List PromotionKey → List Promotion
offers keys = first_month ∷ []

ten_days : IsCounted plain_days 5 (some 14)
unfolding ◌+ℤ◌
ten_days = (refl, λ h. omega arith)

first_renewal_total-eq_example :
    let b = create_amounts plain_days taxes 4 (pos 30_000) 5 (some 14) (pos 1000) in
    first_renewal_total plain_days
      (first_renewal plain_days (pos 3) 8 (pos 30_000) b.deposited_amount (pos 1000) 5 (some 14))
      b.total_tax_amount
    ≡ b.total_amount
first_renewal_total-eq_example =
    first_renewal_total-eq plain_days taxes (pos 3) 4 8 (pos 30_000) (pos 1000) 5 (some 14)
      (omega arith) ten_days

renewal_start_dates_count_example :
    let l = length (renewal_start_dates plain_days 5 (pos 75)) in
    (75 ≤ l * 30) × ((l ≡ 1) ⊎ (l * 30 < 75 + 30))
renewal_start_dates_count_example = renewal_start_dates_count plain_days 5 75

abbrev space : Space
space = record { site_id = 4; is_affiliate = false; prices = pos 30_000 ∷ [] }

payment_schedule-checkout_example :
    let price = space_price_per_month space none in
    let answers : Answers = record {
      quotation_price = none;
      insurance_price_per_day = some (pos 50);
      logistics_amount = none;
    } in
    let first = head? (
      payment_schedule plain_days taxes offers
        (open_ended plain_days space price 5 1 (some (pos 50)) none 8 (some 65))
        (pos 60)) in
    let quoted = checkout_price taxes space (insured plain_days 1 none 8) answers none (
      calculate_promotion none (some 9) (
        get_promotion_amount offers 4
          (some 65)
          price
          (get_commitment plain_days 5 none)
          none
          (some 9)
          1)) in
    (e : PaymentSchedule plain_days) × (first ≡ some e)
    × (e.total_amount ≡ quoted.payable_amount)
    × (e.discounted_amount ≡ quoted.promotion.discounted_amount)
payment_schedule-checkout_example =
    payment_schedule-checkout plain_days taxes offers space none (some (pos 50)) 5 (some 65) none 1
      8 (pos 60)
