-- ===== src/Tests/Sample.antt =====
-- A calendar of numbered days in months of 30 days, and sample rows.
use space_next_door_core_api.Base.{
  ℕ, suc, true, none, some, [], ◌∷◌, ◌+◌, ◌-◌, ◌*◌, ◌/◌, if◌then◌else◌, leb, ltb,
}
use space_next_door_core_api.Base.Int.{ℤ, pos, negsuc, sub_ℕ}
use space_next_door_core_api.Calendar.{Calendar}
use space_next_door_core_api.Catalog.{
  PromotionBuyTypes, PromotionForType, PromotionFormat, PromotionType, TaxType, TaxEntityType,
}
use space_next_door_core_api.Promotions.Types.{Promotion}
use space_next_door_core_api.Taxes.{Tax}

abbrev shift : ℕ → ℤ → ℕ
shift d (pos n) = d + n
shift d (negsuc n) = d - suc n

abbrev months : ℕ → ℕ → ℤ
months a b = if leb b a then pos ((a - b) / 30) else sub_ℕ 0 ((b - a) / 30)

abbrev pub plain_days : Calendar
plain_days = record {
  Date = ℕ;
  diff_day = λ a b. sub_ℕ a b;
  diff_month = λ a b. months a b;
  add_day = λ d n. shift d n;
  add_month = λ d n. d + n * 30;
  is_before = λ a b. ltb a b;
  is_after = λ a b. ltb b a;
  is_before_day = λ a b. ltb a b;
}

-- 7% on sites.
abbrev pub vat : Tax
vat = record {
  tax_id = 1;
  type = TaxType.percentage;
  value = pos 700;
  entity_type = TaxEntityType.site;
}

-- 10% off the first month, for stays of at least 60 days at site 4.
abbrev pub first_month : Promotion
first_month = record {
  id = 9;
  format = PromotionFormat.public;
  max = some 5;
  allow_double_discount = true;
  customer_buys =
      record {
        type = PromotionBuyTypes.min_days;
        value = pos 60;
        site_ids = some (4 ∷ []);
        country_ids = none;
      }
      ∷ [];
  customer_gets =
      record {
        type = PromotionType.percentage_discount;
        value = pos 1000;
        max_amount_per_booking = none;
        for_type = PromotionForType.first_months;
        for_value = 1;
      }
      ∷ [];
  redeem = 3 ∷ [];
}
