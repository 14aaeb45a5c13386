-- ===== src/Tests/TaxTests.antt =====
-- Taxes.
use space_next_door_core_api.Base.{none, some, [], ◌∷◌, ◌≡◌, refl, arith}
use space_next_door_core_api.Base.Int.{pos, ◌+ℤ◌, ◌*ℤ◌}
use space_next_door_core_api.Taxes.{CalculateTaxArgs, calculate_tax, where_or, entity_amount}
use space_next_door_core_api.Taxes.Totals.{IsNonneg, sum_amounts, calculate_tax-total}
use space_next_door_core_api.Tests.Sample.{vat}
use space_next_door_core_api.Base.Round.{to_fixed}

-- A space at 100.00.
abbrev priced : CalculateTaxArgs
priced = record {
  site_id = some 4;
  insurance_id = none;
  pickup_service_id = none;
  space_price = some (pos 10_000);
  insurance_price = none;
  pickup_service_price = none;
}

seven_per_cent : (calculate_tax (λ _. vat ∷ []) priced).total_tax ≡ some (pos 700)
unfolding calculate_tax to_fixed ◌+ℤ◌ ◌*ℤ◌
seven_per_cent = refl

calculate_tax-total_example :
    let r = calculate_tax (λ _. vat ∷ vat ∷ []) priced in
    IsNonneg r.total_tax × (r.total_tax ≡ sum_amounts (some (pos 0)) r.taxes)
unfolding where_or entity_amount
calculate_tax-total_example = calculate_tax-total (λ _. vat ∷ vat ∷ []) priced (omega arith)
