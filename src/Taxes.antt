-- ===== src/Taxes.antt =====
-- src/applied-taxes/applied-tax.service.ts: `calculateTax`. Amounts are in cents and a tax's value
-- in hundredths; labels in the four languages are copied unchanged and left out. The table of
-- entity taxes is Sequelize's: its query is the parameter `find_all`.
pub mod Totals
use space_next_door_core_api.Base.{
  ℕ, Bool, true, false, Option, none, some, List, [], ◌∷◌, ◌++◌, if◌then◌else◌,
}
use space_next_door_core_api.Base.Int.{ℤ, pos, ◌*ℤ◌}
use space_next_door_core_api.Base.Round.{to_fixed}
use space_next_door_core_api.Base.Number.{Number, add, fixed, is_positive, truthy}
use space_next_door_core_api.Catalog.{TaxType, TaxEntityType}

pub record Tax : Type 0 where
  pub tax_id : ℕ
  pub type : TaxType
  pub value : ℤ
  pub entity_type : TaxEntityType

pub record CalculateTaxArgs : Type 0 where
  pub site_id : Option ℕ
  pub insurance_id : Option ℕ
  pub pickup_service_id : Option ℕ
  pub space_price : Number
  pub insurance_price : Number
  pub pickup_service_price : Number

pub record CheckoutAppliedTax : Type 0 where
  pub id : ℕ
  pub type : TaxType
  pub value : ℤ
  pub entity_type : TaxEntityType
  pub amount : Number

pub record CalculateTaxResp : Type 0 where
  pub total_tax : Number
  pub taxes : List CheckoutAppliedTax

-- One alternative of the query's `Op.or`.
pub data TaxOwner : Type 0 where
  site_tax insurance_tax service_tax : ℕ → TaxOwner

abbrev owner : (ℕ → TaxOwner) → Option ℕ → List TaxOwner
owner f none = []
owner f (some i) = if truthy (some i) then f i ∷ [] else []

unfoldable pub where_or : CalculateTaxArgs → List TaxOwner
where_or args =
    owner TaxOwner.site_tax args.site_id
    ++ (owner TaxOwner.insurance_tax args.insurance_id
        ++ owner TaxOwner.service_tax args.pickup_service_id)

unfoldable pub entity_amount : CalculateTaxArgs → TaxEntityType → Number
entity_amount args TaxEntityType.site = args.space_price
entity_amount args TaxEntityType.insurance = args.insurance_price
entity_amount args TaxEntityType.service = args.pickup_service_price

-- `parseFloat(((entityAmount / 100) * value).toFixed(2))`, or the value itself.
unfoldable pub tax_amount : TaxType → Number → ℤ → Number
tax_amount TaxType.percentage none value = none
tax_amount TaxType.percentage (some amount) value = some (to_fixed (amount *ℤ value) 10_000)
tax_amount TaxType.absolute amount value = some value

unfoldable pub checkout_tax : CalculateTaxArgs → Tax → CheckoutAppliedTax
unfolding entity_amount tax_amount
checkout_tax args tax = record {
  id = tax.tax_id;
  type = tax.type;
  value = tax.value;
  entity_type = tax.entity_type;
  amount = tax_amount tax.type (entity_amount args tax.entity_type) tax.value;
}

-- The `forEach`, on the running total and the list of the taxes that are above 0.
unfoldable pub tax_loop :
    CalculateTaxArgs → List Tax → Number → List CheckoutAppliedTax → CalculateTaxResp
unfolding checkout_tax
tax_loop args [] total taxes = record { total_tax = fixed total; taxes = taxes }
tax_loop args (tax ∷ rest) total taxes =
    let t = checkout_tax args tax in
    tax_loop args rest (add total t.amount)
      (if is_positive t.amount then taxes ++ (t ∷ []) else taxes)

unfoldable pub calculate_tax : (List TaxOwner → List Tax) → CalculateTaxArgs → CalculateTaxResp
unfolding tax_loop where_or
calculate_tax find_all args = tax_loop args (find_all (where_or args)) (some (pos 0)) []
