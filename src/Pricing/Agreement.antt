-- ===== src/Pricing/Agreement.antt =====
-- The price that the checkout quotes against the amounts that the booking stores.
use space_next_door_core_api.Base.{
  ℕ, suc, Option, none, some, List, [], ◌∷◌, ◌++◌, if◌then◌else◌, All, ◌≡◌, refl, ap, ◌∙◌, ◌≢◌,
}
use space_next_door_core_api.Base.Int.{ℤ, pos, ◌+ℤ◌, int_laws}
use space_next_door_core_api.Base.Number.{Number, add, sub, fixed, is_positive}
use space_next_door_core_api.Calendar.{Calendar}
use space_next_door_core_api.Catalog.{TaxEntityType}
use space_next_door_core_api.Taxes.{
  Tax, TaxOwner, CalculateTaxArgs, CheckoutAppliedTax, checkout_tax, tax_loop, calculate_tax,
}
use space_next_door_core_api.Pricing.{
  Space, CheckOutPricePayload, Answers, CheckoutPromotion, checkout_price, create_amounts,
  checkout_rent, get_total_days, space_price_per_month, taxable_rent,
}
use space_next_door_core_api.Pricing.Rent.{checkout_rent-eq}

-- Every tax found is on the site.
abbrev pub IsSiteTax : Tax → Type 0
IsSiteTax tax = tax.entity_type ≡ TaxEntityType.site

-- Two payloads that differ only in the price of other entities.
module _ (a b : CalculateTaxArgs) (same : a.space_price ≡ b.space_price) where
  checkout_tax-site : (tax : Tax) → IsSiteTax tax → checkout_tax a tax ≡ checkout_tax b tax
  unfolding checkout_tax
  checkout_tax-site tax e = rw (e, same)

  tax_loop-site :
      (rows : List Tax) (total : Number) (taxes : List CheckoutAppliedTax)
      → All IsSiteTax rows
      → tax_loop a rows total taxes ≡ tax_loop b rows total taxes
  unfolding tax_loop
  tax_loop-site [] total taxes h = refl
  tax_loop-site (tax ∷ rest) total taxes (e, h) =
      let t = checkout_tax b tax in
      ap
        (λ u.
          tax_loop a rest (add total u.amount)
            (if is_positive u.amount then taxes ++ (u ∷ []) else taxes))
        (checkout_tax-site tax e)
      ∙ tax_loop-site rest (add total t.amount)
          (if is_positive t.amount then taxes ++ (t ∷ []) else taxes) h

regroup :
    (rent discount : ℤ) (tax : Number)
    → sub (add (some (rent +ℤ pos 0 +ℤ rent +ℤ pos 0)) tax) (some discount)
      ≡ sub (add (add (some rent) tax) (some rent)) (some discount)
regroup rent discount none = refl
regroup rent discount (some t) = ap some (omega int_laws)

-- The arguments of `calculateTax` for a site alone.
abbrev site_args : ℕ → ℤ → Number → CalculateTaxArgs
site_args site rent other = record {
  site_id = some (suc site);
  insurance_id = none;
  pickup_service_id = none;
  space_price = some rent;
  insurance_price = other;
  pickup_service_price = other;
}

calculate_tax-site :
    (find_all : List TaxOwner → List Tax) (site : ℕ) (rent : ℤ) (x y : Number)
    → All IsSiteTax (find_all (TaxOwner.site_tax (suc site) ∷ []))
    → calculate_tax find_all (site_args site rent x)
      ≡ calculate_tax find_all (site_args site rent y)
unfolding calculate_tax
calculate_tax-site find_all site rent x y h =
    tax_loop-site (site_args site rent x) (site_args site rent y) refl
      (find_all (TaxOwner.site_tax (suc site) ∷ [])) (some (pos 0)) [] h

-- A payload for the space alone.
abbrev pub bare : Option ℕ → Option ℕ → CheckOutPricePayload
bare code promotion_id = record {
  insurance_id = none;
  pick_up_service_id = none;
  promo_code = code;
  promotion_id = promotion_id;
}

abbrev pub bare_answers : Option ℤ → Answers
bare_answers quotation = record {
  quotation_price = quotation;
  insurance_price_per_day = none;
  logistics_amount = none;
}

-- For a checkout without insurance and pick-up service, for every space, quotation, dates that do
-- not count 0 days and discount, if every tax found for the site is a tax on sites then the amount
-- that the checkout asks for is the total amount of the booking created with these, and the taxes,
-- the subtotal and the deposit are the same too.
pub checkout_price-eq :
    (cal : Calendar) (find_all : List TaxOwner → List Tax) (space : Space) (quotation : Option ℤ)
    (code promotion_id : Option ℕ) (move_in : cal.Date) (move_out : Option cal.Date)
    (promo : CheckoutPromotion)
    → get_total_days cal move_in move_out ≢ some (pos 0)
    → All IsSiteTax (find_all (TaxOwner.site_tax (suc space.site_id) ∷ []))
    → let site = record space { site_id = suc space.site_id } in
      let quoted =
        checkout_price find_all site
          (bare code promotion_id)
          (bare_answers quotation)
          (get_total_days cal move_in move_out)
          promo in
      let booked =
        create_amounts cal find_all
          (suc space.site_id)
          (space_price_per_month site quotation)
          move_in
          move_out
          promo.discounted_amount in
      (quoted.payable_amount ≡ booked.total_amount)
      × (quoted.total_tax ≡ booked.total_tax_amount)
      × (quoted.sub_total_amount ≡ booked.sub_total_amount)
      × (quoted.deposit_amount ≡ booked.deposited_amount)
unfolding checkout_price create_amounts
checkout_price-eq cal find_all space quotation code promotion_id move_in move_out promo h
      site_taxes =
    let price = space_price_per_month (record space { site_id = suc space.site_id }) quotation in
    let (same_rent, same_deposit) = checkout_rent-eq cal price move_in move_out h in
    let rent = checkout_rent price (get_total_days cal move_in move_out) in
    let taxed = taxable_rent rent promo.discounted_amount in
    let same_tax = calculate_tax-site find_all space.site_id taxed (some (pos 0)) none site_taxes in
    rw (← same_rent, ← same_deposit, ← same_tax)
      (ap fixed (regroup rent promo.discounted_amount _), refl, refl, refl)
