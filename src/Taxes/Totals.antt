-- ===== src/Taxes/Totals.antt =====
-- The total of `calculateTax` against the list of taxes that it returns.
use space_next_door_core_api.Base.{
  false, none, some, List, [], ◌∷◌, ◌++◌, ◌≡◌, refl, All, arith, ◌∙◌, ap, sym, Bool-cases, inl, inr,
  if◌then◌else◌,
}
use space_next_door_core_api.Base.Int.{ℤ, pos, ◌≤ℤ◌, ◌*ℤ◌, int_laws, *ℤ_nonneg}
use space_next_door_core_api.Base.Round.{to_fixed_nonneg}
use space_next_door_core_api.Base.Number.{Number, add, fixed, fixed_lem, is_positive}
use space_next_door_core_api.Catalog.{TaxType}
use space_next_door_core_api.Taxes.{
  Tax, CalculateTaxArgs, CheckoutAppliedTax, TaxOwner, where_or, entity_amount, tax_amount,
  checkout_tax, tax_loop, calculate_tax,
}

-- The sum of the listed taxes, from the left.
abbrev pub sum_amounts : Number → List CheckoutAppliedTax → Number
sum_amounts acc [] = acc
sum_amounts acc (t ∷ ts) = sum_amounts (add acc t.amount) ts

sum_amounts-snoc :
    (acc : Number) (ts : List CheckoutAppliedTax) (t : CheckoutAppliedTax)
    → sum_amounts acc (ts ++ (t ∷ [])) ≡ add (sum_amounts acc ts) t.amount
sum_amounts-snoc acc [] t = refl
sum_amounts-snoc acc (x ∷ ts) t = sum_amounts-snoc (add acc x.amount) ts t

abbrev pub IsNonneg : Number → Type 0
IsNonneg none = ⊥
IsNonneg (some a) = pos 0 ≤ℤ a

-- What a checkout passes: the price of each kind of entity that a tax may be on is a number of
-- at least 0, and so is the value of each tax.
abbrev pub IsTaxable : CalculateTaxArgs → Tax → Type 0
IsTaxable args tax = IsNonneg (entity_amount args tax.entity_type) × (pos 0 ≤ℤ tax.value)

pub tax_amount-IsNonneg :
    (type : TaxType) (x : Number) (v : ℤ) → IsNonneg x → pos 0 ≤ℤ v → IsNonneg (tax_amount type x v)
unfolding tax_amount
tax_amount-IsNonneg TaxType.percentage none v h p = absurd h
tax_amount-IsNonneg TaxType.percentage (some a) v h p =
    to_fixed_nonneg (a *ℤ v) 10_000 (*ℤ_nonneg a v h p)
tax_amount-IsNonneg TaxType.absolute x v h p = p

add_not_positive : (x y : Number) → IsNonneg x → IsNonneg y → is_positive y ≡ false → add x y ≡ x
add_not_positive none y hx hy e = absurd hx
add_not_positive (some a) none hx hy e = absurd hy
add_not_positive (some a) (some b) hx hy e =
    let zero_tax : b ≡ pos 0 = ground arith in ap some (rw zero_tax (omega int_laws))

add-IsNonneg : (x y : Number) → IsNonneg x → IsNonneg y → IsNonneg (add x y)
add-IsNonneg none y hx hy = absurd hx
add-IsNonneg (some a) none hx hy = absurd hy
add-IsNonneg (some a) (some b) hx hy = omega int_laws

fixed-IsNonneg : (x : Number) → IsNonneg x → IsNonneg (fixed x)
fixed-IsNonneg x h = rw fixed_lem h

-- What the loop keeps: the total is a number of at least 0, and the sum of the list.
Agrees : Number → List CheckoutAppliedTax → Type 0
Agrees total taxes = IsNonneg total × (total ≡ sum_amounts (some (pos 0)) taxes)

Agrees-step :
    (total : Number) (taxes : List CheckoutAppliedTax) (t : CheckoutAppliedTax)
    → IsNonneg t.amount
    → Agrees total taxes
    → Agrees (add total t.amount) (if is_positive t.amount then taxes ++ (t ∷ []) else taxes)
unfolding Agrees
Agrees-step total taxes t h (pos_total, e) = elim (Bool-cases (is_positive t.amount)) [
  | inl listed ↦ rw listed (
    add-IsNonneg total t.amount pos_total h,
    ap (λ s. add s t.amount) e ∙ sym (sum_amounts-snoc (some (pos 0)) taxes t),
  )
  | inr skipped ↦ rw skipped (
    add-IsNonneg total t.amount pos_total h,
    add_not_positive total t.amount pos_total h skipped ∙ e,
  )
]

tax_loop-Agrees :
    (args : CalculateTaxArgs) (rows : List Tax) (total : Number) (taxes : List CheckoutAppliedTax)
    → All (IsTaxable args) rows
    → Agrees total taxes
    → let r = tax_loop args rows total taxes in Agrees r.total_tax r.taxes
unfolding tax_loop
tax_loop-Agrees args [] total taxes hs h = rw fixed_lem h
tax_loop-Agrees args (tax ∷ rest) total taxes (ok_tax, hs) h =
    let t = checkout_tax args tax in
    tax_loop-Agrees args rest (add total t.amount)
      (if is_positive t.amount then taxes ++ (t ∷ []) else taxes) hs
      (Agrees-step total taxes t
        (tax_amount-IsNonneg tax.type (entity_amount args tax.entity_type) tax.value ok_tax.0
          ok_tax.1)
        h)

-- When every tax found has a value of at least 0 and applies to an entity whose price was given
-- and is at least 0, the total is a number of at least 0 and is the sum of the listed taxes.
pub calculate_tax-total :
    (find_all : List TaxOwner → List Tax) (args : CalculateTaxArgs)
    → All (IsTaxable args) (find_all (where_or args))
    → let r = calculate_tax find_all args in
      IsNonneg r.total_tax × (r.total_tax ≡ sum_amounts (some (pos 0)) r.taxes)
unfolding calculate_tax Agrees
calculate_tax-total find_all args hs =
    tax_loop-Agrees args (find_all (where_or args)) (some (pos 0)) [] hs (omega arith, refl)

-- The tax of a percentage whose entity has no price.
abbrev pub IsUnpriced : CalculateTaxArgs → Tax → Type 0
IsUnpriced args tax = (tax.type ≡ TaxType.percentage) × (entity_amount args tax.entity_type ≡ none)

unpriced_amount :
    (args : CalculateTaxArgs) (tax : Tax)
    → IsUnpriced args tax
    → (checkout_tax args tax).amount ≡ none
unfolding checkout_tax
unpriced_amount args tax (e, f) = rw (e, f)

add_NaN : (x : Number) → add x none ≡ none
add_NaN none = refl
add_NaN (some a) = refl

tax_loop_NaN :
    (args : CalculateTaxArgs) (rows : List Tax) (taxes : List CheckoutAppliedTax)
    → (tax_loop args rows none taxes).total_tax ≡ none
unfolding tax_loop
tax_loop_NaN args [] taxes = refl
tax_loop_NaN args (tax ∷ rest) taxes = tax_loop_NaN args rest (
    if is_positive (checkout_tax args tax).amount
    then taxes ++ (checkout_tax args tax ∷ [])
    else taxes)

tax_loop_unpriced :
    (args : CalculateTaxArgs) (before after : List Tax) (tax : Tax) (total : Number)
    (taxes : List CheckoutAppliedTax)
    → IsUnpriced args tax
    → (tax_loop args (before ++ (tax ∷ after)) total taxes).total_tax ≡ none
unfolding tax_loop
tax_loop_unpriced args [] after tax total taxes h =
    let t = checkout_tax args tax in
    let listed = if is_positive t.amount then taxes ++ (t ∷ []) else taxes in
    ap (λ x. (tax_loop args after x listed).total_tax)
      (ap (add total) (unpriced_amount args tax h) ∙ add_NaN total)
    ∙ tax_loop_NaN args after listed
tax_loop_unpriced args (x ∷ before) after tax total taxes h =
    tax_loop_unpriced args before after tax (add total (checkout_tax args x).amount)
      (if is_positive (checkout_tax args x).amount
        then taxes ++ (checkout_tax args x ∷ [])
        else taxes)
      h

-- If one of the taxes found is a percentage of an entity whose price was not passed in, the total
-- is NaN, wherever that tax stands among the others.
pub calculate_tax_unpriced :
    (find_all : List TaxOwner → List Tax) (args : CalculateTaxArgs) (before after : List Tax)
    (tax : Tax)
    → find_all (where_or args) ≡ before ++ (tax ∷ after)
    → IsUnpriced args tax
    → (calculate_tax find_all args).total_tax ≡ none
unfolding calculate_tax
calculate_tax_unpriced find_all args before after tax found h =
    rw found (tax_loop_unpriced args before after tax (some (pos 0)) [] h)
