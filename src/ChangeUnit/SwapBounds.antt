-- ===== src/ChangeUnit/SwapBounds.antt =====
-- Bounds of what is returned for the days that are left.
use space_next_door_core_api.Base.{ℕ, Option, none, some, List, ◌<◌, find, ◌≡◌, arith}
use space_next_door_core_api.ChangeUnit.Swap.{
  amount_for_days, unused_days_of, days_left, tax_for_days, is_tax_of,
}
use space_next_door_core_api.Base.Round.{to_fixed, round_div-le, to_fixed_one, to_fixed_nonneg}
use space_next_door_core_api.ChangeUnit.Request.{RenewalTax, UnitBooking, UnitRenewal}
use space_next_door_core_api.Base.Int.{◌*ℤ◌, ℤ, pos, ◌≤ℤ◌, negsuc, ◌+ℤ◌, int_laws}
use space_next_door_core_api.Calendar.{Calendar}
use space_next_door_core_api.Taxes.{TaxOwner, Tax}
use space_next_door_core_api.Pricing.Rent.{to_fixed-le}

to_fixed_nonpos : (a : ℤ) (d : ℕ) → 0 < d → a ≤ℤ pos 0 → to_fixed a d ≤ℤ pos 0
unfolding to_fixed
to_fixed_nonpos (pos n) d k h = omega (arith, round_div-le n 0 d k (omega arith))
to_fixed_nonpos (negsuc n) d k h = ground arith

*ℤ_nonpos : (a b : ℤ) → pos 0 ≤ℤ a → b ≤ℤ pos 0 → a *ℤ b ≤ℤ pos 0
unfolding ◌*ℤ◌
*ℤ_nonpos (pos p) (pos d) h k = ground arith
*ℤ_nonpos (pos p) (negsuc d) h k = ground arith
*ℤ_nonpos (negsuc p) b h k = absurd (omega arith)

amount_for_days_bounds :
    (price days : ℤ)
    → pos 0 ≤ℤ price
    → days ≤ℤ pos 30
    → (pos 0 ≤ℤ amount_for_days price days) × (amount_for_days price days ≤ℤ price)
unfolding amount_for_days
amount_for_days_bounds price (pos d) h k =
    ground (arith, to_fixed-le price (pos d) h (omega arith) k, to_fixed_nonneg (price *ℤ pos d) 30)
amount_for_days_bounds price (negsuc d) h k = ground (
  arith,
  to_fixed_nonpos (price *ℤ negsuc d) 30 (omega arith) (*ℤ_nonpos price (negsuc d) h (omega arith)),
)

-- The tax on the last renewal, 0 without one.
abbrev pub tax_of : Option RenewalTax → ℤ
tax_of none = pos 0
tax_of (some t) = t.tax_amount

tax_for_days_bounds :
    (cal : Calendar) (o : Option RenewalTax) (days : ℤ)
    → pos 0 ≤ℤ tax_of o
    → days ≤ℤ pos 30
    → (pos 0 ≤ℤ tax_for_days cal o days) × (tax_for_days cal o days ≤ℤ tax_of o)
unfolding tax_for_days
tax_for_days_bounds cal none days h k = (h, h)
tax_for_days_bounds cal (some t) days h k = amount_for_days_bounds t.tax_amount days h k

days_left-le :
    (cal : Calendar) (today : cal.Date) (last : UnitRenewal cal)
    → days_left cal today last ≤ℤ pos 30
unfolding days_left
days_left-le cal today last = ground arith

sum-le : (a b c d : ℤ) → a ≤ℤ c → b ≤ℤ d → a +ℤ b ≤ℤ c +ℤ d
sum-le a b c d h k = omega int_laws

-- For every booking whose rent and taxes are at least 0 and every new unit and day, what was paid for
-- the days that are left is at least 0 and at most the month's rent with its tax: at most 30 days, of
-- which the rent is at most the booking's and the tax at most that of the last renewal.
pub unused_days_of_bounds :
    (cal : Calendar) (find_all : List TaxOwner → List Tax) (b : UnitBooking cal) (price : ℤ)
    (today : cal.Date) (last : UnitRenewal cal)
    → pos 0 ≤ℤ b.base_amount
    → pos 0 ≤ℤ tax_of (find (is_tax_of cal last.id) b.applied_taxes)
    → let u = unused_days_of cal find_all b price today last in
      let tax = tax_of (find (is_tax_of cal last.id) b.applied_taxes) in
      (u.unused_days ≤ℤ pos 30)
      × (pos 0 ≤ℤ u.amount_paid)
      × (u.amount_paid ≤ℤ b.base_amount)
      × (pos 0 ≤ℤ u.tax_amount_paid)
      × (u.tax_amount_paid ≤ℤ tax)
      × (u.total_paid ≡ u.amount_paid +ℤ u.tax_amount_paid)
      × (u.total_paid ≤ℤ b.base_amount +ℤ tax)
unfolding unused_days_of
unused_days_of_bounds cal find_all b price today last h k =
    let o = find (is_tax_of cal last.id) b.applied_taxes in
    let d = days_left-le cal today last in
    let (p, q) = amount_for_days_bounds b.base_amount _ h d in
    let (r, t) = tax_for_days_bounds cal o _ k d in
    (d, p, q, r, t, to_fixed_one _, rw (to_fixed_one _) (sum-le _ _ _ _ q t))
