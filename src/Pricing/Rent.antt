-- ===== src/Pricing/Rent.antt =====
-- The rent of a stay, as the checkout and the booking compute it.
use space_next_door_core_api.Base.{
  ℕ, Option, none, some, ◌*◌, ◌≤◌, ◌<◌, get_or, ◌≡◌, sym, ap, ◌≢◌, arith,
}
use space_next_door_core_api.Base.Int.{ℤ, pos, ◌+ℤ◌, ◌*ℤ◌, ◌≤ℤ◌, *ℤ_nonneg, *ℤ-pos, negsuc}
use space_next_door_core_api.Base.Round.{
  to_fixed, to_fixed_one, to_fixed_nonneg, round_div, round_div-le, round_div_mono, round_div_near,
}
use space_next_door_core_api.Promotions.Amount.{Commitment, base_rent}
use space_next_door_core_api.Pricing.{
  by_days, checkout_rent, get_total_days, get_deposit_and_sub_total_amount, Calendar,
}
use space_next_door_core_api.Calendar.{Calendar}

checkout_rent-by_days :
    (price days : ℤ) → days ≢ pos 0 → checkout_rent price (some days) ≡ by_days price days
unfolding checkout_rent
checkout_rent-by_days price days h = ground (arith, to_fixed_one price)

-- For every price and dates, the checkout quotes the rent that the booking stores, as its
-- subtotal and as its deposit, unless the stay would count 0 days, which is a move out on the day
-- before the move in.
pub checkout_rent-eq :
    (cal : Calendar) (price : ℤ) (move_in : cal.Date) (move_out : Option cal.Date)
    → get_total_days cal move_in move_out ≢ some (pos 0)
    → let r = get_deposit_and_sub_total_amount cal price move_in move_out in
      let quoted = checkout_rent price (get_total_days cal move_in move_out) in
      (quoted ≡ r.sub_total_amount) × (quoted ≡ r.deposit_amount)
unfolding get_total_days get_deposit_and_sub_total_amount
checkout_rent-eq cal price move_in none h =
    unfold checkout_rent in (sym (to_fixed_one price), sym (to_fixed_one price))
checkout_rent-eq cal price move_in (some move_out) h =
    let days = cal.diff_day move_out move_in +ℤ pos 1 in
    let e = checkout_rent-by_days price days (λ z. h (ap some z)) in (e, e)

times_mono : (p c d : ℕ) → c ≤ d → p * c ≤ p * d
times_mono p c d h = grind arith

times_le : (p d : ℕ) → d ≤ 30 → p * d ≤ p * 30
times_le p d h = grind arith

pub to_fixed-le :
    (price days : ℤ)
    → pos 0 ≤ℤ price
    → pos 0 ≤ℤ days
    → days ≤ℤ pos 30
    → to_fixed (price *ℤ days) 30 ≤ℤ price
unfolding to_fixed
to_fixed-le (pos p) (pos d) h q r =
    rw (*ℤ-pos p d)
      (omega (arith, round_div-le (p * d) p 30 (omega arith) (times_le p d (omega arith))))
to_fixed-le (pos p) (negsuc d) h q r = absurd (omega arith)
to_fixed-le (negsuc p) days h q r = absurd (omega arith)

-- For a price of at least 0 and a stay without end or of at least 1 day, the rent is between 0
-- and the price of a month.
pub checkout_rent_bounds :
    (cal : Calendar) (price : ℤ) (move_in : cal.Date) (move_out : Option cal.Date)
    → pos 0 ≤ℤ price
    → pos 1 ≤ℤ get_or (get_total_days cal move_in move_out) (pos 1)
    → let quoted = checkout_rent price (get_total_days cal move_in move_out) in
      (pos 0 ≤ℤ quoted) × (quoted ≤ℤ price)
unfolding checkout_rent get_total_days
checkout_rent_bounds cal price move_in none p q = (p, omega arith)
checkout_rent_bounds cal price move_in (some move_out) p q =
    let days = cal.diff_day move_out move_in +ℤ pos 1 in
    ground
      (arith, to_fixed-le price days p, to_fixed_nonneg (price *ℤ days) 30, *ℤ_nonneg price days p)

long_round : (p d : ℕ) → 15 ≤ p → 31 ≤ d → p < round_div (p * d) 30
long_round p d h k = omega (
  arith,
  round_div_mono (p * 31) (p * d) 30 (omega arith) (times_mono p 31 d k),
  round_div_near (p * 31) 30 (omega arith),
)

long_fixed : (p : ℕ) (days : ℤ) → 15 ≤ p → pos 31 ≤ℤ days → ¬ (to_fixed (pos p *ℤ days) 30 ≤ℤ pos p)
unfolding to_fixed
long_fixed p (pos d) h k = rw (*ℤ-pos p d) (omega (arith, long_round p d h (omega arith)))
long_fixed p (negsuc d) h k = absurd (omega arith)

checkout_rent_long : (price days : ℤ) → pos 31 ≤ℤ days → checkout_rent price (some days) ≡ price
unfolding checkout_rent
checkout_rent_long price days k = ground arith

base_rent_short :
    (price : ℤ) (stay : Commitment)
    → stay.commit_months ≤ℤ pos 0
    → base_rent price stay ≡ to_fixed (price *ℤ stay.commit_days) 30
unfolding base_rent
base_rent_short price stay m = ground arith

-- A stay of more than 30 days that is less than a whole calendar month, such as one from the first
-- to the last day of a 31-day month: for a price of at least 15 cents the rent that promotions are
-- a share of is more than the rent that the checkout charges for the same days.
pub base_rent_exceeds :
    (price : ℕ) (stay : Commitment)
    → 15 ≤ price
    → pos 31 ≤ℤ stay.commit_days
    → stay.commit_months ≤ℤ pos 0
    → ¬ (base_rent (pos price) stay ≤ℤ checkout_rent (pos price) (some stay.commit_days))
base_rent_exceeds price stay h k m =
    rw (base_rent_short (pos price) stay m, checkout_rent_long (pos price) stay.commit_days k)
      (long_fixed price stay.commit_days h k)
