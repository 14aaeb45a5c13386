-- ===== src/Base/Round.antt =====
-- `parseFloat(x.toFixed(k))`: the nearest whole unit, with ties away from zero, of a fraction
-- that is written as a numerator over a positive denominator. For amounts the unit is the cent.
use Prim.Native.Nat.{ℕ, suc, ◌+◌, ◌*◌, ◌/◌, ◌≤◌, ◌<◌}
use mathlib.Core.Path.{◌≡◌, ap}
use native.Mathlib.Omega.{arith}
use space_next_door_core_api.Base.Int.{ℤ, pos, negsuc, sub_ℕ, ◌≤ℤ◌}

unfoldable pub round_div : ℕ → ℕ → ℕ
round_div n d = (2 * n + d) / (2 * d)

unfoldable pub to_fixed : ℤ → ℕ → ℤ
unfolding round_div
to_fixed (pos n) d = pos (round_div n d)
to_fixed (negsuc n) d = sub_ℕ 0 (round_div (suc n) d)

pub round_div_one : (n : ℕ) → round_div n 1 ≡ n
unfolding round_div
round_div_one n = omega arith

-- A whole number of cents is its own rounding.
pub to_fixed_one : (a : ℤ) → to_fixed a 1 ≡ a
unfolding to_fixed
to_fixed_one (pos n) = ap pos (round_div_one n)
to_fixed_one (negsuc n) = ground (arith, round_div_one (suc n))

-- The rounding is within half a cent of the exact value.
pub round_div_near :
    (n d : ℕ)
    → 0 < d
    → (round_div n d * (2 * d) ≤ 2 * n + d) × (2 * n < round_div n d * (2 * d) + d)
unfolding round_div
round_div_near n d h = grind arith

pub round_div_mono : (n m d : ℕ) → 0 < d → n ≤ m → round_div n d ≤ round_div m d
unfolding round_div
round_div_mono n m d h p = grind arith

-- A whole multiple of the denominator is rounded exactly.
pub round_div_exact : (k d : ℕ) → 0 < d → round_div (k * d) d ≡ k
unfolding round_div
round_div_exact k d h = grind arith

-- A fraction of at most k cents rounds to at most k cents.
pub round_div-le : (n k d : ℕ) → 0 < d → n ≤ k * d → round_div n d ≤ k
round_div-le n k d h p = omega (arith, round_div_mono n (k * d) d h p, round_div_exact k d h)

pub to_fixed_nonneg : (a : ℤ) (d : ℕ) → pos 0 ≤ℤ a → pos 0 ≤ℤ to_fixed a d
unfolding to_fixed
to_fixed_nonneg (pos n) d h = omega arith
to_fixed_nonneg (negsuc n) d h = absurd (omega arith)
