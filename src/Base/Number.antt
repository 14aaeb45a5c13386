-- ===== src/Base/Number.antt =====
-- A JavaScript number: an exact amount, or `none` for NaN, which a missing operand produces.
use mathlib.Core.Path.{◌≡◌, refl}
use mathlib.Core.Bool.{Bool, true, false}
use mathlib.Core.Option.{Option, none, some}
use Prim.Native.Nat.{ℕ, zero, suc}
use space_next_door_core_api.Base.Int.{ℤ, pos, ◌+ℤ◌, ◌-ℤ◌, ltb_ℤ}
use space_next_door_core_api.Base.Round.{to_fixed, to_fixed_one}

abbrev pub Number : Type 0
Number = Option ℤ

abbrev pub NaN : Number
NaN = none

abbrev pub add : Number → Number → Number
add (some a) (some b) = some (a +ℤ b)
add (some a) none = none
add none b = none

abbrev pub sub : Number → Number → Number
sub (some a) (some b) = some (a -ℤ b)
sub (some a) none = none
sub none b = none

-- `parseFloat(x.toFixed(2))` of a sum of whole cents.
abbrev pub fixed : Number → Number
fixed none = none
fixed (some a) = some (to_fixed a 1)

pub fixed_lem : (x : Number) → fixed x ≡ x
fixed_lem none = refl
fixed_lem (some a) = λ i. some (to_fixed_one a i)

-- `x > 0`, false of NaN.
abbrev pub is_positive : Number → Bool
is_positive none = false
is_positive (some a) = ltb_ℤ (pos 0) a

-- A number that is missing or 0 is falsy.
abbrev pub truthy : Option ℕ → Bool
truthy none = false
truthy (some zero) = false
truthy (some (suc n)) = true
