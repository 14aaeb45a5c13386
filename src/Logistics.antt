-- ===== src/Logistics.antt =====
-- src/logistics/logistics.service.ts, and the vehicles of src/logistics/providers/gogox.
use space_next_door_core_api.Base.{
  ℕ, Bool, true, false, Option, none, some, List, [], ◌∷◌, not, leb, ◌==◌, any, ◌≡◌, refl,
}
use space_next_door_core_api.Base.Result.{◌>>=◌, ◌>>◌, Result, ok, or_throw, throw_if}
use space_next_door_core_api.Base.Int.{ℤ, ◌*ℤ◌, pos, ◌+ℤ◌}
use space_next_door_core_api.Base.Round.{to_fixed}

pub data GogoxVehicleType : Type 0 where
  van lorry10 lorry14 lorry24 : GogoxVehicleType

pub data SpaceType : Type 0 where
  xxs xs s m l xl xxl : SpaceType

-- The sizes in their order.
abbrev pub size_of : SpaceType → ℕ
size_of SpaceType.xxs = 0
size_of SpaceType.xs = 1
size_of SpaceType.s = 2
size_of SpaceType.m = 3
size_of SpaceType.l = 4
size_of SpaceType.xl = 5
size_of SpaceType.xxl = 6

unfoldable pub vehicle_capacity : GogoxVehicleType → List SpaceType
vehicle_capacity GogoxVehicleType.van = SpaceType.xxs ∷ SpaceType.xs ∷ []
vehicle_capacity GogoxVehicleType.lorry10 = SpaceType.xxs ∷ SpaceType.xs ∷ SpaceType.s ∷ []
vehicle_capacity GogoxVehicleType.lorry14 =
    SpaceType.xxs ∷ SpaceType.xs ∷ SpaceType.s ∷ SpaceType.m ∷ []
vehicle_capacity GogoxVehicleType.lorry24 =
    SpaceType.xxs ∷ SpaceType.xs ∷ SpaceType.s ∷ SpaceType.m ∷ SpaceType.l ∷ SpaceType.xl
    ∷ SpaceType.xxl ∷ []

-- A name that the vehicle does not carry, or a code that is not a vehicle's, is refused.
unfoldable pub vehicle_type_validate : Option SpaceType → Option GogoxVehicleType → Bool
unfolding vehicle_capacity
vehicle_type_validate none vehicle = false
vehicle_type_validate (some t) none = false
vehicle_type_validate (some t) (some v) = any (λ u. size_of u == size_of t) (vehicle_capacity v)

unfoldable pub get_vehicle_type : SpaceType → GogoxVehicleType
get_vehicle_type SpaceType.xxs = GogoxVehicleType.van
get_vehicle_type SpaceType.xs = GogoxVehicleType.van
get_vehicle_type SpaceType.s = GogoxVehicleType.lorry10
get_vehicle_type SpaceType.m = GogoxVehicleType.lorry14
get_vehicle_type SpaceType.l = GogoxVehicleType.lorry24
get_vehicle_type SpaceType.xl = GogoxVehicleType.lorry24
get_vehicle_type SpaceType.xxl = GogoxVehicleType.lorry24

-- The vehicle that is picked for a space carries it.
pub get_vehicle_type-validate :
    (t : SpaceType) → vehicle_type_validate (some t) (some (get_vehicle_type t)) ≡ true
unfolding vehicle_type_validate get_vehicle_type
get_vehicle_type-validate SpaceType.xxs = refl
get_vehicle_type-validate SpaceType.xs = refl
get_vehicle_type-validate SpaceType.s = refl
get_vehicle_type-validate SpaceType.m = refl
get_vehicle_type-validate SpaceType.l = refl
get_vehicle_type-validate SpaceType.xl = refl
get_vehicle_type-validate SpaceType.xxl = refl

-- The commission on top of the partner's price, in percent.
unfoldable pub with_commission : ℤ → ℤ → ℤ
with_commission percent amount = to_fixed (amount *ℤ (pos 100 +ℤ percent)) 100

pub data LogisticsError : Type 0 where
  schedule_passed space_not_found service_not_found vehicle_too_small partner_failed :
      LogisticsError

-- `getPrice`, at a time, with the space's type and the service's vehicle as they are found, and the
-- partner's price, none when the partner throws.
unfoldable pub get_price :
    ℤ
    → ℕ
    → ℕ
    → Option (Option SpaceType)
    → Option (Option GogoxVehicleType)
    → Option ℤ
    → Result LogisticsError ℤ
unfolding vehicle_type_validate with_commission
get_price percent now schedule_at space service price = do
  throw_if (leb schedule_at now) schedule_passed
  space_type ← or_throw space space_not_found
  vehicle ← or_throw service service_not_found
  throw_if (not (vehicle_type_validate space_type vehicle)) vehicle_too_small
  amount ← or_throw price partner_failed
  ok (with_commission percent amount)
