-- ===== src/Tests/IdsTests.antt =====
-- Ids.
use space_next_door_core_api.Base.{none, some, List, [], ◌∷◌, ◌≡◌, refl}
use space_next_door_core_api.IdsCounter.{
  CounterType, generate_ids, Counters, booking, NodeEnv, order, plain_id, or_id,
}
use space_next_door_core_api.IdsCounter.Fresh.{IsDistinct, generate_ids-IsDistinct}

abbrev no_rows : Counters
no_rows type = none

abbrev calls : List CounterType
calls = booking ∷ order ∷ booking ∷ []

first_ids :
    generate_ids NodeEnv.production no_rows calls
    ≡ some (plain_id 900_001) ∷ some (or_id (some 900_001)) ∷ some (plain_id 900_002) ∷ []
unfolding generate_ids
first_ids = refl

generate_ids-IsDistinct_example : IsDistinct (generate_ids NodeEnv.production no_rows calls)
generate_ids-IsDistinct_example = generate_ids-IsDistinct NodeEnv.production no_rows calls refl
