-- ===== src/IdsCounter.antt =====
-- src/ids_counter/ids_counter.service.ts: the counters and the ids made of them. The text of an id is
-- kept as its prefix and its number.
pub mod Fresh
use space_next_door_core_api.Base.{
  ℕ, zero, suc, Bool, true, false, Option, none, some, List, [], ◌∷◌, ◌++◌, ◌&&◌, ◌||◌, not, ◌+◌,
  ◌-◌, ◌*◌, ◌/◌, ◌%◌, ◌≤◌, ◌<◌, if◌then◌else◌, leb, ltb, ◌==◌, length, is_some, last?, head?, any,
  all, All, filter, find, includes, get_or, map, ◌≡◌, refl, sym, ap, ◌∙◌, ◌≢◌, ◌↔◌, ◌⊎◌, inl, inr,
  arith, Bool-cases, Option-cases,
}

pub data CounterType : Type 0 where
  booking order transaction invoice : CounterType

-- `app.nodeEnv`; `other` is every other value.
pub data NodeEnv : Type 0 where
  development staging production other : NodeEnv

-- `OR_…`, the number alone, `TR_…` and `SND-…`; `none` prints as `undefined`.
pub data LongId : Type 0 where
  or_id tr_id : Option ℕ → LongId
  plain_id snd_id : ℕ → LongId

-- The rows of the table, by type.
abbrev pub Counters : Type 0
Counters = CounterType → Option ℕ

abbrev pub type_code : CounterType → ℕ
type_code booking = 0
type_code order = 1
type_code transaction = 2
type_code invoice = 3

-- The row that `increment` leaves, and else the one that is created.
unfoldable pub next_id : Option ℕ → ℕ
next_id none = 1
next_id (some n) = n + 1

unfoldable pub create_update_counter : Counters → CounterType → ℕ × Counters
unfolding next_id
create_update_counter s type =
    let n = next_id (s type) in (n, λ u. if type_code u == type_code type then some n else s u)

unfoldable pub short_id : NodeEnv → ℕ → Option ℕ
short_id NodeEnv.development n = some (700_000 + n)
short_id NodeEnv.staging n = some (800_000 + n)
short_id NodeEnv.production n = some (900_000 + n)
short_id NodeEnv.other n = none

-- `none` where `shortId.toString()` throws.
abbrev plain : Option ℕ → Option LongId
plain none = none
plain (some n) = some (plain_id n)

unfoldable pub get_long_id : NodeEnv → ℕ → CounterType → Option LongId
unfolding short_id
get_long_id env n order = some (or_id (short_id env n))
get_long_id env n booking = plain (short_id env n)
get_long_id env n transaction = some (tr_id (short_id env n))
get_long_id env n invoice = some (snd_id (100_000 + n))

-- The four `generate…Id`.
unfoldable pub generate_id : NodeEnv → Counters → CounterType → Option LongId × Counters
unfolding create_update_counter get_long_id
generate_id env s type = let (n, s') = create_update_counter s type in (get_long_id env n type, s')

-- The ids of a sequence of calls.
unfoldable pub generate_ids : NodeEnv → Counters → List CounterType → List (Option LongId)
unfolding generate_id
generate_ids env s [] = []
generate_ids env s (type ∷ types) =
    let (id, s') = generate_id env s type in id ∷ generate_ids env s' types
