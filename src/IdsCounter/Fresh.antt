-- ===== src/IdsCounter/Fresh.antt =====
-- No id is given twice.
use space_next_door_core_api.Base.{
  ℕ, Bool, true, false, Option, none, some, List, [], ◌∷◌, ◌≤◌, ◌<◌, ◌==◌, All, ◌≡◌, ap, ◌≢◌, inl,
  inr, arith, Bool-cases,
}
use space_next_door_core_api.IdsCounter.{
  LongId, get_long_id, generate_ids, NodeEnv, short_id, create_update_counter, CounterType,
  generate_id, next_id, type_code, Counters,
}

abbrev pub last_id : Option ℕ → ℕ
last_id none = 0
last_id (some n) = n

-- None of the ids is `id`.
abbrev pub IsFresh : Option LongId → List (Option LongId) → Type 0
IsFresh id ids = All (λ other. other ≢ id) ids

abbrev pub IsDistinct : List (Option LongId) → Type 0
IsDistinct [] = Unit
IsDistinct (id ∷ ids) = IsFresh id ids × IsDistinct ids

abbrev pub is_known : NodeEnv → Bool
is_known NodeEnv.other = false
is_known _ = true

long_id_ne :
    (env : NodeEnv) (n m : ℕ) (t u : CounterType)
    → is_known env ≡ true
    → (type_code t ≡ type_code u → n < m)
    → get_long_id env m u ≢ get_long_id env n t
unfolding get_long_id short_id
long_id_ne env n m t u h k e = ground arith

type_code_eq : (t u : CounterType) → type_code t ≡ type_code u → t ≡ u
type_code_eq t u h = ground arith

next_id_lt : (o : Option ℕ) → last_id o < next_id o
unfolding next_id
next_id_lt none = omega arith
next_id_lt (some n) = omega arith

update_mono :
    (s : Counters) (t u : CounterType) → last_id (s t) ≤ last_id ((create_update_counter s u).1 t)
unfolding create_update_counter
update_mono s t u = elim (Bool-cases (type_code t == type_code u)) [
  | inl e ↦ rw e (
      let p = type_code_eq t u (ground (arith, e)) in
      omega (arith, next_id_lt (s u), ap (λ v. last_id (s v)) p))
  | inr e ↦ rw e (omega arith)
]

code_self : (n : ℕ) → (n == n) ≡ true
code_self n = ground arith

update_self :
    (s : Counters) (u : CounterType) → last_id ((create_update_counter s u).1 u) ≡ next_id (s u)
unfolding create_update_counter
update_self s u = ground (arith, code_self (type_code u))

generate_ids-IsFresh :
    (env : NodeEnv) (s : Counters) (types : List CounterType) (n : ℕ) (t : CounterType)
    → is_known env ≡ true
    → n ≤ last_id (s t)
    → IsFresh (get_long_id env n t) (generate_ids env s types)
unfolding generate_ids generate_id create_update_counter
generate_ids-IsFresh env s [] n t h k = tt
generate_ids-IsFresh env s (u ∷ us) n t h k = (
  long_id_ne env n (next_id (s u)) t u h
      (λ e. omega (arith, k, next_id_lt (s u), ap (λ v. last_id (s v)) (type_code_eq t u e))),
  generate_ids-IsFresh env (create_update_counter s u).1 us n t h
      (omega (arith, k, update_mono s t u)),
)

-- In each of the three known environments, from every counters, the ids of every sequence of calls
-- are pairwise distinct, also across the types.
pub generate_ids-IsDistinct :
    (env : NodeEnv) (s : Counters) (types : List CounterType)
    → is_known env ≡ true
    → IsDistinct (generate_ids env s types)
unfolding generate_ids generate_id create_update_counter
generate_ids-IsDistinct env s [] h = tt
generate_ids-IsDistinct env s (u ∷ us) h = (
  generate_ids-IsFresh env (create_update_counter s u).1 us (next_id (s u)) u h
      (omega (arith, update_self s u)),
  generate_ids-IsDistinct env (create_update_counter s u).1 us h,
)
