-- ===== src/Pagination.antt =====
-- `initPagination` and `hasMoreRec` of src/shared/utils/index.ts.
pub mod Pages
use space_next_door_core_api.Base.{
  ℕ, zero, suc, Bool, true, false, Option, none, some, List, [], ◌∷◌, ◌++◌, ◌&&◌, ◌||◌, not, ◌+◌,
  ◌-◌, ◌*◌, ◌/◌, ◌%◌, ◌≤◌, ◌<◌, if◌then◌else◌, leb, ltb, ◌==◌, length, is_some, last?, head?, any,
  all, All, filter, find, includes, get_or, map, ◌≡◌, refl, sym, ap, ◌∙◌, ◌≢◌, ◌↔◌, ◌⊎◌, inl, inr,
  arith, Bool-cases, Option-cases,
}
use space_next_door_core_api.Base.Int.{ℤ, ltb_ℤ, pos, ◌+ℤ◌}

pub record Pagination : Type 0 where
  pub limit : ℤ
  pub skip : ℤ

-- A number that is missing or negative is replaced.
abbrev pub or_default : ℤ → Option ℤ → ℤ
or_default d none = d
or_default d (some n) = if ltb_ℤ n (pos 0) then d else n

unfoldable pub init_pagination : Option ℤ → Option ℤ → Pagination
init_pagination limit skip = record {
  limit = or_default (pos 5) limit;
  skip = or_default (pos 0) skip;
}

unfoldable pub has_more_rec : ℤ → Pagination → Bool
has_more_rec count p = ltb_ℤ (p.skip +ℤ p.limit) count
