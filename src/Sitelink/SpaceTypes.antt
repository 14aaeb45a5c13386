-- ===== src/Sitelink/SpaceTypes.antt =====
-- The space type of an area.
use space_next_door_core_api.Base.{
  ℕ, true, some, List, [], ◌∷◌, ◌+◌, ◌≤◌, ◌<◌, last?, ◌≡◌, refl, ◌⊎◌, inl, inr, arith, Bool-cases,
  lt→ltb,
}
use space_next_door_core_api.Sitelink.Sync.{get_space_type_id, SpaceTypeRow, is_type_for}

-- Each type starts where the one before it ends, or earlier.
abbrev pub Contiguous : List SpaceTypeRow → Type 0
Contiguous [] = Unit
Contiguous (t ∷ []) = Unit
Contiguous (t ∷ (t' ∷ ts)) = (t'.size_from ≤ t.size_to + 1000) × Contiguous (t' ∷ ts)

-- The type that an area gets: one whose range has the area, or the last one below it.
abbrev pub Fits : List SpaceTypeRow → ℕ → SpaceTypeRow → Type 0
Fits types area t = (is_type_for area t ≡ true) ⊎ ((last? types ≡ some t) × (t.size_to < area))

-- For every list of space types, sorted by where they start, of which each starts no later than one
-- unit after the one before it ends, and for every area from the start of the first type on: the
-- search throws nothing and finds a type, whose range has the area, or which is the last one and ends
-- below the area.
pub get_space_type_id-Fits :
    (t : SpaceTypeRow) (ts : List SpaceTypeRow) (area : ℕ)
    → Contiguous (t ∷ ts)
    → t.size_from ≤ area
    → (o : SpaceTypeRow) × (get_space_type_id (t ∷ ts) area ≡ some (some o.id))
      × Fits (t ∷ ts) area o
unfolding get_space_type_id
get_space_type_id-Fits t [] area c h = elim (Bool-cases (is_type_for area t)) [
  | inl e ↦ (t, rw e refl, inl e)
  | inr e ↦
      let k : t.size_to < area = ground arith in
      (t, rw e (rw (lt→ltb t.size_to area k) refl), inr (refl, k))
]
get_space_type_id-Fits t (t' ∷ ts) area (c, cs) h = elim (Bool-cases (is_type_for area t)) [
  | inl e ↦ (t, rw e refl, inl e)
  | inr e ↦
      let k : t'.size_from ≤ area = ground arith in
      let ih = get_space_type_id-Fits t' ts area cs k in (ih.0, rw e ih.1, ih.2)
]
