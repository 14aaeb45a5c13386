-- ===== src/Sitelink/Conserves.antt =====
-- What a run writes of the stock that the third party answers.
use space_next_door_core_api.Base.{
  ℕ, Option, none, some, List, [], ◌∷◌, ◌++◌, ◌+◌, ◌≤◌, if◌then◌else◌, ltb, last?, filter, find,
  ◌≡◌, refl, inl, inr, arith, Option-cases,
}
use space_next_door_core_api.Sitelink.Sync.{
  SpaceTypeRow, SpaceStock, get_space_type_id, SiteSpace, SyncCall, is_type_for, write_call,
  archive, create, areas_calls, update, type_calls, area_calls, site_calls, types_calls, has_area,
  space_stock, is_space_of,
}
use space_next_door_core_api.Sitelink.Groups.{sum_by, sum_by-++, sum_groups, group_by, sum-group_by}
use space_next_door_core_api.Sitelink.Units.{SiteLinkUnit, total-stock_of, vacant-stock_of}

-- A number of the stock that a call writes.
abbrev pub written : (SpaceStock → ℕ) → SyncCall → ℕ
written f (archive ids) = 0
written f (create type size stock) = f stock
written f (update id stock) = f stock

sum_written-++ :
    (f : SpaceStock → ℕ) (xs ys : List SyncCall)
    → sum_by (written f) (xs ++ ys) ≡ sum_by (written f) xs + sum_by (written f) ys
sum_written-++ f xs ys = sum_by-++ (written f) xs ys

-- With a type, the search for one does not throw.
type_given :
    (types : List SpaceTypeRow) (area : ℕ) (t : SpaceTypeRow)
    → last? types ≡ some t
    → (o : Option ℕ) × (get_space_type_id types area ≡ some o)
unfolding get_space_type_id
type_given types area t h = elim (Option-cases (find (is_type_for area) types)) [
  | inl e ↦ (if ltb t.size_to area then some t.id else none, rw e (rw h refl))
  | inr (x, e) ↦ (some x.id, rw e refl)
]

-- What calls write of some units: all that there are, and no more than is vacant.
abbrev pub Kept : List SyncCall → ℕ → ℕ → Type 0
Kept calls total vacant =
    (sum_by (written (λ x. x.total_units)) calls ≡ total)
    × (sum_by (written (λ x. x.available_units)) calls ≤ vacant)

Kept-++ :
    (xs ys : List SyncCall) (a b c d : ℕ)
    → Kept xs a b
    → Kept ys c d
    → Kept (xs ++ ys) (a + c) (b + d)
Kept-++ xs ys a b c d (e, h) (e', h') = (
  omega (arith, e, e', sum_written-++ (λ x. x.total_units) xs ys),
  omega (arith, h, h', sum_written-++ (λ x. x.available_units) xs ys),
)

write_call-written :
    (f : SpaceStock → ℕ) (type area : ℕ) (s : Option SiteSpace) (stock : SpaceStock)
    → written f (write_call type area s stock) ≡ f stock
write_call-written f type area none stock = refl
write_call-written f type area (some s) stock = refl

module _ (types : List SpaceTypeRow) (percent : ℕ) where
  area_calls-Kept :
      (spaces : List SiteSpace) (type area : ℕ) (units : List SiteLinkUnit) (g : Option (Option ℕ))
      (o : Option ℕ)
      → g ≡ some o
      → Kept
          (area_calls types percent spaces type area units g)
          (sum_by (λ u. u.total_units) units)
          (sum_by (λ u. u.total_vacant) units)
  area_calls-Kept spaces type area units g o e =
      let stock = space_stock types percent units o in
      let s = last? (filter (is_space_of type area) spaces) in
      rw e (
        omega (
          arith,
          write_call-written (λ x. x.total_units) type area s stock,
          total-stock_of units,
        ),
        omega (
          arith,
          write_call-written (λ x. x.available_units) type area s stock,
          vacant-stock_of units,
        ),
      )

  module _ (t : SpaceTypeRow) (h : last? types ≡ some t) where
    areas_calls-Kept :
        (spaces : List SiteSpace) (type : ℕ) (areas : List (ℕ × List SiteLinkUnit))
        → Kept
            (areas_calls types percent spaces type areas)
            (sum_groups (λ u. u.total_units) areas)
            (sum_groups (λ u. u.total_vacant) areas)
    areas_calls-Kept spaces type [] = (refl, omega arith)
    areas_calls-Kept spaces type ((area, units) ∷ areas) =
        let g = type_given types area t h in
        Kept-++ (area_calls types percent spaces type area units (get_space_type_id types area)) _ _
          _ _ _ (area_calls-Kept spaces type area units _ g.0 g.1)
          (areas_calls-Kept spaces type areas)

    type_calls-Kept :
        (spaces : List SiteSpace) (type : ℕ) (units : List SiteLinkUnit)
        → Kept
            (type_calls types percent spaces type units)
            (sum_by (λ u. u.total_units) units)
            (sum_by (λ u. u.total_vacant) units)
    unfolding type_calls
    type_calls-Kept spaces type units =
        let k = areas_calls-Kept spaces type (group_by (λ u. u.area) units) in
        (
          omega (arith, k.0, sum-group_by (λ u. u.total_units) (λ u. u.area) units),
          omega (arith, k.1, sum-group_by (λ u. u.total_vacant) (λ u. u.area) units),
        )

    types_calls-Kept :
        (spaces : List SiteSpace) (groups : List (ℕ × List SiteLinkUnit))
        → Kept
            (types_calls types percent spaces groups)
            (sum_groups (λ u. u.total_units) groups)
            (sum_groups (λ u. u.total_vacant) groups)
    types_calls-Kept spaces [] = (refl, omega arith)
    types_calls-Kept spaces ((type, units) ∷ groups) =
        Kept-++ (type_calls types percent spaces type units) _ _ _ _ _
          (type_calls-Kept spaces type units) (types_calls-Kept spaces groups)

    -- For every answer, where the store's country has a space type: over all that a run creates and
    -- updates for a site, the units are those of the answer that have an area, each counted once,
    -- however they are split over types and areas, and no more are available than are vacant.
    pub site_calls-Kept :
        (spaces : List SiteSpace) (units : List SiteLinkUnit)
        → Kept
            (site_calls types percent spaces units)
            (sum_by (λ u. u.total_units) (filter has_area units))
            (sum_by (λ u. u.total_vacant) (filter has_area units))
    unfolding site_calls
    site_calls-Kept spaces units =
        let kept = filter has_area units in
        let k = types_calls-Kept spaces (group_by (λ u. u.unit_type_id) kept) in
        (
          omega (arith, k.0, sum-group_by (λ u. u.total_units) (λ u. u.unit_type_id) kept),
          omega (arith, k.1, sum-group_by (λ u. u.total_vacant) (λ u. u.unit_type_id) kept),
        )
