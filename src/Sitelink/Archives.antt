-- ===== src/Sitelink/Archives.antt =====
-- Which space each call of a run is about.
use space_next_door_core_api.Base.{
  ℕ, Bool, true, Option, none, some, List, [], ◌∷◌, ◌&&◌, not, ◌==◌, last?, any, All, filter, map,
  ◌≡◌, refl, ap, ◌∙◌, All-++, All-map, any-filter,
}
use space_next_door_core_api.Sitelink.Sync.{
  SpaceTypeRow, SiteSpace, site_calls, SpaceStock, areas_calls, area_calls, is_dropped, SyncCall,
  type_calls, has_area, types_calls, is_space_of, space_stock, archive, create, get_space_type_id,
  write_call, rounded_area, update,
}
use space_next_door_core_api.Sitelink.Units.{SiteLinkUnit, total-stock_of}
use space_next_door_core_api.Sitelink.Groups.{
  group_by, group_by-All, group_keys, includes-group_by, sum_by,
}

-- The units of a type, and those of an area among them, in an answer.
abbrev of_type : ℕ → SiteLinkUnit → Bool
of_type type u = u.unit_type_id == type

abbrev of_area : ℕ → SiteLinkUnit → Bool
of_area area u = u.area == area

-- The call in terms of the answer: an archive is of the spaces of one type, which the answer has, of
-- which the answer has no unit with the area; a write is of the stock of one type and area, into the
-- last space that has them, or into a new one where there is none.
abbrev pub IsCallFor : List SiteSpace → List SiteLinkUnit → SyncCall → Type 0
IsCallFor spaces kept (archive ids) =
    (type : ℕ) × (any (of_type type) kept ≡ true)
    × (ids
        ≡ map (λ s. s.id)
            (filter
              (λ s.
                (s.third_party_space_id == type)
                && not (any (λ u. of_type type u && of_area s.size u) kept))
              spaces))
IsCallFor spaces kept (create type size stock) =
    (area : ℕ) × (size ≡ rounded_area area)
    × (last? (filter (is_space_of type area) spaces) ≡ none)
    × (stock.total_units
        ≡ sum_by (λ u. u.total_units) (filter (of_area area) (filter (of_type type) kept)))
IsCallFor spaces kept (update id stock) =
    (type : ℕ) × (area : ℕ) × (s : SiteSpace) × (id ≡ s.id)
    × (last? (filter (is_space_of type area) spaces) ≡ some s)
    × (stock.total_units
        ≡ sum_by (λ u. u.total_units) (filter (of_area area) (filter (of_type type) kept)))

write_call-IsCallFor :
    (spaces : List SiteSpace) (kept : List SiteLinkUnit) (type area : ℕ) (s : Option SiteSpace)
    (stock : SpaceStock)
    → last? (filter (is_space_of type area) spaces) ≡ s
    → stock.total_units
      ≡ sum_by (λ u. u.total_units) (filter (of_area area) (filter (of_type type) kept))
    → IsCallFor spaces kept (write_call type area s stock)
write_call-IsCallFor spaces kept type area none stock e h = (area, refl, e, h)
write_call-IsCallFor spaces kept type area (some s) stock e h = (type, area, s, refl, e, h)

module _ (types : List SpaceTypeRow) (percent : ℕ) (spaces : List SiteSpace)
    (kept : List SiteLinkUnit) where
  area_calls-IsCallFor :
      (type area : ℕ) (units : List SiteLinkUnit) (g : Option (Option ℕ))
      → units ≡ filter (of_area area) (filter (of_type type) kept)
      → All (IsCallFor spaces kept) (area_calls types percent spaces type area units g)
  area_calls-IsCallFor type area units none e = tt
  area_calls-IsCallFor type area units (some o) e = (
    write_call-IsCallFor spaces kept type area _ (space_stock types percent units o) refl
        (total-stock_of units ∙ ap (sum_by (λ u. u.total_units)) e),
    tt,
  )

  areas_calls-IsCallFor :
      (type : ℕ) (areas : List (ℕ × List SiteLinkUnit))
      → All (λ g. g.1 ≡ filter (of_area g.0) (filter (of_type type) kept)) areas
      → All (IsCallFor spaces kept) (areas_calls types percent spaces type areas)
  areas_calls-IsCallFor type [] h = tt
  areas_calls-IsCallFor type ((area, units) ∷ areas) (e, h) =
      All-++ _ (area_calls types percent spaces type area units (get_space_type_id types area)) _
        (area_calls-IsCallFor type area units _ e) (areas_calls-IsCallFor type areas h)

  -- The sizes that stay are the areas of the answer.
  dropped_lem :
      (type : ℕ) (units : List SiteLinkUnit) (s : SiteSpace)
      → units ≡ filter (of_type type) kept
      → is_dropped type (group_keys (group_by (λ u. u.area) units)) s ≡ (
          (s.third_party_space_id == type)
          && not (any (λ u. of_type type u && of_area s.size u) kept))
  dropped_lem type units s e =
      ap (λ b. (s.third_party_space_id == type) && not b)
        (includes-group_by (λ u. u.area) s.size units
          ∙ ap (any (of_area s.size)) e
          ∙ any-filter (of_area s.size) (of_type type) kept)

  type_calls-IsCallFor :
      (type : ℕ) (units : List SiteLinkUnit)
      → units ≡ filter (of_type type) kept
      → any (of_type type) kept ≡ true
      → All (IsCallFor spaces kept) (type_calls types percent spaces type units)
  unfolding type_calls
  type_calls-IsCallFor type units e h = (
    (type, h, ap (λ p. map (λ s. s.id) (filter p spaces)) (λ i s. dropped_lem type units s e i)),
    areas_calls-IsCallFor type (group_by (λ u. u.area) units) (
        All-map _ _ _ (λ g k. k.0 ∙ ap (filter (of_area g.0)) e)
          (group_by-All (λ u. u.area) units)),
  )

  types_calls-IsCallFor :
      (groups : List (ℕ × List SiteLinkUnit))
      → All (λ g. (g.1 ≡ filter (of_type g.0) kept) × (any (of_type g.0) kept ≡ true)) groups
      → All (IsCallFor spaces kept) (types_calls types percent spaces groups)
  types_calls-IsCallFor [] h = tt
  types_calls-IsCallFor ((type, units) ∷ groups) ((e, k), h) =
      All-++ _ (type_calls types percent spaces type units) _ (type_calls-IsCallFor type units e k)
        (types_calls-IsCallFor groups h)

-- For every answer and all spaces of a site: each call of a run archives exactly the spaces of one
-- unit type of the answer whose size is no area of that type, or writes the summed units of one type
-- and area into the last space that has both, or into a new one where no space has. So a space whose
-- type is not in the answer at all is not archived.
pub site_calls-IsCallFor :
    (types : List SpaceTypeRow) (percent : ℕ) (spaces : List SiteSpace) (units : List SiteLinkUnit)
    → All (IsCallFor spaces (filter has_area units)) (site_calls types percent spaces units)
unfolding site_calls
site_calls-IsCallFor types percent spaces units =
    types_calls-IsCallFor types percent spaces (filter has_area units) _
      (group_by-All (λ u. u.unit_type_id) (filter has_area units))
