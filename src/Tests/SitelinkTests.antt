-- ===== src/Tests/SitelinkTests.antt =====
-- The stock of a third-party site.
use space_next_door_core_api.Base.{ℕ, some, List, [], ◌∷◌, ◌+◌, ◌-◌, head?, All, filter, ◌≡◌, refl}
use space_next_door_core_api.Sitelink.Units.{SiteLinkUnit, stock_of}
use space_next_door_core_api.Sitelink.Sync.{
  get_space_type_id, SiteSpace, site_calls, SpaceTypeRow, rounded_area, has_area, price_per_month,
  archive,
}
use space_next_door_core_api.Sitelink.Conserves.{Kept, site_calls-Kept}
use space_next_door_core_api.Base.Round.{round_div, to_fixed}
use space_next_door_core_api.Sitelink.Archives.{IsCallFor, site_calls-IsCallFor}
use space_next_door_core_api.Sitelink.Groups.{group_by}

abbrev unit_row : ℕ → ℕ → ℕ → SiteLinkUnit
unit_row type area total = record {
  unit_type_id = type;
  area = area;
  total_units = total;
  total_vacant = total - 1;
  total_reserved = 1;
  push_rate = 20_000;
  standard_rate = 18_000 + total;
}

abbrev answer : List SiteLinkUnit
answer =
    unit_row 7 20_000 4
    ∷ unit_row 7 30_000 2
    ∷ unit_row 8 20_000 3
    ∷ unit_row 7 20_000 5
    ∷ unit_row 9 0 6
    ∷ []

abbrev site_spaces : List SiteSpace
site_spaces =
    record { id = 1; third_party_space_id = 7; size = 20_000 }
    ∷ record { id = 2; third_party_space_id = 7; size = 25_000 }
    ∷ record { id = 3; third_party_space_id = 6; size = 20_000 }
    ∷ []

abbrev small_type : SpaceTypeRow
small_type = record { id = 11; size_from = 0; size_to = 24_000 }

abbrev large_type : SpaceTypeRow
large_type = record { id = 12; size_from = 25_000; size_to = 40_000 }

abbrev space_types : List SpaceTypeRow
space_types = small_type ∷ large_type ∷ []

-- Space 2 is archived; space 3, whose type has gone, is not.
first_archive : head? (site_calls space_types 10 site_spaces answer) ≡ some (archive (2 ∷ []))
unfolding site_calls group_by get_space_type_id stock_of price_per_month to_fixed round_div
first_archive = refl

site_calls-Kept_example : Kept (site_calls space_types 10 site_spaces answer) 14 10
site_calls-Kept_example = site_calls-Kept space_types 10 large_type refl site_spaces answer

site_calls-IsCallFor_example :
    All
      (IsCallFor site_spaces (filter has_area answer))
      (site_calls space_types 10 site_spaces answer)
site_calls-IsCallFor_example = site_calls-IsCallFor space_types 10 site_spaces answer

last_type : get_space_type_id space_types 50_000 ≡ some (some 12)
unfolding get_space_type_id
last_type = refl

-- An area of three decimals: the space is stored under another size, so the next run misses it.
rounded_off : rounded_area 10_125 ≡ 10_130
unfolding round_div
rounded_off = refl
