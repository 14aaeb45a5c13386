-- ===== src/Sitelink/Sync.antt =====
-- The calls that a run makes for one site: what is archived, created and updated, type by type and
-- area by area. A call that throws is logged, and the next one follows.
use space_next_door_core_api.Base.{
  ℕ, Bool, Option, none, some, List, [], ◌∷◌, ◌++◌, ◌&&◌, not, ◌+◌, ◌-◌, ◌*◌, if◌then◌else◌, leb,
  ltb, ◌==◌, last?, filter, find, includes, map,
}
use space_next_door_core_api.Base.Int.{ℤ, pos}
use space_next_door_core_api.Base.Round.{round_div, to_fixed}
use space_next_door_core_api.Sitelink.Units.{SiteLinkUnit, stock_of}
use space_next_door_core_api.Sitelink.Groups.{group_by, group_keys}

-- A space of the site that is not archived, with a third party's id.
pub record SiteSpace : Type 0 where
  pub id : ℕ
  pub third_party_space_id : ℕ
  pub size : ℕ

pub record SpaceTypeRow : Type 0 where
  pub id : ℕ
  pub size_from : ℕ
  pub size_to : ℕ

-- What a create and an update share.
pub record SpaceStock : Type 0 where
  pub total_units : ℕ
  pub available_units : ℕ
  pub price_per_month : Option ℤ
  pub platform_space_type_id : Option ℕ

pub data SyncCall : Type 0 where
  archive : List ℕ → SyncCall
  create : (third_party_space_id size : ℕ) → SpaceStock → SyncCall
  update : (id : ℕ) → SpaceStock → SyncCall

abbrev pub is_type_for : ℕ → SpaceTypeRow → Bool
is_type_for area t = leb t.size_from area && ltb area (t.size_to + 1000)

-- Above the last type the last type is taken; without a type the read of `size_to` throws.
abbrev pub above_last : ℕ → Option SpaceTypeRow → Option (Option ℕ)
above_last area none = none
above_last area (some t) = some (if ltb t.size_to area then some t.id else none)

abbrev pub type_or_last : ℕ → Option SpaceTypeRow → Option SpaceTypeRow → Option (Option ℕ)
type_or_last area none last = above_last area last
type_or_last area (some t) last = some (some t.id)

-- `getSpaceTypeId`, on the types in the order of `size_from`; none is a throw.
unfoldable pub get_space_type_id : List SpaceTypeRow → ℕ → Option (Option ℕ)
get_space_type_id types area = type_or_last area (find (is_type_for area) types) (last? types)

-- `parseFloat((price + (price * 1) / percent).toFixed(2))`; none stands for `Infinity`.
unfoldable pub price_per_month : ℕ → Option ℕ → Option ℤ
price_per_month percent none = none
price_per_month percent (some p) = some (to_fixed (pos (p * (percent + 1))) percent)

-- `parseFloat(area.toFixed(2))`, in thousandths.
abbrev pub rounded_area : ℕ → ℕ
rounded_area area = round_div area 10 * 10

abbrev pub is_space_of : ℕ → ℕ → SiteSpace → Bool
is_space_of type area s = (s.third_party_space_id == type) && (s.size == area)

-- The units of no area are left out.
abbrev pub has_area : SiteLinkUnit → Bool
has_area u = not (u.area == 0)

-- `spacesToBeDeleted`.
abbrev pub is_dropped : ℕ → List ℕ → SiteSpace → Bool
is_dropped type areas s = (s.third_party_space_id == type) && not (includes areas s.size)

-- The last space with the key is the one in the map.
abbrev pub write_call : ℕ → ℕ → Option SiteSpace → SpaceStock → SyncCall
write_call type area none stock = create type (rounded_area area) stock
write_call type area (some s) stock = update s.id stock

module _ (types : List SpaceTypeRow) (percent : ℕ) where
  abbrev pub space_stock : List SiteLinkUnit → Option ℕ → SpaceStock
  space_stock units type_id = record {
    total_units = (stock_of units).total;
    available_units = (stock_of units).vacant - (stock_of units).reserved;
    price_per_month = price_per_month percent (stock_of units).price;
    platform_space_type_id = type_id;
  }

  abbrev pub area_calls :
      List SiteSpace → ℕ → ℕ → List SiteLinkUnit → Option (Option ℕ) → List SyncCall
  area_calls spaces type area units none = []
  area_calls spaces type area units (some type_id) =
      write_call type area (last? (filter (is_space_of type area) spaces))
        (space_stock units type_id)
      ∷ []

  abbrev pub areas_calls : List SiteSpace → ℕ → List (ℕ × List SiteLinkUnit) → List SyncCall
  areas_calls spaces type [] = []
  areas_calls spaces type ((area, units) ∷ areas) =
      area_calls spaces type area units (get_space_type_id types area)
      ++ areas_calls spaces type areas

  unfoldable pub type_calls : List SiteSpace → ℕ → List SiteLinkUnit → List SyncCall
  type_calls spaces type units =
      let areas = group_by (λ u. u.area) units in
      archive (map (λ s. s.id) (filter (is_dropped type (group_keys areas)) spaces))
      ∷ areas_calls spaces type areas

  abbrev pub types_calls : List SiteSpace → List (ℕ × List SiteLinkUnit) → List SyncCall
  types_calls spaces [] = []
  types_calls spaces ((type, units) ∷ groups) =
      type_calls spaces type units ++ types_calls spaces groups

  unfoldable pub site_calls : List SiteSpace → List SiteLinkUnit → List SyncCall
  unfolding type_calls
  site_calls spaces units =
      types_calls spaces (group_by (λ u. u.unit_type_id) (filter has_area units))
