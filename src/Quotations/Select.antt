-- ===== src/Quotations/Select.antt =====
-- The spaces of a quotation: of at most three sites, the three cheapest of each.
use space_next_door_core_api.Base.{
  ℕ, zero, suc, Bool, Option, none, some, List, [], ◌∷◌, ◌++◌, ◌&&◌, if◌then◌else◌, leb, ◌==◌,
  is_some, filter, includes, get_or, map,
}
use space_next_door_core_api.Quotations.Types.{SpaceRow, QuotationItem}

abbrev pub take_rows {ℓ} : {A : Type ℓ} → ℕ → List A → List A
take_rows zero xs = []
take_rows (suc n) [] = []
take_rows (suc n) (x ∷ xs) = x ∷ take_rows n xs

-- The order of the query, by price.
abbrev pub insert_by_price : SpaceRow → List SpaceRow → List SpaceRow
insert_by_price s [] = s ∷ []
insert_by_price s (t ∷ ts) =
    let rest = insert_by_price s ts in
    if leb (get_or s.price_per_month 0) (get_or t.price_per_month 0) then s ∷ (t ∷ ts) else t ∷ rest

abbrev pub order_by_price : List SpaceRow → List SpaceRow
order_by_price [] = []
order_by_price (s ∷ ss) = insert_by_price s (order_by_price ss)

-- The `where` of the query, with the price that the join requires.
abbrev pub is_offered : List ℕ → Option ℕ → SpaceRow → Bool
is_offered space_ids none s = includes space_ids s.id && is_some s.price_per_month
is_offered space_ids (some type) s =
    (includes space_ids s.id && is_some s.price_per_month) && (s.platform_space_type_id == type)

-- `getSiteWithSpaces`: the spaces of one site.
unfoldable pub get_site_with_spaces : List SpaceRow → Option ℕ → List ℕ → List SpaceRow
get_site_with_spaces spaces type_id space_ids =
    take_rows 3 (order_by_price (filter (is_offered space_ids type_id) spaces))

-- `filter(Boolean)`: the sites that have spaces.
abbrev pub with_spaces : List (List SpaceRow) → List (List SpaceRow)
with_spaces [] = []
with_spaces ([] ∷ sites) = with_spaces sites
with_spaces ((s ∷ ss) ∷ sites) = (s ∷ ss) ∷ with_spaces sites

-- The ids of a site's stock that are asked for.
abbrev pub asked_ids : Option ℕ → List ℕ → List ℕ
asked_ids none ids = ids
asked_ids (some space_id) ids = filter (λ i. i == space_id) ids

unfoldable pub sites_with_spaces :
    List SpaceRow → Option ℕ → Option ℕ → List (List ℕ) → List (List SpaceRow)
unfolding get_site_with_spaces
sites_with_spaces spaces type_id space_id stocks =
    take_rows 3 (
      with_spaces
        (map (λ ids. get_site_with_spaces spaces type_id (asked_ids space_id ids)) stocks))

abbrev pub item_of : SpaceRow → QuotationItem
item_of s = record { site_id = s.site_id; space_id = s.id; price_per_month = s.price_per_month }

-- The items, site by site.
abbrev pub items_of : List (List SpaceRow) → List QuotationItem
items_of [] = []
items_of (ss ∷ sites) = map item_of ss ++ items_of sites
