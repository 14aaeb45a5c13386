-- ===== src/Promotions/Filter.antt =====
-- `getFilteredPromotions`: a voucher that allows no double discount is used alone.
use space_next_door_core_api.Base.{
  Bool, Option, none, some, List, [], ◌∷◌, ◌&&◌, not, find, ◌≡◌, refl, arith,
}
use space_next_door_core_api.Catalog.{is_voucher}
use space_next_door_core_api.Promotions.Types.{Promotion}

abbrev is_exclusive : Promotion → Bool
is_exclusive promo = not promo.allow_double_discount

abbrev pub is_exclusive_voucher : Promotion → Bool
is_exclusive_voucher promo = is_voucher promo.format && not promo.allow_double_discount

unfoldable pub get_filtered_promotions : List Promotion → List Promotion
get_filtered_promotions promotions = elim (find is_exclusive promotions) [
  | none ↦ promotions
  | some promo_with_double_discount ↦ elim (find is_exclusive_voucher promotions) [
    | none ↦ promotions
    | some private_promotion ↦ private_promotion ∷ []
  ]
]

exclusive_voucher_found :
    (ps : List Promotion) → find is_exclusive ps ≡ none → find is_exclusive_voucher ps ≡ none
exclusive_voucher_found [] e = refl
exclusive_voucher_found (p ∷ ps) e = ground (arith, exclusive_voucher_found ps)

-- The rule without the code's first check: the first exclusive voucher alone if there is one,
-- and else every promotion.
abbrev pub filter_rule : Option Promotion → List Promotion → List Promotion
filter_rule none promotions = promotions
filter_rule (some voucher) promotions = voucher ∷ []

-- For every list of promotions the filter keeps the first voucher that allows no double discount
-- alone, if there is one, and the whole list otherwise, also when a public promotion allows none.
pub get_filtered_promotions-eq :
    (ps : List Promotion)
    → get_filtered_promotions ps ≡ filter_rule (find is_exclusive_voucher ps) ps
unfolding get_filtered_promotions
get_filtered_promotions-eq ps = ground (arith, exclusive_voucher_found ps)
