-- ===== src/Promotions/Amount.antt =====
-- `getPromotionAmount`.
use space_next_door_core_api.Base.{
  ℕ, Bool, true, false, Option, none, some, List, [], ◌∷◌, ◌&&◌, ◌||◌, not, if◌then◌else◌, leb, ltb,
  ◌==◌, length, includes, get_or, is_some, ◌++◌,
}
use space_next_door_core_api.Base.Int.{ℤ, pos, ◌+ℤ◌, ◌-ℤ◌, ◌*ℤ◌, ltb_ℤ, leb_ℤ, max_ℤ, min_ℤ}
use space_next_door_core_api.Base.Round.{to_fixed}
use space_next_door_core_api.Base.Number.{truthy}
use space_next_door_core_api.Calendar.{Calendar}
use space_next_door_core_api.Catalog.{
  PromotionBuyTypes, PromotionForType, PromotionFormat, is_public, is_min_days,
}
use space_next_door_core_api.Promotions.Types.{
  CustomerBuys, CustomerGets, Promotion, PromotionAmount,
}
use space_next_door_core_api.Promotions.Filter.{get_filtered_promotions}
use space_next_door_core_api.Promotions.Gets.{add_discount}

-- How long the customer will stay, as the code reads it off the two dates.
pub record Commitment : Type 0 where
  pub open_ended : Bool
  pub commit_days : ℤ
  pub commit_months : ℤ

unfoldable pub get_commitment : (cal : Calendar) → cal.Date → Option cal.Date → Commitment
get_commitment cal move_in none = record {
  open_ended = true;
  commit_days = pos 30;
  commit_months = pos 0;
}
get_commitment cal move_in (some move_out) = record {
  open_ended = false;
  commit_days = cal.diff_day move_out move_in +ℤ pos 1;
  commit_months = cal.diff_month move_out move_in;
}

-- The rent that the discount is of: a stay of less than a month pays by the day.
unfoldable pub base_rent : ℤ → Commitment → ℤ
base_rent price stay =
    if ltb_ℤ stay.commit_months (pos 1)
    then to_fixed (price *ℤ stay.commit_days) 30
    else to_fixed price 1

-- The alternatives of the query's `Op.or`.
pub data PromotionKey : Type 0 where
  public_id : ℕ → PromotionKey
  voucher_code : ℕ → PromotionKey

abbrev key : (ℕ → PromotionKey) → Option ℕ → List PromotionKey
key f none = []
key f (some i) = if truthy (some i) then f i ∷ [] else []

unfoldable pub or_promo : Option ℕ → Option ℕ → List PromotionKey
or_promo promotion_id code =
    key PromotionKey.public_id promotion_id ++ key PromotionKey.voucher_code code

-- The negation of the loop's first `continue`.
unfoldable pub is_redeemable : Promotion → Bool
is_redeemable p =
    ltb 0 (length p.customer_buys)
    && (ltb 0 (length p.customer_gets)
        && not (truthy p.max && leb (get_or p.max 0) (length p.redeem)))

-- `commit` is `commitMonths` at this point of the loop, in tenths of a month.
unfoldable pub meets_criteria : Commitment → ℤ → ℤ → CustomerBuys → Bool
meets_criteria stay commit amount buys = elim buys.type [
  | PromotionBuyTypes.min_days ↦
      stay.open_ended
      || ((ltb_ℤ buys.value (pos 30) && leb_ℤ buys.value stay.commit_days)
          || (leb_ℤ (pos 30) buys.value && leb_ℤ buys.value (commit *ℤ pos 3)))
  | PromotionBuyTypes.min_price ↦ leb_ℤ (buys.value *ℤ pos 100) amount
]

-- `site` and `country` are the site's; a public promotion is for sites, a voucher for countries.
unfoldable pub is_local : ℕ → Option ℕ → PromotionFormat → CustomerBuys → Bool
is_local site country PromotionFormat.public buys = includes (get_or buys.site_ids []) site
is_local site none PromotionFormat.voucher buys = false
is_local site (some country) PromotionFormat.voucher buys =
    includes (get_or buys.country_ids []) country
is_local site country PromotionFormat.code buys = true

-- The variables of the loop over the promotions and of the loop over `customer_gets`.
pub record Applied : Type 0 where
  pub promo : Option Promotion
  pub public_promotion : Option Promotion
  pub public_promotion_will_apply : Option Promotion
  pub commit : ℤ
  pub is_promo_applied : Bool
  pub promo_discount : ℤ

-- `promo` or `publicPromotion` is set, by the promotion's format.
unfoldable pub set_promotion : Promotion → Option Promotion → Applied → Applied
set_promotion p value s =
    if is_public p.format then record s { public_promotion = value } else record s { promo = value }

-- Whether an entry applies in this month.
unfoldable pub gets_applies : ℕ → CustomerGets → Bool
gets_applies for_month gets = elim gets.for_type [
  | PromotionForType.first_months ↦ leb for_month gets.for_value
  | PromotionForType.renewal_index ↦ gets.for_value == for_month
  | PromotionForType.last_months ↦ false
]

abbrev pub is_renewal_index : PromotionForType → Bool
is_renewal_index PromotionForType.renewal_index = true
is_renewal_index _ = false

-- An entry for another renewal notes the promotion for later.
unfoldable pub note_later : ℕ → Promotion → CustomerGets → Applied → Applied
note_later for_month p gets s =
    if is_renewal_index gets.for_type && not (gets.for_value == for_month)
    then record s { public_promotion_will_apply = some p }
    else s

-- The commitment that an open-ended stay enters into.
unfoldable pub raise_commit : Commitment → CustomerBuys → ℤ → ℤ
raise_commit stay buys commit =
    if stay.open_ended && is_min_days buys.type
    then max_ℤ (to_fixed (buys.value *ℤ pos 10) 30) commit
    else commit

unfoldable pub apply_gets :
    Commitment → ℤ → ℕ → Promotion → CustomerBuys → CustomerGets → Applied → Applied
unfolding set_promotion gets_applies note_later raise_commit
apply_gets stay amount for_month p buys gets s =
    let s' = note_later for_month p gets s in
    if gets_applies for_month gets
    then set_promotion p (some p) (record s' {
      is_promo_applied = true;
      promo_discount = add_discount amount gets s'.promo_discount;
      commit = raise_commit stay buys s'.commit;
    })
    else set_promotion p (if s'.is_promo_applied then some p else none) s'

unfoldable pub gets_loop :
    Commitment → ℤ → ℕ → Promotion → CustomerBuys → List CustomerGets → Applied → Applied
unfolding apply_gets
gets_loop stay amount for_month p buys [] s = s
gets_loop stay amount for_month p buys (g ∷ gs) s =
    gets_loop stay amount for_month p buys gs (apply_gets stay amount for_month p buys g s)

-- One promotion of the outer loop, on its `customer_buys`, of which the code reads the first: the
-- variables, and `discountedAmount` after it.
unfoldable pub apply_buys :
    Commitment → ℤ → ℕ → ℕ → Option ℕ → Promotion → List CustomerBuys → Applied × ℤ → Applied × ℤ
unfolding meets_criteria is_local
apply_buys stay amount for_month site country p [] r = r
apply_buys stay amount for_month site country p (buys ∷ more) (s, discounted) =
    if meets_criteria stay s.commit amount buys && is_local site country p.format buys
    then (let s' =
          gets_loop stay amount for_month p buys p.customer_gets
            (record s { is_promo_applied = false; promo_discount = pos 0 }) in
        (s', to_fixed (s'.promo_discount +ℤ discounted) 1))
    else (set_promotion p none s, discounted)

unfoldable pub promotions_loop :
    Commitment → ℤ → ℕ → ℕ → Option ℕ → List Promotion → Applied × ℤ → Applied × ℤ
promotions_loop stay amount for_month site country [] r = r
promotions_loop stay amount for_month site country (p ∷ ps) r =
    promotions_loop stay amount for_month site country ps (
      if is_redeemable p
      then apply_buys stay amount for_month site country p p.customer_buys r
      else r)

unfoldable pub general_response : ℤ → PromotionAmount
general_response price = record {
  promotion = none;
  public_promotion = none;
  price_per_month = price;
  discounted_amount = pos 0;
  total = price;
  total_after_discount = price;
  min_commitment_months = pos 0;
}

-- `a || b` of two objects.
abbrev pub or_else : Option Promotion → Option Promotion → Option Promotion
or_else none y = y
or_else (some x) y = some x

-- The clamps after the loop, and the answer.
unfoldable pub promotion_response : ℤ → ℤ → Applied × ℤ → PromotionAmount
unfolding general_response
promotion_response price amount (s, discounted) =
    if not (is_some s.promo)
      && (not (is_some s.public_promotion) && not (is_some s.public_promotion_will_apply))
    then general_response price
    else (let clamped = min_ℤ (max_ℤ discounted (pos 0)) amount in
        record {
          promotion = s.promo;
          public_promotion = or_else s.public_promotion s.public_promotion_will_apply;
          price_per_month = price;
          discounted_amount = clamped;
          total = amount;
          total_after_discount = to_fixed (amount -ℤ clamped) 1;
          min_commitment_months = s.commit;
        })

unfoldable pub initial : Commitment → Applied
initial stay = record {
  promo = none;
  public_promotion = none;
  public_promotion_will_apply = none;
  commit = stay.commit_months *ℤ pos 10;
  is_promo_applied = false;
  promo_discount = pos 0;
}

-- `country` is the country of the site's address. Codes and ids are numbers.
unfoldable pub get_promotion_amount :
    (List PromotionKey → List Promotion)
    → ℕ
    → Option ℕ
    → ℤ
    → Commitment
    → Option ℕ
    → Option ℕ
    → ℕ
    → PromotionAmount
unfolding promotions_loop promotion_response initial
get_promotion_amount find_promotions site country price stay code promotion_id for_month =
    let found = find_promotions (or_promo promotion_id code) in
    let amount = base_rent price stay in
    if (not (truthy code) && not (truthy promotion_id)) || (length found == 0)
    then general_response price
    else promotion_response price amount (
        promotions_loop stay amount for_month site country (get_filtered_promotions found)
          (initial stay, pos 0))
