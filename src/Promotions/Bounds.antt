-- ===== src/Promotions/Bounds.antt =====
-- The discount lies between 0 and the rent.
use space_next_door_core_api.Base.{
  ℕ, Option, List, ◌≡◌, arith, ◌&&◌, ◌||◌, not, ◌==◌, length, Bool-cases, inl, inr, is_some,
}
use space_next_door_core_api.Base.Int.{
  ℤ, pos, ◌-ℤ◌, ◌≤ℤ◌, ◌*ℤ◌, int_laws, ltb_ℤ, max_ℤ, min_ℤ, *ℤ_nonneg,
}
use space_next_door_core_api.Base.Round.{to_fixed_one, to_fixed_nonneg}
use space_next_door_core_api.Base.Number.{truthy}
use space_next_door_core_api.Promotions.Types.{Promotion, PromotionAmount}
use space_next_door_core_api.Promotions.Amount.{
  Commitment, PromotionKey, or_promo, base_rent, Applied, promotion_response, general_response,
  get_promotion_amount, promotions_loop, initial,
}
use space_next_door_core_api.Promotions.Filter.{get_filtered_promotions}

pub base_rent_nonneg :
    (price : ℤ) (stay : Commitment)
    → pos 0 ≤ℤ price
    → pos 0 ≤ℤ stay.commit_days
    → pos 0 ≤ℤ base_rent price stay
unfolding base_rent
base_rent_nonneg price stay p q = elim (Bool-cases (ltb_ℤ stay.commit_months (pos 1))) [
  | inl short ↦
      rw short
        (to_fixed_nonneg (price *ℤ stay.commit_days) 30 (*ℤ_nonneg price stay.commit_days p q))
  | inr long ↦ rw long (to_fixed_nonneg price 1 p)
]

-- The answer's discount is between 0 and its total, which it lowers by exactly that.
pub record IsDiscount (r : PromotionAmount) : Type 0 where
  pub nonneg : pos 0 ≤ℤ r.discounted_amount
  pub at_most_total : r.discounted_amount ≤ℤ r.total
  pub after : r.total_after_discount ≡ r.total -ℤ r.discounted_amount

clamp_bounds : (d a : ℤ) → pos 0 ≤ℤ a → let c = min_ℤ (max_ℤ d (pos 0)) a in (pos 0 ≤ℤ c) × (c ≤ℤ a)
clamp_bounds d a h = ground arith

general_response-IsDiscount : (price : ℤ) → pos 0 ≤ℤ price → IsDiscount (general_response price)
unfolding general_response
general_response-IsDiscount price h = record {
  nonneg = omega arith;
  at_most_total = h;
  after = omega int_laws;
}

promotion_response-IsDiscount :
    (price amount : ℤ) (r : Applied × ℤ)
    → pos 0 ≤ℤ price
    → pos 0 ≤ℤ amount
    → IsDiscount (promotion_response price amount r)
unfolding promotion_response
promotion_response-IsDiscount price amount (s, d) p q =
    elim (Bool-cases (
      not (is_some s.promo)
      && (not (is_some s.public_promotion) && not (is_some s.public_promotion_will_apply)))) [
        | inl nothing ↦ rw nothing (general_response-IsDiscount price p)
        | inr applied ↦ rw applied (record {
          nonneg = (clamp_bounds d amount q).0;
          at_most_total = (clamp_bounds d amount q).1;
          after = to_fixed_one _;
        })
      ]

-- For every promotion table, code, promotion and month, if the price and the days of the stay are
-- not negative then the discount is at least 0 and at most the rent that it is taken off, and the
-- total after the discount is exactly the rent less the discount.
pub get_promotion_amount-IsDiscount :
    (find_promotions : List PromotionKey → List Promotion) (site : ℕ) (country : Option ℕ)
    (price : ℤ) (stay : Commitment) (code promotion_id : Option ℕ) (for_month : ℕ)
    → pos 0 ≤ℤ price
    → pos 0 ≤ℤ stay.commit_days
    → IsDiscount
        (get_promotion_amount find_promotions site country price stay code promotion_id for_month)
unfolding get_promotion_amount
get_promotion_amount-IsDiscount find_promotions site country price stay code promotion_id m p q =
    let found = find_promotions (or_promo promotion_id code) in
    elim (Bool-cases ((not (truthy code) && not (truthy promotion_id)) || (length found == 0))) [
      | inl nothing ↦ rw nothing (general_response-IsDiscount price p)
      | inr some_found ↦ rw some_found (
          promotion_response-IsDiscount price (base_rent price stay)
            (promotions_loop stay (base_rent price stay) m site country
              (get_filtered_promotions found) (initial stay, pos 0))
            p (base_rent_nonneg price stay p q))
    ]
