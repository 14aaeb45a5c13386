-- ===== src/Promotions/Types.antt =====
-- The rows of the promotion tables, and the answer of the promotion service
-- (src/promotions: promotion.model.ts, customer_buys.model.ts, customer_gets.model.ts).
use space_next_door_core_api.Base.{ℕ, Bool, Option, List}
use space_next_door_core_api.Base.Int.{ℤ}
use space_next_door_core_api.Catalog.{
  PromotionBuyTypes, PromotionForType, PromotionFormat, PromotionType,
}

pub record CustomerBuys : Type 0 where
  pub type : PromotionBuyTypes
  pub value : ℤ
  pub site_ids : Option (List ℕ)
  pub country_ids : Option (List ℕ)

pub record CustomerGets : Type 0 where
  pub type : PromotionType
  pub value : ℤ
  pub max_amount_per_booking : Option ℤ
  pub for_type : PromotionForType
  pub for_value : ℕ

pub record Promotion : Type 0 where
  pub id : ℕ
  pub format : PromotionFormat
  pub max : Option ℕ
  pub allow_double_discount : Bool
  pub customer_buys : List CustomerBuys
  pub customer_gets : List CustomerGets
  pub redeem : List ℕ

pub record PromotionAmount : Type 0 where
  pub promotion : Option Promotion
  pub public_promotion : Option Promotion
  pub price_per_month : ℤ
  pub discounted_amount : ℤ
  pub total : ℤ
  pub total_after_discount : ℤ
  pub min_commitment_months : ℤ
