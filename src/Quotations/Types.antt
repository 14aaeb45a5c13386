-- ===== src/Quotations/Types.antt =====
-- What a quotation is made from, and its rows. Ids are not 0.
use space_next_door_core_api.Base.{
  ℕ, Bool, true, false, Option, List, ◌&&◌, ◌||◌, if◌then◌else◌, is_some,
}
use space_next_door_core_api.Base.Result.{Result, throw_if}

pub data QuotationError : Type 0 where
  wrong_move_in_date more_than_a_month districts_and_type : QuotationError
  promo_code_not_found promotion_not_found space_not_found site_not_found : QuotationError
  no_space call_failed args_required : QuotationError

pub record QuotationPayload : Type 0 where
  pub move_in_date : ℕ
  pub district_ids : Option (List ℕ)
  pub space_type_id : Option ℕ
  pub promo_code : Option ℕ
  pub promotion_id : Option ℕ
  pub space_id : Option ℕ
  pub site_id : Option ℕ

-- A space with its first price, in cents; none where it has no price.
pub record SpaceRow : Type 0 where
  pub id : ℕ
  pub site_id : ℕ
  pub platform_space_type_id : ℕ
  pub price_per_month : Option ℕ

pub record QuotationItem : Type 0 where
  pub site_id : ℕ
  pub space_id : ℕ
  pub price_per_month : Option ℕ

pub data QuotationStatus : Type 0 where
  accepted rejected active : QuotationStatus

pub record Quotation : Type 0 where
  pub user_id : ℕ
  pub status : QuotationStatus
  pub promotion_id : Option ℕ
  pub public_promotion_id : Option ℕ
  pub items : List QuotationItem

pub record QuotationArgs : Type 0 where
  pub uuid : Option ℕ
  pub site_id : Option ℕ
  pub space_id : Option ℕ

-- `validateGetQuotationArgs`.
unfoldable pub validate_get_quotation_args : QuotationArgs → Bool
validate_get_quotation_args args =
    if is_some args.uuid && (is_some args.site_id || is_some args.space_id) then false else true

-- The guard of `getQuotation`.
unfoldable pub check_get_quotation : QuotationArgs → Result QuotationError (Unit {0})
unfolding validate_get_quotation_args
check_get_quotation args = throw_if (validate_get_quotation_args args) args_required
