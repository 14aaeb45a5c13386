-- ===== src/Quotations/Create.antt =====
-- `createQuotation` of src/quotations/quotation.service.ts.
use space_next_door_core_api.Base.{
  ℕ, Bool, true, false, Option, none, some, List, [], ◌∷◌, ◌&&◌, ◌||◌, not, if◌then◌else◌, ltb,
  is_some,
}
use space_next_door_core_api.Base.Result.{◌>>=◌, ◌>>◌, throw_if}
use space_next_door_core_api.Quotations.Types.{
  QuotationStatus, SpaceRow, Quotation, QuotationPayload, QuotationError, call_failed, no_space,
  site_not_found, promo_code_not_found, space_not_found, promotion_not_found, wrong_move_in_date,
  more_than_a_month, districts_and_type,
}
use space_next_door_core_api.Base.Result.{Result, ok, err}
use space_next_door_core_api.Quotations.Select.{sites_with_spaces, items_of}

-- What the checks look up: the voucher of the code, the promotion of the id, the space of the id
-- with whether it is active, and whether the site is. None is not found.
pub record Lookups : Type 0 where
  pub voucher : Option ℕ
  pub promotion : Option ℕ
  pub space : Option (SpaceRow × Bool)
  pub site : Option Bool

abbrev pub has_districts : Option (List ℕ) → Bool
has_districts none = false
has_districts (some []) = false
has_districts (some (d ∷ ds)) = true

-- The promotion is looked up by its id, but only when there is a code.
abbrev pub check_promotion : Option ℕ → Option ℕ → Option ℕ → Result QuotationError (Option ℕ)
check_promotion none voucher promotion = ok none
check_promotion (some code) none promotion = err promo_code_not_found
check_promotion (some code) (some v) none = err promotion_not_found
check_promotion (some code) (some v) (some p) = ok (some p)

abbrev pub check_space : Option (SpaceRow × Bool) → Result QuotationError (Option SpaceRow)
check_space none = err space_not_found
check_space (some (s, is_active)) = if is_active then ok (some s) else err space_not_found

abbrev pub check_site : Option Bool → Result QuotationError (Option SpaceRow)
check_site none = err site_not_found
check_site (some is_active) = if is_active then ok none else err site_not_found

abbrev pub check_place : Option ℕ → Option ℕ → Lookups → Result QuotationError (Option SpaceRow)
check_place (some space_id) site_id found = check_space found.space
check_place none (some site_id) found = check_site found.site
check_place none none found = ok none

-- `validateCreateQuotationPayload`, at a time and with the time one month later.
unfoldable pub validate_create_quotation_payload :
    ℕ → ℕ → QuotationPayload → Lookups → Result QuotationError (Option SpaceRow × Option ℕ)
validate_create_quotation_payload now month_later q found = do
  throw_if (ltb q.move_in_date now) wrong_move_in_date
  throw_if (ltb month_later q.move_in_date) more_than_a_month
  throw_if
      ((has_districts q.district_ids && not (is_some q.space_type_id))
        || (is_some q.space_type_id && not (has_districts q.district_ids)))
      districts_and_type
  promo ← check_promotion q.promo_code found.voucher found.promotion
  space ← check_place q.space_id q.site_id found
  ok (space, promo)

-- The type that is asked for: that of the space when a space is.
abbrev pub type_asked : Option ℕ → Option SpaceRow → Option ℕ → Option ℕ
type_asked (some space_id) (some s) type = some s.platform_space_type_id
type_asked (some space_id) none type = none
type_asked none space type = type

-- How the calls end. `stocks` are the ids of the spaces in stock, site by site; `user` is the user
-- that is found or made, `default_promo` the promotion of the country's code. `notify` is the read
-- of the quotation and the mail, both after the commit.
pub record CreateQuotationCalls : Type 0 where
  pub stocks : Option (List (List ℕ))
  pub user : Option ℕ
  pub default_promo : Option (Option ℕ)
  pub create_quotation : Bool
  pub create_items : Bool
  pub commit : Bool
  pub notify : Bool

pub record QuotationWorld : Type 0 where
  pub quotations : List Quotation

-- The promotion: the checked one, or else that of the country.
abbrev pub promo_for : Option ℕ → Option (Option ℕ) → Option (Option ℕ)
promo_for none default_promo = default_promo
promo_for (some p) default_promo = some (some p)

-- The part after the transaction is begun. A rollback after the commit throws as well.
unfoldable pub write_quotation :
    CreateQuotationCalls
    → QuotationPayload
    → List (List SpaceRow)
    → Option ℕ
    → Option (Option ℕ)
    → QuotationWorld
    → Result QuotationError (Unit {0}) × QuotationWorld
write_quotation c q sites none promo w = (err call_failed, w)
write_quotation c q sites (some user_id) none w = (err call_failed, w)
write_quotation c q sites (some user_id) (some promo) w =
    if c.create_quotation && (c.create_items && c.commit)
    then (let w' = record w {
      quotations =
          record {
            user_id = user_id;
            status = QuotationStatus.active;
            promotion_id = promo;
            public_promotion_id = q.promotion_id;
            items = items_of sites;
          }
          ∷ w.quotations;
    } in
        if c.notify then (ok tt, w') else (err call_failed, w'))
    else (err call_failed, w)

abbrev pub offer :
    CreateQuotationCalls
    → QuotationPayload
    → List (List SpaceRow)
    → Option ℕ
    → QuotationWorld
    → Result QuotationError (Unit {0}) × QuotationWorld
offer c q [] promo w = (err no_space, w)
offer c q (s ∷ sites) promo w =
    write_quotation c q (s ∷ sites) c.user (promo_for promo c.default_promo) w

abbrev pub offer_checked :
    CreateQuotationCalls
    → QuotationPayload
    → List SpaceRow
    → Result QuotationError (Option SpaceRow × Option ℕ)
    → Option (List (List ℕ))
    → QuotationWorld
    → Result QuotationError (Unit {0}) × QuotationWorld
offer_checked c q spaces (err e) stocks w = (err e, w)
offer_checked c q spaces (ok (space, promo)) none w = (err call_failed, w)
offer_checked c q spaces (ok (space, promo)) (some stocks) w =
    offer c q
      (sites_with_spaces spaces (type_asked q.space_id space q.space_type_id) q.space_id stocks)
      promo w

unfoldable pub create_quotation :
    ℕ
    → ℕ
    → CreateQuotationCalls
    → QuotationPayload
    → Lookups
    → List SpaceRow
    → QuotationWorld
    → Result QuotationError (Unit {0}) × QuotationWorld
unfolding validate_create_quotation_payload write_quotation
create_quotation now month_later c q found spaces w =
    offer_checked c q spaces (validate_create_quotation_payload now month_later q found) c.stocks w
