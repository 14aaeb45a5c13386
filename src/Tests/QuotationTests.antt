-- ===== src/Tests/QuotationTests.antt =====
-- The request of a quotation.
use space_next_door_core_api.Base.{
  ℕ, Bool, true, false, none, some, List, [], ◌∷◌, length, map, ◌≡◌, refl,
}
use space_next_door_core_api.Quotations.Types.{
  SpaceRow, QuotationPayload, check_get_quotation, args_required,
}
use space_next_door_core_api.Quotations.Create.{
  QuotationWorld, Lookups, create_quotation, CreateQuotationCalls,
}
use space_next_door_core_api.Quotations.Select.{sites_with_spaces, items_of}
use space_next_door_core_api.Quotations.CreateOutcome.{
  QuotationLeaves, create_quotation-QuotationLeaves,
}
use space_next_door_core_api.Base.Result.{err}

abbrev offered_space : ℕ → ℕ → ℕ → SpaceRow
offered_space id site price = record {
  id = id;
  site_id = site;
  platform_space_type_id = 4;
  price_per_month = some price;
}

abbrev offered_spaces : List SpaceRow
offered_spaces =
    offered_space 1 1 300
    ∷ offered_space 2 1 100
    ∷ offered_space 3 1 400
    ∷ offered_space 4 1 200
    ∷ offered_space 5 2 150
    ∷ []

abbrev request : QuotationPayload
request = record {
  move_in_date = 500;
  district_ids = some (9 ∷ []);
  space_type_id = some 4;
  promo_code = none;
  promotion_id = none;
  space_id = none;
  site_id = none;
}

abbrev nothing_found : Lookups
nothing_found = record { voucher = none; promotion = none; space = none; site = none }

abbrev quotation_calls : Bool → CreateQuotationCalls
quotation_calls notified = record {
  stocks = some ((1 ∷ 2 ∷ 3 ∷ 4 ∷ []) ∷ (7 ∷ []) ∷ (5 ∷ []) ∷ []);
  user = some 6;
  default_promo = some none;
  create_quotation = true;
  create_items = true;
  commit = true;
  notify = notified;
}

abbrev no_quotations : QuotationWorld
no_quotations = record { quotations = [] }

-- The three cheapest spaces of site 1, and the one of site 2.
offered_ids :
    map
      (λ i. i.space_id)
      (items_of (
        sites_with_spaces offered_spaces
          (some 4)
          none
          ((1 ∷ 2 ∷ 3 ∷ 4 ∷ []) ∷ (7 ∷ []) ∷ (5 ∷ []) ∷ [])))
    ≡ 2 ∷ 4 ∷ 1 ∷ 5 ∷ []
unfolding sites_with_spaces
offered_ids = refl

create_quotation-QuotationLeaves_example :
    QuotationLeaves (quotation_calls true) request (some 4) no_quotations (
      create_quotation 100 1000
        (quotation_calls true)
        request
        nothing_found
        offered_spaces
        no_quotations)
create_quotation-QuotationLeaves_example =
    create_quotation-QuotationLeaves 100 1000 (quotation_calls true) request nothing_found
      offered_spaces no_quotations

-- A mail that fails: the caller gets an error, and the quotation stands.
mailed_late :
    length
      (create_quotation 100 1000
        (quotation_calls false)
        request
        nothing_found
        offered_spaces
        no_quotations).1.quotations
    ≡ 1
unfolding create_quotation sites_with_spaces
mailed_late = refl

-- Only arguments that name both a quotation and a place pass the guard.
refused_uuid :
    check_get_quotation (record { uuid = some 1; site_id = none; space_id = none })
    ≡ err args_required
unfolding check_get_quotation
refused_uuid = refl
