-- ===== src/Quotations/CreateOutcome.antt =====
-- What the request of a quotation leaves.
use space_next_door_core_api.Base.{
  ℕ, Bool, true, false, Option, none, some, List, [], ◌∷◌, ◌++◌, ◌&&◌, ◌||◌, not, ◌+◌, ◌*◌, ◌≤◌,
  ltb, length, is_some, All, map, ◌≡◌, refl, ◌⊎◌, inl, inr, arith, Bool-cases,
}
use space_next_door_core_api.Base.Result.{◌>>=◌, ◌>>◌, throw_if}
use space_next_door_core_api.Quotations.Create.{
  create_quotation, CreateQuotationCalls, write_quotation, Lookups, QuotationWorld, offer,
  type_asked, check_place, validate_create_quotation_payload, offer_checked, check_site,
  has_districts, check_promotion,
}
use space_next_door_core_api.Quotations.Types.{
  QuotationPayload, SpaceRow, QuotationItem, Quotation, QuotationError, wrong_move_in_date,
  more_than_a_month, districts_and_type,
}
use space_next_door_core_api.Quotations.Select.{items_of, item_of}
use space_next_door_core_api.Quotations.SelectLaws.{IsOffer, sites_with_spaces-All}
use space_next_door_core_api.Base.Result.{Result, ok, err}

-- The sites of a quotation: one to three, each with one to three spaces that may be offered.
abbrev pub IsOfferList : Option ℕ → List (List SpaceRow) → Type 0
IsOfferList type sites =
    (1 ≤ length (items_of sites))
    × (length (items_of sites) ≤ 9)
    × (length sites ≤ 3)
    × All (λ ss. ((length ss ≤ 3) × All (IsOffer type) ss) × (1 ≤ length ss)) sites

-- The new row, for the sites that are offered.
abbrev pub IsNewQuotation : QuotationPayload → Option ℕ → QuotationWorld → QuotationWorld → Type 0
IsNewQuotation q type w w' =
    (x : Quotation) × (sites : List (List SpaceRow)) × (w'.quotations ≡ x ∷ w.quotations)
    × (x.items ≡ items_of sites)
    × (x.public_promotion_id ≡ q.promotion_id)
    × IsOfferList type sites

abbrev pub found_space : Option (SpaceRow × Bool) → Option SpaceRow
found_space none = none
found_space (some (s, is_active)) = some s

-- By how it ended.
abbrev pub QuotationLeaves :
    CreateQuotationCalls
    → QuotationPayload
    → Option ℕ
    → QuotationWorld
    → Result QuotationError (Unit {0}) × QuotationWorld
    → Type 0
QuotationLeaves c q type w (ok x, w') = IsNewQuotation q type w w'
QuotationLeaves c q type w (err e, w') =
    (w' ≡ w) ⊎ ((c.notify ≡ false) × IsNewQuotation q type w w')

length-map-++ :
    (ss : List SpaceRow) (items : List QuotationItem)
    → length (map item_of ss ++ items) ≡ length ss + length items
length-map-++ [] items = omega arith
length-map-++ (s ∷ ss) items = omega (arith, length-map-++ ss items)

length-items_of :
    (type : Option ℕ) (sites : List (List SpaceRow))
    → All (λ ss. ((length ss ≤ 3) × All (IsOffer type) ss) × (1 ≤ length ss)) sites
    → (length sites ≤ length (items_of sites)) × (length (items_of sites) ≤ 3 * length sites)
length-items_of type [] h = (omega arith, omega arith)
length-items_of type (ss ∷ sites) (((n, o), k), hs) =
    let ih = length-items_of type sites hs in
    (
      omega (arith, length-map-++ ss (items_of sites), ih.0),
      omega (arith, length-map-++ ss (items_of sites), ih.1),
    )

write_quotation-QuotationLeaves :
    (c : CreateQuotationCalls) (q : QuotationPayload) (type : Option ℕ)
    (sites : List (List SpaceRow)) (user : Option ℕ) (promo : Option (Option ℕ))
    (w : QuotationWorld)
    → IsOfferList type sites
    → QuotationLeaves c q type w (write_quotation c q sites user promo w)
unfolding write_quotation
write_quotation-QuotationLeaves c q type sites none promo w h = inl refl
write_quotation-QuotationLeaves c q type sites (some u) none w h = inl refl
write_quotation-QuotationLeaves c q type sites (some u) (some p) w h =
    elim (Bool-cases (c.create_quotation && (c.create_items && c.commit))) [
      | inl e ↦ rw e (elim (Bool-cases c.notify) [
        | inl n ↦ rw n (_, sites, refl, refl, refl, h)
        | inr n ↦ rw n (inr (refl, (_, sites, refl, refl, refl, h)))
      ])
      | inr e ↦ rw e (inl refl)
    ]

offer-QuotationLeaves :
    (c : CreateQuotationCalls) (q : QuotationPayload) (type : Option ℕ)
    (sites : List (List SpaceRow)) (promo : Option ℕ) (w : QuotationWorld)
    → All (λ ss. ((length ss ≤ 3) × All (IsOffer type) ss) × (1 ≤ length ss)) sites
    → length sites ≤ 3
    → QuotationLeaves c q type w (offer c q sites promo w)
offer-QuotationLeaves c q type [] promo w h n = inl refl
offer-QuotationLeaves c q type (s ∷ sites) promo w h n =
    let k = length-items_of type (s ∷ sites) h in
    write_quotation-QuotationLeaves c q type (s ∷ sites) c.user _ w
      (omega (arith, k.0), omega (arith, k.1, n), n, h)

-- The type that the payload, or the space that it names, asks for.
abbrev pub wanted_type : QuotationPayload → Lookups → Option ℕ
wanted_type q found = type_asked q.space_id (found_space found.space) q.space_type_id

-- A check that accepts keeps the type.
abbrev KeepsType :
    QuotationPayload → Lookups → Result QuotationError (Option SpaceRow × Option ℕ) → Type 0
KeepsType q found (ok (space, promo)) =
    type_asked q.space_id space q.space_type_id ≡ wanted_type q found
KeepsType q found (err e) = Unit

throw_if-KeepsType :
    (q : QuotationPayload) (found : Lookups) (b : Bool) (e : QuotationError)
    (r : Result QuotationError (Option SpaceRow × Option ℕ))
    → KeepsType q found r
    → KeepsType q found (throw_if b e >> r)
throw_if-KeepsType q found true e r h = tt
throw_if-KeepsType q found false e r h = h

bind-KeepsType :
    {A : Type 0} (q : QuotationPayload) (found : Lookups) (r : Result QuotationError A)
    (k : A → Result QuotationError (Option SpaceRow × Option ℕ))
    → ((a : A) → KeepsType q found (k a))
    → KeepsType q found (r >>= k)
bind-KeepsType q found (ok a) k h = h a
bind-KeepsType q found (err e) k h = tt

place-KeepsType :
    (q : QuotationPayload) (found : Lookups) (promo space_id site_id : Option ℕ)
    (row : Option (SpaceRow × Bool))
    → q.space_id ≡ space_id
    → found.space ≡ row
    → KeepsType q found (check_place space_id site_id found >>= λ space. ok (space, promo))
place-KeepsType q found promo none none row h k = rw h refl
place-KeepsType q found promo none (some site_id) row h k =
    bind-KeepsType q found (check_site found.site) _ (λ space. rw h refl)
place-KeepsType q found promo (some space_id) site_id none h k = rw k tt
place-KeepsType q found promo (some space_id) site_id (some (s, b)) h k =
    rw k (elim (Bool-cases b) [ inl e ↦ rw e (rw h refl) | inr e ↦ rw e tt ])

validate-KeepsType :
    (now month_later : ℕ) (q : QuotationPayload) (found : Lookups)
    → KeepsType q found (validate_create_quotation_payload now month_later q found)
unfolding validate_create_quotation_payload
validate-KeepsType now month_later q found =
    throw_if-KeepsType q found (ltb q.move_in_date now) wrong_move_in_date _ (
      throw_if-KeepsType q found (ltb month_later q.move_in_date) more_than_a_month _ (
        throw_if-KeepsType q found
          ((has_districts q.district_ids && not (is_some q.space_type_id))
            || (is_some q.space_type_id && not (has_districts q.district_ids)))
          districts_and_type _
          (bind-KeepsType q found (check_promotion q.promo_code found.voucher found.promotion)
            (λ promo. check_place q.space_id q.site_id found >>= λ space. ok (space, promo))
            (λ promo. place-KeepsType q found promo q.space_id q.site_id found.space refl refl))))

offer_checked-QuotationLeaves :
    (c : CreateQuotationCalls) (q : QuotationPayload) (found : Lookups) (spaces : List SpaceRow)
    (r : Result QuotationError (Option SpaceRow × Option ℕ)) (stocks : Option (List (List ℕ)))
    (w : QuotationWorld)
    → KeepsType q found r
    → QuotationLeaves c q (wanted_type q found) w (offer_checked c q spaces r stocks w)
offer_checked-QuotationLeaves c q found spaces (err e) stocks w h = inl refl
offer_checked-QuotationLeaves c q found spaces (ok (space, promo)) none w h = inl refl
offer_checked-QuotationLeaves c q found spaces (ok (space, promo)) (some stocks) w h = rw h (
    let k = sites_with_spaces-All spaces (wanted_type q found) q.space_id stocks in
    offer-QuotationLeaves c q (wanted_type q found) _ promo w k.0 k.1)

-- For every payload, time, stock and way that the calls can end: a success leaves one more quotation,
-- of one to three sites with one to three spaces each, so of one to nine items, and every space has a
-- price and the type that the payload, or the space in it, asks for; a throw leaves the rows as they
-- were, unless what fails comes after the commit.
pub create_quotation-QuotationLeaves :
    (now month_later : ℕ) (c : CreateQuotationCalls) (q : QuotationPayload) (found : Lookups)
    (spaces : List SpaceRow) (w : QuotationWorld)
    → QuotationLeaves c q
        (wanted_type q found)
        w
        (create_quotation now month_later c q found spaces w)
unfolding create_quotation
create_quotation-QuotationLeaves now month_later c q found spaces w =
    offer_checked-QuotationLeaves c q found spaces _ c.stocks w
      (validate-KeepsType now month_later q found)
