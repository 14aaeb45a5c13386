-- ===== src/PriceUpdate/Preview.antt =====
-- A preview of new prices, beside the change itself.
use space_next_door_core_api.Base.{
  ℕ, Bool, true, false, Option, none, some, List, [], ◌∷◌, ◌++◌, ◌+◌, if◌then◌else◌, ◌==◌, length,
  any, filter, map, ◌≡◌, refl, sym, ap, ◌∙◌, inl, inr, arith, Bool-cases,
}
use space_next_door_core_api.Catalog.{PriceChangeStatus}
use space_next_door_core_api.PriceUpdate.{
  price_booking, PriceRows, change_price, PriceUpdateResp, PricedBooking, ℤ, is_changed,
  BookingPriceChange, changed_entry, update_booking_price, price_loop, update_found, no_change,
  PriceItem, Result, price_for, distinct, PriceUpdatePayload, PriceError, found_bookings,
  missing_ids,
}
use space_next_door_core_api.Base.Int.{ℤ, ltb_ℤ, pos}
use space_next_door_core_api.Base.Result.{Result, ok, err}

-- How many entries tell of a price that is changed.
abbrev pub is_price_changed : PriceChangeStatus → Bool
is_price_changed PriceChangeStatus.price_changed = true
is_price_changed _ = false

-- A preview: what it answers is what the change answers, but it counts and writes nothing.
abbrev IsPreview : PriceRows → PriceUpdateResp × PriceRows → PriceUpdateResp × PriceRows → Type 0
IsPreview rows (p, prows) (r, rrows) =
    (p.edges ≡ r.edges)
    × (p.modified ≡ 0)
    × (prows ≡ rows)
    × (r.modified ≡ length (filter (λ e. is_price_changed e.status) r.edges))

count_last :
    {A : Type 0} (p : A → Bool) (xs : List A) (x : A)
    → length (filter p (xs ++ (x ∷ []))) ≡ length (filter p xs) + (if p x then 1 else 0)
count_last p [] x = elim (Bool-cases (p x)) [ inl e ↦ rw e refl | inr e ↦ rw e refl ]
count_last p (y ∷ ys) x = elim (Bool-cases (p y)) [
  | inl e ↦ rw e (omega (arith, count_last p ys x))
  | inr e ↦ rw e (count_last p ys x)
]

-- An entry that both answers get, of a price that is not changed.
same_entry :
    (x : BookingPriceChange) (rows : PriceRows) (p r : PriceUpdateResp) (prows rrows : PriceRows)
    → is_price_changed x.status ≡ false
    → IsPreview rows (p, prows) (r, rrows)
    → IsPreview rows
        (record p { edges = p.edges ++ (x ∷ []) }, prows)
        (record r { edges = r.edges ++ (x ∷ []) }, rrows)
same_entry x rows p r prows rrows h (e, m, w, c) =
    (ap (λ l. l ++ (x ∷ [])) e, m, w, c ∙ sym (count_last _ r.edges x ∙ rw h (omega arith)))

price_booking-IsPreview :
    (b : PricedBooking) (o : Option ℤ) (rows : PriceRows) (p r : PriceUpdateResp × PriceRows)
    → IsPreview rows p r
    → IsPreview rows (price_booking true true b o p) (price_booking false true b o r)
unfolding price_booking change_price
price_booking-IsPreview b none rows (p, prows) (r, rrows) h =
    same_entry _ rows p r prows rrows refl h
price_booking-IsPreview b (some price) rows (p, prows) (r, rrows) (e, m, w, c) =
    elim (Bool-cases (is_changed b.base_amount price)) [
      | inl f ↦ rw f (
        ap (λ l. l ++ (changed_entry b price ∷ [])) e,
        m,
        w,
        ap (λ n. n + 1) c ∙ sym (count_last _ r.edges (changed_entry b price)),
      )
      | inr f ↦ rw f (same_entry _ rows p r prows rrows refl (e, m, w, c))
    ]

price_loop-IsPreview :
    (items : List PriceItem) (bs : List PricedBooking) (rows : PriceRows)
    (p r : PriceUpdateResp × PriceRows)
    → IsPreview rows p r
    → IsPreview rows
        (price_loop true (λ id. true) items bs p)
        (price_loop false (λ id. true) items bs r)
unfolding price_loop
price_loop-IsPreview items [] rows p r h = h
price_loop-IsPreview items (b ∷ bs) rows p r h =
    price_loop-IsPreview items bs rows _ _
      (price_booking-IsPreview b (price_for items b.short_id) rows p r h)

no_entries :
    (ids : List ℕ)
    → length (
        filter
          (λ e. is_price_changed e.status)
          (map (λ x. no_change none x PriceChangeStatus.booking_not_found) ids))
      ≡ 0
no_entries [] = refl
no_entries (x ∷ xs) = no_entries xs

-- The same error, or a preview of the answer.
abbrev pub Previews :
    PriceRows
    → Result PriceError PriceUpdateResp × PriceRows
    → Result PriceError PriceUpdateResp × PriceRows
    → Type 0
Previews rows (ok p, prows) (ok r, rrows) = IsPreview rows (p, prows) (r, rrows)
Previews rows (err e, prows) (err e', rrows) = (e ≡ e') × (prows ≡ rows) × (rrows ≡ rows)
Previews rows (ok p, prows) (err e, rrows) = ⊥
Previews rows (err e, prows) (ok r, rrows) = ⊥

abbrev pub priced : List PriceItem → Bool → PriceUpdatePayload
priced items review = record { data_items = items; review_mode = review }

update_found-Previews :
    (items : List PriceItem) (bs : List PricedBooking) (rows : PriceRows)
    → Previews rows
        (update_found (priced items true) (λ id. true) bs rows)
        (update_found (priced items false) (λ id. true) bs rows)
unfolding update_found
update_found-Previews items [] rows = (refl, refl, refl)
update_found-Previews items (b ∷ bs) rows =
    price_loop-IsPreview items (b ∷ bs) rows _ _
      (refl, refl, refl, sym (no_entries (missing_ids items (b ∷ bs))))

-- For every list of prices and every table, when every write goes through: a preview throws what the
-- change throws; otherwise it answers the change's entries, with nothing modified and the table as
-- it was, and the change counts as modified exactly its entries with a changed price.
pub update_booking_price-Previews :
    (items : List PriceItem) (rows : PriceRows)
    → Previews rows
        (update_booking_price (priced items true) (λ id. true) rows)
        (update_booking_price (priced items false) (λ id. true) rows)
unfolding update_booking_price
update_booking_price-Previews items rows =
    let ids = map (λ i. i.booking_id) items in
    elim (Bool-cases (length (distinct ids) == length ids)) [
      | inr e ↦ rw e (refl, refl, refl)
      | inl e ↦ elim (Bool-cases (any (λ i. ltb_ℤ i.price (pos 100)) items)) [
        | inl f ↦ rw (e, f) (refl, refl, refl)
        | inr f ↦ rw (e, f) (update_found-Previews items (found_bookings ids rows) rows)
      ]
    ]
