-- ===== src/PriceUpdate.antt =====
-- `updateBookingPrice` of src/bookings/booking.service.ts. Amounts are in cents, so that `< 1` of a
-- price is `< 100`.
pub mod Preview
use space_next_door_core_api.Base.{
  ℕ, zero, suc, Bool, true, false, Option, none, some, List, [], ◌∷◌, ◌++◌, ◌&&◌, ◌||◌, not, ◌+◌,
  ◌-◌, ◌*◌, ◌/◌, ◌%◌, ◌≤◌, ◌<◌, if◌then◌else◌, leb, ltb, ◌==◌, length, is_some, last?, head?, any,
  all, All, filter, find, includes, get_or, map, ◌≡◌, refl, sym, ap, ◌∙◌, ◌≢◌, ◌↔◌, ◌⊎◌, inl, inr,
  arith, Bool-cases, Option-cases,
}
use space_next_door_core_api.Catalog.{BookingStatus, PriceChangeStatus}
use space_next_door_core_api.Terminations.Request.{is_running}
use space_next_door_core_api.Base.Int.{ℤ, abs_ℤ, ltb_ℤ, ◌-ℤ◌, pos}
use space_next_door_core_api.Base.Result.{Result, err, ok}
use space_next_door_core_api.Base.Round.{to_fixed}

pub record PriceItem : Type 0 where
  pub booking_id : ℕ
  pub price : ℤ

pub record PriceUpdatePayload : Type 0 where
  pub data_items : List PriceItem
  pub review_mode : Bool

pub record PricedBooking : Type 0 where
  pub id : ℕ
  pub short_id : ℕ
  pub status : BookingStatus
  pub base_amount : ℤ

pub record PriceHistory : Type 0 where
  pub booking_id : ℕ
  pub status : BookingStatus
  pub old_base_amount : ℤ
  pub base_amount : ℤ

pub record PriceRows : Type 0 where
  pub bookings : List PricedBooking
  pub history : List PriceHistory

pub record BookingPriceChange : Type 0 where
  pub id : Option ℕ
  pub booking_id : ℕ
  pub from_price : Option ℤ
  pub to_price : Option ℤ
  pub status : PriceChangeStatus

pub record PriceUpdateResp : Type 0 where
  pub edges : List BookingPriceChange
  pub modified : ℕ

pub data PriceError : Type 0 where
  duplicated_ids invalid_price no_booking_found : PriceError

-- `[...new Set(ids)]`.
unfoldable pub distinct : List ℕ → List ℕ
distinct [] = []
distinct (x ∷ xs) = let rest = distinct xs in if includes xs x then rest else x ∷ rest

-- An entry without prices.
abbrev pub no_change : Option ℕ → ℕ → PriceChangeStatus → BookingPriceChange
no_change id short_id status = record {
  id = id;
  booking_id = short_id;
  from_price = none;
  to_price = none;
  status = status;
}

abbrev pub is_changed : ℤ → ℤ → Bool
is_changed old new = leb 100 (abs_ℤ (new -ℤ old))

-- The booking's save and the row of the history.
unfoldable pub write_price : PricedBooking → ℤ → PriceRows → PriceRows
write_price b price rows = record {
  bookings =
      map (λ x. if x.id == b.id then record x { base_amount = to_fixed price 1 } else x)
        rows.bookings;
  history =
      record {
        booking_id = b.id;
        status = b.status;
        old_base_amount = b.base_amount;
        base_amount = to_fixed price 1;
      }
      ∷ rows.history;
}

abbrev pub changed_entry : PricedBooking → ℤ → BookingPriceChange
changed_entry b price = record {
  id = some b.id;
  booking_id = b.short_id;
  from_price = some b.base_amount;
  to_price = some (to_fixed price 1);
  status = PriceChangeStatus.price_changed;
}

-- A price that is new: `writes` tells whether the transaction goes through.
unfoldable pub change_price :
    Bool → Bool → PricedBooking → ℤ → PriceUpdateResp × PriceRows → PriceUpdateResp × PriceRows
unfolding write_price
change_price review writes b price (r, rows) =
    if review
    then (record r { edges = r.edges ++ (changed_entry b price ∷ []) }, rows)
    else (if writes
        then (
          record { edges = r.edges ++ (changed_entry b price ∷ []); modified = r.modified + 1 },
          write_price b price rows,
        )
        else (
          record r {
            edges =
                r.edges
                ++ (no_change (some b.id) b.short_id PriceChangeStatus.no_price_change ∷ []);
          },
          rows,
        ))

-- One booking of the loop, with the price that the payload has for it.
unfoldable pub price_booking :
    Bool
    → Bool
    → PricedBooking
    → Option ℤ
    → PriceUpdateResp × PriceRows
    → PriceUpdateResp × PriceRows
unfolding change_price
price_booking review writes b none (r, rows) = (
  record r {
    edges = r.edges ++ (no_change (some b.id) b.short_id PriceChangeStatus.invalid_price ∷ []);
  },
  rows,
)
price_booking review writes b (some price) (r, rows) =
    if is_changed b.base_amount price then change_price review writes b price (r, rows) else (
      record r {
        edges =
            r.edges ++ (no_change (some b.id) b.short_id PriceChangeStatus.no_price_change ∷ []);
      },
      rows,
    )

abbrev pub price_for : List PriceItem → ℕ → Option ℤ
price_for items short_id = elim (find (λ i. i.booking_id == short_id) items) [
  | none ↦ none
  | some i ↦ some i.price
]

-- The loop over the bookings that were found; `writes` is by the booking's id.
unfoldable pub price_loop :
    Bool
    → (ℕ → Bool)
    → List PriceItem
    → List PricedBooking
    → PriceUpdateResp × PriceRows
    → PriceUpdateResp × PriceRows
unfolding price_booking
price_loop review writes items [] r = r
price_loop review writes items (b ∷ bs) r =
    price_loop review writes items bs
      (price_booking review (writes b.id) b (price_for items b.short_id) r)

-- The bookings that the query finds.
abbrev pub found_bookings : List ℕ → PriceRows → List PricedBooking
found_bookings ids rows = filter (λ b. is_running b.status && includes ids b.short_id) rows.bookings

abbrev pub missing_ids : List PriceItem → List PricedBooking → List ℕ
missing_ids items bs =
    filter (λ x. not (includes (map (λ b. b.short_id) bs) x)) (map (λ i. i.booking_id) items)

-- The entries of the ids that no booking has come first.
unfoldable pub update_found :
    PriceUpdatePayload
    → (ℕ → Bool)
    → List PricedBooking
    → PriceRows
    → Result PriceError PriceUpdateResp × PriceRows
unfolding price_loop
update_found payload writes [] rows = (err no_booking_found, rows)
update_found payload writes (b ∷ bs) rows =
    let (r, rows') = price_loop payload.review_mode writes payload.data_items (b ∷ bs) (
      record {
        edges =
            map (λ x. no_change none x PriceChangeStatus.booking_not_found)
              (missing_ids payload.data_items (b ∷ bs));
        modified = 0;
      },
      rows,
    ) in
    (ok r, rows')

unfoldable pub update_booking_price :
    PriceUpdatePayload → (ℕ → Bool) → PriceRows → Result PriceError PriceUpdateResp × PriceRows
unfolding distinct update_found
update_booking_price payload writes rows =
    let ids = map (λ i. i.booking_id) payload.data_items in
    if not (length (distinct ids) == length ids)
    then (err duplicated_ids, rows)
    else (if any (λ i. ltb_ℤ i.price (pos 100)) payload.data_items
        then (err invalid_price, rows)
        else update_found payload writes (found_bookings ids rows) rows)
