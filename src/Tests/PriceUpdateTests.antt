-- ===== src/Tests/PriceUpdateTests.antt =====
-- New prices of bookings.
use space_next_door_core_api.Base.{true, false, List, [], ◌∷◌, map, ◌≡◌, refl}
use space_next_door_core_api.Catalog.{BookingStatus}
use space_next_door_core_api.PriceUpdate.{update_booking_price, PriceRows, PriceItem}
use space_next_door_core_api.PriceUpdate.Preview.{Previews, priced, update_booking_price-Previews}
use space_next_door_core_api.Base.Int.{pos, ◌-ℤ◌}
use space_next_door_core_api.Base.Round.{to_fixed}

abbrev priced_rows : PriceRows
priced_rows = record {
  bookings =
      record { id = 1; short_id = 101; status = BookingStatus.active; base_amount = pos 30_000 }
      ∷ record {
        id = 2;
        short_id = 102;
        status = BookingStatus.cancelled;
        base_amount = pos 20_000;
      }
      ∷ [];
  history = [];
}

abbrev new_prices : List PriceItem
new_prices =
    record { booking_id = 101; price = pos 33_000 }
    ∷ record { booking_id = 102; price = pos 25_000 }
    ∷ []

-- The cancelled booking is not found.
new_prices_run :
    let (r, rows) = update_booking_price (priced new_prices false) (λ id. true) priced_rows in
    map (λ b. b.base_amount) rows.bookings ≡ pos 33_000 ∷ pos 20_000 ∷ []
unfolding update_booking_price ◌-ℤ◌ to_fixed
new_prices_run = refl

update_booking_price-Previews_example :
    Previews priced_rows
      (update_booking_price (priced new_prices true) (λ id. true) priced_rows)
      (update_booking_price (priced new_prices false) (λ id. true) priced_rows)
update_booking_price-Previews_example = update_booking_price-Previews new_prices priced_rows
