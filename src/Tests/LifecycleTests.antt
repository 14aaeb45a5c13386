-- ===== src/Tests/LifecycleTests.antt =====
-- The life cycle.
use space_next_door_core_api.Base.Int.{pos}
use space_next_door_core_api.Base.{true, some, List, [], ◌∷◌, ◌≡◌, refl}
use space_next_door_core_api.Lifecycle.{active_bookings_cron, BookingRow}
use space_next_door_core_api.Catalog.{BookingStatus}
use space_next_door_core_api.Lifecycle.Steps.{is_later, Steps_later, next, done, move_in_out}
use space_next_door_core_api.Lifecycle.Jobs.{active_row}

abbrev row : BookingStatus → BookingRow
row s = record {
  id = 1;
  status = s;
  created_at = pos 1_000_000;
  move_in_date = pos 5_000_000;
  move_out_date = some (pos 9_000_000);
}

abbrev table : List BookingRow
table = row BookingStatus.reserved ∷ row BookingStatus.confirmed ∷ row BookingStatus.active ∷ []

moved :
    active_bookings_cron true (pos 9_000_000) (pos 9_000_000) table
    ≡ row BookingStatus.reserved ∷ row BookingStatus.completed ∷ row BookingStatus.completed ∷ []
unfolding active_bookings_cron
moved = refl

abbrev moved_in : BookingRow
moved_in = active_row true (pos 6_000_000) (pos 6_000_000) (row BookingStatus.confirmed)

abbrev moved_out : BookingRow
moved_out = active_row true (pos 9_500_000) (pos 9_500_000) moved_in

Steps_later_example : is_later BookingStatus.confirmed moved_out.status ≡ true
Steps_later_example = Steps_later {b = row BookingStatus.confirmed} {c = moved_out} (
    next (next done (move_in_out true (pos 6_000_000) (pos 6_000_000)))
      (move_in_out true (pos 9_500_000) (pos 9_500_000)))
