-- ===== src/ChangeUnit.antt =====
-- `changeBookingUnit` and `payUnitChangeAmount` of src/bookings/booking.service.ts.
pub mod Request
pub mod Swap
pub mod Change
pub mod Run
pub mod ChangeOutcome
pub mod OldRefunds
pub mod SwapBounds
