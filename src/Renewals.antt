-- ===== src/Renewals.antt =====
-- The renewals of a booking: src/bookings/renewals/renewal.service.ts, and what
-- src/bookings/booking.service.ts works out for the next one.
pub mod Payload
pub mod Projected
pub mod Schedule
pub mod Agreement
pub mod Months
