-- ===== src/Payments.antt =====
-- Charges and refunds: src/stripe/stripe.service.ts, src/refunds/refund.service.ts and `payBooking`
-- of src/bookings/booking.service.ts. Stripe's API and Sequelize's transactions are third-party:
-- how each call ends is an argument.
pub mod Stripe
pub mod World
pub mod PayBooking
pub mod Refund
pub mod Ledger
