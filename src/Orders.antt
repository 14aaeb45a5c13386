-- ===== src/Orders.antt =====
-- src/orders/order.service.ts: the orders of pick-ups, with the delivery partner and Stripe.
pub mod Types
pub mod Pay
pub mod Cancel
pub mod Create
pub mod PayOutcome
pub mod CreateOutcome
pub mod CancelOutcome
pub mod WithBooking
pub mod Steps
