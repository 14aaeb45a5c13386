-- ===== src/Terminations.antt =====
-- The termination of a booking, src/terminations/termination.service.ts.
pub mod Dues
pub mod Request
pub mod Bounds
pub mod Payment
pub mod Outcome
pub mod Job
pub mod JobOutcome
