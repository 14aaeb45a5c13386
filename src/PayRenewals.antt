-- ===== src/PayRenewals.antt =====
-- The job that charges renewals, src/cron-job/pay-renewals/pay-renewal.cron.ts.
pub mod Retry
pub mod RetryOutcome
pub mod Liveness
pub mod Amounts
pub mod Renew
pub mod RenewOutcome
