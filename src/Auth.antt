-- ===== src/Auth.antt =====
-- src/auth: one-time passwords, the sessions of refresh tokens, and the logins that use them.
pub mod Types
pub mod Otp
pub mod OtpLaws
pub mod Sessions
pub mod SessionMap
pub mod SessionLaws
pub mod Login
pub mod LoginOutcome
pub mod RefreshOutcome
