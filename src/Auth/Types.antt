-- ===== src/Auth/Types.antt =====
-- The rows of src/auth: names, passwords, hashes and tokens are compared only, and stand as numbers.
use space_next_door_core_api.Base.{ℕ}

pub data AuthError : Type 0 where
  send_failed otp_invalid language_not_supported something_wrong unauthorized : AuthError
  user_failed : AuthError

-- A row of the one-time passwords; times are milliseconds.
pub record Otp : Type 0 where
  pub username : ℕ
  pub otp_hash : ℕ
  pub expires_at : ℕ

pub data Platform : Type 0 where
  web_desktop web_mobile ios android : Platform

abbrev pub platform_code : Platform → ℕ
platform_code Platform.web_desktop = 0
platform_code Platform.web_mobile = 1
platform_code Platform.ios = 2
platform_code Platform.android = 3

-- A row of the refresh tokens.
pub record RefreshToken : Type 0 where
  pub token_id : ℕ
  pub refresh_token_hash : ℕ
  pub user_id : ℕ
  pub refresh_token_expires_at : ℕ
  pub platform : Platform

-- The milliseconds of `OTP_EXPIRATION_MINS`.
abbrev pub otp_expiration : ℕ
otp_expiration = 60_000
