-- ===== src/Auth/Otp.antt =====
-- src/auth/otp/otp.services.ts. The hash and its comparison are bcrypt's.
use space_next_door_core_api.Base.{
  ℕ, Bool, true, false, Option, none, some, List, [], ◌∷◌, ◌++◌, ◌&&◌, not, ◌+◌, if◌then◌else◌, ltb,
  ◌==◌, length, filter, find,
}
use space_next_door_core_api.Auth.Types.{
  Otp, AuthError, send_failed, something_wrong, otp_expiration,
}
use space_next_door_core_api.Base.Result.{Result, err, ok}

-- The rows, and what was sent, the newest first.
pub record OtpState : Type 0 where
  pub otps : List Otp
  pub sent : List (ℕ × ℕ)

-- How the calls of `send` end.
pub record SendCalls : Type 0 where
  pub destroy : Bool
  pub create_row : Bool
  pub channel_send : Bool
  pub commit : Bool

-- `destroy({ where: { username } })`.
unfoldable pub without_otps : ℕ → List Otp → List Otp
without_otps username otps = filter (λ o. not (o.username == username)) otps

-- `delete`, which tells whether there were rows.
unfoldable pub delete_otp : ℕ → OtpState → Bool × OtpState
unfolding without_otps
delete_otp username s = (
  ltb (length (without_otps username s.otps)) (length s.otps),
  record s { otps = without_otps username s.otps },
)

module _ (create_hash : ℕ → ℕ) (verify_otp : ℕ → ℕ → Bool) where
  -- The transaction of `send`: what is sent stays sent when the commit fails.
  unfoldable pub send_new : SendCalls → ℕ → ℕ → ℕ → OtpState → Result AuthError Bool × OtpState
  send_new c now username otp s =
      if not c.create_row
      then (err send_failed, s)
      else (if not c.channel_send
          then (err send_failed, s)
          else (if c.commit
              then (
                ok true,
                record {
                  otps =
                      s.otps
                      ++ (record {
                        username = username;
                        otp_hash = create_hash otp;
                        expires_at = now + otp_expiration;
                      }
                          ∷ []);
                  sent = (username, otp) ∷ s.sent;
                },
              )
              else (err send_failed, record s { sent = (username, otp) ∷ s.sent })))

  -- `send`, with the password that `create` generates.
  unfoldable pub send : SendCalls → ℕ → ℕ → ℕ → OtpState → Result AuthError Bool × OtpState
  unfolding send_new delete_otp
  send c now username otp s =
      if c.destroy
      then send_new c now username otp (delete_otp username s).1
      else (err something_wrong, s)

  abbrev pub is_row_correct : ℕ → ℕ → Option Otp → Bool
  is_row_correct now otp none = false
  is_row_correct now otp (some row) = verify_otp otp row.otp_hash && ltb now row.expires_at

  unfoldable pub is_correct : ℕ → ℕ → ℕ → OtpState → Bool
  is_correct now username otp s = is_row_correct now otp (find (λ o. o.username == username) s.otps)
