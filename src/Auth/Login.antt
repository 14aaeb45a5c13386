-- ===== src/Auth/Login.antt =====
-- `login`, `refreshToken` and `loginAdminAsUser` of src/auth/auth.resolver.ts, on names that are
-- lower-cased and have their phone number put in order.
use space_next_door_core_api.Base.{
  ℕ, Bool, false, Option, none, some, List, ◌&&◌, not, if◌then◌else◌, ◌==◌, is_some,
}
use space_next_door_core_api.Auth.Otp.{OtpState, delete_otp, is_correct}
use space_next_door_core_api.Auth.Sessions.{
  SaveCalls, NewSession, validate, del_refresh_token, save_refresh_token,
}
use space_next_door_core_api.Users.{UserTable, UserError, upsert}
use space_next_door_core_api.Base.Result.{Result, err, ok}
use space_next_door_core_api.Auth.Types.{
  Platform, RefreshToken, AuthError, user_failed, something_wrong, language_not_supported,
  otp_invalid,
}

pub record AuthWorld : Type 0 where
  pub users : UserTable
  pub otp : OtpState
  pub tokens : List RefreshToken

-- `nodeEnv`; the other environments let nobody pass.
pub data NodeEnv : Type 0 where
  development staging production other : NodeEnv

-- The name and the password of the reviews of the App Store.
abbrev pub get_bypass_otp_login : NodeEnv → Option (ℕ × ℕ)
get_bypass_otp_login NodeEnv.development = some (6567777777, 111111)
get_bypass_otp_login NodeEnv.staging = some (6587777777, 222222)
get_bypass_otp_login NodeEnv.production = some (6597777777, 333333)
get_bypass_otp_login NodeEnv.other = none

abbrev pub is_bypass_of : ℕ → ℕ → Option (ℕ × ℕ) → Bool
is_bypass_of username otp none = false
is_bypass_of username otp (some (name, code)) = (name == username) && (otp == code)

-- `upsert` of the login's user: whether the name is an email, whether the rows are written, and
-- whether the payload's language is one of the table's.
pub record UpsertCalls : Type 0 where
  pub is_email : Bool
  pub written : Bool
  pub is_language_known : Bool

-- How the calls end: `user` is what `findOne` returns outside of `login`, none when it finds nobody.
pub record LoginCalls : Type 0 where
  pub user : Option ℕ
  pub delete : Bool
  pub save : SaveCalls

-- The part of a new session that does not depend on the user.
pub record NewToken : Type 0 where
  pub token_id : ℕ
  pub refresh_token : ℕ
  pub platform : Platform
  pub expires_at : ℕ

abbrev pub session_for : ℕ → NewToken → NewSession
session_for user_id n = record {
  token_id = n.token_id;
  refresh_token = n.refresh_token;
  user_id = user_id;
  platform = n.platform;
  expires_at = n.expires_at;
}

-- `then` of a call on the table, which keeps what the call has written.
abbrev pub with_tokens :
    UserTable
    → OtpState
    → ℕ
    → Result AuthError (Unit {0}) × List RefreshToken
    → Result AuthError ℕ × AuthWorld
with_tokens users otp user_id (ok x, tokens) =
    (ok user_id, record { users = users; otp = otp; tokens = tokens })
with_tokens users otp user_id (err e, tokens) =
    (err e, record { users = users; otp = otp; tokens = tokens })

module _ (hash : ℕ → ℕ) where
  -- The steps after the password and the user: what `upsert` has written stays when a later call
  -- throws.
  unfoldable pub open_session :
      LoginCalls
      → ℕ
      → NewToken
      → AuthWorld
      → Result UserError ℕ × UserTable
      → Result AuthError ℕ × AuthWorld
  open_session c username n s (err e, users) = (err user_failed, record s { users = users })
  open_session c username n s (ok user_id, users) =
      if c.delete
      then with_tokens users (delete_otp username s.otp).1 user_id
          (save_refresh_token hash c.save (session_for user_id n) s.tokens)
      else (err something_wrong, record s { users = users })

  module _ (create_hash : ℕ → ℕ) (verify_otp : ℕ → ℕ → Bool) where
    -- `login`, with the user's id in place of the signed token.
    unfoldable pub login :
        NodeEnv
        → Bool
        → UpsertCalls
        → LoginCalls
        → ℕ
        → ℕ
        → ℕ
        → NewToken
        → AuthWorld
        → Result AuthError ℕ × AuthWorld
    unfolding open_session
    login env is_language_ok uc c now username otp n s =
        if not is_language_ok
        then (err language_not_supported, s)
        else (if not (is_bypass_of username otp (get_bypass_otp_login env))
              && not (is_correct create_hash verify_otp now username otp s.otp)
            then (err otp_invalid, s)
            else open_session c username n s
                (upsert uc.written uc.is_language_known uc.is_email username none s.users))

  -- `loginAdminAsUser`: the destruction of the sessions of an undefined user throws.
  unfoldable pub login_admin_as_user :
      LoginCalls → NewToken → AuthWorld → Result AuthError ℕ × AuthWorld
  login_admin_as_user c n s = elim c.user [
    | none ↦ (err something_wrong, s)
    | some user_id ↦
        with_tokens s.users s.otp user_id
          (save_refresh_token hash c.save (session_for user_id n) s.tokens)
  ]

  -- The rotation of a session, with the deletion of the old token.
  unfoldable pub close_old :
      Bool
      → ℕ
      → ℕ
      → Result AuthError (Unit {0}) × List RefreshToken
      → Result AuthError ℕ × List RefreshToken
  close_old deleted user_id old (err e, rows) = (err e, rows)
  close_old deleted user_id old (ok x, rows) =
      if deleted
      then (ok user_id, del_refresh_token old user_id rows)
      else (err something_wrong, rows)

  abbrev pub rotate :
      LoginCalls
      → NewToken
      → List RefreshToken
      → Result AuthError (ℕ × ℕ)
      → Result AuthError ℕ × List RefreshToken
  rotate c n rows (err e) = (err e, rows)
  rotate c n rows (ok (user_id, old)) =
      if is_some c.user
      then close_old c.delete user_id old
          (save_refresh_token hash c.save (session_for user_id n) rows)
      else (err user_failed, rows)

  module _ (verify_jwt : ℕ → Option ℕ) (compare_hash : ℕ → ℕ → Bool) where
    -- `refreshToken`.
    unfoldable pub refresh_token :
        LoginCalls → ℕ → ℕ → NewToken → List RefreshToken → Result AuthError ℕ × List RefreshToken
    unfolding close_old
    refresh_token c access_token token n rows =
        rotate c n rows (validate verify_jwt compare_hash access_token token rows)
