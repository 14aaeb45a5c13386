-- ===== src/Tests/AuthTests.antt =====
-- Passwords, sessions and logins, with a hash that adds one.
use space_next_door_core_api.Base.{
  ℕ, zero, suc, Bool, true, false, Option, none, some, List, [], ◌∷◌, ◌+◌, ◌==◌, ◌≡◌, refl,
}
use space_next_door_core_api.Auth.Login.{
  NodeEnv, LoginCalls, UpsertCalls, AuthWorld, refresh_token, NewToken, login, session_for,
}
use space_next_door_core_api.Auth.Types.{Platform, RefreshToken}
use space_next_door_core_api.Auth.RefreshOutcome.{RefreshLeaves, refresh_token-RefreshLeaves}
use space_next_door_core_api.Auth.SessionMap.{
  SessionOp, IsMap, run_sessions, save, session, replay, del,
}
use space_next_door_core_api.Auth.Otp.{SendCalls, OtpState, is_correct, send}
use space_next_door_core_api.Auth.Sessions.{
  NewSession, SaveCalls, save_refresh_token, session_row, validate, without_session,
  del_refresh_token,
}
use space_next_door_core_api.Auth.OtpLaws.{SendOpens, send-SendOpens}
use space_next_door_core_api.Auth.LoginOutcome.{LoginLeaves, login-LoginLeaves}
use space_next_door_core_api.Auth.SessionLaws.{run_sessions_refines}
use space_next_door_core_api.Base.Result.{ok}

abbrev plus_one : ℕ → ℕ
plus_one x = x + 1

abbrev is_plus_one : ℕ → ℕ → Bool
is_plus_one x h = x + 1 == h

abbrev no_otps : OtpState
no_otps = record { otps = []; sent = [] }

abbrev send_calls : SendCalls
send_calls = record { destroy = true; create_row = true; channel_send = true; commit = true }

send-SendOpens_example :
    SendOpens plus_one is_plus_one 1000 65 123456 no_otps 60_999 65 123456
      (send plus_one is_plus_one send_calls 1000 65 123456 no_otps)
send-SendOpens_example =
    send-SendOpens plus_one is_plus_one send_calls 1000 65 123456 60_999 65 123456 no_otps refl

one_minute :
    is_correct plus_one is_plus_one 60_999 65 123456
      (send plus_one is_plus_one send_calls 1000 65 123456 no_otps).1
    ≡ true
unfolding is_correct send
one_minute = refl

too_late :
    is_correct plus_one is_plus_one 61_000 65 123456
      (send plus_one is_plus_one send_calls 1000 65 123456 no_otps).1
    ≡ false
unfolding is_correct send
too_late = refl

abbrev save_calls : SaveCalls
save_calls = record { destroy = true; hash = true; create = true }

abbrev session_on : ℕ → Platform → NewSession
session_on t p = record {
  token_id = t;
  refresh_token = t + 100;
  user_id = 5;
  platform = p;
  expires_at = 9000;
}

abbrev session_ops : List SessionOp
session_ops =
    save save_calls (session_on 1 Platform.ios)
    ∷ save save_calls (session_on 2 Platform.android)
    ∷ save save_calls (session_on 3 Platform.ios)
    ∷ del 2 5
    ∷ []

run_sessions_refines_example :
    IsMap (run_sessions plus_one session_ops [])
    × (session (run_sessions plus_one session_ops []) ≡ replay plus_one session_ops (session []))
run_sessions_refines_example = run_sessions_refines plus_one session_ops [] tt

one_session :
    run_sessions plus_one session_ops [] ≡ session_row plus_one (session_on 3 Platform.ios) ∷ []
unfolding run_sessions save_refresh_token without_session del_refresh_token
one_session = refl

abbrev auth_world : AuthWorld
auth_world = record {
  users = record { users = []; next_id = 5 };
  otp = (send plus_one is_plus_one send_calls 1000 65 123456 no_otps).1;
  tokens = run_sessions plus_one session_ops [];
}

abbrev login_calls : LoginCalls
login_calls = record { user = some 5; delete = true; save = save_calls }

abbrev upsert_calls : UpsertCalls
upsert_calls = record { is_email = false; written = true; is_language_known = true }

abbrev fresh_token : NewToken
fresh_token = record {
  token_id = 8;
  refresh_token = 108;
  platform = Platform.ios;
  expires_at = 9500;
}

login-LoginLeaves_example :
    LoginLeaves plus_one plus_one is_plus_one NodeEnv.production false 2000 65 123456 fresh_token
      auth_world 3000 123456 5 Platform.ios
      (login plus_one plus_one is_plus_one NodeEnv.production true upsert_calls login_calls 2000 65
        123456 fresh_token auth_world)
login-LoginLeaves_example =
    login-LoginLeaves plus_one plus_one is_plus_one NodeEnv.production true upsert_calls login_calls
      2000 65 123456 fresh_token auth_world 3000 123456 5 Platform.ios

-- An access token carries its id, and 0 is refused.
abbrev jwt_id : ℕ → Option ℕ
jwt_id zero = none
jwt_id (suc t) = some (suc t)

abbrev open_sessions : List RefreshToken
open_sessions = session_row plus_one (session_on 3 Platform.ios) ∷ []

refresh_token-RefreshLeaves_example :
    RefreshLeaves plus_one jwt_id is_plus_one 3 103 8 fresh_token open_sessions
      (refresh_token plus_one jwt_id is_plus_one login_calls 3 103 fresh_token open_sessions)
refresh_token-RefreshLeaves_example =
    refresh_token-RefreshLeaves plus_one jwt_id is_plus_one login_calls 3 103 8 fresh_token
      open_sessions refl refl refl

rotated :
    refresh_token plus_one jwt_id is_plus_one login_calls 3 103 fresh_token open_sessions
    ≡ (ok 5, session_row plus_one (session_for 5 fresh_token) ∷ [])
unfolding refresh_token validate save_refresh_token without_session del_refresh_token
rotated = refl
