-- ===== src/Auth/SessionMap.antt =====
-- The table of refresh tokens as a map from a user and a platform to a session.
use space_next_door_core_api.Base.{
  ℕ, Option, none, some, List, [], ◌∷◌, ◌&&◌, if◌then◌else◌, ◌==◌, find, ◌≡◌,
}
use space_next_door_core_api.Auth.Types.{RefreshToken, Platform, platform_code}
use space_next_door_core_api.Auth.Sessions.{
  SaveCalls, save_refresh_token, NewSession, is_session_of, is_token_of, del_refresh_token,
  session_row,
}

-- The calls that change the table.
pub data SessionOp : Type 0 where
  save : SaveCalls → NewSession → SessionOp
  del : ℕ → ℕ → SessionOp

-- The session of a user on a platform.
unfoldable pub session : List RefreshToken → ℕ → Platform → Option RefreshToken
session rows u p = find (is_session_of u p) rows

abbrev pub SessionMap : Type 0
SessionMap = ℕ → Platform → Option RefreshToken

-- One key's value is replaced.
abbrev pub update : SessionMap → ℕ → Platform → Option RefreshToken → SessionMap
update f u p r u' p' = if (u == u') && (platform_code p == platform_code p') then r else f u' p'

-- A session whose token is the one given is dropped.
abbrev pub drop_token : ℕ → ℕ → Option RefreshToken → Option RefreshToken
drop_token token_id user_id none = none
drop_token token_id user_id (some r) = if is_token_of token_id user_id r then none else some r

-- Every user has at most one session on a platform.
abbrev pub IsMap : List RefreshToken → Type 0
IsMap [] = Unit {0}
IsMap (r ∷ rows) = (session rows r.user_id r.platform ≡ none) × IsMap rows

module _ (hash : ℕ → ℕ) where
  unfoldable pub run_sessions : List SessionOp → List RefreshToken → List RefreshToken
  run_sessions [] rows = rows
  run_sessions (save c n ∷ ops) rows = run_sessions ops (save_refresh_token hash c n rows).1
  run_sessions (del token_id user_id ∷ ops) rows =
      run_sessions ops (del_refresh_token token_id user_id rows)

  -- What a save stores: nothing when it fails after the old session is gone.
  abbrev pub saved : SaveCalls → NewSession → Option RefreshToken
  saved c n = if c.hash && c.create then some (session_row hash n) else none

  -- The same calls on a map.
  unfoldable pub replay : List SessionOp → SessionMap → SessionMap
  replay [] f = f
  replay (save c n ∷ ops) f =
      replay ops (if c.destroy then update f n.user_id n.platform (saved c n) else f)
  replay (del token_id user_id ∷ ops) f = replay ops (λ u p. drop_token token_id user_id (f u p))
