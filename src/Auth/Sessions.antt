-- ===== src/Auth/Sessions.antt =====
-- src/auth/refresh_token/refresh-token.service.ts: the table of refresh tokens. The hash and its
-- comparison are bcrypt's, and the check of an access token is the JWT library's.
use space_next_door_core_api.Base.{
  ℕ, Bool, Option, none, some, List, [], ◌∷◌, ◌++◌, ◌&&◌, not, if◌then◌else◌, ◌==◌, filter, find,
}
use space_next_door_core_api.Auth.Types.{
  RefreshToken, Platform, platform_code, AuthError, unauthorized, something_wrong,
}
use space_next_door_core_api.Base.Result.{Result, err, ok}

-- How the calls of `saveRefreshToken` end.
pub record SaveCalls : Type 0 where
  pub destroy : Bool
  pub hash : Bool
  pub create : Bool

-- What a session is made of: its new token, its user, its platform and when it expires.
pub record NewSession : Type 0 where
  pub token_id : ℕ
  pub refresh_token : ℕ
  pub user_id : ℕ
  pub platform : Platform
  pub expires_at : ℕ

abbrev pub is_session_of : ℕ → Platform → RefreshToken → Bool
is_session_of user_id platform r =
    (r.user_id == user_id) && (platform_code r.platform == platform_code platform)

abbrev pub is_token_of : ℕ → ℕ → RefreshToken → Bool
is_token_of token_id user_id r = (r.token_id == token_id) && (r.user_id == user_id)

-- `destroy({ where: { user_id, platform } })`.
unfoldable pub without_session : ℕ → Platform → List RefreshToken → List RefreshToken
without_session user_id platform rows = filter (λ r. not (is_session_of user_id platform r)) rows

-- `delRefreshToken`.
unfoldable pub del_refresh_token : ℕ → ℕ → List RefreshToken → List RefreshToken
del_refresh_token token_id user_id rows = filter (λ r. not (is_token_of token_id user_id r)) rows

module _ (hash : ℕ → ℕ) where
  abbrev pub session_row : NewSession → RefreshToken
  session_row n = record {
    token_id = n.token_id;
    refresh_token_hash = hash n.refresh_token;
    user_id = n.user_id;
    refresh_token_expires_at = n.expires_at;
    platform = n.platform;
  }

  -- `saveRefreshToken`, without a transaction.
  unfoldable pub save_refresh_token :
      SaveCalls → NewSession → List RefreshToken → Result AuthError (Unit {0}) × List RefreshToken
  unfolding without_session
  save_refresh_token c n rows =
      if not c.destroy
      then (err something_wrong, rows)
      else (let rest = without_session n.user_id n.platform rows in
          if c.hash && c.create
          then (ok tt, rest ++ (session_row n ∷ []))
          else (err something_wrong, rest))

module _ (verify_jwt : ℕ → Option ℕ) (compare_hash : ℕ → ℕ → Bool) where
  abbrev pub check_refresh_token : ℕ → Option RefreshToken → Result AuthError (ℕ × ℕ)
  check_refresh_token refresh_token none = err unauthorized
  check_refresh_token refresh_token (some r) =
      if compare_hash refresh_token r.refresh_token_hash
      then ok (r.user_id, r.token_id)
      else err unauthorized

  abbrev pub validate_token : ℕ → List RefreshToken → Option ℕ → Result AuthError (ℕ × ℕ)
  validate_token refresh_token rows none = err unauthorized
  validate_token refresh_token rows (some jti) =
      check_refresh_token refresh_token (find (λ r. r.token_id == jti) rows)

  -- `validate`: the user's id and the id of the old token. The access token's id is none when the
  -- access token is refused.
  unfoldable pub validate : ℕ → ℕ → List RefreshToken → Result AuthError (ℕ × ℕ)
  validate access_token refresh_token rows =
      validate_token refresh_token rows (verify_jwt access_token)
