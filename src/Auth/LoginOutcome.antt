-- ===== src/Auth/LoginOutcome.antt =====
-- What a login leaves.
use space_next_door_core_api.Base.{
  ℕ, Bool, true, false, Option, none, some, List, ◌==◌, ◌≡◌, refl, ◌∙◌, ◌⊎◌, inl, inr, arith,
  Bool-cases,
}
use space_next_door_core_api.Auth.Login.{
  NewToken, NodeEnv, LoginCalls, UpsertCalls, AuthWorld, is_bypass_of, get_bypass_otp_login,
  with_tokens, session_for, login, open_session,
}
use space_next_door_core_api.Users.{UserTable, UserError}
use space_next_door_core_api.Users.Once.{UpsertLeaves, upsert-UpsertLeaves}
use space_next_door_core_api.Auth.Sessions.{session_row}
use space_next_door_core_api.Auth.Otp.{OtpState, is_correct, delete_otp}
use space_next_door_core_api.Auth.Types.{Platform, RefreshToken, AuthError}
use space_next_door_core_api.Auth.OtpLaws.{is_correct-delete_otp}
use space_next_door_core_api.Base.Result.{Result, ok, err}
use space_next_door_core_api.Auth.SessionMap.{session, update}
use space_next_door_core_api.Auth.SessionLaws.{SaveLeaves, save-SaveLeaves}

module _ (hash create_hash : ℕ → ℕ) (verify_otp : ℕ → ℕ → Bool) where
  -- What holds once the password is used: it opens the name no longer, and the sessions are as the
  -- save leaves them.
  abbrev pub Used :
      ℕ → NewToken → AuthWorld → AuthWorld → ℕ → ℕ → ℕ → ℕ → Platform → Option RefreshToken → Type 0
  Used username n s s' user_id now' otp' u p saved_row =
      (is_correct create_hash verify_otp now' username otp' s'.otp ≡ false)
      × (session s'.tokens u p ≡ update (session s.tokens) user_id n.platform saved_row u p)

  -- By how it ended.
  abbrev pub LoginLeaves :
      NodeEnv
      → Bool
      → ℕ
      → ℕ
      → ℕ
      → NewToken
      → AuthWorld
      → ℕ
      → ℕ
      → ℕ
      → Platform
      → Result AuthError ℕ × AuthWorld
      → Type 0
  LoginLeaves env is_email now username otp n s now' otp' u p (ok user_id, s') =
      UpsertLeaves is_email username s.users (ok user_id, s'.users)
      × ((is_bypass_of username otp (get_bypass_otp_login env) ≡ true)
          ⊎ (is_correct create_hash verify_otp now username otp s.otp ≡ true))
      × Used username n s s' user_id now' otp' u p (some (session_row hash (session_for user_id n)))
  LoginLeaves env is_email now username otp n s now' otp' u p (err e, s') =
      (s' ≡ s)
      ⊎ ((user_id : ℕ) × UpsertLeaves is_email username s.users (ok user_id, s'.users)
          × (((s'.otp ≡ s.otp) × (s'.tokens ≡ s.tokens))
              ⊎ (Used username n s s' user_id now' otp' u p none)
              ⊎ ((s'.tokens ≡ s.tokens)
                  × (is_correct create_hash verify_otp now' username otp' s'.otp ≡ false))))

  closed_after :
      (username now' otp' : ℕ) (s : OtpState)
      → is_correct create_hash verify_otp now' username otp' (delete_otp username s).1 ≡ false
  closed_after username now' otp' s =
      is_correct-delete_otp create_hash verify_otp now' username username otp' s
      ∙ (let k : (username == username) ≡ true = ground arith in rw k refl)

  saved-LoginLeaves :
      (env : NodeEnv) (is_email : Bool) (now username otp : ℕ) (n : NewToken) (s : AuthWorld)
      (now' otp' u : ℕ) (p : Platform) (user_id : ℕ) (users : UserTable)
      (r : Result AuthError (Unit {0}) × List RefreshToken)
      → SaveLeaves hash (session_for user_id n) s.tokens u p r
      → UpsertLeaves is_email username s.users (ok user_id, users)
      → (is_bypass_of username otp (get_bypass_otp_login env) ≡ true)
        ⊎ (is_correct create_hash verify_otp now username otp s.otp ≡ true)
      → LoginLeaves env is_email now username otp n s now' otp' u p
          (with_tokens users (delete_otp username s.otp).1 user_id r)
  saved-LoginLeaves env is_email now username otp n s now' otp' u p user_id users (ok x, rows) h k
        o =
      (k, o, (closed_after username now' otp' s.otp, h))
  saved-LoginLeaves env is_email now username otp n s now' otp' u p user_id users (err e, rows)
        (inl h) k o =
      inr (user_id, k, inr (inr (h, closed_after username now' otp' s.otp)))
  saved-LoginLeaves env is_email now username otp n s now' otp' u p user_id users (err e, rows)
        (inr h) k o =
      inr (user_id, k, inr (inl (closed_after username now' otp' s.otp, h)))

  open_session-LoginLeaves :
      (env : NodeEnv) (is_email : Bool) (now username otp : ℕ) (c : LoginCalls) (n : NewToken)
      (s : AuthWorld) (now' otp' u : ℕ) (p : Platform) (r : Result UserError ℕ × UserTable)
      → UpsertLeaves is_email username s.users r
      → (is_bypass_of username otp (get_bypass_otp_login env) ≡ true)
        ⊎ (is_correct create_hash verify_otp now username otp s.otp ≡ true)
      → LoginLeaves env is_email now username otp n s now' otp' u p
          (open_session hash c username n s r)
  unfolding open_session
  open_session-LoginLeaves env is_email now username otp c n s now' otp' u p (err e, users) k o =
      inl (λ i. record s { users = k i })
  open_session-LoginLeaves env is_email now username otp c n s now' otp' u p (ok user_id, users) k
        o =
      elim (Bool-cases c.delete) [
        | inl e ↦ rw e (
            saved-LoginLeaves env is_email now username otp n s now' otp' u p user_id users _
              (save-SaveLeaves hash c.save (session_for user_id n) s.tokens u p) k o)
        | inr e ↦ rw e (inr (user_id, k, inl (refl, refl)))
      ]

  -- For every environment, name and way that the calls can end, and for every later time, password,
  -- user and platform: a success is of the user that the name finds afterwards, which it found before
  -- or which is the one row added, with the password of the reviews or with one that was sent and has
  -- not run out; no password opens the name any longer, and the user's session on its platform is
  -- the new one, all others being as they were. A throw has changed nothing; or that user is there
  -- all the same, and either passwords and sessions are as before, or the passwords of the name are
  -- gone, and with them at most the session of that user on that platform.
  pub login-LoginLeaves :
      (env : NodeEnv) (is_language_ok : Bool) (uc : UpsertCalls) (c : LoginCalls)
      (now username otp : ℕ) (n : NewToken) (s : AuthWorld) (now' otp' u : ℕ) (p : Platform)
      → LoginLeaves env uc.is_email now username otp n s now' otp' u p
          (login hash create_hash verify_otp env is_language_ok uc c now username otp n s)
  unfolding login
  login-LoginLeaves env false uc c now username otp n s now' otp' u p = inl refl
  login-LoginLeaves env true uc c now username otp n s now' otp' u p =
      let k = upsert-UpsertLeaves uc.written uc.is_language_known uc.is_email username s.users in
      elim (Bool-cases (is_bypass_of username otp (get_bypass_otp_login env))) [
        | inl e ↦ rw e (
            open_session-LoginLeaves env uc.is_email now username otp c n s now' otp' u p _ k
              (inl e))
        | inr e ↦ elim (Bool-cases (is_correct create_hash verify_otp now username otp s.otp)) [
          | inl q ↦
              rw (e, q)
                (open_session-LoginLeaves env uc.is_email now username otp c n s now' otp' u p _ k
                  (inr q))
          | inr q ↦ rw (e, q) (inl refl)
        ]
      ]
