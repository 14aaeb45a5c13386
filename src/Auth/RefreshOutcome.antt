-- ===== src/Auth/RefreshOutcome.antt =====
-- What the rotation of a session leaves.
use space_next_door_core_api.Base.{
  ℕ, Bool, true, false, Option, none, some, List, [], ◌∷◌, ◌++◌, ◌&&◌, ◌==◌, is_some, find, ◌≡◌,
  refl, sym, ap, ◌∙◌, ◌⊎◌, inl, inr, arith, Bool-cases, find_sound, find-filter_keeps,
  find-filter_drops, find_last,
}
use space_next_door_core_api.Auth.Login.{
  NewToken, session_for, refresh_token, close_old, LoginCalls, rotate,
}
use space_next_door_core_api.Auth.Sessions.{
  validate, is_token_of, without_session, session_row, check_refresh_token, validate_token,
  del_refresh_token, save_refresh_token,
}
use space_next_door_core_api.Auth.Types.{RefreshToken, AuthError}
use space_next_door_core_api.Base.Result.{Result, ok, err}
use space_next_door_core_api.Auth.SessionLaws.{find-filter-none}

module _ (hash : ℕ → ℕ) (verify_jwt : ℕ → Option ℕ) (compare_hash : ℕ → ℕ → Bool) where
  -- By how it ended: the old token is gone, and the new one stands for the same user; or the user's
  -- session is as the failed save leaves it, or the new session stands beside the old one.
  abbrev pub RefreshLeaves :
      ℕ → ℕ → ℕ → NewToken → List RefreshToken → Result AuthError ℕ × List RefreshToken → Type 0
  RefreshLeaves access_token token access_token' n rows (ok user_id, rows') =
      (old : ℕ) × (validate verify_jwt compare_hash access_token token rows ≡ ok (user_id, old))
      × (find (is_token_of old user_id) rows' ≡ none)
      × (validate verify_jwt compare_hash access_token' n.refresh_token rows'
          ≡ ok (user_id, n.token_id))
  RefreshLeaves access_token token access_token' n rows (err e, rows') =
      (rows' ≡ rows)
      ⊎ ((user_id : ℕ) × (old : ℕ) × (validate verify_jwt compare_hash access_token token rows
            ≡ ok (user_id, old))
          × ((rows' ≡ without_session user_id n.platform rows)
              ⊎ (rows'
                  ≡ without_session user_id n.platform rows
                    ++ (session_row hash (session_for user_id n) ∷ []))))

  check_found :
      (token : ℕ) (o : Option RefreshToken) (user_id old : ℕ)
      → check_refresh_token verify_jwt compare_hash token o ≡ ok (user_id, old)
      → (r : RefreshToken) × (o ≡ some r) × (r.token_id ≡ old)
  check_found token none user_id old h = grind arith
  check_found token (some r) user_id old h =
      elim (Bool-cases (compare_hash token r.refresh_token_hash)) [
        | inl e ↦ (r, refl, grind arith)
        | inr e ↦ grind arith
      ]

  -- The old token's id is in the table, so a fresh id is another one.
  fresh_other :
      (token new : ℕ) (rows : List RefreshToken) (jti : Option ℕ) (user_id old : ℕ)
      → validate_token verify_jwt compare_hash token rows jti ≡ ok (user_id, old)
      → find (λ r. r.token_id == new) rows ≡ none
      → (new == old) ≡ false
  fresh_other token new rows none user_id old h f = grind arith
  fresh_other token new rows (some jti) user_id old h f =
      let k = check_found token (find (λ r. r.token_id == jti) rows) user_id old h in
      let s = find_sound (λ r. r.token_id == jti) rows k.1 in
      elim (Bool-cases (new == old)) [
        | inl e ↦
            let q : jti ≡ new = ground (arith, k.2) in
            let b : some k.0 ≡ none = sym k.1 ∙ ap (λ t. find (λ r. r.token_id == t) rows) q ∙ f in
            grind arith
        | inr e ↦ e
      ]

  -- The new token opens the table that the rotation leaves.
  new_opens :
      (access_token' user_id old : ℕ) (n : NewToken) (rows : List RefreshToken)
      → verify_jwt access_token' ≡ some n.token_id
      → compare_hash n.refresh_token (hash n.refresh_token) ≡ true
      → find (λ r. r.token_id == n.token_id) rows ≡ none
      → (n.token_id == old) ≡ false
      → validate verify_jwt compare_hash access_token' n.refresh_token (
          del_refresh_token old user_id (
            without_session user_id n.platform rows
            ++ (session_row hash (session_for user_id n) ∷ [])))
        ≡ ok (user_id, n.token_id)
  unfolding validate del_refresh_token without_session
  new_opens access_token' user_id old n rows v c f o =
      let row = session_row hash (session_for user_id n) in
      let is_new : RefreshToken → Bool = λ r. r.token_id == n.token_id in
      let rest = without_session user_id n.platform rows in
      let e : find is_new (del_refresh_token old user_id (rest ++ (row ∷ []))) ≡ some row =
        find-filter_keeps is_new _ (rest ++ (row ∷ [])) (λ r h. ground arith)
        ∙ find_last is_new rest row (find-filter-none is_new _ rows f)
        ∙ (let k : is_new row ≡ true = ground arith in rw k refl) in
      ap (validate_token verify_jwt compare_hash n.refresh_token _) v
      ∙ ap (check_refresh_token verify_jwt compare_hash n.refresh_token) e
      ∙ rw c refl

  old_closed :
      (old user_id : ℕ) (rows : List RefreshToken)
      → find (is_token_of old user_id) (del_refresh_token old user_id rows) ≡ none
  unfolding del_refresh_token
  old_closed old user_id rows =
      find-filter_drops (is_token_of old user_id) _ rows (λ r h. rw h refl)

  rotate-RefreshLeaves :
      (c : LoginCalls) (access_token token access_token' : ℕ) (n : NewToken)
      (rows : List RefreshToken) (r : Result AuthError (ℕ × ℕ))
      → validate verify_jwt compare_hash access_token token rows ≡ r
      → verify_jwt access_token' ≡ some n.token_id
      → compare_hash n.refresh_token (hash n.refresh_token) ≡ true
      → find (λ r. r.token_id == n.token_id) rows ≡ none
      → RefreshLeaves access_token token access_token' n rows (rotate hash c n rows r)
  unfolding save_refresh_token close_old validate
  rotate-RefreshLeaves c access_token token access_token' n rows (err e) h v k f = inl refl
  rotate-RefreshLeaves c access_token token access_token' n rows (ok (user_id, old)) h v k f =
      elim (Bool-cases (is_some c.user)) [
        | inl e ↦ rw e (elim (Bool-cases c.save.destroy) [
          | inl d ↦ rw d (elim (Bool-cases (c.save.hash && c.save.create)) [
            | inl w ↦ rw w (elim (Bool-cases c.delete) [
              | inl l ↦ rw l (
                old,
                h,
                old_closed old user_id _,
                new_opens access_token' user_id old n rows v k f
                    (fresh_other token n.token_id rows (verify_jwt access_token) user_id old h f),
              )
              | inr l ↦ rw l (inr (user_id, old, h, inr refl))
            ])
            | inr w ↦ rw w (inr (user_id, old, h, inl refl))
          ])
          | inr d ↦ rw d (inl refl)
        ])
        | inr e ↦ rw e (inl refl)
      ]

  -- For every way that the calls can end, where the id of the new token is not in the table, the JWT
  -- library reads it from the new access token, and bcrypt accepts the new refresh token against its
  -- hash: after a success the tokens were valid, the old token is no longer in the table, and the new
  -- tokens are valid for the same user; a throw has changed nothing, or the tokens were valid and the
  -- user's session on the platform is gone, or it is replaced.
  pub refresh_token-RefreshLeaves :
      (c : LoginCalls) (access_token token access_token' : ℕ) (n : NewToken)
      (rows : List RefreshToken)
      → verify_jwt access_token' ≡ some n.token_id
      → compare_hash n.refresh_token (hash n.refresh_token) ≡ true
      → find (λ r. r.token_id == n.token_id) rows ≡ none
      → RefreshLeaves access_token token access_token' n rows
          (refresh_token hash verify_jwt compare_hash c access_token token n rows)
  unfolding refresh_token
  refresh_token-RefreshLeaves c access_token token access_token' n rows v k f =
      rotate-RefreshLeaves c access_token token access_token' n rows _ refl v k f
