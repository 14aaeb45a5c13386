-- ===== src/Auth/SessionLaws.antt =====
-- The table of refresh tokens is a map from a user and a platform to a session.
use space_next_door_core_api.Base.{
  ℕ, Bool, true, false, none, some, List, [], ◌∷◌, ◌++◌, ◌&&◌, not, if◌then◌else◌, ◌==◌, filter,
  find, ◌≡◌, refl, ap, ◌∙◌, ◌⊎◌, inl, inr, arith, Bool-cases, find_other, find-filter_drops,
  find-filter_keeps, find_last,
}
use space_next_door_core_api.Auth.SessionMap.{
  session, IsMap, drop_token, run_sessions, replay, update, saved, SessionOp, save, del,
}
use space_next_door_core_api.Auth.Types.{Platform, RefreshToken, platform_code, AuthError}
use space_next_door_core_api.Auth.Sessions.{
  is_session_of, without_session, del_refresh_token, save_refresh_token, is_token_of, SaveCalls,
  NewSession, session_row,
}
use space_next_door_core_api.Base.Result.{Result, ok, err}

abbrev same : ℕ → Platform → ℕ → Platform → Bool
same u p u' p' = (u == u') && (platform_code p == platform_code p')

session-without_session :
    (u : ℕ) (p : Platform) (u' : ℕ) (p' : Platform) (rows : List RefreshToken)
    → session (without_session u p rows) u' p'
      ≡ (if same u p u' p' then none else session rows u' p')
unfolding session without_session
session-without_session u p u' p' rows = elim (Bool-cases (same u p u' p')) [
  | inl e ↦ rw e (find-filter_drops (is_session_of u' p') _ rows (λ r h. ground arith))
  | inr e ↦ rw e (find-filter_keeps (is_session_of u' p') _ rows (λ r h. ground arith))
]

pub find-filter-none :
    {A : Type 0} (p q : A → Bool) (xs : List A) → find p xs ≡ none → find p (filter q xs) ≡ none
find-filter-none p q [] h = refl
find-filter-none p q (x ∷ xs) h = ground (arith, find-filter-none p q xs)

filter-IsMap :
    (q : RefreshToken → Bool) (rows : List RefreshToken) → IsMap rows → IsMap (filter q rows)
unfolding session
filter-IsMap q [] m = tt
filter-IsMap q (r ∷ rows) (e, m) = elim (Bool-cases (q r)) [
  | inl h ↦
      rw h (find-filter-none (is_session_of r.user_id r.platform) q rows e, filter-IsMap q rows m)
  | inr h ↦ rw h (filter-IsMap q rows m)
]

session_sym :
    (x r : RefreshToken)
    → is_session_of r.user_id r.platform x ≡ false
    → is_session_of x.user_id x.platform r ≡ false
session_sym x r h = ground arith

none_parts :
    {A : Type 0} (p : A → Bool) (x : A) (xs : List A)
    → find p (x ∷ xs) ≡ none
    → (p x ≡ false) × (find p xs ≡ none)
none_parts p x xs h = elim (Bool-cases (p x)) [ inl e ↦ ground arith | inr e ↦ (e, ground arith) ]

last-IsMap :
    (rows : List RefreshToken) (r : RefreshToken)
    → session rows r.user_id r.platform ≡ none
    → IsMap rows
    → IsMap (rows ++ (r ∷ []))
unfolding session
last-IsMap [] r h m = (refl, tt)
last-IsMap (x ∷ rows) r h (e, m) =
    let k = none_parts (is_session_of r.user_id r.platform) x rows h in
    (
      find_other (is_session_of x.user_id x.platform) rows r (session_sym x r k.0) ∙ e,
      last-IsMap rows r k.1 m,
    )

session_new :
    (u : ℕ) (p : Platform) (u' : ℕ) (p' : Platform) (rows : List RefreshToken) (r : RefreshToken)
    → r.user_id ≡ u
    → r.platform ≡ p
    → session (without_session u p rows ++ (r ∷ [])) u' p'
      ≡ (if same u p u' p' then some r else session rows u' p')
unfolding session
session_new u p u' p' rows r h k = elim (Bool-cases (same u p u' p')) [
  | inl e ↦ rw e (
      find_last (is_session_of u' p') (without_session u p rows) r
        (session-without_session u p u' p' rows ∙ rw e refl)
      ∙ (let q : is_session_of u' p' r ≡ true = rw h (rw k e) in rw q refl))
  | inr e ↦ rw e (
      find_other (is_session_of u' p') (without_session u p rows) r (rw h (rw k e))
      ∙ session-without_session u p u' p' rows
      ∙ rw e refl)
]

session_same :
    (r : RefreshToken) (u' : ℕ) (p' : Platform) (rows : List RefreshToken)
    → is_session_of u' p' r ≡ true
    → session rows u' p' ≡ session rows r.user_id r.platform
unfolding session
session_same r u' p' rows h =
    let k : u' ≡ r.user_id = ground arith in
    let c : platform_code p' ≡ platform_code r.platform = ground arith in
    λ i. find (λ x. (x.user_id == k i) && (platform_code x.platform == c i)) rows

session-del_refresh_token :
    (t u : ℕ) (rows : List RefreshToken) (u' : ℕ) (p' : Platform)
    → IsMap rows
    → session (del_refresh_token t u rows) u' p' ≡ drop_token t u (session rows u' p')
unfolding session del_refresh_token
session-del_refresh_token t u [] u' p' m = refl
session-del_refresh_token t u (r ∷ rows) u' p' (e, m) =
    let ih = session-del_refresh_token t u rows u' p' m in
    elim (Bool-cases (is_session_of u' p' r)) [
      | inl h ↦ elim (Bool-cases (is_token_of t u r)) [
        | inl k ↦ rw (k, h) (rw k (ih ∙ ap (drop_token t u) (session_same r u' p' rows h ∙ e)))
        | inr k ↦ rw (k, h) (rw k refl)
      ]
      | inr h ↦ elim (Bool-cases (is_token_of t u r)) [
        | inl k ↦ rw (k, h) ih
        | inr k ↦ rw (k, h) ih
      ]
    ]

del-IsMap : (t u : ℕ) (rows : List RefreshToken) → IsMap rows → IsMap (del_refresh_token t u rows)
unfolding del_refresh_token
del-IsMap t u rows m = filter-IsMap (λ r. not (is_token_of t u r)) rows m

module _ (hash : ℕ → ℕ) where
  save-IsMap :
      (c : SaveCalls) (n : NewSession) (rows : List RefreshToken)
      → IsMap rows
      → IsMap (save_refresh_token hash c n rows).1
  unfolding save_refresh_token without_session
  save-IsMap c n rows m = elim (Bool-cases c.destroy) [
    | inl e ↦ rw e (elim (Bool-cases (c.hash && c.create)) [
      | inl h ↦ rw h (
          last-IsMap _ _
            (session-without_session n.user_id n.platform n.user_id n.platform rows
              ∙ (let k : same n.user_id n.platform n.user_id n.platform ≡ true = ground arith in
                  rw k refl))
            (filter-IsMap _ rows m))
      | inr h ↦ rw h (filter-IsMap _ rows m)
    ])
    | inr e ↦ rw e m
  ]

  pub session-save_refresh_token :
      (c : SaveCalls) (n : NewSession) (rows : List RefreshToken) (u : ℕ) (p : Platform)
      → session (save_refresh_token hash c n rows).1 u p
        ≡ (if c.destroy
              then update (session rows) n.user_id n.platform (saved hash c n)
              else session rows)
            u p
  unfolding save_refresh_token
  session-save_refresh_token c n rows u p = elim (Bool-cases c.destroy) [
    | inl e ↦ rw e (elim (Bool-cases (c.hash && c.create)) [
      | inl h ↦ rw h (session_new n.user_id n.platform u p rows _ refl refl)
      | inr h ↦ rw h (session-without_session n.user_id n.platform u p rows)
    ])
    | inr e ↦ rw e refl
  ]

  -- By how a save ended, for one user and platform.
  abbrev pub SaveLeaves :
      NewSession
      → List RefreshToken
      → ℕ
      → Platform
      → Result AuthError (Unit {0}) × List RefreshToken
      → Type 0
  SaveLeaves n rows u p (ok x, rows') =
      session rows' u p ≡ update (session rows) n.user_id n.platform (some (session_row hash n)) u p
  SaveLeaves n rows u p (err e, rows') =
      (rows' ≡ rows) ⊎ (session rows' u p ≡ update (session rows) n.user_id n.platform none u p)

  pub save-SaveLeaves :
      (c : SaveCalls) (n : NewSession) (rows : List RefreshToken) (u : ℕ) (p : Platform)
      → SaveLeaves n rows u p (save_refresh_token hash c n rows)
  unfolding save_refresh_token
  save-SaveLeaves c n rows u p = elim (Bool-cases c.destroy) [
    | inl e ↦ rw e (elim (Bool-cases (c.hash && c.create)) [
      | inl h ↦ rw h (session_new n.user_id n.platform u p rows _ refl refl)
      | inr h ↦ rw h (inr (session-without_session n.user_id n.platform u p rows))
    ])
    | inr e ↦ rw e (inl refl)
  ]

  -- Over any saves and deletions, failures included, and from any table in which a user has at most
  -- one session on a platform: the table stays such a map, and what it holds for every user and
  -- platform is what the same calls leave in a function from users and platforms to sessions.
  pub run_sessions_refines :
      (ops : List SessionOp) (rows : List RefreshToken)
      → IsMap rows
      → IsMap (run_sessions hash ops rows)
        × (session (run_sessions hash ops rows) ≡ replay hash ops (session rows))
  unfolding run_sessions replay
  run_sessions_refines [] rows m = (m, refl)
  run_sessions_refines (save c n ∷ ops) rows m =
      let ih = run_sessions_refines ops _ (save-IsMap c n rows m) in
      (ih.0, ih.1 ∙ ap (replay hash ops) (λ i u p. session-save_refresh_token c n rows u p i))
  run_sessions_refines (del token_id user_id ∷ ops) rows m =
      let ih =
        run_sessions_refines ops (del_refresh_token token_id user_id rows)
          (del-IsMap token_id user_id rows m) in
      (
        ih.0,
        ih.1
            ∙ ap (replay hash ops)
                (λ i u p. session-del_refresh_token token_id user_id rows u p m i),
      )
