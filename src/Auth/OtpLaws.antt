-- ===== src/Auth/OtpLaws.antt =====
-- What a password that was sent opens, and for how long.
use space_next_door_core_api.Base.{
  ℕ, Bool, true, false, none, some, List, [], ◌∷◌, ◌++◌, ◌&&◌, ◌+◌, if◌then◌else◌, ltb, ◌==◌, find,
  ◌≡◌, refl, ap, ◌∙◌, ◌⊎◌, inl, inr, arith, Bool-cases, find-filter_drops, find-filter_keeps,
  find_other, ap_if, find_last,
}
use space_next_door_core_api.Auth.Types.{Otp, AuthError, otp_expiration}
use space_next_door_core_api.Auth.Otp.{
  without_otps, is_correct, OtpState, delete_otp, is_row_correct, send_new, send, SendCalls,
}
use space_next_door_core_api.Base.Result.{Result, ok, err}

abbrev of_name : ℕ → Otp → Bool
of_name u o = o.username == u

find-without_otps :
    (username u : ℕ) (otps : List Otp)
    → find (of_name u) (without_otps username otps)
      ≡ (if u == username then none else find (of_name u) otps)
unfolding without_otps
find-without_otps username u otps = elim (Bool-cases (u == username)) [
  | inl e ↦ rw e (find-filter_drops (of_name u) _ otps (λ o h. ground arith))
  | inr e ↦ rw e (find-filter_keeps (of_name u) _ otps (λ o h. ground arith))
]

find_new :
    (username u : ℕ) (otps : List Otp) (o : Otp)
    → o.username ≡ username
    → find (of_name u) (without_otps username otps ++ (o ∷ []))
      ≡ (if u == username then some o else find (of_name u) otps)
find_new username u otps o h = elim (Bool-cases (u == username)) [
  | inl e ↦ rw e (
      find_last (of_name u) (without_otps username otps) o
        (find-without_otps username u otps ∙ rw e refl)
      ∙ (let k : of_name u o ≡ true = ground arith in rw k refl))
  | inr e ↦
      rw e
        (find_other (of_name u) _ o (ground arith) ∙ find-without_otps username u otps ∙ rw e refl)
]

module _ (create_hash : ℕ → ℕ) (verify_otp : ℕ → ℕ → Bool) where
  -- Deleting a name's passwords closes that name, and no other.
  pub is_correct-delete_otp :
      (now username u otp : ℕ) (s : OtpState)
      → is_correct create_hash verify_otp now u otp (delete_otp username s).1
        ≡ (if u == username then false else is_correct create_hash verify_otp now u otp s)
  unfolding is_correct delete_otp
  is_correct-delete_otp now username u otp s =
      ap (is_row_correct create_hash verify_otp now otp) (find-without_otps username u s.otps)
      ∙ ap_if (is_row_correct create_hash verify_otp now otp) _ none _

  -- By how it ended: the new password opens its name for a minute and the old ones do not, and other
  -- names are as before; a throw leaves all as before, or closes the name.
  abbrev pub SendOpens :
      ℕ → ℕ → ℕ → OtpState → ℕ → ℕ → ℕ → Result AuthError Bool × OtpState → Type 0
  SendOpens now username otp s now' u otp' (ok b, s') =
      (is_correct create_hash verify_otp now' username otp s' ≡ ltb now' (now + otp_expiration))
      × (is_correct create_hash verify_otp now' u otp' s' ≡ (
          if u == username
          then verify_otp otp' (create_hash otp) && ltb now' (now + otp_expiration)
          else is_correct create_hash verify_otp now' u otp' s))
  SendOpens now username otp s now' u otp' (err e, s') =
      (s' ≡ s)
      ⊎ (is_correct create_hash verify_otp now' u otp' s'
          ≡ (if u == username then false else is_correct create_hash verify_otp now' u otp' s))

  is_correct_new :
      (now username otp now' u otp' : ℕ) (s : OtpState) (sent : List (ℕ × ℕ))
      → is_correct create_hash verify_otp now' u otp' (record {
        otps =
            without_otps username s.otps
            ++ (record {
              username = username;
              otp_hash = create_hash otp;
              expires_at = now + otp_expiration;
            }
                ∷ []);
        sent = sent;
      })
        ≡ (if u == username
            then verify_otp otp' (create_hash otp) && ltb now' (now + otp_expiration)
            else is_correct create_hash verify_otp now' u otp' s)
  unfolding is_correct
  is_correct_new now username otp now' u otp' s sent =
      ap (is_row_correct create_hash verify_otp now' otp') (find_new username u s.otps _ refl)
      ∙ ap_if (is_row_correct create_hash verify_otp now' otp') _ _ _

  send_new-SendOpens :
      (c : SendCalls) (now username otp now' u otp' : ℕ) (s : OtpState)
      → verify_otp otp (create_hash otp) ≡ true
      → SendOpens now username otp s now' u otp'
          (send_new create_hash verify_otp c now username otp (delete_otp username s).1)
  unfolding send_new delete_otp is_correct
  send_new-SendOpens c now username otp now' u otp' s h =
      let gone = is_correct-delete_otp now' username u otp' s in
      elim (Bool-cases c.create_row) [
        | inl e ↦ rw e (elim (Bool-cases c.channel_send) [
          | inl e' ↦ rw e' (elim (Bool-cases c.commit) [
            | inl e'' ↦ rw e'' (
              is_correct_new now username otp now' username otp s ((username, otp) ∷ s.sent)
                  ∙ (let k : (username == username) ≡ true = ground arith in rw k (rw h refl)),
              is_correct_new now username otp now' u otp' s ((username, otp) ∷ s.sent),
            )
            | inr e'' ↦ rw e'' (inr gone)
          ])
          | inr e' ↦ rw e' (inr gone)
        ])
        | inr e ↦ rw e (inr gone)
      ]

  -- For every name and every way that the calls of `send` can end, where bcrypt accepts a password
  -- against its own hash: after a success the password sent opens the name until one minute has
  -- passed, whatever was sent before opens it no longer, and all other names are as they were; after
  -- a throw nothing has changed, or no password opens the name, and the others are as they were.
  pub send-SendOpens :
      (c : SendCalls) (now username otp now' u otp' : ℕ) (s : OtpState)
      → verify_otp otp (create_hash otp) ≡ true
      → SendOpens now username otp s now' u otp' (send create_hash verify_otp c now username otp s)
  unfolding send
  send-SendOpens c now username otp now' u otp' s h = elim (Bool-cases c.destroy) [
    | inl e ↦ rw e (send_new-SendOpens c now username otp now' u otp' s h)
    | inr e ↦ rw e (inl refl)
  ]
