-- ===== src/Users/Once.antt =====
-- A login name belongs to one user.
use space_next_door_core_api.Base.{
  ℕ, Bool, true, false, Option, none, some, List, [], ◌∷◌, ◌++◌, ◌&&◌, ◌+◌, ◌==◌, length, find, ◌≡◌,
  refl, ap, ◌∙◌, ◌⊎◌, inl, inr, arith, Bool-cases, find_last,
}
use space_next_door_core_api.Users.{
  UserRow, has_username, verify_username, upsert, change_user, UserTable, upserted, Result,
  UserError, empty_user,
}
use space_next_door_core_api.Base.Result.{Result, ok, err}

abbrev pub id_of : Option UserRow → Option ℕ
id_of none = none
id_of (some u) = some u.id

-- Who a user name finds.
abbrev pub owner : Bool → ℕ → List UserRow → Option ℕ
owner is_email username users = id_of (find (has_username is_email username) users)

has-verify_username :
    (is_email : Bool) (username : ℕ) (u : UserRow)
    → has_username is_email username (verify_username is_email username u) ≡ true
has-verify_username true username u = ground arith
has-verify_username false username u = ground arith

verify_username-id :
    (is_email : Bool) (username : ℕ) (u : UserRow) → (verify_username is_email username u).id ≡ u.id
verify_username-id true username u = refl
verify_username-id false username u = refl

length-change_user :
    (id : ℕ) (f : UserRow → UserRow) (us : List UserRow) → length (change_user id f us) ≡ length us
length-change_user id f [] = refl
length-change_user id f (u ∷ us) = omega (arith, length-change_user id f us)

-- A user that is found, and changed so that it can still be found, is found again.
find-change_user :
    (p : UserRow → Bool) (f : UserRow → UserRow) (us : List UserRow) (u : UserRow)
    → find p us ≡ some u
    → ((x : UserRow) → p (f x) ≡ true)
    → ((x : UserRow) → (f x).id ≡ x.id)
    → (v : UserRow) × (find p (change_user u.id f us) ≡ some v) × (v.id ≡ u.id)
find-change_user p f [] u h k i = cc
find-change_user p f (x ∷ us) u h k i = elim (Bool-cases (x.id == u.id)) [
  | inl e ↦ (f x, rw e (rw (k x) refl), i x ∙ (let q : x.id ≡ u.id = ground arith in q))
  | inr e ↦ elim (Bool-cases (p x)) [
    | inl q ↦ grind arith
    | inr q ↦
        let g : find p us ≡ some u = grind arith in
        let ih = find-change_user p f us u g k i in (ih.0, rw e (rw q ih.1), ih.2)
  ]
]

-- By how it ended, for a login without an OAuth provider.
abbrev pub UpsertLeaves : Bool → ℕ → UserTable → Result UserError ℕ × UserTable → Type 0
UpsertLeaves is_email username s (ok id, s') =
    (owner is_email username s'.users ≡ some id)
    × (((owner is_email username s.users ≡ some id) × (length s'.users ≡ length s.users))
        ⊎ ((owner is_email username s.users ≡ none)
            × (length s'.users ≡ length s.users + 1)
            × (id ≡ s.next_id)))
UpsertLeaves is_email username s (err e, s') = s' ≡ s

length_last : (us : List UserRow) (u : UserRow) → length (us ++ (u ∷ [])) ≡ length us + 1
length_last [] u = omega arith
length_last (x ∷ us) u = omega (arith, length_last us u)

upserted-UpsertLeaves :
    (written is_language_ok is_email : Bool) (username : ℕ) (s : UserTable) (r : Option UserRow)
    → find (has_username is_email username) s.users ≡ r
    → UpsertLeaves is_email username s (upserted written is_language_ok is_email username none r s)
upserted-UpsertLeaves false is_language_ok is_email username s (some u) h = refl
upserted-UpsertLeaves true is_language_ok is_email username s (some u) h =
    let k =
      find-change_user (has_username is_email username) (λ x. verify_username is_email username x)
        s.users u h (has-verify_username is_email username)
        (verify_username-id is_email username) in
    (ap id_of k.1 ∙ ap some k.2, inl (ap id_of h, length-change_user u.id _ s.users))
upserted-UpsertLeaves written is_language_ok is_email username s none h =
    elim (Bool-cases (written && is_language_ok)) [
      | inl e ↦
          let u = verify_username is_email username (empty_user s.next_id) in
          let g : find (has_username is_email username) (s.users ++ (u ∷ [])) ≡ some u =
            find_last (has_username is_email username) s.users u h
            ∙ rw (has-verify_username is_email username (empty_user s.next_id)) refl in
          rw e (
            ap id_of g ∙ ap some (verify_username-id is_email username (empty_user s.next_id)),
            inr (ap id_of h, length_last s.users u, refl),
          )
      | inr e ↦ rw e refl
    ]

-- For every user name, table and way that the calls of a login can end: a success is of the user that
-- the name finds afterwards, which is the one that it found before, with no row added, or else, where
-- it found none, one new row; a throw changes nothing. So each later login with the name is of the
-- same user.
pub upsert-UpsertLeaves :
    (written is_language_ok is_email : Bool) (username : ℕ) (s : UserTable)
    → UpsertLeaves is_email username s (upsert written is_language_ok is_email username none s)
unfolding upsert
upsert-UpsertLeaves written is_language_ok is_email username s =
    upserted-UpsertLeaves written is_language_ok is_email username s _ refl
