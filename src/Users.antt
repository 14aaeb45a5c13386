-- ===== src/Users.antt =====
-- src/auth/users/user.service.ts: the rows of the users, found and made by email, phone or login.
use space_next_door_core_api.Base.{
  ℕ, zero, suc, Bool, true, false, Option, none, some, List, [], ◌∷◌, ◌++◌, ◌&&◌, ◌||◌, not, ◌+◌,
  ◌-◌, ◌*◌, ◌/◌, ◌%◌, ◌≤◌, ◌<◌, if◌then◌else◌, leb, ltb, ◌==◌, length, is_some, last?, head?, any,
  all, All, filter, find, includes, get_or, map, ◌≡◌, refl, sym, ap, ◌∙◌, ◌≢◌, ◌↔◌, ◌⊎◌, inl, inr,
  arith, Bool-cases, Option-cases,
}
pub mod Once
use space_next_door_core_api.Base.Result.{Result, ok, err}

-- A row; emails, phone numbers and names are compared only, and stand as numbers. The ids of the
-- OAuth providers, the names and the picture are none where the row has none.
pub record UserRow : Type 0 where
  pub id : ℕ
  pub email : Option ℕ
  pub phone_number : Option ℕ
  pub first_name : Option ℕ
  pub last_name : Option ℕ
  pub image_url : Option ℕ
  pub google_user_id : Option ℕ
  pub facebook_user_id : Option ℕ
  pub is_email_verified : Bool
  pub is_phone_verified : Bool

pub record UserTable : Type 0 where
  pub users : List UserRow
  pub next_id : ℕ

pub data UserError : Type 0 where
  language_not_supported call_failed : UserError

abbrev pub is_value : Option ℕ → ℕ → Bool
is_value none x = false
is_value (some y) x = y == x

-- A user of a table that is changed in place.
abbrev pub change_user : ℕ → (UserRow → UserRow) → List UserRow → List UserRow
change_user id f [] = []
change_user id f (u ∷ us) = let rest = change_user id f us in (if u.id == id then f u else u) ∷ rest

abbrev pub add_user : UserRow → UserTable → UserTable
add_user u s = record { users = s.users ++ (u ∷ []); next_id = s.next_id + 1 }

-- `phoneUser ? phoneUser : emailUser`.
unfoldable pub find_user : ℕ → ℕ → List UserRow → Option UserRow
find_user email phone users = elim (find (λ u. is_value u.phone_number phone) users) [
  | none ↦ find (λ u. is_value u.email email) users
  | some u ↦ some u
]

-- The names are written only with a first name.
abbrev pub set_names : Option ℕ → Option ℕ → UserRow → UserRow
set_names none last_name u = u
set_names (some name) none u = record u { first_name = some name }
set_names (some name) (some last) u = record u { first_name = some name; last_name = some last }

abbrev pub found_or_created :
    Bool
    → Bool
    → ℕ
    → ℕ
    → Option ℕ
    → Option ℕ
    → Option UserRow
    → UserTable
    → Result UserError ℕ × UserTable
found_or_created written is_language_ok email phone name last_name (some u) s =
    if written || not (is_some name)
    then (ok u.id, record s { users = change_user u.id (set_names name last_name) s.users })
    else (err call_failed, s)
found_or_created written is_language_ok email phone name last_name none s =
    if not is_language_ok
    then (err language_not_supported, s)
    else (if written
        then (
          ok s.next_id,
          add_user
              (record {
                id = s.next_id;
                email = some email;
                phone_number = some phone;
                first_name = name;
                last_name = none;
                image_url = none;
                google_user_id = none;
                facebook_user_id = none;
                is_email_verified = false;
                is_phone_verified = false;
              })
              s,
        )
        else (err call_failed, s))

-- `findOrCreateByEmailPhone`; `lower` is `toLowerCase`, and `written` tells whether the save, or the
-- creation of the rows, goes through.
unfoldable pub find_or_create_by_email_phone :
    (ℕ → ℕ) → Bool → Bool → ℕ → ℕ → Option ℕ → Option ℕ → UserTable → Result UserError ℕ × UserTable
unfolding find_user
find_or_create_by_email_phone lower written is_language_ok email phone name last_name s =
    found_or_created written is_language_ok (lower email) phone name last_name
      (find_user (lower email) phone s.users) s

pub data IProvider : Type 0 where
  google facebook : IProvider

pub record OAuthUser : Type 0 where
  pub id : ℕ
  pub provider : IProvider
  pub first_name : Option ℕ
  pub last_name : Option ℕ
  pub picture : Option ℕ

abbrev pub provider_id : IProvider → UserRow → Option ℕ
provider_id IProvider.google u = u.google_user_id
provider_id IProvider.facebook u = u.facebook_user_id

-- `getQueryFromUsername`: an email, or else a phone number.
abbrev pub has_username : Bool → ℕ → UserRow → Bool
has_username is_email username u =
    if is_email then is_value u.email username else is_value u.phone_number username

abbrev pub verify_username : Bool → ℕ → UserRow → UserRow
verify_username true username u = record u { email = some username; is_email_verified = true }
verify_username false username u = record u {
  phone_number = some username;
  is_phone_verified = true;
}

-- `a || b` of what a row and a provider have.
abbrev pub or_else : Option ℕ → Option ℕ → Option ℕ
or_else none y = y
or_else (some x) y = some x

abbrev pub set_provider_id : IProvider → ℕ → UserRow → UserRow
set_provider_id IProvider.google id u = record u {
  google_user_id = or_else u.google_user_id (some id);
}
set_provider_id IProvider.facebook id u = record u {
  facebook_user_id = or_else u.facebook_user_id (some id);
}

-- What the row lacks is filled from the provider.
abbrev pub fill_from : Option OAuthUser → UserRow → UserRow
fill_from none u = u
fill_from (some o) u = set_provider_id o.provider o.id (record u {
  first_name = or_else u.first_name o.first_name;
  last_name = or_else u.last_name o.last_name;
  image_url = or_else u.image_url o.picture;
})

abbrev pub has_provider : Bool → ℕ → OAuthUser → UserRow → Bool
has_provider is_email username o u =
    has_username is_email username u && is_value (provider_id o.provider u) o.id

-- With a provider its own user goes first.
abbrev pub find_existing : Bool → ℕ → Option OAuthUser → List UserRow → Option UserRow
find_existing is_email username none users = find (has_username is_email username) users
find_existing is_email username (some o) users =
    elim (find (has_provider is_email username o) users) [
      | none ↦ find (has_username is_email username) users
      | some u ↦ some u
    ]

abbrev pub empty_user : ℕ → UserRow
empty_user id = record {
  id = id;
  email = none;
  phone_number = none;
  first_name = none;
  last_name = none;
  image_url = none;
  google_user_id = none;
  facebook_user_id = none;
  is_email_verified = false;
  is_phone_verified = false;
}

abbrev pub upserted :
    Bool
    → Bool
    → Bool
    → ℕ
    → Option OAuthUser
    → Option UserRow
    → UserTable
    → Result UserError ℕ × UserTable
upserted written is_language_ok is_email username o (some u) s =
    if written
    then (
      ok u.id,
      record s {
        users = change_user u.id (λ x. verify_username is_email username (fill_from o x)) s.users;
      },
    )
    else (err call_failed, s)
upserted written is_language_ok is_email username o none s =
    if written && is_language_ok
    then (
      ok s.next_id,
      add_user (verify_username is_email username (fill_from o (empty_user s.next_id))) s,
    )
    else (err call_failed, s)

-- `upsert`, of a user name that is an email or not.
unfoldable pub upsert :
    Bool → Bool → Bool → ℕ → Option OAuthUser → UserTable → Result UserError ℕ × UserTable
upsert written is_language_ok is_email username o s =
    upserted written is_language_ok is_email username o (find_existing is_email username o s.users)
      s
