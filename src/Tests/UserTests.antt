-- ===== src/Tests/UserTests.antt =====
-- The rows of the users.
use space_next_door_core_api.Base.{true, false, none, some, [], ◌∷◌, ◌≡◌, refl}
use space_next_door_core_api.Users.{
  UserRow, find_or_create_by_email_phone, UserTable, upsert, empty_user,
}
use space_next_door_core_api.Users.Once.{UpsertLeaves, upsert-UpsertLeaves}
use space_next_door_core_api.Base.Result.{ok}

abbrev booked_user : UserRow
booked_user = record (empty_user 4) { email = some 20; phone_number = some 65 }

abbrev user_table : UserTable
user_table = record { users = empty_user 3 ∷ booked_user ∷ []; next_id = 5 }

upsert-UpsertLeaves_example :
    UpsertLeaves false 65 user_table (upsert true true false 65 none user_table)
upsert-UpsertLeaves_example = upsert-UpsertLeaves true true false 65 user_table

-- The user that a booking made is the one that logs in.
logged_in : (upsert true true false 65 none user_table).0 ≡ ok 4
unfolding upsert
logged_in = refl

made_user : (upsert true true true 99 none user_table).0 ≡ ok 5
unfolding upsert
made_user = refl

-- A phone number goes before an email.
phone_first :
    (find_or_create_by_email_phone
      (λ e. e)
      true
      true
      20
      66
      none
      none
      (record user_table {
        users = record (empty_user 7) { phone_number = some 66 } ∷ booked_user ∷ [];
      })).0
    ≡ ok 7
unfolding find_or_create_by_email_phone
phone_first = refl
