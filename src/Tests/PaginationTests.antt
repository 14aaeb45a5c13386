-- ===== src/Tests/PaginationTests.antt =====
-- Pages of records.
use space_next_door_core_api.Base.{ℕ, none, some, List, [], ◌∷◌, ◌≡◌, ◌≢◌}
use space_next_door_core_api.Pagination.Pages.{read_pages, read_pages-init_pagination}
use space_next_door_core_api.Base.Int.{pos}
use space_next_door_core_api.Pagination.{init_pagination}

abbrev seven : List ℕ
seven = 1 ∷ 2 ∷ 3 ∷ 4 ∷ 5 ∷ 6 ∷ 7 ∷ []

three_at_a_time : some (pos 3) ≢ some (pos 0)
three_at_a_time = λ e. cc

read_pages-init_pagination_example :
    read_pages 8 (init_pagination (some (pos 3)) none) seven ≡ some seven
read_pages-init_pagination_example = read_pages-init_pagination (some (pos 3)) seven three_at_a_time
