-- ===== src/Pagination/Pages.antt =====
-- The pages of a list of records.
use space_next_door_core_api.Base.{
  ℕ, zero, suc, true, false, Option, none, some, List, [], ◌∷◌, ◌++◌, ◌+◌, ◌≤◌, ◌<◌, if◌then◌else◌,
  ltb, length, ◌≡◌, refl, sym, ap, ◌∙◌, ◌≢◌, inl, inr, arith, Bool-cases,
}
use space_next_door_core_api.Pagination.{has_more_rec, Pagination, init_pagination}
use space_next_door_core_api.Base.Int.{◌+ℤ◌, ℤ, pos, pos_part, negsuc}

add_zero : (m : ℕ) → 0 + m ≡ m
add_zero m = omega arith

add_suc : (n m : ℕ) → suc n + m ≡ suc (n + m)
add_suc n m = omega arith

next_skip : (s l : ℕ) → pos s +ℤ pos l ≡ pos (s + l)
unfolding ◌+ℤ◌
next_skip s l = ground arith

positive : (n : ℕ) → ltb (suc n + 0) 0 ≡ false
positive n = ground arith

negative : (n : ℕ) → ltb 0 (0 + suc n) ≡ true
negative n = ground arith

module _ {A : Type 0} where
  -- The query's `limit` and `offset`.
  abbrev take : ℕ → List A → List A
  take zero xs = []
  take (suc n) [] = []
  take (suc n) (x ∷ xs) = x ∷ take n xs

  abbrev drop : ℕ → List A → List A
  drop zero xs = xs
  drop (suc n) [] = []
  drop (suc n) (x ∷ xs) = drop n xs

  take-drop : (n : ℕ) (xs : List A) → take n xs ++ drop n xs ≡ xs
  take-drop zero xs = refl
  take-drop (suc n) [] = refl
  take-drop (suc n) (x ∷ xs) = ap (λ l. x ∷ l) (take-drop n xs)

  ++_none : (xs : List A) → xs ++ [] ≡ xs
  ++_none [] = refl
  ++_none (x ∷ xs) = ap (λ l. x ∷ l) (++_none xs)

  drop_none : (m : ℕ) → drop m [] ≡ []
  drop_none zero = refl
  drop_none (suc m) = refl

  drop-drop : (n m : ℕ) (xs : List A) → drop (n + m) xs ≡ drop m (drop n xs)
  drop-drop zero m xs = ap (λ k. drop k xs) (add_zero m)
  drop-drop (suc n) m [] = drop_none _ ∙ sym (drop_none m)
  drop-drop (suc n) m (x ∷ xs) = ap (λ k. drop k (x ∷ xs)) (add_suc n m) ∙ drop-drop n m xs

  drop_all : (n : ℕ) (xs : List A) → length xs ≤ n → drop n xs ≡ []
  drop_all zero [] h = refl
  drop_all zero (x ∷ xs) h = absurd (omega arith)
  drop_all (suc n) [] h = refl
  drop_all (suc n) (x ∷ xs) h = drop_all n xs (omega arith)

  abbrev page : Pagination → List A → List A
  page p xs = take (pos_part p.limit) (drop (pos_part p.skip) xs)

  -- A client that asks for the next page while there are more records; none when it has not come to
  -- an end after as many pages as it has fuel.
  pub read_pages : ℕ → Pagination → List A → Option (List A)
  read_pages zero p xs = none
  read_pages (suc fuel) p xs =
      let rest = read_pages fuel (record p { skip = p.skip +ℤ p.limit }) xs in
      if has_more_rec (pos (length xs)) p
      then elim rest [ none ↦ none | some later ↦ some (page p xs ++ later) ]
      else some (page p xs)

  read_pages_rest :
      (fuel s l : ℕ) (xs : List A)
      → 0 < l
      → 0 < fuel
      → length xs < s + fuel
      → read_pages fuel (record { limit = pos l; skip = pos s }) xs ≡ some (drop s xs)
  unfolding read_pages has_more_rec
  read_pages_rest zero s l xs h f k = absurd (omega arith)
  read_pages_rest (suc fuel) s l xs h f k = elim (Bool-cases (ltb (s + l + 0) (length xs + 0))) [
    | inl e ↦
        let more : s + l < length xs = ground arith in
        rw
          (
            next_skip s l,
            e,
            read_pages_rest fuel (s + l) l xs h (omega arith) (omega arith),
            drop-drop s l xs,
          )
          (ap some (take-drop l (drop s xs)))
    | inr e ↦
        let none_left : drop l (drop s xs) ≡ [] =
          sym (drop-drop s l xs) ∙ drop_all (s + l) xs (ground arith) in
        rw (next_skip s l, e)
          (ap some (
            sym (++_none (take l (drop s xs)))
            ∙ ap (λ r. take l (drop s xs) ++ r) (sym none_left)
            ∙ take-drop l (drop s xs)))
  ]

  -- For every list of records and every asked limit but 0, a client that starts at the first page and
  -- goes on while `hasMoreRec` tells so comes to an end, after at most one page more than there are
  -- records, and has read every record once and in order.
  pub read_pages-init_pagination :
      (limit : Option ℤ) (xs : List A)
      → limit ≢ some (pos 0)
      → read_pages (suc (length xs)) (init_pagination limit none) xs ≡ some xs
  unfolding init_pagination
  read_pages-init_pagination none xs h =
      read_pages_rest (suc (length xs)) 0 5 xs (omega arith) (omega arith) (omega arith)
  read_pages-init_pagination (some (pos zero)) xs h = absurd (h refl)
  read_pages-init_pagination (some (pos (suc n))) xs h =
      rw (positive n)
        (read_pages_rest (suc (length xs)) 0 (suc n) xs (omega arith) (omega arith) (omega arith))
  read_pages-init_pagination (some (negsuc n)) xs h =
      rw (negative n)
        (read_pages_rest (suc (length xs)) 0 5 xs (omega arith) (omega arith) (omega arith))
