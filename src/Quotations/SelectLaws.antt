-- ===== src/Quotations/SelectLaws.antt =====
-- How many spaces a quotation offers, and which.
use space_next_door_core_api.Base.{
  ℕ, zero, suc, Bool, true, Option, none, some, List, [], ◌∷◌, ◌≤◌, leb, length, is_some, All,
  filter, get_or, map, ◌≡◌, inl, inr, arith, Bool-cases, All-map,
}
use space_next_door_core_api.Quotations.Select.{
  get_site_with_spaces, take_rows, sites_with_spaces, is_offered, order_by_price, with_spaces,
  asked_ids, insert_by_price,
}
use space_next_door_core_api.Quotations.Types.{SpaceRow}

length-take_rows : {A : Type 0} (n : ℕ) (xs : List A) → length (take_rows n xs) ≤ n
length-take_rows zero xs = omega arith
length-take_rows (suc n) [] = omega arith
length-take_rows (suc n) (x ∷ xs) = omega (arith, length-take_rows n xs)

All-take_rows :
    {A : Type 0} (P : A → Type 0) (n : ℕ) (xs : List A) → All P xs → All P (take_rows n xs)
All-take_rows P zero xs p = tt
All-take_rows P (suc n) [] p = tt
All-take_rows P (suc n) (x ∷ xs) (p, ps) = (p, All-take_rows P n xs ps)

All-filter : {A : Type 0} (p : A → Bool) (xs : List A) → All (λ x. p x ≡ true) (filter p xs)
All-filter p [] = tt
All-filter p (x ∷ xs) = elim (Bool-cases (p x)) [
  | inl e ↦ rw e (e, All-filter p xs)
  | inr e ↦ rw e (All-filter p xs)
]

All-insert_by_price :
    (P : SpaceRow → Type 0) (s : SpaceRow) (ts : List SpaceRow)
    → P s
    → All P ts
    → All P (insert_by_price s ts)
All-insert_by_price P s [] p ps = (p, tt)
All-insert_by_price P s (t ∷ ts) p (q, qs) =
    elim (Bool-cases (leb (get_or s.price_per_month 0) (get_or t.price_per_month 0))) [
      | inl e ↦ rw e (p, (q, qs))
      | inr e ↦ rw e (q, All-insert_by_price P s ts p qs)
    ]

All-order_by_price :
    (P : SpaceRow → Type 0) (ss : List SpaceRow) → All P ss → All P (order_by_price ss)
All-order_by_price P [] p = tt
All-order_by_price P (s ∷ ss) (p, ps) =
    All-insert_by_price P s (order_by_price ss) p (All-order_by_price P ss ps)

-- A space that a query with the type may return.
abbrev pub IsOffer : Option ℕ → SpaceRow → Type 0
IsOffer none s = is_some s.price_per_month ≡ true
IsOffer (some type) s = (is_some s.price_per_month ≡ true) × (s.platform_space_type_id ≡ type)

offered-IsOffer :
    (ids : List ℕ) (type : Option ℕ) (s : SpaceRow) → is_offered ids type s ≡ true → IsOffer type s
offered-IsOffer ids none s h = ground arith
offered-IsOffer ids (some type) s h = (ground arith, ground arith)

-- The spaces of one site: one to three offers.
abbrev IsSite : Option ℕ → List SpaceRow → Type 0
IsSite type ss = (length ss ≤ 3) × All (IsOffer type) ss

get_site_with_spaces-IsSite :
    (spaces : List SpaceRow) (type : Option ℕ) (ids : List ℕ)
    → IsSite type (get_site_with_spaces spaces type ids)
unfolding get_site_with_spaces
get_site_with_spaces-IsSite spaces type ids = (
  length-take_rows 3 _,
  All-take_rows (IsOffer type) 3 _ (
      All-order_by_price (IsOffer type) _
        (All-map _ _ _ (offered-IsOffer ids type) (All-filter (is_offered ids type) spaces))),
)

with_spaces-All :
    (type : Option ℕ) (sites : List (List SpaceRow))
    → All (IsSite type) sites
    → All (λ ss. IsSite type ss × (1 ≤ length ss)) (with_spaces sites)
with_spaces-All type [] h = tt
with_spaces-All type ([] ∷ sites) (h, hs) = with_spaces-All type sites hs
with_spaces-All type ((s ∷ ss) ∷ sites) (h, hs) = ((h, omega arith), with_spaces-All type sites hs)

sites-All :
    (spaces : List SpaceRow) (type space_id : Option ℕ) (stocks : List (List ℕ))
    → All
        (IsSite type)
        (map (λ ids. get_site_with_spaces spaces type (asked_ids space_id ids)) stocks)
sites-All spaces type space_id [] = tt
sites-All spaces type space_id (ids ∷ stocks) = (
  get_site_with_spaces-IsSite spaces type (asked_ids space_id ids),
  sites-All spaces type space_id stocks,
)

pub sites_with_spaces-All :
    (spaces : List SpaceRow) (type space_id : Option ℕ) (stocks : List (List ℕ))
    → All
        (λ ss. ((length ss ≤ 3) × All (IsOffer type) ss) × (1 ≤ length ss))
        (sites_with_spaces spaces type space_id stocks)
      × (length (sites_with_spaces spaces type space_id stocks) ≤ 3)
unfolding sites_with_spaces
sites_with_spaces-All spaces type space_id stocks = (
  All-take_rows _ 3 _ (with_spaces-All type _ (sites-All spaces type space_id stocks)),
  length-take_rows 3 _,
)
