-- ===== src/Sitelink/Groups.antt =====
-- lodash's `groupBy` as src/cron-job/sitelink-stock-sync uses it: the groups in the order of their
-- first members. (A JavaScript object lists whole-number keys in ascending order; nothing that
-- follows depends on the order of the groups.)
use space_next_door_core_api.Base.{
  ℕ, true, false, List, [], ◌∷◌, ◌++◌, ◌||◌, ◌+◌, if◌then◌else◌, ◌==◌, any, All, filter, includes,
  map, ◌≡◌, refl, sym, ap, ◌∙◌, inl, inr, arith, Bool-cases, All-map,
}

module _ {A : Type 0} where
  abbrev pub insert_group : ℕ → A → List (ℕ × List A) → List (ℕ × List A)
  insert_group k x [] = (k, x ∷ []) ∷ []
  insert_group k x ((k', xs) ∷ gs) =
      let rest = insert_group k x gs in
      if k' == k then (k', xs ++ (x ∷ [])) ∷ gs else (k', xs) ∷ rest

  abbrev pub group_into : (A → ℕ) → List (ℕ × List A) → List A → List (ℕ × List A)
  group_into key gs [] = gs
  group_into key gs (x ∷ xs) = group_into key (insert_group (key x) x gs) xs

  unfoldable pub group_by : (A → ℕ) → List A → List (ℕ × List A)
  group_by key xs = group_into key [] xs

  -- `groups[k]`, empty where it is undefined, and `Object.keys(groups)`.
  abbrev pub group_of : ℕ → List (ℕ × List A) → List A
  group_of k [] = []
  group_of k ((k', xs) ∷ gs) = if k' == k then xs else group_of k gs

  abbrev pub group_keys : List (ℕ × List A) → List ℕ
  group_keys gs = map (λ g. g.0) gs

  -- Sums of a number of the members.
  abbrev pub sum_by : (A → ℕ) → List A → ℕ
  sum_by f [] = 0
  sum_by f (x ∷ xs) = f x + sum_by f xs

  abbrev pub sum_groups : (A → ℕ) → List (ℕ × List A) → ℕ
  sum_groups f [] = 0
  sum_groups f ((k, xs) ∷ gs) = sum_by f xs + sum_groups f gs

  pub sum_by-++ : (f : A → ℕ) (xs ys : List A) → sum_by f (xs ++ ys) ≡ sum_by f xs + sum_by f ys
  sum_by-++ f [] ys = omega arith
  sum_by-++ f (x ∷ xs) ys = omega (arith, sum_by-++ f xs ys)

  sum-insert_group :
      (f : A → ℕ) (k : ℕ) (x : A) (gs : List (ℕ × List A))
      → sum_groups f (insert_group k x gs) ≡ f x + sum_groups f gs
  sum-insert_group f k x [] = omega arith
  sum-insert_group f k x ((k', xs) ∷ gs) =
      ground (arith, sum-insert_group f k x gs, sum_by-++ f xs (x ∷ []))

  sum-group_into :
      (f : A → ℕ) (key : A → ℕ) (gs : List (ℕ × List A)) (xs : List A)
      → sum_groups f (group_into key gs xs) ≡ sum_groups f gs + sum_by f xs
  sum-group_into f key gs [] = omega arith
  sum-group_into f key gs (x ∷ xs) =
      omega (
        arith,
        sum-group_into f key (insert_group (key x) x gs) xs,
        sum-insert_group f (key x) x gs,
      )

  -- Grouping loses and repeats nothing.
  pub sum-group_by :
      (f : A → ℕ) (key : A → ℕ) (xs : List A) → sum_groups f (group_by key xs) ≡ sum_by f xs
  unfolding group_by
  sum-group_by f key xs = omega (arith, sum-group_into f key [] xs)

  includes-insert_group :
      (k' k : ℕ) (x : A) (gs : List (ℕ × List A))
      → includes (group_keys (insert_group k x gs)) k' ≡ ((k == k') || includes (group_keys gs) k')
  includes-insert_group k' k x [] = refl
  includes-insert_group k' k x ((j, xs) ∷ gs) = ground (arith, includes-insert_group k' k x gs)

  includes-group_into :
      (key : A → ℕ) (k : ℕ) (gs : List (ℕ × List A)) (xs : List A)
      → includes (group_keys (group_into key gs xs)) k
        ≡ (includes (group_keys gs) k || any (λ x. key x == k) xs)
  includes-group_into key k gs [] = ground arith
  includes-group_into key k gs (x ∷ xs) = ground (
    arith,
    includes-group_into key k (insert_group (key x) x gs) xs,
    includes-insert_group k (key x) x gs,
  )

  -- The keys are those of the members.
  pub includes-group_by :
      (key : A → ℕ) (k : ℕ) (xs : List A)
      → includes (group_keys (group_by key xs)) k ≡ any (λ x. key x == k) xs
  unfolding group_by
  includes-group_by key k xs = includes-group_into key k [] xs

  append_assoc : (xs ys zs : List A) → (xs ++ ys) ++ zs ≡ xs ++ (ys ++ zs)
  append_assoc [] ys zs = refl
  append_assoc (x ∷ xs) ys zs = ap (λ t. x ∷ t) (append_assoc xs ys zs)

  append_nil : (xs : List A) → xs ++ [] ≡ xs
  append_nil [] = refl
  append_nil (x ∷ xs) = ap (λ t. x ∷ t) (append_nil xs)

  group_of-insert_group :
      (k' k : ℕ) (x : A) (gs : List (ℕ × List A))
      → group_of k' (insert_group k x gs)
        ≡ (if k == k' then group_of k' gs ++ (x ∷ []) else group_of k' gs)
  group_of-insert_group k' k x [] = refl
  group_of-insert_group k' k x ((j, xs) ∷ gs) = ground (arith, group_of-insert_group k' k x gs)

  group_of-group_into :
      (key : A → ℕ) (k : ℕ) (gs : List (ℕ × List A)) (xs : List A)
      → group_of k (group_into key gs xs) ≡ group_of k gs ++ filter (λ x. key x == k) xs
  group_of-group_into key k gs [] = sym (append_nil (group_of k gs))
  group_of-group_into key k gs (x ∷ xs) =
      group_of-group_into key k (insert_group (key x) x gs) xs
      ∙ rw (group_of-insert_group k (key x) x gs) (elim (Bool-cases (key x == k)) [
        | inl e ↦ rw e (append_assoc (group_of k gs) (x ∷ []) (filter (λ x. key x == k) xs))
        | inr e ↦ rw e refl
      ])

  -- Each group is the members that have its key, in their order.
  pub group_of-group_by :
      (key : A → ℕ) (k : ℕ) (xs : List A)
      → group_of k (group_by key xs) ≡ filter (λ x. key x == k) xs
  unfolding group_by
  group_of-group_by key k xs = group_of-group_into key k [] xs

  -- No two groups have the same key.
  abbrev pub Distinct : List (ℕ × List A) → Type 0
  Distinct [] = Unit
  Distinct ((k, xs) ∷ gs) = (includes (group_keys gs) k ≡ false) × Distinct gs

  insert_group-Distinct :
      (k : ℕ) (x : A) (gs : List (ℕ × List A)) → Distinct gs → Distinct (insert_group k x gs)
  insert_group-Distinct k x [] d = (refl, tt)
  insert_group-Distinct k x ((j, xs) ∷ gs) (e, d) = elim (Bool-cases (j == k)) [
    | inl q ↦ rw q (e, d)
    | inr q ↦
        let i : (k == j) ≡ false = ground arith in
        rw q (includes-insert_group j k x gs ∙ rw i e, insert_group-Distinct k x gs d)
  ]

  group_into-Distinct :
      (key : A → ℕ) (gs : List (ℕ × List A)) (xs : List A)
      → Distinct gs
      → Distinct (group_into key gs xs)
  group_into-Distinct key gs [] d = d
  group_into-Distinct key gs (x ∷ xs) d =
      group_into-Distinct key (insert_group (key x) x gs) xs (insert_group-Distinct (key x) x gs d)

  -- Each group is the one that its key finds, among the keys.
  abbrev FoundIn : List (ℕ × List A) → List (ℕ × List A) → Type 0
  FoundIn all_groups gs =
      All (λ g. (g.1 ≡ group_of g.0 all_groups) × (includes (group_keys all_groups) g.0 ≡ true)) gs

  found_later :
      (k : ℕ) (xs : List A) (all_groups gs : List (ℕ × List A))
      → includes (group_keys gs) k ≡ false
      → FoundIn all_groups gs
      → FoundIn ((k, xs) ∷ all_groups) gs
  found_later k xs all_groups [] h f = tt
  found_later k xs all_groups ((j, ys) ∷ gs) h ((e, m), f) =
      let i : (k == j) ≡ false = ground arith in
      let r : includes (group_keys gs) k ≡ false = ground arith in
      ((rw i e, rw i m), found_later k xs all_groups gs r f)

  Distinct-FoundIn : (gs : List (ℕ × List A)) → Distinct gs → FoundIn gs gs
  Distinct-FoundIn [] d = tt
  Distinct-FoundIn ((k, xs) ∷ gs) (e, d) =
      let i : (k == k) ≡ true = ground arith in
      ((rw i refl, rw i refl), found_later k xs gs gs e (Distinct-FoundIn gs d))

  -- Each group is the members that have its key, and there are some.
  pub group_by-All :
      (key : A → ℕ) (xs : List A)
      → All
          (λ g. (g.1 ≡ filter (λ x. key x == g.0) xs) × (any (λ x. key x == g.0) xs ≡ true))
          (group_by key xs)
  unfolding group_by
  group_by-All key xs =
      All-map _ _ (group_by key xs)
        (λ g h. (h.0 ∙ group_of-group_by key g.0 xs, sym (includes-group_by key g.0 xs) ∙ h.1))
        (Distinct-FoundIn _ (group_into-Distinct key [] xs tt))
