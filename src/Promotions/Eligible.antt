-- ===== src/Promotions/Eligible.antt =====
-- Which promotions `getPromotionAmount` can return.
use space_next_door_core_api.Base.{
  ℕ, Bool, true, false, Option, none, some, [], ◌∷◌, ◌≡◌, Bool-cases, inl, inr, if◌then◌else◌, List,
  ◌&&◌, refl, arith, not, ◌==◌, is_some, ◌||◌, length,
}
use space_next_door_core_api.Catalog.{is_public, PromotionFormat}
use space_next_door_core_api.Promotions.Types.{
  Promotion, CustomerBuys, CustomerGets, PromotionAmount,
}
use space_next_door_core_api.Promotions.Amount.{
  Applied, is_redeemable, is_local, set_promotion, Commitment, gets_loop, promotions_loop,
  apply_gets, note_later, apply_buys, meets_criteria, raise_commit, gets_applies, is_renewal_index,
  get_promotion_amount, promotion_response, general_response, PromotionKey, or_promo, base_rent,
  or_else, initial,
}
use space_next_door_core_api.Base.Int.{ℤ, pos}
use space_next_door_core_api.Promotions.Gets.{add_discount}
use space_next_door_core_api.Base.Number.{truthy}
use space_next_door_core_api.Promotions.Filter.{get_filtered_promotions}

and_right : (a b : Bool) → a && b ≡ true → b ≡ true
and_right a b h = ground arith

module _ (site : ℕ) (country : Option ℕ) where
  abbrev allowed_by : PromotionFormat → List CustomerBuys → Bool
  allowed_by format [] = false
  allowed_by format (buys ∷ more) = is_local site country format buys

  -- The first `customer_buys` of the promotion allows the site: public promotions by its id,
  -- vouchers by its country.
  abbrev pub is_allowed : Promotion → Bool
  is_allowed p = allowed_by p.format p.customer_buys

  -- There are uses left, something to give, and the site is allowed.
  abbrev pub IsEligible : Promotion → Type 0
  IsEligible p = (is_redeemable p ≡ true) × (is_allowed p ≡ true)

  abbrev pub IsPrivate : Option Promotion → Type 0
  IsPrivate none = Unit
  IsPrivate (some p) = IsEligible p × (is_public p.format ≡ false)

  abbrev pub IsPublic : Option Promotion → Type 0
  IsPublic none = Unit
  IsPublic (some p) = IsEligible p × (is_public p.format ≡ true)

  abbrev pub IsAny : Option Promotion → Type 0
  IsAny none = Unit
  IsAny (some p) = IsEligible p

  -- What the loops keep of their variables.
  abbrev IsSound : Applied → Type 0
  IsSound s = IsPrivate s.promo × IsPublic s.public_promotion × IsAny s.public_promotion_will_apply

  set_promotion-IsSound :
      (p : Promotion) (chosen : Bool) (s : Applied)
      → (chosen ≡ true → IsEligible p)
      → IsSound s
      → IsSound (set_promotion p (if chosen then some p else none) s)
  unfolding set_promotion
  set_promotion-IsSound p chosen s h (a, b, c) = elim (Bool-cases (is_public p.format)) [
    | inl e ↦ elim (Bool-cases chosen) [
      | inl t ↦ rw (e, t) (a, (h t, e), c)
      | inr t ↦ rw (e, t) (a, tt, c)
    ]
    | inr e ↦ elim (Bool-cases chosen) [
      | inl t ↦ rw (e, t) ((h t, e), b, c)
      | inr t ↦ rw (e, t) (tt, b, c)
    ]
  ]

  if-IsSound : (b : Bool) (x y : Applied) → IsSound x → IsSound y → IsSound (if b then x else y)
  if-IsSound true x y h k = h
  if-IsSound false x y h k = k

  note_later-IsSound :
      (m : ℕ) (p : Promotion) (g : CustomerGets) (s : Applied)
      → IsEligible p
      → IsSound s
      → IsSound (note_later m p g s)
  unfolding note_later
  note_later-IsSound m p g s h (a, b, c) =
      if-IsSound (is_renewal_index g.for_type && not (g.for_value == m))
        (record s { public_promotion_will_apply = some p }) s (a, b, h) (a, b, c)

  apply_gets-IsSound :
      (stay : Commitment) (amount : ℤ) (m : ℕ) (p : Promotion) (buys : CustomerBuys)
      (g : CustomerGets) (s : Applied)
      → IsEligible p
      → IsSound s
      → IsSound (apply_gets stay amount m p buys g s)
  unfolding apply_gets
  apply_gets-IsSound stay amount m p buys g s h i =
      let s' = note_later m p g s in
      let i' = note_later-IsSound m p g s h i in
      let s'' = record s' {
        is_promo_applied = true;
        promo_discount = add_discount amount g s'.promo_discount;
        commit = raise_commit stay buys s'.commit;
      } in
      if-IsSound (gets_applies m g) (set_promotion p (some p) s'')
        (set_promotion p (if s'.is_promo_applied then some p else none) s')
        (set_promotion-IsSound p true s'' (λ t. h) i')
        (set_promotion-IsSound p s'.is_promo_applied s' (λ t. h) i')

  gets_loop-IsSound :
      (stay : Commitment) (amount : ℤ) (m : ℕ) (p : Promotion) (buys : CustomerBuys)
      (gs : List CustomerGets) (s : Applied)
      → IsEligible p
      → IsSound s
      → IsSound (gets_loop stay amount m p buys gs s)
  unfolding gets_loop
  gets_loop-IsSound stay amount m p buys [] s h i = i
  gets_loop-IsSound stay amount m p buys (g ∷ gs) s h i =
      gets_loop-IsSound stay amount m p buys gs (apply_gets stay amount m p buys g s) h
        (apply_gets-IsSound stay amount m p buys g s h i)

  -- A branch taken only if its test passes.
  ifte-IsSound :
      (b : Bool) (x y : Applied × ℤ)
      → (b ≡ true → IsSound x.0)
      → IsSound y.0
      → IsSound (if b then x else y).0
  ifte-IsSound true x y h k = h refl
  ifte-IsSound false x y h k = k

  apply_buys-IsSound :
      (stay : Commitment) (amount : ℤ) (m : ℕ) (p : Promotion) (bs : List CustomerBuys)
      (r : Applied × ℤ)
      → p.customer_buys ≡ bs
      → is_redeemable p ≡ true
      → IsSound r.0
      → IsSound (apply_buys stay amount m site country p bs r).0
  unfolding apply_buys
  apply_buys-IsSound stay amount m p [] r e h i = i
  apply_buys-IsSound stay amount m p (buys ∷ more) (s, d) e h i =
      ifte-IsSound (meets_criteria stay s.commit amount buys && is_local site country p.format buys)
        _ _
        (λ t.
          gets_loop-IsSound stay amount m p buys p.customer_gets
            (record s { is_promo_applied = false; promo_discount = pos 0 })
            (h, rw e (and_right (meets_criteria stay s.commit amount buys) _ t)) i)
        (set_promotion-IsSound p false s (λ t. cc) i)

  promotions_loop-IsSound :
      (stay : Commitment) (amount : ℤ) (m : ℕ) (ps : List Promotion) (r : Applied × ℤ)
      → IsSound r.0
      → IsSound (promotions_loop stay amount m site country ps r).0
  unfolding promotions_loop
  promotions_loop-IsSound stay amount m [] r i = i
  promotions_loop-IsSound stay amount m (p ∷ ps) r i =
      promotions_loop-IsSound stay amount m ps
        (if is_redeemable p then apply_buys stay amount m site country p p.customer_buys r else r)
        (ifte-IsSound (is_redeemable p) (apply_buys stay amount m site country p p.customer_buys r)
          r (λ e. apply_buys-IsSound stay amount m p p.customer_buys r refl e i) i)

  or_else-IsAny : (x y : Option Promotion) → IsPublic x → IsAny y → IsAny (or_else x y)
  or_else-IsAny none y a b = b
  or_else-IsAny (some p) y a b = a.0

  -- What an answer may name.
  abbrev pub IsAnswer : PromotionAmount → Type 0
  IsAnswer r = IsPrivate r.promotion × IsAny r.public_promotion

  if-IsAnswer :
      (b : Bool) (x y : PromotionAmount) → IsAnswer x → IsAnswer y → IsAnswer (if b then x else y)
  if-IsAnswer true x y h k = h
  if-IsAnswer false x y h k = k

  promotion_response-IsAnswer :
      (price amount : ℤ) (r : Applied × ℤ)
      → IsSound r.0
      → IsAnswer (promotion_response price amount r)
  unfolding promotion_response
  promotion_response-IsAnswer price amount (s, d) (a, b, c) =
      if-IsAnswer
        (not (is_some s.promo)
          && (not (is_some s.public_promotion) && not (is_some s.public_promotion_will_apply)))
        _ _ (tt, tt) (a, or_else-IsAny s.public_promotion s.public_promotion_will_apply b c)

  -- For every promotion table, stay, code and month, a promotion that the answer names has
  -- something to buy and to get, has redemptions left, and allows the site: a public promotion
  -- by the site's id, a voucher by the country of its address. The one that the answer names as
  -- private is not of the public format.
  pub get_promotion_amount-IsAnswer :
      (find_promotions : List PromotionKey → List Promotion) (price : ℤ) (stay : Commitment)
      (code promotion_id : Option ℕ) (for_month : ℕ)
      → IsAnswer
          (get_promotion_amount find_promotions site country price stay code promotion_id for_month)
  unfolding get_promotion_amount general_response
  get_promotion_amount-IsAnswer find_promotions price stay code promotion_id m =
      let found = find_promotions (or_promo promotion_id code) in
      if-IsAnswer ((not (truthy code) && not (truthy promotion_id)) || (length found == 0))
        (general_response price) _ (tt, tt)
        (promotion_response-IsAnswer price (base_rent price stay)
          (promotions_loop stay (base_rent price stay) m site country
            (get_filtered_promotions found) (initial stay, pos 0))
          (promotions_loop-IsSound stay (base_rent price stay) m (get_filtered_promotions found)
            (initial stay, pos 0) (tt, tt, tt)))
