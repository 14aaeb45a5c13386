-- ===== src/BookingPromotions/Vouchers.antt =====
-- Vouchers on renewals.
use space_next_door_core_api.Base.{
  ℕ, Bool, true, false, Option, none, some, List, [], ◌∷◌, ◌||◌, not, if◌then◌else◌, ◌==◌, length,
  is_some, last?, any, filter, ◌≡◌, refl, inl, inr, arith, Bool-cases, Option-cases,
}
use space_next_door_core_api.BookingPromotions.{
  BookingPromotion, Renewal, Applied, blocks_voucher, is_voucher_skipped, is_skipped,
  apply_promotion, promotions_loop, get_booking_promotion_amount, is_around, Calendar, Bool, ℤ,
  is_voucher, Commitment, base_rent,
}
use space_next_door_core_api.Calendar.{Calendar}
use space_next_door_core_api.Base.Int.{ℤ}
use space_next_door_core_api.Catalog.{is_voucher}
use space_next_door_core_api.Promotions.Amount.{Commitment, base_rent}

any_all {ℓ} :
    {A : Type ℓ} (p : A → Bool) (xs : List A)
    → ((x : A) → p x ≡ true)
    → {y : A} → last? xs ≡ some y
    → any p xs ≡ true
any_all p [] h e = cc
any_all p (x ∷ xs) h e = rw (h x)

module _ (cal : Calendar) where
  -- The last renewal, if there is one, has a next renewal date.
  abbrev pub HasNextDate : Option (Renewal cal) → Type 0
  HasNextDate none = Unit
  HasNextDate (some r) = is_some r.next_renewal_date ≡ true

  -- What dayjs's dates satisfy: a date that is not before another day is after it a month later.
  abbrev pub MonthPasses : Type 0
  MonthPasses =
      (d a : cal.Date) → cal.is_before_day d a ≡ false → cal.is_after (cal.add_month d 1) a ≡ true

  around : MonthPasses → (d a : cal.Date) → is_around cal (some d) a ≡ true
  around law d a = ground (arith, law d a)

  around_some :
      MonthPasses
      → (o : Option cal.Date) (a : cal.Date) → is_some o ≡ true
      → is_around cal o a ≡ true
  around_some law none a h = cc
  around_some law (some d) a h = around law d a

  or_right : (a b : Bool) → b ≡ true → a || b ≡ true
  or_right a b h = ground arith

  voucher_skipped :
      MonthPasses
      → (renewals : List (Renewal cal)) (p : BookingPromotion cal) → HasNextDate (last? renewals)
      → is_voucher_skipped cal renewals p ≡ true
  unfolding is_voucher_skipped
  voucher_skipped law renewals p h = elim (Option-cases (last? renewals)) [
    | inl e ↦ rw (e, is_voucher_skipped)
    | inr (l, e) ↦
        rw (e, is_voucher_skipped)
          (any_all (blocks_voucher cal l p) renewals
            (λ r. or_right _ _ (around_some law l.next_renewal_date p.applied_at (rw e at h))) e)
  ]

  is_skipped-voucher :
      MonthPasses
      → (renewals : List (Renewal cal)) (p : BookingPromotion cal) → HasNextDate (last? renewals)
      → is_voucher p.format ≡ true
      → is_skipped cal renewals p ≡ true
  unfolding is_skipped
  is_skipped-voucher law renewals p h v =
      rw (v, voucher_skipped law renewals p h)
        (or_right (length p.customer_buys == 0 || length p.customer_gets == 0) true refl)

  abbrev pub not_voucher : BookingPromotion cal → Bool
  not_voucher p = not (is_voucher p.format)

  promotions_loop-filter :
      MonthPasses
      → (amount : ℤ) (renewals : List (Renewal cal)) (ps : List (BookingPromotion cal))
        (r : Applied cal × ℤ)
      → HasNextDate (last? renewals)
      → promotions_loop cal amount renewals ps r
        ≡ promotions_loop cal amount renewals (filter not_voucher ps) r
  unfolding promotions_loop
  promotions_loop-filter law amount renewals [] r h = refl
  promotions_loop-filter law amount renewals (p ∷ ps) r h =
      elim (Bool-cases (is_voucher p.format)) [
        | inl v ↦
            rw (v, is_skipped-voucher law renewals p h v)
              (promotions_loop-filter law amount renewals ps r h)
        | inr v ↦ rw v (
            promotions_loop-filter law amount renewals ps
              (if is_skipped cal renewals p then r else apply_promotion cal amount renewals p r) h)
      ]

  -- If a date that is not before another day is after it a month later, and the last renewal, if
  -- there is one, has a next renewal date, then the booking's vouchers change nothing: the answer
  -- is the one for the booking's other promotions alone.
  pub get_booking_promotion_amount-filter :
      MonthPasses
      → (promotions : List (BookingPromotion cal)) (price : ℤ) (stay : Commitment)
        (renewal_month : Option ℕ) (renewals : List (Renewal cal))
      → HasNextDate (last? renewals)
      → get_booking_promotion_amount cal promotions price stay renewal_month renewals
        ≡ get_booking_promotion_amount cal
            (filter not_voucher promotions)
            price
            stay
            renewal_month
            renewals
  unfolding get_booking_promotion_amount
  get_booking_promotion_amount-filter law promotions price stay m renewals h =
      rw (promotions_loop-filter law (base_rent price stay) renewals promotions _ h)
