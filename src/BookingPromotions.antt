-- ===== src/BookingPromotions.antt =====
-- src/bookings/promotions/promotion/promotion.service.ts: `getBookingPromotionAmount`, the
-- discount on a renewal of a booking. The query for the booking's active promotions is Sequelize's:
-- its result is the parameter `promotions`.
pub mod Vouchers
use space_next_door_core_api.Base.{
  ℕ, zero, suc, Bool, true, false, Option, none, some, List, [], ◌∷◌, ◌&&◌, ◌||◌, not, ◌+◌,
  if◌then◌else◌, leb, ltb, ◌==◌, length, is_some, last?, any, filter,
}
use space_next_door_core_api.Base.Int.{ℤ, pos, ◌+ℤ◌, ◌-ℤ◌, max_ℤ, min_ℤ}
use space_next_door_core_api.Base.Round.{to_fixed}
use space_next_door_core_api.Base.Number.{truthy}
use space_next_door_core_api.Calendar.{Calendar}
use space_next_door_core_api.Catalog.{PromotionForType, PromotionFormat, is_public, is_voucher}
use space_next_door_core_api.Promotions.Types.{CustomerBuys, CustomerGets}
use space_next_door_core_api.Promotions.Gets.{add_discount}
use space_next_door_core_api.Promotions.Amount.{Commitment, get_commitment, base_rent, gets_applies}

module _ (cal : Calendar) where
  open cal use {Date, add_month, is_before, is_after, is_before_day}

  -- A row of the booking's promotions, with its `customer_buys` and `customer_gets`.
  pub record BookingPromotion : Type 0 where
    pub id : ℕ
    pub format : PromotionFormat
    pub applied_at : Date
    pub customer_buys : List CustomerBuys
    pub customer_gets : List CustomerGets

  pub record Renewal : Type 0 where
    pub promotion_id : Option ℕ
    pub renewal_start_date : Date
    pub next_renewal_date : Option Date

  pub record BookingPromotionAmount : Type 0 where
    pub promotion : Option BookingPromotion
    pub public_promotion : Option BookingPromotion
    pub price_per_month : ℤ
    pub discounted_amount : ℤ
    pub total : ℤ
    pub total_after_discount : ℤ

  same_id : Option ℕ → ℕ → Bool
  same_id none id = false
  same_id (some i) id = i == id

  -- The two tests on the last renewal's next date; dayjs makes both false of a missing date.
  abbrev pub is_around : Option Date → Date → Bool
  is_around none applied_at = false
  is_around (some next) applied_at =
      is_before_day next applied_at || is_after (add_month next 1) applied_at

  -- The condition inside `renewals.find`, which looks at the last renewal for every member.
  unfoldable pub blocks_voucher : Renewal → BookingPromotion → Renewal → Bool
  unfolding same_id
  blocks_voucher last_renewal promotion r =
      same_id r.promotion_id promotion.id
      || is_around last_renewal.next_renewal_date promotion.applied_at

  -- The `continue` of a voucher: no renewals, or one of them blocks it.
  unfoldable pub is_voucher_skipped : List Renewal → BookingPromotion → Bool
  unfolding blocks_voucher
  is_voucher_skipped renewals promotion = elim (last? renewals) [
    | none ↦ true
    | some last_renewal ↦ any (blocks_voucher last_renewal promotion) renewals
  ]

  -- The loop's two `continue`s.
  unfoldable pub is_skipped : List Renewal → BookingPromotion → Bool
  unfolding is_voucher_skipped
  is_skipped renewals p =
      (length p.customer_buys == 0 || length p.customer_gets == 0)
      || (is_voucher p.format && is_voucher_skipped renewals p)

  -- The variables of the loops.
  pub record Applied : Type 0 where
    pub promo : Option BookingPromotion
    pub public_promotion : Option BookingPromotion
    pub renewal_month : Option ℕ
    pub is_promo_applied : Bool
    pub promo_discount : ℤ

  unfoldable pub set_promotion : BookingPromotion → Option BookingPromotion → Applied → Applied
  set_promotion p value s =
      if is_public p.format
      then record s { public_promotion = value }
      else record s { promo = value }

  -- `if (!renewalMonth)`: the renewals since the promotion was applied, and this one.
  unfoldable pub months_after : List Renewal → BookingPromotion → ℕ
  months_after renewals p =
      length (filter (λ r. not (is_before_day r.renewal_start_date p.applied_at)) renewals) + 1

  unfoldable pub current_month : List Renewal → BookingPromotion → Option ℕ → ℕ
  unfolding months_after
  current_month renewals p none = months_after renewals p
  current_month renewals p (some zero) = months_after renewals p
  current_month renewals p (some (suc m)) = suc m

  unfoldable pub apply_gets : ℤ → ℕ → BookingPromotion → CustomerGets → Applied → Applied
  unfolding set_promotion gets_applies
  apply_gets amount month p gets s =
      if gets_applies month gets
      then set_promotion p (some p) (record s {
        is_promo_applied = true;
        promo_discount = add_discount amount gets s.promo_discount;
      })
      else set_promotion p (if s.is_promo_applied then some p else none) s

  unfoldable pub gets_loop : ℤ → ℕ → BookingPromotion → List CustomerGets → Applied → Applied
  unfolding apply_gets
  gets_loop amount month p [] s = s
  gets_loop amount month p (g ∷ gs) s = gets_loop amount month p gs (apply_gets amount month p g s)

  unfoldable pub apply_promotion : ℤ → List Renewal → BookingPromotion → Applied × ℤ → Applied × ℤ
  unfolding current_month gets_loop
  apply_promotion amount renewals p (s, discounted) =
      let month = current_month renewals p s.renewal_month in
      let s' = gets_loop amount month p p.customer_gets (record s {
        renewal_month = some month;
        is_promo_applied = false;
        promo_discount = pos 0;
      }) in
      (s', to_fixed (s'.promo_discount +ℤ discounted) 1)

  unfoldable pub promotions_loop :
      ℤ → List Renewal → List BookingPromotion → Applied × ℤ → Applied × ℤ
  unfolding apply_promotion
  promotions_loop amount renewals [] r = r
  promotions_loop amount renewals (p ∷ ps) r =
      promotions_loop amount renewals ps
        (if is_skipped renewals p then r else apply_promotion amount renewals p r)

  unfoldable pub promotion_response : ℤ → ℤ → Applied × ℤ → BookingPromotionAmount
  promotion_response price amount (s, discounted) =
      if not (is_some s.promo) && not (is_some s.public_promotion)
      then record {
        promotion = none;
        public_promotion = none;
        price_per_month = price;
        discounted_amount = pos 0;
        total = amount;
        total_after_discount = amount;
      }
      else (let clamped = min_ℤ (max_ℤ discounted (pos 0)) amount in
          record {
            promotion = s.promo;
            public_promotion = s.public_promotion;
            price_per_month = price;
            discounted_amount = clamped;
            total = amount;
            total_after_discount = amount -ℤ clamped;
          })

  -- `stay` is measured from today to the booking's move out date.
  unfoldable pub get_booking_promotion_amount :
      List BookingPromotion → ℤ → Commitment → Option ℕ → List Renewal → BookingPromotionAmount
  unfolding promotions_loop promotion_response
  get_booking_promotion_amount promotions price stay renewal_month renewals =
      let amount = base_rent price stay in
      promotion_response price amount (
        promotions_loop amount renewals promotions (
          record {
            promo = none;
            public_promotion = none;
            renewal_month = renewal_month;
            is_promo_applied = false;
            promo_discount = pos 0;
          },
          pos 0,
        ))
