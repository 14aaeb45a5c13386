-- ===== src/Cancellation/Fees.antt =====
-- The three tiers of the cancellation fee.
use space_next_door_core_api.Base.{ℕ, true, false, ◌+◌, ◌≤◌, ◌≡◌, ◌∙◌, inl, inr, arith, Bool-cases}
use space_next_door_core_api.Base.Int.{
  ℤ, pos, negsuc, ◌+ℤ◌, ◌-ℤ◌, ◌*ℤ◌, max_ℤ, leb_ℤ, ◌≤ℤ◌, int_laws, *ℤ-pos,
}
use space_next_door_core_api.Base.Round.{to_fixed, to_fixed_one, round_div}
use space_next_door_core_api.Cancellation.{RefundDetails, rent_amount, kept_safe, cancellation_fee}

-- The deposit, the insurance and the order were paid and the payment covers them.
pub record IsCovered (d : RefundDetails) : Type 0 where
  pub safe_nonneg : pos 0 ≤ℤ kept_safe d
  pub covered : kept_safe d ≤ℤ d.total_amount

sum_of_halves : (x y : ℕ) → pos y -ℤ pos x +ℤ pos x *ℤ pos 2 ≡ pos (x + y)
sum_of_halves x y = rw (*ℤ-pos x 2) (omega int_laws)

-- Half of what is above the safe part, rounded to a cent, stays between the two.
half_between :
    (x y : ℤ)
    → pos 0 ≤ℤ x
    → x ≤ℤ y
    → let h = to_fixed (y -ℤ x +ℤ x *ℤ pos 2) 2 in (x ≤ℤ h) × (h ≤ℤ y)
unfolding to_fixed round_div
half_between (pos x) (pos y) p q = rw (sum_of_halves x y) (omega arith, omega arith)
half_between (pos x) (negsuc y) p q = absurd (omega arith)
half_between (negsuc x) y p q = absurd (omega arith)

max_of_nonneg : (a : ℤ) → pos 0 ≤ℤ a → max_ℤ a (pos 0) ≡ a
max_of_nonneg a h = ground arith

rent_of_covered : (d : RefundDetails) → IsCovered d → rent_amount d ≡ d.total_amount -ℤ kept_safe d
unfolding rent_amount
rent_of_covered d h =
    let raw = d.total_amount -ℤ d.insurance_amount -ℤ d.order_amount -ℤ d.deposited_amount in
    let e : raw ≡ d.total_amount -ℤ kept_safe d = omega int_laws in
    max_of_nonneg raw (omega (int_laws, h.covered)) ∙ e

full_tier :
    (d : RefundDetails) (days : ℤ)
    → leb_ℤ (pos 14) days ≡ true
    → (cancellation_fee d days).refund_amount ≡ d.total_amount
unfolding cancellation_fee
full_tier d days h = rw h (to_fixed_one d.total_amount)

half_tier :
    (d : RefundDetails) (days : ℤ)
    → leb_ℤ (pos 14) days ≡ false
    → leb_ℤ (pos 7) days ≡ true
    → IsCovered d
    → (cancellation_fee d days).refund_amount
      ≡ to_fixed (d.total_amount -ℤ kept_safe d +ℤ kept_safe d *ℤ pos 2) 2
unfolding cancellation_fee
half_tier d days h k c = rw (h, k, rent_of_covered d c)

no_rent_tier :
    (d : RefundDetails) (days : ℤ)
    → leb_ℤ (pos 14) days ≡ false
    → leb_ℤ (pos 7) days ≡ false
    → (cancellation_fee d days).refund_amount ≡ kept_safe d
unfolding cancellation_fee
no_rent_tier d days h k = rw (h, k, to_fixed_one)

-- Where the payment covers deposit, insurance and order, which are not negative, every
-- cancellation refunds at least these three and at most the payment.
pub cancellation_fee_bounds :
    (d : RefundDetails) (days : ℤ)
    → IsCovered d
    → let r = (cancellation_fee d days).refund_amount in (kept_safe d ≤ℤ r) × (r ≤ℤ d.total_amount)
cancellation_fee_bounds d days c = elim (Bool-cases (leb_ℤ (pos 14) days)) [
  | inl h ↦ rw (full_tier d days h) (c.covered, omega arith)
  | inr h ↦ elim (Bool-cases (leb_ℤ (pos 7) days)) [
    | inl k ↦
        rw (half_tier d days h k c)
          (half_between (kept_safe d) d.total_amount c.safe_nonneg c.covered)
    | inr k ↦ rw (no_rent_tier d days h k) (omega arith, c.covered)
  ]
]

penalty_mono :
    (d : RefundDetails) (later earlier : ℤ)
    → later ≤ℤ earlier
    → (cancellation_fee d earlier).penalty_percent ≤ (cancellation_fee d later).penalty_percent
unfolding cancellation_fee
penalty_mono d later earlier h = ground arith

-- Under the same condition, a cancellation made earlier, with more days to the move in, refunds at
-- least as much as a later one, and its penalty in per cent is at most as high.
pub cancellation_fee_mono :
    (d : RefundDetails) (later earlier : ℤ)
    → IsCovered d
    → later ≤ℤ earlier
    → let a = cancellation_fee d later in
      let b = cancellation_fee d earlier in
      (a.refund_amount ≤ℤ b.refund_amount) × (b.penalty_percent ≤ a.penalty_percent)
cancellation_fee_mono d later earlier c h = (
  ground (
    arith,
    full_tier d later,
    full_tier d earlier,
    half_tier d later,
    half_tier d earlier,
    no_rent_tier d later,
    no_rent_tier d earlier,
    cancellation_fee_bounds d later c,
    cancellation_fee_bounds d earlier c,
  ),
  penalty_mono d later earlier h,
)
