-- ===== src/Renewals/Agreement.antt =====
-- What a booking is stored with, and what its first renewal charges.
use space_next_door_core_api.Base.{
  ℕ, true, false, Option, none, some, List, if◌then◌else◌, ◌≡◌, refl, ap, ◌∙◌, inl, inr, arith,
  Bool-cases,
}
use space_next_door_core_api.Base.Round.{to_fixed, to_fixed_one, round_div_exact}
use space_next_door_core_api.Calendar.{Calendar}
use space_next_door_core_api.Base.Int.{
  negsuc, ltb_ℤ, ℤ, pos, ◌+ℤ◌, ◌≤ℤ◌, leb_ℤ, ◌-ℤ◌, ◌*ℤ◌, *ℤ-pos, int_laws, negsuc, ltb_ℤ,
}
use space_next_door_core_api.Renewals.Payload.{
  first_renewal, first_renewal_total, get_renewal_payload, terms_until, amount_of_days,
}
use space_next_door_core_api.Base.Number.{Number, add, sub, fixed}
use space_next_door_core_api.Pricing.{create_amounts, get_deposit_and_sub_total_amount, by_days}
use space_next_door_core_api.Taxes.{TaxOwner, Tax}

to_fixed_month : (price : ℤ) → pos 0 ≤ℤ price → to_fixed (price *ℤ pos 30) 30 ≡ price
unfolding to_fixed
to_fixed_month (pos p) h = rw (*ℤ-pos p 30) (ap pos (round_div_exact p 30 (omega arith)))
to_fixed_month (negsuc p) h = absurd (omega arith)

-- The two ways to count the rent of a stay, by its days and by its days and months.
rent_by_months :
    (cal : Calendar) (price days months : ℤ)
    → pos 0 ≤ℤ price
    → (days ≤ℤ pos 30 → months ≤ℤ pos 1)
    → (if leb_ℤ months (pos 1) then amount_of_days cal price days else price) ≡ by_days price days
rent_by_months cal price days months p h = elim (Bool-cases (leb_ℤ days (pos 30))) [
  | inl e ↦
      let k : leb_ℤ months (pos 1) ≡ true = ground (arith, h) in
      let m : ltb_ℤ (pos 30) days ≡ false = ground arith in rw (e, k, m) refl
  | inr e ↦
      let m : ltb_ℤ (pos 30) days ≡ true = ground arith in
      rw (e, m, to_fixed_month price p, to_fixed_one price) (ground arith)
]

module _ (cal : Calendar) where
  open cal use {Date, add_day, diff_day, diff_month}

  -- What the theorem needs of the dates: a day more counts one day more, and 30 days are at most a
  -- month.
  abbrev pub IsCounted : Date → Option Date → Type 0
  IsCounted move_in none = Unit
  IsCounted move_in (some move_out) =
      let after = add_day move_out (pos 1) in
      (diff_day after move_in ≡ diff_day move_out move_in +ℤ pos 1)
      × (diff_day after move_in ≤ℤ pos 30 → diff_month after move_in ≤ℤ pos 1)

  first_rent :
      (create_days : ℤ) (booking : ℕ) (price deposit discount : ℤ) (move_in : Date)
      (move_out : Option Date)
      → pos 0 ≤ℤ price
      → IsCounted move_in move_out
      → (first_renewal cal create_days booking price deposit discount move_in
          move_out).sub_total_amount
        ≡ (get_deposit_and_sub_total_amount cal price move_in move_out).sub_total_amount
  unfolding first_renewal get_renewal_payload terms_until get_deposit_and_sub_total_amount
  first_rent create_days booking price deposit discount move_in none p h = refl
  first_rent create_days booking price deposit discount move_in (some move_out) p (e, h) =
      rw (to_fixed_one _, to_fixed_one _) (rent_by_months cal price _ _ p h ∙ ap (by_days price) e)

  total_of :
      (rent deposit discount : ℤ) (tax : Number)
      → add (some (rent +ℤ deposit +ℤ pos 0 -ℤ discount)) tax
        ≡ sub (add (add (some rent) tax) (some deposit)) (some discount)
  total_of rent deposit discount none = refl
  total_of rent deposit discount (some t) = ap some (omega int_laws)

  first_total :
      (create_days : ℤ) (booking : ℕ) (price deposit discount : ℤ) (move_in : Date)
      (move_out : Option Date)
      → let p = first_renewal cal create_days booking price deposit discount move_in move_out in
        p.total_amount ≡ p.sub_total_amount +ℤ deposit +ℤ pos 0 -ℤ discount
  unfolding first_renewal get_renewal_payload ◌*ℤ◌
  first_total create_days booking price deposit discount move_in move_out =
      to_fixed_one _ ∙ ap (λ d. _ -ℤ d) (to_fixed_one discount)

  -- For every price of at least 0, dates and discount, the total of the booking that `create` stores
  -- is the total of its first renewal, which is what `payBooking` charges. The calendar counts one
  -- day more to the day after the move out, and 30 days as at most a month.
  pub first_renewal_total-eq :
      (find_all : List TaxOwner → List Tax) (create_days : ℤ) (site booking : ℕ)
      (price discount : ℤ) (move_in : Date) (move_out : Option Date)
      → pos 0 ≤ℤ price
      → IsCounted move_in move_out
      → let b = create_amounts cal find_all site price move_in move_out discount in
        first_renewal_total cal
          (first_renewal cal create_days booking price b.deposited_amount discount move_in move_out)
          b.total_tax_amount
        ≡ b.total_amount
  unfolding first_renewal_total create_amounts
  first_renewal_total-eq find_all create_days site booking price discount move_in move_out p h =
      let r = get_deposit_and_sub_total_amount cal price move_in move_out in
      let tax =
        (create_amounts cal find_all site price move_in move_out discount).total_tax_amount in
      let e = first_rent create_days booking price r.deposit_amount discount move_in move_out p h in
      ap (λ t. fixed (add (some t) tax))
        (first_total create_days booking price r.deposit_amount discount move_in move_out
          ∙ ap (λ x. x +ℤ r.deposit_amount +ℤ pos 0 -ℤ discount) e)
      ∙ ap fixed (total_of r.sub_total_amount r.deposit_amount discount tax)
