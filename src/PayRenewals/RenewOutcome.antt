-- ===== src/PayRenewals/RenewOutcome.antt =====
-- What the job leaves of a booking whose renewal is due.
use space_next_door_core_api.Base.{
  ℕ, zero, suc, true, false, none, some, List, ◌∷◌, ◌&&◌, ◌+◌, length, ◌≡◌, refl, ◌≢◌, ◌⊎◌, inl,
  inr, arith, ◌++◌, [], Option, Bool-cases, ◌∙◌, ap,
}
use space_next_door_core_api.Catalog.{RenewalStatus}
use space_next_door_core_api.Calendar.{Calendar}
use space_next_door_core_api.PayRenewals.Renew.{
  renew_booking, finish_new, fail_new, renew_from, charge_new, RenewCalls, BookingRows, settle_new,
  add_renewal,
}
use space_next_door_core_api.PayRenewals.Amounts.{
  new_renewal, project_next, NewRenewal, RenewingBooking, is_renewal_due, projected_booking,
  taxed_renewal, job_payload, month_discount,
}
use space_next_door_core_api.Payments.Stripe.{Currency}
use space_next_door_core_api.Payments.Ledger.{
  Ledger, Attempt, convert, IsAttempt, begin_in, attempt_cases,
}
use space_next_door_core_api.Taxes.{TaxOwner, Tax}
use space_next_door_core_api.Base.Int.{ℤ, pos, leb_ℤ, negsuc, ◌+ℤ◌, ◌-ℤ◌}
use space_next_door_core_api.Renewals.Projected.{
  RenewalInfo, get_renewal_info, get_renewal_projected_amount,
}
use space_next_door_core_api.Base.Result.{ok}
use space_next_door_core_api.Base.Number.{Number, add, fixed, fixed_lem}
use space_next_door_core_api.Base.Round.{to_fixed, to_fixed_one}
use space_next_door_core_api.Renewals.Payload.{get_renewal_payload}

zero_test : (n : ℤ) → n ≢ pos 0 → (leb_ℤ n (pos 0) && leb_ℤ (pos 0) n) ≡ false
zero_test (pos zero) h = absurd (h refl)
zero_test (pos (suc n)) h = grind arith
zero_test (negsuc n) h = grind arith

module _ (cal : Calendar) where
  open cal use {Date}

  -- The rows with one more renewal, paid by a charge that has its transaction.
  abbrev pub HasPaid : ℕ → NewRenewal cal → BookingRows cal → BookingRows cal → Type 0
  HasPaid id r rows rows' =
      (rows'.renewals
        ≡ rows.renewals
          ++ (record r { status = RenewalStatus.paid; transaction_id = some id } ∷ []))
      × (rows'.transactions ≡ id ∷ rows.transactions)

  -- The rows with one more renewal, which has failed.
  abbrev pub HasFailed : NewRenewal cal → BookingRows cal → BookingRows cal → Type 0
  HasFailed r rows rows' =
      (rows'.renewals
        ≡ rows.renewals
          ++ (record r { status = RenewalStatus.failed; transaction_id = none; is_attempted = true }
              ∷ []))
      × (rows'.transactions ≡ rows.transactions)

  -- The booking has the renewal, paid with one charge of its total; or it has the renewal as failed,
  -- and the customer has paid nothing.
  abbrev pub RenewLeaves :
      Currency → NewRenewal cal → Ledger (BookingRows cal) → Ledger (BookingRows cal) → Type 0
  RenewLeaves currency r s s' =
      (s'.in_flight ≡ s.in_flight)
      × (((id : ℕ) × (amount : ℤ) × (convert r.total_amount currency ≡ ok amount)
            × (s'.charges ≡ record { id = id; amount = amount } ∷ s.charges)
            × (s'.refunds ≡ s.refunds)
            × HasPaid id r s.rows s'.rows)
          ⊎ ((s'.charges ≡ s.charges) × (s'.refunds ≡ s.refunds) × HasFailed r s.rows s'.rows)
          ⊎ ((id : ℕ) × (amount : ℤ) × (s'.charges
                ≡ record { id = id; amount = amount } ∷ s.charges)
              × (s'.refunds ≡ id ∷ s.refunds)
              × HasFailed r s.rows s'.rows))

  finish_new-RenewLeaves :
      (c : RenewCalls) (currency : Currency) (r : NewRenewal cal) (s : Ledger (BookingRows cal))
      {a : Attempt × Ledger (BookingRows cal)}
      → c.refund ≡ true
      → c.create_failed ≡ true
      → r.status ≡ RenewalStatus.paid
      → IsAttempt (convert r.total_amount currency) (begin_in s) a
      → RenewLeaves currency r s (finish_new cal c r a).1
  unfolding finish_new fail_new settle_new add_renewal
  finish_new-RenewLeaves c currency r s h k p IsAttempt.refused =
      rw k (omega arith, inr (inl (refl, refl, (refl, refl))))
  finish_new-RenewLeaves c currency r s h k p (IsAttempt.kept id amount e) = (
    omega arith,
    inl (
      id,
      amount,
      e,
      refl,
      refl,
      ((λ i. s.rows.renewals ++ (record r { status = p i; transaction_id = some id } ∷ [])), refl),
    ),
  )
  finish_new-RenewLeaves c currency r s h k p (IsAttempt.dropped id amount) =
      rw (h, k) (omega arith, inr (inr (id, amount, refl, refl, (refl, refl))))

  -- The projection of the next month keeps the status.
  project_next-status :
      (find_all : List TaxOwner → List Tax) (b : RenewingBooking cal) (o : Option ℤ)
      (r : NewRenewal cal)
      → (project_next cal find_all b o r).status ≡ r.status
  unfolding project_next
  project_next-status find_all b none r = refl
  project_next-status find_all b (some next) r =
      elim (Bool-cases (leb_ℤ next (pos 0) && leb_ℤ (pos 0) next)) [
        | inl e ↦ rw e refl
        | inr e ↦ rw e refl
      ]

  -- The job works a paid renewal out.
  new_renewal_status :
      (find_all : List TaxOwner → List Tax) (create_days : ℤ) (b : RenewingBooking cal)
      (info : RenewalInfo cal)
      → (new_renewal cal find_all create_days b info).status ≡ RenewalStatus.paid
  unfolding new_renewal taxed_renewal job_payload get_renewal_payload
  new_renewal_status find_all create_days b info =
      project_next-status find_all b
        (taxed_renewal cal find_all create_days b info).next_renewal_sub_total
        (taxed_renewal cal find_all create_days b info)

  renew_booking_due :
      (find_all : List TaxOwner → List Tax) (c : RenewCalls) (create_days : ℤ) (today : Date)
      (b : RenewingBooking cal) (s : Ledger (BookingRows cal)) {info : RenewalInfo cal}
      → b.is_termination_requested ≡ false
      → get_renewal_info cal b.move_out_date b.renewals ≡ some info
      → is_renewal_due cal today info.next_renewal_date_of_last b.move_out_date ≡ true
      → renew_booking cal find_all c create_days today b s
        ≡ charge_new cal c b.currency (new_renewal cal find_all create_days b info) s
  unfolding renew_booking renew_from
  renew_booking_due find_all c create_days today b s t i d = rw (t, i, d) refl

  -- For every active booking without a termination whose renewal is due, and every way that the calls
  -- can end in which a refund and the row of a failed renewal go through: the booking has the new
  -- renewal as its last, which is either paid, with one charge of its total in the currency's unit, the
  -- charge's transaction added and linked, or failed and attempted, with no transaction added, and then
  -- nothing was charged or the one charge was refunded. No transaction is left over.
  pub renew_booking-RenewLeaves :
      (find_all : List TaxOwner → List Tax) (c : RenewCalls) (create_days : ℤ) (today : Date)
      (b : RenewingBooking cal) (s : Ledger (BookingRows cal)) {info : RenewalInfo cal}
      → c.refund ≡ true
      → c.create_failed ≡ true
      → b.is_termination_requested ≡ false
      → get_renewal_info cal b.move_out_date b.renewals ≡ some info
      → is_renewal_due cal today info.next_renewal_date_of_last b.move_out_date ≡ true
      → RenewLeaves b.currency
          (new_renewal cal find_all create_days b info)
          s
          (renew_booking cal find_all c create_days today b s).1
  unfolding charge_new
  renew_booking-RenewLeaves find_all c create_days today b s {info} h k t i d =
      let r = new_renewal cal find_all create_days b info in
      rw (renew_booking_due find_all c create_days today b s t i d) (
        finish_new-RenewLeaves c b.currency r s h k (new_renewal_status find_all create_days b info)
          (attempt_cases _ _ _ _ _))

  total_with_tax :
      (sub_total deposit insurance discount t : ℤ) (tax : Number)
      → tax ≡ some t
      → fixed
          (add (some (to_fixed (sub_total +ℤ deposit +ℤ insurance -ℤ to_fixed discount 1) 1)) tax)
        ≡ some (sub_total +ℤ deposit +ℤ insurance -ℤ discount +ℤ t)
  total_with_tax sub_total deposit insurance discount t tax h = rw h (
      fixed_lem _
      ∙ ap (λ x. some (x +ℤ t))
          (to_fixed_one (sub_total +ℤ deposit +ℤ insurance -ℤ to_fixed discount 1)
            ∙ ap (λ d. sub_total +ℤ deposit +ℤ insurance -ℤ d) (to_fixed_one discount)))

  -- What the job takes as this month's total.
  taxed_renewal_total :
      (find_all : List TaxOwner → List Tax) (create_days : ℤ) (b : RenewingBooking cal)
      (info : RenewalInfo cal) (t : ℤ)
      → let r = taxed_renewal cal find_all create_days b info in
        r.total_tax_amount ≡ some t
        → r.total_amount
          ≡ some (
              r.sub_total_amount
              +ℤ r.deposit_amount
              +ℤ r.insurance_amount
              -ℤ (month_discount cal b).discounted_amount
              +ℤ t)
  unfolding taxed_renewal job_payload get_renewal_payload
  taxed_renewal_total find_all create_days b info t h =
      let r = taxed_renewal cal find_all create_days b info in
      total_with_tax r.sub_total_amount r.deposit_amount r.insurance_amount
        (month_discount cal b).discounted_amount t r.total_tax_amount h

  -- For every booking whose next month has a total, and whose tax is a number: the renewal's total is
  -- worked out with the discount of this month, while the discount that it keeps is the one projected
  -- for the next month.
  pub new_renewal_discount :
      (find_all : List TaxOwner → List Tax) (create_days : ℤ) (b : RenewingBooking cal)
      (info : RenewalInfo cal) (next t : ℤ)
      → (taxed_renewal cal find_all create_days b info).next_renewal_sub_total ≡ some next
      → next ≢ pos 0
      → (taxed_renewal cal find_all create_days b info).total_tax_amount ≡ some t
      → let r = new_renewal cal find_all create_days b info in
        let p =
          get_renewal_projected_amount cal find_all
            (projected_booking cal b)
            next
            (length b.renewals + 2)
            none
            none in
        (r.total_amount
          ≡ some (
              r.sub_total_amount
              +ℤ r.deposit_amount
              +ℤ r.insurance_amount
              -ℤ (month_discount cal b).discounted_amount
              +ℤ t))
        × (r.discount_amount ≡ p.discount)
        × (r.next_renewal_total ≡ some p.total)
  unfolding new_renewal project_next
  new_renewal_discount find_all create_days b info next t n h k =
      rw (n, zero_test next h) (taxed_renewal_total find_all create_days b info t k, refl, refl)
