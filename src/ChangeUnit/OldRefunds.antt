-- ===== src/ChangeUnit/OldRefunds.antt =====
-- What the refunds after a change of unit come to.
use space_next_door_core_api.Base.{
  ℕ, Bool, false, Option, none, some, List, [], ◌∷◌, ◌++◌, ◌+◌, if◌then◌else◌, map, ◌≡◌, refl, ◌∙◌,
  inl, inr, arith, Bool-cases,
}
use space_next_door_core_api.Payments.Refund.{
  refund, RefundCalls, State, RefundPayload, RefundError,
}
use space_next_door_core_api.Payments.Stripe.{calculate_amount_in_currency}
use space_next_door_core_api.Catalog.{RefundType}
use space_next_door_core_api.Base.Int.{ℤ}
use space_next_door_core_api.ChangeUnit.Change.{
  unit_refund, refund_all, refund_old, ChangeCalls, then_refund, ChangeBookingUnitResp, UnitRows,
}
use space_next_door_core_api.Base.Result.{Result, ok, err}
use space_next_door_core_api.Calendar.{Calendar}
use space_next_door_core_api.ChangeUnit.Run.{
  refund_change, change_booking_unit, change_from, UnitChange, old_refunds, moves_deposit,
  unit_change, run_if,
}
use space_next_door_core_api.Taxes.{TaxOwner, Tax}
use space_next_door_core_api.ChangeUnit.Request.{
  ChangeError, ChangeBookingUnitPayload, NewSpace, UnitBooking, UnitRenewal,
}
use space_next_door_core_api.Payments.Ledger.{Ledger, begin_in}

-- Nothing was sent to Stripe and no row was committed.
abbrev pub IsIdle : State → State → Type 0
IsIdle t t' = (t'.committed ≡ t.committed) × (t'.sent ≡ t.sent)

-- A refund that names no currency, in the transaction of its caller.
unit_refund-IsIdle :
    (c : RefundCalls) (type : RefundType) (amount : ℤ) (t : State)
    → IsIdle t (refund c false (unit_refund type amount) t).1
unfolding refund calculate_amount_in_currency
unit_refund-IsIdle c type amount t = ground arith

then_refund-IsIdle :
    (r : Result RefundError (Option ℕ) × State) (k : State → Bool × State) (t : State)
    → IsIdle t r.1
    → ((t' : State) → IsIdle t' (k t').1)
    → IsIdle t (then_refund r k).1
then_refund-IsIdle (ok answer, s) k t (a, b) h = let (a', b') = h s in (a' ∙ a, b' ∙ b)
then_refund-IsIdle (err e, s) k t h h' = h

-- A list of refunds as the change asks for them.
abbrev unit_refunds : List (RefundCalls × RefundType × ℤ) → List (RefundCalls × RefundPayload)
unit_refunds ps = map (λ p. (p.0, unit_refund p.1 p.2)) ps

refund_all-IsIdle :
    (ps : List (RefundCalls × RefundType × ℤ)) (t : State)
    → IsIdle t (refund_all (unit_refunds ps) t).1
unfolding refund_all
refund_all-IsIdle [] t = (refl, refl)
refund_all-IsIdle ((c, type, amount) ∷ ps) t =
    then_refund-IsIdle _ _ t (unit_refund-IsIdle c type amount t) (refund_all-IsIdle ps)

refund_old-IsIdle :
    (ps : List (RefundCalls × RefundType × ℤ)) (t : State)
    → IsIdle t (refund_old (unit_refunds ps) t).1
unfolding refund_old
refund_old-IsIdle ps t =
    let begun = record t { pending = t.committed; in_flight = t.in_flight + 1 } in
    elim (Bool-cases (refund_all (unit_refunds ps) begun).0) [
      | inl e ↦ rw e (refund_all-IsIdle ps begun)
      | inr e ↦ rw e (refund_all-IsIdle ps begun)
    ]

module _ (cal : Calendar) where
  open cal use {Date}

  -- The refunds of a change, with their kinds and amounts.
  asked : ChangeCalls → UnitChange cal → List (RefundCalls × RefundType × ℤ)
  asked c u =
      (if moves_deposit cal u
        then (c.old_deposit, RefundType.refund_deposit, u.booking.deposited_amount) ∷ []
        else [])
      ++ (if u.is_swapped
          then (c.old_renewal, RefundType.refund_unused_days, u.days.total_paid) ∷ []
          else [])

  asked_lem :
      (c : ChangeCalls) (u : UnitChange cal) → old_refunds cal c u ≡ unit_refunds (asked c u)
  unfolding asked
  asked_lem c u = ground arith

  refund_change-IsIdle :
      (c : ChangeCalls) (u : UnitChange cal)
      (r : Result ChangeError ChangeBookingUnitResp × Ledger (UnitRows cal)) (t : State)
      → IsIdle t (refund_change cal c u r t).1.1
  unfolding refund_change
  refund_change-IsIdle c u (err e, s) t = (refl, refl)
  refund_change-IsIdle c u (ok resp, s) t = elim (Bool-cases u.is_applied) [
    | inl e ↦ rw (e, asked_lem c u) (refund_old-IsIdle (asked c u) t)
    | inr e ↦ rw e (refl, refl)
  ]

  change_from-IsIdle :
      (find_all : List TaxOwner → List Tax) (c : ChangeCalls) (create_days : ℤ) (today : Date)
      (payload : ChangeBookingUnitPayload) (n : NewSpace)
      (r : Result ChangeError (UnitBooking cal × UnitRenewal cal × Date))
      (s : Ledger (UnitRows cal)) (t : State)
      → IsIdle t (change_from cal find_all c create_days today payload n r s t).1.1
  unfolding change_from
  change_from-IsIdle find_all c create_days today payload n (err e) s t = (refl, refl)
  change_from-IsIdle find_all c create_days today payload n (ok (b, last, date)) s t =
      let u = unit_change cal find_all create_days today payload b n last in
      refund_change-IsIdle c u (run_if cal payload.apply c today u (begin_in s)) t

  -- For every change of unit and every way that the calls can end, neither the old deposit nor the
  -- days that were paid are ever refunded: the refunds send nothing to Stripe, and none of their
  -- rows is committed.
  pub change_booking_unit-IsIdle :
      (find_all : List TaxOwner → List Tax) (c : ChangeCalls) (create_days : ℤ) (today : Date)
      (payload : ChangeBookingUnitPayload) (is_found : Bool) (space : Option NewSpace)
      (s : Ledger (UnitRows cal)) (t : State)
      → let (r, (s', t')) =
          change_booking_unit cal find_all c create_days today payload is_found space s t in
        (t'.committed ≡ t.committed) × (t'.sent ≡ t.sent)
  unfolding change_booking_unit
  change_booking_unit-IsIdle find_all c create_days today payload is_found none s t = (refl, refl)
  change_booking_unit-IsIdle find_all c create_days today payload is_found (some n) s t =
      change_from-IsIdle find_all c create_days today payload n _ s t
