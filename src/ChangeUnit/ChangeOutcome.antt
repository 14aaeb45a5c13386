-- ===== src/ChangeUnit/ChangeOutcome.antt =====
-- What a change of unit leaves.
use space_next_door_core_api.Catalog.{TransactionType}
use mathlib.Core.List.{map-append, append_assoc}
use space_next_door_core_api.Base.{
  ℕ, Bool, true, false, Option, none, some, List, [], ◌∷◌, ◌++◌, ◌&&◌, not, ◌+◌, map, ◌≡◌, refl,
  sym, ap, ◌∙◌, inl, inr, arith, Bool-cases,
}
use space_next_door_core_api.Calendar.{Calendar}
use space_next_door_core_api.ChangeUnit.Change.{
  fail_change, UnitRows, ChangeCalls, PayUnitCalls, ChangeBookingUnitResp, UnitTransaction,
  changed_rows, transaction_of, UnitHistory,
}
use space_next_door_core_api.Payments.Ledger.{Ledger, attempt, begin_in}
use space_next_door_core_api.Payments.World.{Charge}
use space_next_door_core_api.Base.Result.{Result, err, ok}
use space_next_door_core_api.ChangeUnit.Run.{
  pay_if, paid, after_renewal, UnitChange, after_deposit, refund_change, run_if,
  change_booking_unit, moves_deposit, unit_change, change_from,
}
use space_next_door_core_api.Payments.Stripe.{StripeError, Currency}
use space_next_door_core_api.ChangeUnit.Request.{
  ChangeError, NewSpace, ChangeBookingUnitPayload, UnitBooking, UnitRenewal,
}
use space_next_door_core_api.Base.Int.{ℤ}
use space_next_door_core_api.Base.Number.{Number}
use space_next_door_core_api.Base.Round.{to_fixed}
use space_next_door_core_api.Payments.Refund.{State}
use space_next_door_core_api.Taxes.{TaxOwner, Tax}

module _ (cal : Calendar) where
  open cal use {Date}

  -- The charges that were made since `s` began, newest first, and that are recorded.
  abbrev ids_of : Option ℕ → List ℕ
  ids_of none = []
  ids_of (some id) = id ∷ []

  -- In the middle of a change: the rows are those of `s`, one transaction is open, nothing is
  -- refunded, and Stripe has the charges of the payments that were made.
  abbrev IsUnderway : Ledger (UnitRows cal) → Option ℕ → Option ℕ → Ledger (UnitRows cal) → Type 0
  IsUnderway s deposit renewal s' =
      (s'.rows ≡ s.rows)
      × (s'.in_flight ≡ s.in_flight + 1)
      × (s'.refunds ≡ s.refunds)
      × ((new : List Charge) × (s'.charges ≡ new ++ s.charges)
          × (map (λ c. c.id) new ≡ ids_of renewal ++ ids_of deposit))

  -- The change failed, and every charge was refunded.
  abbrev IsUndone : Ledger (UnitRows cal) → Ledger (UnitRows cal) → Type 0
  IsUndone s s' =
      (s'.rows ≡ s.rows)
      × (s'.in_flight ≡ s.in_flight)
      × ((new : List Charge) × (s'.charges ≡ new ++ s.charges)
          × (s'.refunds ≡ map (λ c. c.id) new ++ s.refunds))

  fail_change-IsUndone :
      (c : ChangeCalls) (deposit renewal : Option ℕ) (s s' : Ledger (UnitRows cal))
      → c.refund_deposit ≡ true
      → c.refund_renewal ≡ true
      → IsUnderway s deposit renewal s'
      → IsUndone s (fail_change cal c deposit renewal s').1
  unfolding fail_change
  fail_change-IsUndone c none none s s' h k (a, b, d, (new, e, f)) =
      (a, omega (arith, b), (new, e, rw f d))
  fail_change-IsUndone c (some i) none s s' h k (a, b, d, (new, e, f)) =
      rw h (a, omega (arith, b), (new, e, rw f (ap (λ l. i ∷ l) d)))
  fail_change-IsUndone c none (some j) s s' h k (a, b, d, (new, e, f)) =
      rw k (a, omega (arith, b), (new, e, rw f (ap (λ l. j ∷ l) d)))
  fail_change-IsUndone c (some i) (some j) s s' h k (a, b, d, (new, e, f)) =
      rw (h, k) (a, omega (arith, b), (new, e, rw f (ap (λ l. j ∷ i ∷ l) d)))

  -- A payment whose row is written fails without a charge, or is skipped or made.
  abbrev IsPayment :
      Ledger (UnitRows cal) → Result ChangeError (Option ℕ) × Ledger (UnitRows cal) → Type 0
  IsPayment s (err e, s') = s' ≡ s
  IsPayment s (ok o, s') =
      (s'.rows ≡ s.rows)
      × (s'.in_flight ≡ s.in_flight)
      × (s'.refunds ≡ s.refunds)
      × ((new : List Charge) × (s'.charges ≡ new ++ s.charges) × (map (λ c. c.id) new ≡ ids_of o))

  paid-IsPayment :
      (ready : Bool) (charge : Option ℕ) (r : Result StripeError ℤ) (s : Ledger (UnitRows cal))
      → IsPayment s (paid cal (attempt ready charge true r s))
  unfolding attempt
  paid-IsPayment ready charge (err e) s = refl
  paid-IsPayment ready none (ok amount) s = refl
  paid-IsPayment true (some id) (ok amount) s =
      (refl, refl, refl, (record { id = id; amount = amount } ∷ [], refl, refl))
  paid-IsPayment false (some id) (ok amount) s = refl

  pay_if-IsPayment :
      (due : Bool) (c : PayUnitCalls) (currency : Currency) (amount : Number)
      (s : Ledger (UnitRows cal))
      → c.create_transaction ≡ true
      → IsPayment s (pay_if cal due c currency amount s)
  unfolding pay_if
  pay_if-IsPayment false c currency amount s h = (refl, refl, refl, ([], refl, refl))
  pay_if-IsPayment true c currency amount s h = rw h (paid-IsPayment _ _ _ s)

  -- The row of the history: the new values, as the old ones too.
  abbrev unit_history : NewSpace → UnitHistory
  unit_history n = record {
    old_base_amount = n.price_per_month;
    base_amount = n.price_per_month;
    old_space_id = n.id;
    new_space_id = n.id;
    old_deposit = n.price_per_month;
    new_deposit = n.price_per_month;
  }

  -- What an answer leaves: every charge of the change has its transaction, nothing is refunded by the
  -- `catch`, and the booking has the new unit and its price as rent and deposit. A preview only leaves its transaction open.
  abbrev OkLeaves : Bool → NewSpace → Ledger (UnitRows cal) → Ledger (UnitRows cal) → Type 0
  OkLeaves false n s s' = s' ≡ begin_in s
  OkLeaves true n s s' =
      (s'.in_flight ≡ s.in_flight)
      × (s'.refunds ≡ s.refunds)
      × ((new : List Charge) × (made : List UnitTransaction) × (s'.charges ≡ new ++ s.charges)
          × (s'.rows.transactions ≡ made ++ s.rows.transactions)
          × (map (λ c. c.id) new ≡ map (λ t. t.stripe_charge_id) made))
      × (s'.rows.booking.space_id ≡ n.id)
      × (s'.rows.booking.base_amount ≡ n.price_per_month)
      × (s'.rows.booking.deposited_amount ≡ n.price_per_month)
      × (s'.rows.history ≡ unit_history n ∷ s.rows.history)

  abbrev pub ChangeLeaves :
      Bool
      → NewSpace
      → Ledger (UnitRows cal)
      → Result ChangeError ChangeBookingUnitResp × Ledger (UnitRows cal)
      → Type 0
  ChangeLeaves applied n s (err e, s') = IsUndone s s'
  ChangeLeaves applied n s (ok resp, s') = OkLeaves applied n s s'

  abbrev transactions_of : UnitChange cal → Option ℕ → Option ℕ → List UnitTransaction
  transactions_of u deposit renewal =
      transaction_of cal renewal u.new_renewal.total_amount TransactionType.renewal
      ++ transaction_of cal deposit (some (to_fixed u.space.price_per_month 1))
          TransactionType.booking

  change_transactions :
      (u : UnitChange cal) (deposit renewal : Option ℕ) (rows : List UnitTransaction)
      → (transaction_of cal renewal u.new_renewal.total_amount TransactionType.renewal
            ++ (transaction_of cal deposit
                  (some (to_fixed u.space.price_per_month 1))
                  TransactionType.booking
                ++ rows)
          ≡ transactions_of u deposit renewal ++ rows)
        × (ids_of renewal ++ ids_of deposit
            ≡ map (λ t. t.stripe_charge_id) (transactions_of u deposit renewal))
  change_transactions u none none rows = (refl, refl)
  change_transactions u none (some j) rows = (refl, refl)
  change_transactions u (some i) none rows = (refl, refl)
  change_transactions u (some i) (some j) rows = (refl, refl)

  -- Every call of Stripe for a refund goes through, and so does every row of a charge.
  pub record IsKept (c : ChangeCalls) : Type 0 where
    pub deposit : c.deposit.create_transaction ≡ true
    pub renewal : c.renewal.create_transaction ≡ true
    pub refund_deposit : c.refund_deposit ≡ true
    pub refund_renewal : c.refund_renewal ≡ true

  second_charge :
      (deposit renewal : Option ℕ) (s s' t : Ledger (UnitRows cal))
      → IsUnderway s deposit none s'
      → IsPayment s' (ok renewal, t)
      → IsUnderway s deposit renewal t
  second_charge deposit renewal s s' t (a, b, d, (new, g, i)) (a', b', d', (new', g', i')) = (
    a' ∙ a,
    b' ∙ b,
    d' ∙ d,
    (
      new' ++ new,
      g' ∙ ap (λ l. new' ++ l) g ∙ sym (append_assoc new' new s.charges),
      map-append _ new' new
          ∙ ap (λ l. l ++ map (λ c. c.id) new) i'
          ∙ ap (λ l. ids_of renewal ++ l) i,
    ),
  )

  -- The second payment, after the first.
  two_payments :
      (deposit : Option ℕ) (s s' : Ledger (UnitRows cal))
      (p : Result ChangeError (Option ℕ) × Ledger (UnitRows cal)) (c : ChangeCalls) (today : Date)
      (u : UnitChange cal)
      → IsKept c
      → IsUnderway s deposit none s'
      → IsPayment s' p
      → ChangeLeaves true u.space s (after_renewal cal c today u deposit p)
  unfolding after_renewal changed_rows
  two_payments deposit s s' (err e, t) c today u o h k =
      fail_change-IsUndone c deposit none s t o.refund_deposit o.refund_renewal (rw k h)
  two_payments deposit s s' (ok renewal, t) c today u o h k =
      let w = second_charge deposit renewal s s' t h k in
      let (b, d, f, (new, g, i)) = w in
      let (x, y) = change_transactions u deposit renewal t.rows.transactions in
      elim (Bool-cases (c.save && c.commit)) [
        | inl e ↦ rw e (
          omega (arith, d),
          f,
          (new, _, g, x ∙ ap (λ r. transactions_of u deposit renewal ++ r.transactions) b, i ∙ y),
          refl,
          refl,
          refl,
          ap (λ r. unit_history u.space ∷ r.history) b,
        )
        | inr e ↦
            rw e (fail_change-IsUndone c deposit renewal s t o.refund_deposit o.refund_renewal w)
      ]

  first_payment :
      (s : Ledger (UnitRows cal)) (p : Result ChangeError (Option ℕ) × Ledger (UnitRows cal))
      (c : ChangeCalls) (today : Date) (u : UnitChange cal)
      → IsKept c
      → IsPayment (begin_in s) p
      → ChangeLeaves true u.space s (after_deposit cal c today u p)
  unfolding after_deposit
  first_payment s (err e, t) c today u o k =
      fail_change-IsUndone c none none s t o.refund_deposit o.refund_renewal
        (rw k (refl, refl, refl, ([], refl, refl)))
  first_payment s (ok deposit, t) c today u o (b, d, f, (new, g, i)) =
      let w : IsUnderway s deposit none t = (b, d, f, (new, g, i)) in
      elim (Bool-cases (u.is_swapped && not (c.calculate_tax && c.create_renewal))) [
        | inl e ↦ rw e (fail_change-IsUndone c deposit none s t o.refund_deposit o.refund_renewal w)
        | inr e ↦ rw e (
            two_payments deposit s t _ c today u o w
              (pay_if-IsPayment u.is_swapped c.renewal _ _ t o.renewal))
      ]

  run_if-ChangeLeaves :
      (applied : Bool) (c : ChangeCalls) (today : Date) (u : UnitChange cal)
      (s : Ledger (UnitRows cal))
      → IsKept c
      → ChangeLeaves applied u.space s (run_if cal applied c today u (begin_in s))
  unfolding run_if
  run_if-ChangeLeaves true c today u s o =
      first_payment s _ c today u o
        (pay_if-IsPayment (moves_deposit cal u) c.deposit _ _ (begin_in s) o.deposit)
  run_if-ChangeLeaves false c today u s o =
      elim (Bool-cases (u.is_swapped && not c.calculate_tax)) [
        | inl e ↦ rw e (
            fail_change-IsUndone c none none s (begin_in s) o.refund_deposit o.refund_renewal
              (refl, refl, refl, ([], refl, refl)))
        | inr e ↦ rw e refl
      ]

  refund_change-ChangeLeaves :
      (applied : Bool) (n : NewSpace) (c : ChangeCalls) (u : UnitChange cal) (t : State)
      (s : Ledger (UnitRows cal))
      (r : Result ChangeError ChangeBookingUnitResp × Ledger (UnitRows cal))
      → ChangeLeaves applied n s r
      → let (a, (s', t')) = refund_change cal c u r t in ChangeLeaves applied n s (a, s')
  unfolding refund_change
  refund_change-ChangeLeaves applied n c u t s (err e, s') h = h
  refund_change-ChangeLeaves applied n c u t s (ok resp, s') h = elim (Bool-cases u.is_applied) [
    | inl e ↦ rw e h
    | inr e ↦ rw e h
  ]

  change_from-ChangeLeaves :
      (find_all : List TaxOwner → List Tax) (c : ChangeCalls) (create_days : ℤ) (today : Date)
      (payload : ChangeBookingUnitPayload) (n : NewSpace)
      (r : Result ChangeError (UnitBooking cal × UnitRenewal cal × Date))
      (s : Ledger (UnitRows cal)) (t : State)
      → IsKept c
      → let (a, (s', t')) = change_from cal find_all c create_days today payload n r s t in
        ChangeLeaves payload.apply n s (a, s')
  unfolding change_from
  change_from-ChangeLeaves find_all c create_days today payload n (err e) s t o =
      (refl, refl, ([], refl, refl))
  change_from-ChangeLeaves find_all c create_days today payload n (ok (b, last, date)) s t o =
      let u = unit_change cal find_all create_days today payload b n last in
      refund_change-ChangeLeaves payload.apply n c u t s
        (run_if cal payload.apply c today u (begin_in s))
        (run_if-ChangeLeaves payload.apply c today u s o)

  -- For every change of a booking to a space that was found, and every way that the calls can end in
  -- which Stripe refunds what it is asked to and the row of each charge is written: if the change
  -- throws, the rows are as before, no transaction is left open, and every charge that it made is
  -- refunded; if it answers after `apply`, every charge has its transaction, nothing is refunded,
  -- and the booking has the new unit and its price as rent and deposit, with a row in the history
  -- whose old values are the new ones; if it answers a preview, only its transaction is left open.
  pub change_booking_unit-ChangeLeaves :
      (find_all : List TaxOwner → List Tax) (c : ChangeCalls) (create_days : ℤ) (today : Date)
      (payload : ChangeBookingUnitPayload) (is_found : Bool) (n : NewSpace)
      (s : Ledger (UnitRows cal)) (t : State)
      → IsKept c
      → let (r, (s', t')) =
          change_booking_unit cal find_all c create_days today payload is_found (some n) s t in
        ChangeLeaves payload.apply n s (r, s')
  unfolding change_booking_unit
  change_booking_unit-ChangeLeaves find_all c create_days today payload is_found n s t o =
      change_from-ChangeLeaves find_all c create_days today payload n _ s t o
