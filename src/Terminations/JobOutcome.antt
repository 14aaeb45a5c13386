-- ===== src/Terminations/JobOutcome.antt =====
-- A termination that the job requests is carried through.
use space_next_door_core_api.Base.{
  List, [], ◌∷◌, ℕ, true, false, Option, none, some, ◌&&◌, is_some, ◌≡◌, refl, ◌⊎◌, inl, inr, arith,
}
use space_next_door_core_api.Catalog.{TerminationPaymentStatus, TerminationStatus, TransactionType}
use space_next_door_core_api.Terminations.Payment.{
  pay_termination_dues, record_payment, PayCalls, pay_from_card, settle, Termination, pay_dues,
  TerminationState, is_settled, begin_payment,
}
use space_next_door_core_api.Calendar.{Calendar}
use space_next_door_core_api.Terminations.Job.{
  pay_request, terminate_one, request_termination, new_termination, record_request,
  update_termination_status, RequestCalls, RequestRows, job_args, payment_state, add_termination,
}
use space_next_door_core_api.Payments.Stripe.{Currency, StripeError, calculate_amount_in_currency}
use space_next_door_core_api.Payments.World.{Charge, TransactionRow}
use space_next_door_core_api.Base.Int.{ℤ, pos, ◌≤ℤ◌, ltb_ℤ, leb_ℤ}
use space_next_door_core_api.Terminations.Request.{
  TerminationDues, LoadedBooking, calculate_termination,
}
use space_next_door_core_api.Payments.Ledger.{Ledger, commit_in, begin_in}
use space_next_door_core_api.PayRenewals.Liveness.{is_supported, supported_amount}
use space_next_door_core_api.Base.Result.{Result, ok, err}

-- Every call of the payment goes through.
pub record IsPayable (c : PayCalls) : Type 0 where
  pub retrieve_card : c.retrieve_card ≡ true
  pub charge : is_some c.charge ≡ true
  pub ids : c.ids ≡ true
  pub write : c.write ≡ true
  pub commit : c.commit ≡ true

-- What is left of dues: nothing was due and nothing is charged, or they are paid by one charge of
-- them in the currency's unit, which is on record as the only transaction.
abbrev pub DuesLeave :
    ℤ
    → Currency
    → List Charge
    → List Charge
    → TerminationPaymentStatus
    → List TransactionRow
    → Type 0
DuesLeave total currency charges charges' payment_status transactions =
    ((total ≤ℤ pos 0) × (charges' ≡ charges) × (transactions ≡ []))
    ⊎ ((id : ℕ) × (amount : ℤ) × (pos 100 ≤ℤ total)
        × (calculate_amount_in_currency total currency ≡ ok amount)
        × (charges' ≡ record { id = id; amount = amount } ∷ charges)
        × (payment_status ≡ TerminationPaymentStatus.paid)
        × (transactions
            ≡ record { stripe_charge_id = id; amount = total; type = TransactionType.termination }
              ∷ []))

abbrev IsScheduled : ℤ → Currency → TerminationState → TerminationState → Type 0
IsScheduled total currency s s' =
    (s'.rows.status ≡ TerminationStatus.scheduled)
    × DuesLeave total currency s.charges s'.charges s'.rows.payment_status s'.rows.transactions

record_payment_open :
    (c : PayCalls) (t : Termination) (amount : ℤ) (o : Option ℕ) (s : TerminationState)
    → IsPayable c
    → is_some o ≡ true
    → s.rows.transactions ≡ []
    → pos 100 ≤ℤ t.total_amount
    → calculate_amount_in_currency t.total_amount t.currency ≡ ok amount
    → IsScheduled t.total_amount t.currency s (record_payment c t amount o s).1
unfolding record_payment settle
record_payment_open c t amount none s h k z n e = cc
record_payment_open c t amount (some id) s h k z n e =
    rw (h.ids, h.write, h.commit, z) (refl, inr (id, amount, n, e, refl, refl, refl))

pay_dues_open :
    (c : PayCalls) (t : Termination) (amount : ℤ) (r : Result StripeError ℤ) (s : TerminationState)
    → IsPayable c
    → s.rows.transactions ≡ []
    → pos 100 ≤ℤ t.total_amount
    → calculate_amount_in_currency t.total_amount t.currency ≡ r
    → r ≡ ok amount
    → IsScheduled t.total_amount t.currency s (pay_dues c t r s).1
unfolding pay_dues
pay_dues_open c t amount (err x) s h z n e f = cc
pay_dues_open c t amount (ok a) s h z n e f =
    rw h.retrieve_card (record_payment_open c t a c.charge s h h.charge z n e)

-- Dues of at least 1 are paid, and the termination is scheduled.
pay_termination_dues_open :
    (c : PayCalls) (a : ℤ) (currency : Currency) (customer : ℕ) (s : TerminationState)
    → IsPayable c
    → is_supported currency ≡ true
    → pos 100 ≤ℤ a
    → is_settled s.rows.payment_status ≡ false
    → s.rows.transactions ≡ []
    → IsScheduled a currency s
        (pay_termination_dues c
          (some
            (record { total_amount = a; currency = currency; stripe_customer_id = some customer }))
          s).1
unfolding pay_termination_dues pay_from_card
pay_termination_dues_open c a currency customer s h k n p z =
    let t : Termination = record {
      total_amount = a;
      currency = currency;
      stripe_customer_id = some customer;
    } in
    let (amount, e) = supported_amount a currency k in
    let l : ltb_ℤ a (pos 100) ≡ false = ground arith in
    rw (p, l) (pay_dues_open c t amount _ (begin_payment s) h z n refl e)

module _ (cal : Calendar) where
  open cal use {Date, is_after}

  pay_request_open :
      (c : PayCalls) (currency : Currency) (customer : ℕ) (deposited : ℤ) (move_out : Date)
      (d : TerminationDues cal) (s : Ledger (RequestRows cal))
      → IsPayable c
      → is_supported currency ≡ true
      → (d.total_amount ≤ℤ pos 0) ⊎ (pos 100 ≤ℤ d.total_amount)
      → let t = new_termination cal job_args deposited move_out d in
        IsScheduled d.total_amount currency
          (payment_state cal t s)
          (pay_request cal c currency (some customer) t (payment_state cal t s))
  unfolding pay_request new_termination
  pay_request_open c currency customer deposited move_out d s h k (inl n) =
      let p : ltb_ℤ (pos 0) d.total_amount ≡ false = ground arith in
      let q : leb_ℤ d.total_amount (pos 0) ≡ true = ground arith in
      rw (p, q) (refl, inl (n, refl, refl))
  pay_request_open c currency customer deposited move_out d s h k (inr n) =
      let p : ltb_ℤ (pos 0) d.total_amount ≡ true = ground arith in
      let t = new_termination cal job_args deposited move_out d in
      rw p (
        pay_termination_dues_open c d.total_amount currency customer (payment_state cal t s) h k n
          refl refl)

  -- For every booking whose termination the job works out, with dues of nothing or of at least 1, if
  -- every call goes through and the currency is supported, then the termination is requested, and the
  -- job of any day that its date is not after leaves it terminated: with nothing charged where
  -- nothing is due, and otherwise as paid, by one charge of the dues in the currency's unit whose
  -- transaction is on record.
  pub terminate_one_terminates :
      (notice_days : ℤ) (rc : RequestCalls) (pc : PayCalls) (now move_out later : Date)
      (b : LoadedBooking cal) (deposited : ℤ) (currency : Currency) (customer : ℕ)
      (s : Ledger (RequestRows cal)) {d : TerminationDues cal}
      → rc.create && (rc.save && rc.commit) ≡ true
      → IsPayable pc
      → is_supported currency ≡ true
      → calculate_termination cal notice_days job_args now move_out (some b) ≡ ok d
      → (d.total_amount ≤ℤ pos 0) ⊎ (pos 100 ≤ℤ d.total_amount)
      → is_after d.termination_date later ≡ false
      → (s' : TerminationState) × (terminate_one cal notice_days rc pc now move_out b deposited
            currency
            (some customer)
            s
          ≡ some s')
        × (let rows = update_termination_status cal later d.termination_date s'.rows in
            (rows.status ≡ TerminationStatus.terminated)
            × DuesLeave d.total_amount currency s.charges s'.charges rows.payment_status
                rows.transactions)
  unfolding terminate_one request_termination record_request update_termination_status
  terminate_one_terminates notice_days rc pc now move_out later b deposited currency customer s {d}
        r h k e n l =
      let t = new_termination cal job_args deposited move_out d in
      let s' = commit_in (add_termination cal t s.rows) (begin_in s) in
      let p = pay_request_open pc currency customer deposited move_out d s' h k n in
      (
        pay_request cal pc currency (some customer) t (payment_state cal t s'),
        rw (e, r) refl,
        rw (p.0, l) (refl, p.1),
      )
