-- ===== src/Terminations/Outcome.antt =====
-- What `payTerminationDues` leaves, however its calls end.
use space_next_door_core_api.Catalog.{TerminationPaymentStatus, TerminationStatus, TransactionType}
use space_next_door_core_api.Base.{
  ℕ, true, Option, none, some, ◌∷◌, ◌&&◌, ◌≡◌, refl, ◌⊎◌, inl, inr, arith, Bool-cases,
}
use space_next_door_core_api.Terminations.Payment.{
  Termination, pay_dues, pay_from_card, TerminationState, pay_termination_dues, record_payment,
  fail_payment, PayCalls, put_on_hold, is_settled, PayTerminationError, begin_payment, settle,
}
use space_next_door_core_api.Base.Result.{Result, ok, err}
use space_next_door_core_api.Base.Int.{ltb_ℤ, ℤ, pos}
use space_next_door_core_api.Payments.Stripe.{StripeError, calculate_amount_in_currency}

-- A success: nothing was to pay, or the one charge is of the dues, and is on record.
abbrev pub IsPaidUp : Termination → TerminationState → TerminationState → Type 0
IsPaidUp t s s' =
    ((ltb_ℤ t.total_amount (pos 100) ≡ true) × (s' ≡ s))
    ⊎ ((id : ℕ) × (amount : ℤ) × (calculate_amount_in_currency t.total_amount t.currency
          ≡ ok amount)
        × (s'.charges ≡ record { id = id; amount = amount } ∷ s.charges)
        × (s'.refunds ≡ s.refunds)
        × (s'.rows ≡ record {
          status = TerminationStatus.scheduled;
          payment_status = TerminationPaymentStatus.paid;
          transactions =
              record {
                stripe_charge_id = id;
                amount = t.total_amount;
                type = TransactionType.termination;
              }
              ∷ s.rows.transactions;
        })
        × (s'.in_flight ≡ s.in_flight))

-- A throw: nothing was charged and the rows are as before, or the one charge was refunded and the
-- termination is on hold.
abbrev pub IsGivenUp : TerminationState → TerminationState → Type 0
IsGivenUp s s' =
    ((s'.charges ≡ s.charges) × (s'.refunds ≡ s.refunds) × (s'.rows ≡ s.rows))
    ⊎ ((id : ℕ) × (amount : ℤ) × (s'.charges ≡ record { id = id; amount = amount } ∷ s.charges)
        × (s'.refunds ≡ id ∷ s.refunds)
        × (s'.rows ≡ record {
          status = TerminationStatus.on_hold;
          payment_status = TerminationPaymentStatus.failed;
          transactions = s.rows.transactions;
        })
        × (s'.in_flight ≡ s.in_flight))

abbrev pub PaymentLeaves :
    Termination
    → TerminationState
    → Result PayTerminationError (Unit {0}) × TerminationState
    → Type 0
PaymentLeaves t s (ok x, s') = IsPaidUp t s s'
PaymentLeaves t s (err e, s') = IsGivenUp s s'

record_payment-PaymentLeaves :
    (c : PayCalls) (t : Termination) (amount : ℤ) (o : Option ℕ) (s : TerminationState)
    → c.refund ≡ true
    → c.save_failed ≡ true
    → calculate_amount_in_currency t.total_amount t.currency ≡ ok amount
    → PaymentLeaves t s (record_payment c t amount o (begin_payment s))
unfolding record_payment fail_payment settle put_on_hold
record_payment-PaymentLeaves c t amount none s h k e = inl (refl, refl, refl)
record_payment-PaymentLeaves c t amount (some id) s h k e =
    elim (Bool-cases (c.ids && (c.write && c.commit))) [
      | inl x ↦ rw x (inr (id, amount, e, refl, refl, refl, omega arith))
      | inr x ↦ rw (x, h, k) (inr (id, amount, refl, refl, refl, omega arith))
    ]

pay_dues-PaymentLeaves :
    (c : PayCalls) (t : Termination) (r : Result StripeError ℤ) (s : TerminationState)
    → c.refund ≡ true
    → c.save_failed ≡ true
    → calculate_amount_in_currency t.total_amount t.currency ≡ r
    → PaymentLeaves t s (pay_dues c t r (begin_payment s))
unfolding pay_dues fail_payment
pay_dues-PaymentLeaves c t (err x) s h k e = inl (refl, refl, refl)
pay_dues-PaymentLeaves c t (ok amount) s h k e = elim (Bool-cases c.retrieve_card) [
  | inl x ↦ rw x (record_payment-PaymentLeaves c t amount c.charge s h k e)
  | inr x ↦ rw x (inl (refl, refl, refl))
]

pay_from_card-PaymentLeaves :
    (c : PayCalls) (t : Termination) (o : Option ℕ) (s : TerminationState)
    → c.refund ≡ true
    → c.save_failed ≡ true
    → PaymentLeaves t s (pay_from_card c t o s)
unfolding pay_from_card
pay_from_card-PaymentLeaves c t none s h k = inl (refl, refl, refl)
pay_from_card-PaymentLeaves c t (some customer) s h k =
    pay_dues-PaymentLeaves c t (calculate_amount_in_currency t.total_amount t.currency) s h k refl

-- For every termination and every way that the calls can end in which the refund and the save after
-- it go through: a success had less than 1 to pay and changed nothing, or has charged the dues once
-- in the currency's unit, scheduled the termination as paid, and recorded the transaction; a throw
-- has charged nothing and left the rows, or has refunded its one charge and put the termination on
-- hold.
pub pay_termination_dues-PaymentLeaves :
    (c : PayCalls) (t : Termination) (s : TerminationState)
    → c.refund ≡ true
    → c.save_failed ≡ true
    → PaymentLeaves t s (pay_termination_dues c (some t) s)
unfolding pay_termination_dues
pay_termination_dues-PaymentLeaves c t s h k =
    elim (Bool-cases (is_settled s.rows.payment_status)) [
      | inl x ↦ rw x (inl (refl, refl, refl))
      | inr x ↦ elim (Bool-cases (ltb_ℤ t.total_amount (pos 100))) [
        | inl y ↦ rw (x, y) (inl (y, refl))
        | inr y ↦ rw (x, y) (pay_from_card-PaymentLeaves c t t.stripe_customer_id s h k)
      ]
    ]
