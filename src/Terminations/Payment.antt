-- ===== src/Terminations/Payment.antt =====
-- src/terminations/termination.service.ts: `payTerminationDues`, on the row of one termination, the
-- transactions, and Stripe's side.
use space_next_door_core_api.Base.{
  ℕ, Bool, true, false, Option, none, some, List, ◌∷◌, ◌&&◌, ◌+◌, ◌-◌, if◌then◌else◌,
}
use space_next_door_core_api.Payments.Stripe.{StripeError, Currency, calculate_amount_in_currency}
use space_next_door_core_api.Catalog.{TerminationPaymentStatus, TerminationStatus, TransactionType}
use space_next_door_core_api.Payments.World.{Charge, TransactionRow}
use space_next_door_core_api.Base.Result.{Result, err, ok}
use space_next_door_core_api.Base.Int.{ℤ, ltb_ℤ, pos}

pub record Termination : Type 0 where
  pub total_amount : ℤ
  pub currency : Currency
  pub stripe_customer_id : Option ℕ

pub record TerminationRows : Type 0 where
  pub status : TerminationStatus
  pub payment_status : TerminationPaymentStatus
  pub transactions : List TransactionRow

-- `in_flight` counts the database transactions not yet finished.
pub record TerminationState : Type 0 where
  pub rows : TerminationRows
  pub in_flight : ℕ
  pub charges : List Charge
  pub refunds : List ℕ

-- How each call ends: `false`, or no charge, is a throw. `write` is that of the two writes in the
-- transaction, and `save_failed` that of the write after a refund.
pub record PayCalls : Type 0 where
  pub retrieve_card : Bool
  pub charge : Option ℕ
  pub ids : Bool
  pub write : Bool
  pub commit : Bool
  pub refund : Bool
  pub save_failed : Bool

pub data PayTerminationError : Type 0 where
  termination_not_found already_paid no_stripe_customer call_failed : PayTerminationError
  currency_error : StripeError → PayTerminationError

abbrev pub is_settled : TerminationPaymentStatus → Bool
is_settled TerminationPaymentStatus.paid = true
is_settled _ = false

abbrev pub begin_payment : TerminationState → TerminationState
begin_payment s = record s { in_flight = s.in_flight + 1 }

-- `t.rollback()`: what was written in the transaction is not kept.
abbrev pub end_payment : TerminationState → TerminationState
end_payment s = record s { in_flight = s.in_flight - 1 }

-- The rows that the transaction commits.
unfoldable pub settle : ℕ → Termination → TerminationRows → TerminationRows
settle id t rows = record {
  status = TerminationStatus.scheduled;
  payment_status = TerminationPaymentStatus.paid;
  transactions =
      record { stripe_charge_id = id; amount = t.total_amount; type = TransactionType.termination }
      ∷ rows.transactions;
}

-- The row that is saved, outside of the transaction, after the charge was refunded.
unfoldable pub put_on_hold : TerminationRows → TerminationRows
put_on_hold rows = record rows {
  status = TerminationStatus.on_hold;
  payment_status = TerminationPaymentStatus.failed;
}

-- The `catch`: a refund or a save that throws ends the method there.
unfoldable pub fail_payment : PayCalls → Option ℕ → TerminationState → TerminationState
unfolding put_on_hold
fail_payment c none s = end_payment s
fail_payment c (some id) s =
    if c.refund
    then (let s' = record s { refunds = id ∷ s.refunds } in
        if c.save_failed then end_payment (record s' { rows = put_on_hold s'.rows }) else s')
    else s

-- The rest of the `try`, from the charge on.
unfoldable pub record_payment :
    PayCalls
    → Termination
    → ℤ
    → Option ℕ
    → TerminationState
    → Result PayTerminationError (Unit {0}) × TerminationState
unfolding fail_payment settle
record_payment c t amount none s = (err call_failed, fail_payment c none s)
record_payment c t amount (some id) s =
    let charged = record s { charges = record { id = id; amount = amount } ∷ s.charges } in
    if c.ids && (c.write && c.commit)
    then (ok tt, end_payment (record charged { rows = settle id t s.rows }))
    else (err call_failed, fail_payment c (some id) charged)

-- After the transaction is begun: a currency that is not supported throws before the `try`.
unfoldable pub pay_dues :
    PayCalls
    → Termination
    → Result StripeError ℤ
    → TerminationState
    → Result PayTerminationError (Unit {0}) × TerminationState
unfolding record_payment
pay_dues c t (err e) s = (err (currency_error e), s)
pay_dues c t (ok amount) s =
    if c.retrieve_card
    then record_payment c t amount c.charge s
    else (err call_failed, fail_payment c none s)

unfoldable pub pay_from_card :
    PayCalls
    → Termination
    → Option ℕ
    → TerminationState
    → Result PayTerminationError (Unit {0}) × TerminationState
unfolding pay_dues
pay_from_card c t none s = (err no_stripe_customer, s)
pay_from_card c t (some customer) s =
    pay_dues c t (calculate_amount_in_currency t.total_amount t.currency) (begin_payment s)

-- Amounts are in cents, so `total_amount < 1` is `< 100`.
unfoldable pub pay_termination_dues :
    PayCalls
    → Option Termination
    → TerminationState
    → Result PayTerminationError (Unit {0}) × TerminationState
unfolding pay_from_card
pay_termination_dues c none s = (err termination_not_found, s)
pay_termination_dues c (some t) s =
    if is_settled s.rows.payment_status
    then (err already_paid, s)
    else (if ltb_ℤ t.total_amount (pos 100)
        then (ok tt, s)
        else pay_from_card c t t.stripe_customer_id s)
