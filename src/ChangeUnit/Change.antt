-- ===== src/ChangeUnit/Change.antt =====
-- `changeBookingUnit` of src/bookings/booking.service.ts: the charges, the rows of its transaction,
-- and the refunds after the commit. Logs are left out.
use space_next_door_core_api.Base.{
  ℕ, Bool, true, false, Option, none, some, List, [], ◌∷◌, ◌++◌, ◌&&◌, ◌+◌, ◌-◌, if◌then◌else◌,
  ◌==◌, map,
}
use space_next_door_core_api.Calendar.{Calendar}
use space_next_door_core_api.Base.Number.{Number}
use space_next_door_core_api.Base.Int.{ℤ}
use space_next_door_core_api.Catalog.{RefundType, TransactionType}
use space_next_door_core_api.Payments.Refund.{
  RefundCalls, RefundPayload, refund, State, RefundError,
}
use space_next_door_core_api.ChangeUnit.Swap.{UnusedDays, UnitChangeRenewal}
use space_next_door_core_api.ChangeUnit.Request.{
  UnitRenewal, UnitBooking, NewSpace, ChangeError, call_failed,
}
use space_next_door_core_api.Payments.Ledger.{attempt, Ledger, convert, Attempt, end_in}
use space_next_door_core_api.Base.Result.{Result, ok, err}
use space_next_door_core_api.Payments.Stripe.{Currency}
use space_next_door_core_api.Base.Round.{to_fixed}

-- How the calls of one `payUnitChangeAmount` end.
pub record PayUnitCalls : Type 0 where
  pub ids : Bool
  pub retrieve_card : Bool
  pub charge : Option ℕ
  pub create_transaction : Bool

-- How the calls of a change end. `save` is the `Promise.all` of the rows that are written last, and
-- the two `refund_` calls are those of Stripe in the `catch`.
pub record ChangeCalls : Type 0 where
  pub deposit : PayUnitCalls
  pub calculate_tax : Bool
  pub create_renewal : Bool
  pub renewal : PayUnitCalls
  pub save : Bool
  pub commit : Bool
  pub refund_deposit : Bool
  pub refund_renewal : Bool
  pub old_deposit : RefundCalls
  pub old_renewal : RefundCalls

pub record UnitTransaction : Type 0 where
  pub stripe_charge_id : ℕ
  pub amount : Number
  pub type : TransactionType

pub record UnitHistory : Type 0 where
  pub old_base_amount : ℤ
  pub base_amount : ℤ
  pub old_space_id : ℕ
  pub new_space_id : ℕ
  pub old_deposit : ℤ
  pub new_deposit : ℤ

-- What the answer says of the change.
pub record ChangeBookingUnitResp : Type 0 where
  pub is_changed : Bool
  pub old_space_price : ℤ
  pub new_space_price : ℤ
  pub deposit_refunded_amount : ℤ
  pub deposit_charged_amount : ℤ
  pub days : UnusedDays
  pub has_refund_error : Bool

-- A refund as `changeBookingUnit` asks for it, which names no currency.
abbrev pub unit_refund : RefundType → ℤ → RefundPayload
unit_refund type amount = record {
  amount = amount;
  penalty_percent = 0;
  type = type;
  charge_id = none;
  currency = Currency.missing;
}

-- `Promise.all` ends with the first that throws.
abbrev pub then_refund :
    Result RefundError (Option ℕ) × State → (State → Bool × State) → Bool × State
then_refund (ok answer, s) k = k s
then_refund (err e, s) k = (false, s)

-- The refunds in the second transaction, one after another (the source starts them together).
unfoldable pub refund_all : List (RefundCalls × RefundPayload) → State → Bool × State
unfolding refund
refund_all [] s = (true, s)
refund_all ((c, p) ∷ ps) s = then_refund (refund c false p s) (refund_all ps)

-- The second transaction: it is rolled back when a refund throws, and never committed.
unfoldable pub refund_old : List (RefundCalls × RefundPayload) → State → Bool × State
unfolding refund_all
refund_old ps s =
    let (fine, s') =
      refund_all ps (record s { pending = s.committed; in_flight = s.in_flight + 1 }) in
    (fine, if fine then s' else record s' { pending = s'.committed; in_flight = s'.in_flight - 1 })

module _ (cal : Calendar) where
  open cal use {Date}

  pub record UnitRows : Type 0 where
    pub booking : UnitBooking cal
    pub new_renewals : List (UnitChangeRenewal cal)
    pub transactions : List UnitTransaction
    pub history : List UnitHistory

  -- What the two payments come to: a charge that is to be refunded if the change fails.
  pub record Charged : Type 0 where
    pub deposit : Option ℕ
    pub renewal : Option ℕ

  -- `payUnitChangeAmount`.
  unfoldable pub pay_unit_change_amount :
      PayUnitCalls → Currency → Number → Ledger UnitRows → Attempt × Ledger UnitRows
  unfolding attempt convert
  pay_unit_change_amount c currency amount s =
      attempt (c.ids && c.retrieve_card) c.charge c.create_transaction (convert amount currency) s

  abbrev pub refund_new_charge : Bool → Option ℕ → Ledger UnitRows → Ledger UnitRows
  refund_new_charge sent none s = s
  refund_new_charge sent (some id) s = if sent then record s { refunds = id ∷ s.refunds } else s

  -- The `catch`, with the transaction open.
  unfoldable pub fail_change :
      ChangeCalls
      → Option ℕ
      → Option ℕ
      → Ledger UnitRows
      → Result ChangeError ChangeBookingUnitResp × Ledger UnitRows
  fail_change c deposit renewal s = (
    err call_failed,
    end_in
        (refund_new_charge c.refund_renewal renewal (refund_new_charge c.refund_deposit deposit s)),
  )

  abbrev pub transaction_of : Option ℕ → Number → TransactionType → List UnitTransaction
  transaction_of none amount type = []
  transaction_of (some id) amount type =
      record { stripe_charge_id = id; amount = amount; type = type } ∷ []

  -- The renewal that ends today.
  abbrev pub end_renewal :
      Bool → Date → UnitRenewal cal → List (UnitRenewal cal) → List (UnitRenewal cal)
  end_renewal false today last rs = rs
  end_renewal true today last rs =
      map (λ r. if r.id == last.id then record r { renewal_end_date = today } else r) rs

  -- The rows that the transaction commits. The history is written after the booking was changed.
  unfoldable pub changed_rows :
      Bool
      → Date
      → NewSpace
      → UnitRenewal cal
      → UnitChangeRenewal cal
      → Option ℕ
      → Option ℕ
      → UnitRows
      → UnitRows
  changed_rows swapped today n last new deposit renewal rows =
      let b = record rows.booking {
        deposited_amount = n.price_per_month;
        base_amount = n.price_per_month;
        space_id = n.id;
        renewals = end_renewal swapped today last rows.booking.renewals;
      } in
      record {
        booking = b;
        new_renewals = (if swapped then new ∷ rows.new_renewals else rows.new_renewals);
        transactions =
            transaction_of renewal new.total_amount TransactionType.renewal
            ++ (transaction_of deposit (some (to_fixed n.price_per_month 1)) TransactionType.booking
                ++ rows.transactions);
        history =
            record {
              old_base_amount = b.base_amount;
              base_amount = n.price_per_month;
              old_space_id = b.space_id;
              new_space_id = n.id;
              old_deposit = b.deposited_amount;
              new_deposit = n.price_per_month;
            }
            ∷ rows.history;
      }
