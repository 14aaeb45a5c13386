-- ===== src/Payments/Refund.antt =====
-- `RefundService.refund` (src/refunds/refund.service.ts), over the rows of one booking.
pub mod Outcome
use space_next_door_core_api.Base.{
  ℕ, zero, suc, Bool, true, false, Option, none, some, List, [], ◌∷◌, ◌++◌, ◌&&◌, ◌||◌, not, ◌+◌,
  ◌-◌, ◌*◌, ◌/◌, ◌%◌, ◌≤◌, ◌<◌, if◌then◌else◌, leb, ltb, ◌==◌, length, is_some, last?, head?, any,
  all, All, filter, find, includes, get_or, map, ◌≡◌, refl, sym, ap, ◌∙◌, ◌≢◌, ◌↔◌, ◌⊎◌, inl, inr,
  arith, Bool-cases, Option-cases,
}
use space_next_door_core_api.Base.Int.{ℤ}
use space_next_door_core_api.Base.Result.{Result, ok, err}
use space_next_door_core_api.Catalog.{BookingStatus, RefundType, TransactionType}
use space_next_door_core_api.Payments.Stripe.{Currency, StripeError, calculate_amount_in_currency}

pub record RefundRow : Type 0 where
  pub refunded_amount : ℤ
  pub penalty_percent : ℕ
  pub type : RefundType

pub record RefundTransaction : Type 0 where
  pub stripe_charge_id : Option ℕ
  pub amount : ℤ
  pub type : TransactionType

pub record Rows : Type 0 where
  pub status : BookingStatus
  pub history : List BookingStatus
  pub refunds : List RefundRow
  pub transactions : List RefundTransaction

pub record StripeRefund : Type 0 where
  pub charge : Option ℕ
  pub amount : ℤ

-- `pending` is what the transaction in use sees, and `in_flight` counts the unfinished ones.
pub record State : Type 0 where
  pub committed : Rows
  pub pending : Rows
  pub in_flight : ℕ
  pub sent : List StripeRefund

pub record RefundPayload : Type 0 where
  pub amount : ℤ
  pub penalty_percent : ℕ
  pub type : RefundType
  pub charge_id : Option ℕ
  pub currency : Currency

-- How each call ends: `false` is a throw. `create` gives the new refund's id.
pub record RefundCalls : Type 0 where
  pub create : Option ℕ
  pub retrieve_card : Bool
  pub ids : Bool
  pub create_transaction : Bool
  pub stripe_refund : Bool
  pub save : Bool
  pub commit : Bool

pub data RefundError : Type 0 where
  call_failed : RefundError

abbrev pub transaction_type : RefundType → TransactionType
transaction_type RefundType.refund_cancel_booking = TransactionType.refund_cancel_booking
transaction_type RefundType.refund_deposit = TransactionType.refund_deposit
transaction_type RefundType.refund_unused_days = TransactionType.refund_unused_days

-- The two rows that are written before Stripe is called.
unfoldable pub record_refund : RefundPayload → Rows → Rows
record_refund p rows = record rows {
  refunds =
      record { refunded_amount = p.amount; penalty_percent = p.penalty_percent; type = p.type }
      ∷ rows.refunds;
  transactions =
      record { stripe_charge_id = p.charge_id; amount = p.amount; type = transaction_type p.type }
      ∷ rows.transactions;
}

-- `if (!args?.t) await t.commit();` and the same for `rollback`.
abbrev pub commit_own : Bool → State → State
commit_own true s = record s { committed = s.pending; in_flight = s.in_flight - 1 }
commit_own false s = s

abbrev pub rollback_own : Bool → State → State
rollback_own true s = record s { pending = s.committed; in_flight = s.in_flight - 1 }
rollback_own false s = s

-- The end of the `try`. A commit that throws has finished the transaction, so that the rollback of
-- the `catch` throws as well, and the method with it.
unfoldable pub keep_refund : RefundCalls → Bool → ℕ → State → Result RefundError (Option ℕ) × State
keep_refund c own id s =
    if not c.save
    then (ok none, rollback_own own s)
    else (if not own || c.commit
        then (ok (some id), commit_own own s)
        else (err call_failed, rollback_own own s))

-- The `try` around Stripe, after the amount is converted; its `catch` answers `null`.
unfoldable pub send_refund :
    RefundCalls
    → Bool
    → ℕ
    → RefundPayload
    → Result StripeError ℤ
    → State
    → Result RefundError (Option ℕ) × State
unfolding keep_refund
send_refund c own id p (err e) s = (ok none, rollback_own own s)
send_refund c own id p (ok amount) s =
    if c.stripe_refund
    then keep_refund c own id
        (record s { sent = record { charge = p.charge_id; amount = amount } ∷ s.sent })
    else (ok none, rollback_own own s)

-- `own` tells whether the service opens the transaction itself. What throws before the `try` ends
-- the method with the transaction unfinished.
unfoldable pub refund_with :
    RefundCalls → Bool → RefundPayload → Option ℕ → State → Result RefundError (Option ℕ) × State
unfolding send_refund record_refund
refund_with c own p none s = (err call_failed, s)
refund_with c own p (some id) s =
    if c.retrieve_card && (c.ids && c.create_transaction)
    then send_refund c own id p (calculate_amount_in_currency p.amount p.currency)
        (record s { pending = record_refund p s.pending })
    else (err call_failed, s)

abbrev pub begin_own : Bool → State → State
begin_own true s = record s { pending = s.committed; in_flight = s.in_flight + 1 }
begin_own false s = s

unfoldable pub refund :
    RefundCalls → Bool → RefundPayload → State → Result RefundError (Option ℕ) × State
unfolding refund_with
refund c own p s = refund_with c own p c.create (begin_own own s)
