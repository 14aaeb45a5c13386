-- ===== src/Tests/RefundDepositTests.antt =====
-- The job that refunds deposits.
use space_next_door_core_api.Base.{true, false, none, some, [], ◌∷◌, map, ◌≡◌, refl, arith}
use space_next_door_core_api.Catalog.{BookingStatus}
use space_next_door_core_api.Payments.Stripe.{Currency, calculate_amount_in_currency}
use space_next_door_core_api.Payments.Refund.{RefundCalls, Rows}
use space_next_door_core_api.RefundDeposits.Once.{HasDeposits, IsSaved, refund_runs-HasDeposits}
use space_next_door_core_api.RefundDeposits.{DepositCalls, refund_runs, DepositState}
use space_next_door_core_api.Cancellation.{CancelledBooking}
use space_next_door_core_api.Base.Int.{pos}

abbrev all_saved : RefundCalls
all_saved = record {
  create = some 5;
  retrieve_card = true;
  ids = true;
  create_transaction = true;
  stripe_refund = true;
  save = true;
  commit = true;
}

all_saved-IsSaved : IsSaved all_saved
all_saved-IsSaved = record { save = refl; commit = refl }

abbrev daily : DepositCalls
daily = record { update = true; deposit = all_saved; unused_days = all_saved }

-- Stripe declines the refund of the deposit.
abbrev declined : DepositCalls
declined = record daily { deposit = record all_saved { stripe_refund = false } }

-- A deposit of 300 and unused days for 50.
abbrev completed : CancelledBooking
completed = record {
  transactions =
      record {
        stripe_charge_id = 11;
        amount = pos 60_000;
        currency = Currency.sgd;
        order_amount = none;
      }
      ∷ [];
  renewal = some (record { insurance_amount = none; deposit_amount = some (pos 30_000) });
  termination = some (record { unused_days_amount = pos 5000; charge_id = some 12 });
}

abbrev not_refunded : DepositState
not_refunded =
    let rows : Rows = record {
      status = BookingStatus.completed;
      history = [];
      refunds = [];
      transactions = [];
    } in
    record {
      is_deposit_refunded = false;
      refunds = record { committed = rows; pending = rows; in_flight = 0; sent = [] };
    }

-- After a declined deposit the next run refunds the unused days again.
declined_run :
    map (λ r. r.amount) (refund_runs (declined ∷ daily ∷ []) completed not_refunded).refunds.sent
    ≡ pos 5000 ∷ pos 30_000 ∷ pos 5000 ∷ []
unfolding refund_runs calculate_amount_in_currency
declined_run = refl

refund_runs-HasDeposits_example :
    HasDeposits 1 (refund_runs (daily ∷ daily ∷ []) completed not_refunded).refunds
refund_runs-HasDeposits_example =
    refund_runs-HasDeposits (daily ∷ daily ∷ []) completed not_refunded
      (
        record { update = refl; deposit = all_saved-IsSaved; unused_days = all_saved-IsSaved },
        (
          record { update = refl; deposit = all_saved-IsSaved; unused_days = all_saved-IsSaved },
          tt,
        ),
      )
      (omega arith, refl)
