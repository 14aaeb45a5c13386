-- ===== src/Tests/CancellationTests.antt =====
-- Cancellations.
use space_next_door_core_api.Base.{ℕ, true, false, none, some, [], ◌∷◌, ◌≡◌, refl, arith}
use space_next_door_core_api.Base.Int.{ℤ, pos, ◌≤ℤ◌, ◌+ℤ◌, ◌*ℤ◌, ◌-ℤ◌}
use space_next_door_core_api.Catalog.{BookingStatus}
use space_next_door_core_api.Payments.Stripe.{Currency}
use space_next_door_core_api.Payments.Refund.{Rows, State, RefundCalls}
use space_next_door_core_api.Cancellation.{
  BookingTransaction, CancelledBooking, RefundDetails, CancelCalls, kept_safe, cancellation_fee,
}
use space_next_door_core_api.Cancellation.Fees.{cancellation_fee_bounds}
use space_next_door_core_api.Base.Round.{to_fixed}

-- 500.00 paid, of which 200.00 for the deposit and 50.00 for the insurance.
abbrev details : RefundDetails
details = record {
  stripe_charge_id = some 11;
  insurance_amount = pos 5000;
  deposited_amount = pos 20_000;
  total_amount = pos 50_000;
  order_amount = pos 0;
  currency = Currency.sgd;
  unused_days_option = none;
}

half : (cancellation_fee details (pos 9)).refund_amount ≡ pos 37_500
unfolding cancellation_fee to_fixed ◌*ℤ◌ ◌+ℤ◌ ◌-ℤ◌
half = refl

cancellation_fee_bounds_example :
    let r = (cancellation_fee details (pos 9)).refund_amount in
    (kept_safe details ≤ℤ r) × (r ≤ℤ pos 50_000)
unfolding ◌+ℤ◌
cancellation_fee_bounds_example =
    cancellation_fee_bounds details (pos 9)
      (record { safe_nonneg = omega arith; covered = omega arith })

abbrev payment : ℕ → ℤ → BookingTransaction
payment id amount = record {
  stripe_charge_id = id;
  amount = amount;
  currency = Currency.sgd;
  order_amount = none;
}

abbrev declined_refund : RefundCalls
declined_refund = record {
  create = some 3;
  retrieve_card = true;
  ids = true;
  create_transaction = true;
  stripe_refund = false;
  save = true;
  commit = true;
}

abbrev declined : CancelCalls
declined = record { upsert_history = true; save = true; refund = declined_refund; commit = true }

abbrev paid_booking : CancelledBooking
paid_booking = record {
  transactions = payment 11 (pos 50_000) ∷ [];
  renewal = some (record { insurance_amount = none; deposit_amount = some (pos 20_000) });
  termination = none;
}

abbrev confirmed_rows : Rows
confirmed_rows = record {
  status = BookingStatus.confirmed;
  history = [];
  refunds = [];
  transactions = [];
}

abbrev quiet : State
quiet = record { committed = confirmed_rows; pending = confirmed_rows; in_flight = 0; sent = [] }
