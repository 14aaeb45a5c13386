-- ===== src/Tests/PaymentTests.antt =====
-- Payments and refunds.
use space_next_door_core_api.Base.{ℕ, true, false, none, some, [], ◌≡◌, refl}
use space_next_door_core_api.Base.Int.{ℤ, pos}
use space_next_door_core_api.Base.Result.{ok, err}
use space_next_door_core_api.Catalog.{BookingStatus, RenewalStatus, RefundType}
use space_next_door_core_api.Payments.Stripe.{Currency, Customers, calculate_amount_in_currency}
use space_next_door_core_api.Payments.World.{Db, TxState, World, call_failed}
use space_next_door_core_api.Payments.PayBooking.{Booking, Calls, amount_to_pay, pay_booking}
use space_next_door_core_api.Payments.PayBooking.Outcome.{IsPaid, pay_booking-IsPaid}
use space_next_door_core_api.Payments.PayBooking.Refusal.{IsSettled, pay_booking-IsSettled}
use space_next_door_core_api.Payments.PayBooking.Provider.{IsLost, pay_booking_without_provider}
use space_next_door_core_api.Payments.Refund.{Rows, State, RefundPayload, RefundCalls, refund}
use space_next_door_core_api.Payments.Refund.Outcome.{Leaves, refund-Leaves}

abbrev plain_booking : Booking
plain_booking = record {
  renewal_total = pos 20_000;
  order_total = none;
  has_promotion = false;
  has_quotation = false;
  currency = Currency.sgd;
}

abbrev all_go_through : Calls
all_go_through = record {
  ids = true;
  customer = ok (record { id = 7; is_updated = false });
  update_card = true;
  retrieve_card = true;
  charge = some 11;
  create_transaction = true;
  create_redeem = true;
  confirm_order = true;
  confirm_booking = true;
  accept_quotation = true;
  commit = true;
  provider_found = true;
  fail_renewal = true;
  refund = true;
}

abbrev reserved_rows : Db
reserved_rows = record {
  status = BookingStatus.reserved;
  renewal_status = RenewalStatus.un_paid;
  order_confirmed = false;
  quotation_accepted = false;
  history = [];
  transactions = [];
  redeems = 0;
  customer_card = some 7;
}

abbrev reserved_world : World
reserved_world = record {
  committed = reserved_rows;
  pending = reserved_rows;
  t = TxState.finished;
  in_flight = 0;
  charges = [];
  refunds = [];
  charge = none;
}

paid : (pay_booking all_go_through (some plain_booking) reserved_world).0 ≡ ok tt
unfolding pay_booking calculate_amount_in_currency
paid = refl

pay_booking-IsPaid_example :
    let w' = (pay_booking all_go_through (some plain_booking) reserved_world).1 in
    (id : ℕ) × (charged : ℤ) × (reserved_world.committed.status ≡ BookingStatus.reserved)
    × (calculate_amount_in_currency (amount_to_pay plain_booking) plain_booking.currency
        ≡ ok charged)
    × IsPaid plain_booking id charged reserved_world w'
    × (w'.refunds ≡ reserved_world.refunds)
    × (w'.in_flight ≡ reserved_world.in_flight)
pay_booking-IsPaid_example = pay_booking-IsPaid all_go_through plain_booking reserved_world paid

abbrev row_fails : Calls
row_fails = record all_go_through { create_transaction = false }

not_recorded : (pay_booking row_fails (some plain_booking) reserved_world).0 ≡ err call_failed
unfolding pay_booking calculate_amount_in_currency
not_recorded = refl

pay_booking-IsSettled_example :
    IsSettled reserved_world (pay_booking row_fails (some plain_booking) reserved_world).1
pay_booking-IsSettled_example =
    pay_booking-IsSettled row_fails (some plain_booking) reserved_world {e = call_failed} refl
      not_recorded

abbrev no_provider : Calls
no_provider = record all_go_through { provider_found = false }

pay_booking_without_provider_example :
    (id : ℕ) × ((pay_booking no_provider (some plain_booking) reserved_world).0 ≡ err call_failed)
    × IsLost id reserved_world (pay_booking no_provider (some plain_booking) reserved_world).1
pay_booking_without_provider_example =
    pay_booking_without_provider no_provider plain_booking reserved_world refl refl paid

abbrev customers : Customers
customers = record { update = λ id token. id; create = λ token. 5 }

abbrev deposit : RefundPayload
deposit = record {
  amount = pos 20_000;
  penalty_percent = 0;
  type = RefundType.refund_deposit;
  charge_id = some 11;
  currency = Currency.sgd;
}

abbrev refund_calls : RefundCalls
refund_calls = record {
  create = some 3;
  retrieve_card = true;
  ids = true;
  create_transaction = true;
  stripe_refund = true;
  save = true;
  commit = true;
}

abbrev confirmed_rows : Rows
confirmed_rows = record {
  status = BookingStatus.confirmed;
  history = [];
  refunds = [];
  transactions = [];
}

abbrev quiet : State
quiet = record { committed = confirmed_rows; pending = confirmed_rows; in_flight = 0; sent = [] }

refund-Leaves_example : Leaves refund_calls deposit quiet (refund refund_calls true deposit quiet)
refund-Leaves_example = refund-Leaves refund_calls deposit quiet
