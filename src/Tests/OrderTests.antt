-- ===== src/Tests/OrderTests.antt =====
-- The orders of pick-ups.
use space_next_door_core_api.Payments.PayBooking.{Booking, Calls, amount_to_pay}
use space_next_door_core_api.Payments.World.{Db}
use space_next_door_core_api.Catalog.{RenewalStatus, TransactionType}
use space_next_door_core_api.Base.Int.{◌+ℤ◌}
use space_next_door_core_api.Base.Round.{to_fixed}
use space_next_door_core_api.Base.{
  Bool, true, false, some, List, [], ◌∷◌, ◌≡◌, refl, inr, arith, none,
}
use space_next_door_core_api.Payments.Stripe.{calculate_amount_in_currency}
use space_next_door_core_api.Payments.Ledger.{attempt}
use space_next_door_core_api.Orders.Steps.{OrderEvent, OrderInv, run_order, run_order-OrderInv}
use space_next_door_core_api.Logistics.{SpaceType, GogoxVehicleType}
use space_next_door_core_api.Orders.Types.{
  GogoxOrderStatus, OrderRows, call_failed, vehicle_too_small,
}
use space_next_door_core_api.Catalog.{OrderStatus, BookingStatus}
use space_next_door_core_api.Payments.Stripe.{Currency}
use space_next_door_core_api.Orders.CreateOutcome.{CreateLeaves, create_order-CreateLeaves}
use space_next_door_core_api.Orders.PayOutcome.{OrderLeaves, pay_order-OrderLeaves}
use space_next_door_core_api.Orders.Cancel.{PickUp, CancelOrderCalls, CancelState, cancel_order}
use space_next_door_core_api.Payments.Ledger.{Ledger}
use space_next_door_core_api.Orders.Pay.{PayOrderCalls, pay_order, PaidOrder}
use space_next_door_core_api.Orders.Create.{
  OrderWorld, create_order, OrderBooking, LogisticsOrder, CreateOrderCalls, PickUpService,
}
use space_next_door_core_api.Orders.CancelOutcome.{CancelLeaves, cancel_order-CancelLeaves}
use space_next_door_core_api.Base.Int.{pos}
use space_next_door_core_api.Base.Result.{err, ok}

-- 12.50 dollars.
abbrev paid_order : PaidOrder
paid_order = record { total_amount = pos 1250; currency = Currency.sgd }

abbrev pending_order : Ledger OrderRows
pending_order = record {
  rows = record {
    status = OrderStatus.pending;
    history = OrderStatus.pending ∷ [];
    transactions = [];
  };
  in_flight = 0;
  charges = [];
  refunds = [];
}

-- All calls go through, up to the row of the order.
abbrev pay_calls : Bool → PayOrderCalls
pay_calls written = record {
  ids = true;
  retrieve_card = true;
  charge = some 7;
  create_transaction = true;
  update_order = written;
  upsert_history = true;
  commit = true;
  refund = true;
}

pay_order-OrderLeaves_example :
    OrderLeaves paid_order pending_order
      (pay_order (pay_calls true) (some paid_order) pending_order)
pay_order-OrderLeaves_example = pay_order-OrderLeaves (pay_calls true) paid_order pending_order refl

refunded_order : (pay_order (pay_calls false) (some paid_order) pending_order).1.refunds ≡ 7 ∷ []
unfolding pay_order calculate_amount_in_currency attempt
refunded_order = refl

abbrev cancel_calls : CancelOrderCalls
cancel_calls = record { cancel_partner = true; refund = true; update = true }

abbrev pick_up : PickUp
pick_up = record {
  amount = pos 1170;
  currency = Currency.sgd;
  partner_status = some GogoxOrderStatus.pending;
}

abbrev order_world : CancelState
order_world = record { ledger = pending_order; partner_cancelled = false; refunds = [] }

abbrev paid_world : CancelState
paid_world = record order_world {
  ledger = (pay_order (pay_calls true) (some paid_order) pending_order).1;
}

-- The customer paid 12.50 dollars, and 11.70 come back.
refunded_pick_up :
    (cancel_order cancel_calls true (some pick_up) paid_world).1.refunds
    ≡ record { id = 7; amount = pos 1170 } ∷ []
unfolding cancel_order pay_order calculate_amount_in_currency attempt
refunded_pick_up = refl

cancel_order-CancelLeaves_example :
    CancelLeaves
      (some pick_up)
      paid_world
      (cancel_order cancel_calls true (some pick_up) paid_world)
cancel_order-CancelLeaves_example =
    cancel_order-CancelLeaves cancel_calls true (some pick_up) paid_world

-- The order's booking is paid as well.
abbrev booking_calls : Calls
booking_calls = record {
  ids = true;
  customer = ok (record { id = 3; is_updated = false });
  update_card = true;
  retrieve_card = true;
  charge = some 9;
  create_transaction = true;
  create_redeem = true;
  confirm_order = true;
  confirm_booking = true;
  accept_quotation = true;
  commit = true;
  provider_found = true;
  fail_renewal = true;
  refund = true;
}

abbrev order_of_booking : Booking
order_of_booking = record {
  renewal_total = pos 30_000;
  order_total = some (pos 1250);
  has_promotion = false;
  has_quotation = false;
  currency = Currency.sgd;
}

abbrev reserved_rows : Db
reserved_rows = record {
  status = BookingStatus.reserved;
  renewal_status = RenewalStatus.un_paid;
  order_confirmed = false;
  quotation_accepted = false;
  history = [];
  transactions = [];
  redeems = 0;
  customer_card = none;
}

abbrev order_events : List OrderEvent
order_events =
    OrderEvent.paid (pay_calls false) (some paid_order)
    ∷ OrderEvent.paid (pay_calls true) (some paid_order)
    ∷ OrderEvent.paid_with_booking booking_calls order_of_booking (pos 1250) reserved_rows
    ∷ OrderEvent.timed_out
    ∷ OrderEvent.cancelled cancel_calls true (some pick_up)
    ∷ []

run_order-OrderInv_example : OrderInv (run_order order_events order_world).ledger
run_order-OrderInv_example =
    run_order-OrderInv order_events order_world (refl, (refl, ((refl, refl), (tt, (tt, tt)))))
      (record { unpaid = inr refl; once = omega arith; balanced = λ k. omega arith })

-- `payOrder` and then `payBooking`: the order is paid twice.
paid_twice :
    (run_order
      (OrderEvent.paid (pay_calls true) (some paid_order)
        ∷ OrderEvent.paid_with_booking booking_calls order_of_booking (pos 1250) reserved_rows
        ∷ [])
      order_world).ledger.rows.transactions
    ≡ record { stripe_charge_id = 9; amount = pos 31_250; type = TransactionType.booking_order }
      ∷ record { stripe_charge_id = 7; amount = pos 1250; type = TransactionType.order }
      ∷ []
unfolding run_order pay_order calculate_amount_in_currency attempt to_fixed ◌+ℤ◌ amount_to_pay
paid_twice = refl

abbrev create_calls : Bool → CreateOrderCalls
create_calls written = record {
  calculate_tax = true;
  ids = true;
  create_pick_up = true;
  create_order = written;
  upsert_history = true;
  create_taxes = true;
  commit = true;
  reload = true;
  cancel_partner = true;
}

abbrev order_booking : OrderBooking
order_booking = record { id = 3; status = BookingStatus.active; space_type = some SpaceType.m }

abbrev lorry_service : GogoxVehicleType → PickUpService
lorry_service v = record { id = 5; vehicle_code = some v }

abbrev no_orders : OrderWorld
no_orders = record { orders = []; made = []; cancelled = [] }

abbrev partner_order : LogisticsOrder
partner_order = record { order_id = 42; amount = pos 1000 }

create_order-CreateLeaves_example :
    CreateLeaves
      (λ o. [])
      (pos 17)
      (create_calls true)
      (some order_booking)
      true
      (some (lorry_service GogoxVehicleType.lorry14))
      (some partner_order)
      no_orders
      (create_order
        (λ o. [])
        (pos 17)
        (create_calls true)
        (some order_booking)
        true
        (some (lorry_service GogoxVehicleType.lorry14))
        (some partner_order)
        no_orders)
create_order-CreateLeaves_example =
    create_order-CreateLeaves (λ o. []) (pos 17) (create_calls true) (some order_booking) true
      (some (lorry_service GogoxVehicleType.lorry14)) (some partner_order) no_orders refl

too_small :
    create_order
      (λ o. [])
      (pos 17)
      (create_calls true)
      (some order_booking)
      true
      (some (lorry_service GogoxVehicleType.van))
      (some partner_order)
      no_orders
    ≡ (err vehicle_too_small, no_orders)
unfolding create_order
too_small = refl

partner_let_go :
    (create_order
      (λ o. [])
      (pos 17)
      (create_calls false)
      (some order_booking)
      true
      (some (lorry_service GogoxVehicleType.lorry14))
      (some partner_order)
      no_orders).1.cancelled
    ≡ 42 ∷ []
unfolding create_order
partner_let_go = refl

-- A commit that fails leaves the partner's order without one here.
partner_left :
    create_order
      (λ o. [])
      (pos 17)
      (record (create_calls true) { commit = false })
      (some order_booking)
      true
      (some (lorry_service GogoxVehicleType.lorry14))
      (some partner_order)
      no_orders
    ≡ (err call_failed, record no_orders { made = 42 ∷ [] })
unfolding create_order
partner_left = refl
