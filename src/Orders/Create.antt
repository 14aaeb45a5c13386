-- ===== src/Orders/Create.antt =====
-- `create` of src/orders/order.service.ts with `createOrder` of src/logistics/logistics.service.ts.
use space_next_door_core_api.Base.{
  ℕ, Bool, true, false, Option, none, some, List, ◌∷◌, ◌&&◌, not, if◌then◌else◌, get_or,
}
use space_next_door_core_api.Base.Result.{◌>>=◌, ◌>>◌, Result, ok, err, or_throw, throw_if}
use space_next_door_core_api.Catalog.{OrderStatus, BookingStatus}
use space_next_door_core_api.Orders.Types.{
  booking_not_found, OrderError, call_failed, details_required, booking_closed, service_not_found,
  vehicle_too_small,
}
use space_next_door_core_api.Logistics.{
  GogoxVehicleType, SpaceType, vehicle_type_validate, with_commission,
}
use space_next_door_core_api.Taxes.{TaxOwner, Tax, calculate_tax}
use space_next_door_core_api.Base.Int.{ℤ, pos}
use space_next_door_core_api.Base.Number.{Number, fixed, add}

-- The booking and the pick-up service as they are found; a name or a code that is unknown is `none`.
pub record OrderBooking : Type 0 where
  pub id : ℕ
  pub status : BookingStatus
  pub space_type : Option SpaceType

pub record PickUpService : Type 0 where
  pub id : ℕ
  pub vehicle_code : Option GogoxVehicleType

-- The partner's answer to a new order: its id and its price, before the commission.
pub record LogisticsOrder : Type 0 where
  pub order_id : ℕ
  pub amount : ℤ

-- The rows of a new order, with its pick-up service.
pub record NewOrder : Type 0 where
  pub booking_id : ℕ
  pub status : OrderStatus
  pub service_id : ℕ
  pub tracking_id : ℕ
  pub amount : ℤ
  pub tax_amount : Number
  pub total_amount : ℤ

-- How the calls end. `calculate_tax` is called once the partner has the order; `reload` reads the order after the commit.
pub record CreateOrderCalls : Type 0 where
  pub calculate_tax : Bool
  pub ids : Bool
  pub create_pick_up : Bool
  pub create_order : Bool
  pub upsert_history : Bool
  pub create_taxes : Bool
  pub commit : Bool
  pub reload : Bool
  pub cancel_partner : Bool

-- The orders, and the partner's orders that were made and cancelled.
pub record OrderWorld : Type 0 where
  pub orders : List NewOrder
  pub made : List ℕ
  pub cancelled : List ℕ

abbrev pub is_closed : BookingStatus → Bool
is_closed BookingStatus.cancelled = true
is_closed BookingStatus.completed = true
is_closed BookingStatus.terminated = true
is_closed _ = false

-- `parseFloat((amount + totalTax).toFixed(2)) || 0`: not a number becomes 0.
abbrev pub order_total : ℤ → Number → ℤ
order_total amount tax = get_or (fixed (add (some amount) tax)) (pos 0)

unfoldable pub new_order :
    (List TaxOwner → List Tax) → ℤ → OrderBooking → PickUpService → LogisticsOrder → NewOrder
unfolding with_commission
new_order find_all percent b service l =
    let amount = with_commission percent l.amount in
    let taxes = calculate_tax find_all (record {
      site_id = none;
      insurance_id = none;
      pickup_service_id = some service.id;
      space_price = none;
      insurance_price = none;
      pickup_service_price = some amount;
    }) in
    record {
      booking_id = b.id;
      status = OrderStatus.pending;
      service_id = service.id;
      tracking_id = l.order_id;
      amount = amount;
      tax_amount = taxes.total_tax;
      total_amount = order_total amount taxes.total_tax;
    }

-- The checks, down to the vehicle. `has_details` is that the payload's details are not empty.
unfoldable pub check_order :
    Option OrderBooking
    → Bool
    → Option PickUpService
    → Result OrderError (OrderBooking × PickUpService)
unfolding vehicle_type_validate
check_order booking has_details service = do
  b ← or_throw booking booking_not_found
  throw_if (not has_details) details_required
  throw_if (is_closed b.status) booking_closed
  found ← or_throw service service_not_found
  throw_if (not (vehicle_type_validate b.space_type found.vehicle_code)) vehicle_too_small
  ok (b, found)

-- The `try` and its `catch`, which rolls back and cancels the partner's order. When the commit, or
-- the read after it, throws, the rollback throws as well, since the transaction is finished, and the
-- partner's order is not cancelled.
unfoldable pub record_order :
    CreateOrderCalls → NewOrder → OrderWorld → Result OrderError (Unit {0}) × OrderWorld
record_order c o w =
    if c.ids && (c.create_pick_up && (c.create_order && (c.upsert_history && c.create_taxes)))
    then (let w' = record w { orders = o ∷ w.orders } in
        if c.commit
        then (if c.reload then (ok tt, w') else (err call_failed, w'))
        else (err call_failed, w))
    else (
      err call_failed,
      if c.cancel_partner then record w { cancelled = o.tracking_id ∷ w.cancelled } else w,
    )

-- `partner` is the partner's answer; none is a throw, before anything is written. The taxes are
-- worked out before the `try`: a throw there leaves the partner's order.
unfoldable pub create_checked :
    (List TaxOwner → List Tax)
    → ℤ
    → CreateOrderCalls
    → Option LogisticsOrder
    → Result OrderError (OrderBooking × PickUpService)
    → OrderWorld
    → Result OrderError (Unit {0}) × OrderWorld
unfolding record_order new_order
create_checked find_all percent c partner (err e) w = (err e, w)
create_checked find_all percent c none (ok (b, service)) w = (err call_failed, w)
create_checked find_all percent c (some l) (ok (b, service)) w =
    let w' = record w { made = l.order_id ∷ w.made } in
    if c.calculate_tax
    then record_order c (new_order find_all percent b service l) w'
    else (err call_failed, w')

unfoldable pub create_order :
    (List TaxOwner → List Tax)
    → ℤ
    → CreateOrderCalls
    → Option OrderBooking
    → Bool
    → Option PickUpService
    → Option LogisticsOrder
    → OrderWorld
    → Result OrderError (Unit {0}) × OrderWorld
unfolding check_order create_checked
create_order find_all percent c booking has_details service partner w =
    create_checked find_all percent c partner (check_order booking has_details service) w
