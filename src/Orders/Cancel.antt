-- ===== src/Orders/Cancel.antt =====
-- `cancelOrder` of src/orders/order.service.ts, on one order.
use space_next_door_core_api.Base.{
  ℕ, Bool, true, false, Option, none, some, List, ◌∷◌, not, if◌then◌else◌, last?,
}
use space_next_door_core_api.Orders.Types.{
  GogoxOrderStatus, OrderError, OrderTransaction, OrderRows, set_status, amount_refused,
  call_failed, order_not_found, order_status_of, invalid_status, partner_changed,
}
use space_next_door_core_api.Catalog.{OrderStatus}
use space_next_door_core_api.Base.Result.{Result, err, ok}
use space_next_door_core_api.Payments.Ledger.{Ledger}
use space_next_door_core_api.Base.Int.{ℤ}
use space_next_door_core_api.Payments.Stripe.{
  StripeError, Currency, type_error, calculate_amount_in_currency,
}
use space_next_door_core_api.Payments.World.{Charge}

-- The pick-up service of the order, with the partner's status of it as the partner answers; no
-- answer is a throw.
pub record PickUp : Type 0 where
  pub amount : ℤ
  pub currency : Currency
  pub partner_status : Option GogoxOrderStatus

-- How the calls end: the partner's cancellation, Stripe's refund, and the update of the rows.
pub record CancelOrderCalls : Type 0 where
  pub cancel_partner : Bool
  pub refund : Bool
  pub update : Bool

-- What a cancellation changes: the rows, the open transactions, whether the partner was told, and
-- the refunds of Stripe, each with its charge and its amount.
pub record CancelState : Type 0 where
  pub ledger : Ledger OrderRows
  pub partner_cancelled : Bool
  pub refunds : List Charge

-- The local `update`, with its own transaction.
unfoldable pub update_order :
    Bool → OrderStatus → OrderError → CancelState → Result OrderError (Unit {0}) × CancelState
update_order written status e s =
    if written
    then (err e, record s { ledger = record s.ledger { rows = set_status status s.ledger.rows } })
    else (err call_failed, s)

-- The last step: the order is cancelled.
unfoldable pub close_order : Bool → CancelState → Result OrderError (Unit {0}) × CancelState
close_order written s =
    if written
    then (
      ok tt,
      record s {
        ledger = record s.ledger { rows = set_status OrderStatus.cancelled s.ledger.rows };
      },
    )
    else (err call_failed, s)

-- The refund, of the amount as it is converted.
unfoldable pub refund_converted :
    CancelOrderCalls
    → Result StripeError ℤ
    → ℕ
    → CancelState
    → Result OrderError (Unit {0}) × CancelState
unfolding close_order
refund_converted c (err e) charge s = (err (amount_refused e), s)
refund_converted c (ok amount) charge s =
    if c.refund
    then close_order c.update
        (record s { refunds = record { id = charge; amount = amount } ∷ s.refunds })
    else (err call_failed, s)

-- The refund of the first transaction of the order, of the amount of its pick-up service. Without a
-- service both are undefined, and the conversion throws.
unfoldable pub refund_pick_up :
    CancelOrderCalls → Option PickUp → ℕ → CancelState → Result OrderError (Unit {0}) × CancelState
unfolding refund_converted
refund_pick_up c none charge s = refund_converted c (err type_error) charge s
refund_pick_up c (some p) charge s =
    refund_converted c (calculate_amount_in_currency p.amount p.currency) charge s

-- The code takes the first row of a query without an order; it is read as the oldest one, which is
-- what the ids of the table give.
unfoldable pub refund_order :
    CancelOrderCalls
    → Option PickUp
    → Option OrderTransaction
    → CancelState
    → Result OrderError (Unit {0}) × CancelState
unfolding refund_pick_up
refund_order c p none s = close_order c.update s
refund_order c p (some t) s = refund_pick_up c p t.stripe_charge_id s

-- The partner's part: an order that the partner has moved on takes the partner's status.
unfoldable pub cancel_at_status :
    CancelOrderCalls
    → PickUp
    → Option GogoxOrderStatus
    → CancelState
    → Result OrderError (Unit {0}) × CancelState
unfolding refund_order update_order
cancel_at_status c p none s = (err call_failed, s)
cancel_at_status c p (some GogoxOrderStatus.pending) s =
    if c.cancel_partner
    then (let s' = record s { partner_cancelled = true } in
        refund_order c (some p) (last? s'.ledger.rows.transactions) s')
    else (err call_failed, s)
cancel_at_status c p (some status) s =
    update_order c.update (order_status_of status) partner_changed s

unfoldable pub cancel_at_partner :
    CancelOrderCalls → Option PickUp → CancelState → Result OrderError (Unit {0}) × CancelState
unfolding refund_order cancel_at_status
cancel_at_partner c none s = refund_order c none (last? s.ledger.rows.transactions) s
cancel_at_partner c (some p) s = cancel_at_status c p p.partner_status s

abbrev pub is_open : OrderStatus → Bool
is_open OrderStatus.pending = true
is_open OrderStatus.confirmed = true
is_open _ = false

unfoldable pub cancel_order :
    CancelOrderCalls
    → Bool
    → Option PickUp
    → CancelState
    → Result OrderError (Unit {0}) × CancelState
unfolding cancel_at_partner
cancel_order c is_found p s =
    if not is_found
    then (err order_not_found, s)
    else (if is_open s.ledger.rows.status then cancel_at_partner c p s else (err invalid_status, s))
