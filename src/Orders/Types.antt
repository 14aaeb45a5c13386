-- ===== src/Orders/Types.antt =====
-- The rows of an order, as src/orders/order.service.ts writes them, and the delivery partner's
-- statuses (src/logistics/providers/gogox).
use space_next_door_core_api.Base.{ℕ, Bool, true, false, List, ◌∷◌}
use space_next_door_core_api.Catalog.{OrderStatus, TransactionType}
use space_next_door_core_api.Payments.Stripe.{StripeError}
use space_next_door_core_api.Base.Int.{ℤ}

pub data OrderError : Type 0 where
  booking_not_found details_required booking_closed service_not_found vehicle_too_small : OrderError
  order_not_found not_pending invalid_status partner_changed call_failed : OrderError
  amount_refused : StripeError → OrderError

pub record OrderTransaction : Type 0 where
  pub stripe_charge_id : ℕ
  pub amount : ℤ
  pub type : TransactionType

-- One order: its status, its history with the newest first, and its transactions.
pub record OrderRows : Type 0 where
  pub status : OrderStatus
  pub history : List OrderStatus
  pub transactions : List OrderTransaction

-- `update({ status })` and the row of the history, in one transaction.
abbrev pub set_status : OrderStatus → OrderRows → OrderRows
set_status status rows = record rows { status = status; history = status ∷ rows.history }

abbrev pub is_pending : OrderStatus → Bool
is_pending OrderStatus.pending = true
is_pending _ = false

pub data GogoxOrderStatus : Type 0 where
  pending active cancelled completed : GogoxOrderStatus

-- `OrderStatus[status.toUpperCase()]`.
abbrev pub order_status_of : GogoxOrderStatus → OrderStatus
order_status_of GogoxOrderStatus.pending = OrderStatus.pending
order_status_of GogoxOrderStatus.active = OrderStatus.active
order_status_of GogoxOrderStatus.cancelled = OrderStatus.cancelled
order_status_of GogoxOrderStatus.completed = OrderStatus.completed
