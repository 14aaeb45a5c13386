-- ===== src/Orders/Pay.antt =====
-- `payOrder` of src/orders/order.service.ts, on one order.
use space_next_door_core_api.Base.{ℕ, Bool, Option, none, some, ◌∷◌, ◌&&◌, if◌then◌else◌}
use space_next_door_core_api.Catalog.{OrderStatus, TransactionType}
use space_next_door_core_api.Orders.Types.{
  OrderRows, set_status, OrderError, amount_refused, order_not_found, is_pending, call_failed,
  not_pending,
}
use space_next_door_core_api.Payments.Ledger.{Attempt, Ledger, commit_in, begin_in, end_in, attempt}
use space_next_door_core_api.Base.Result.{Result, err, ok}
use space_next_door_core_api.Base.Int.{ℤ}
use space_next_door_core_api.Payments.Stripe.{StripeError, Currency, calculate_amount_in_currency}
use space_next_door_core_api.Base.Round.{to_fixed}

-- The order as it is loaded; its status is that of its row.
pub record PaidOrder : Type 0 where
  pub total_amount : ℤ
  pub currency : Currency

-- How the calls end: `ids` and `retrieve_card` come before the charge, the three writes after it.
pub record PayOrderCalls : Type 0 where
  pub ids : Bool
  pub retrieve_card : Bool
  pub charge : Option ℕ
  pub create_transaction : Bool
  pub update_order : Bool
  pub upsert_history : Bool
  pub commit : Bool
  pub refund : Bool

-- The rows that the transaction commits.
unfoldable pub settle_order : ℕ → PaidOrder → OrderRows → OrderRows
settle_order charge o rows = record (set_status OrderStatus.confirmed rows) {
  transactions =
      record {
        stripe_charge_id = charge;
        amount = to_fixed o.total_amount 1;
        type = TransactionType.order;
      }
      ∷ rows.transactions;
}

-- The `try` and its `catch`, which refunds, then rolls back; a refund that throws leaves the
-- transaction open.
unfoldable pub finish_pay_order :
    PayOrderCalls
    → PaidOrder
    → Attempt × Ledger OrderRows
    → Result OrderError (Unit {0}) × Ledger OrderRows
unfolding settle_order
finish_pay_order c o (Attempt.recorded id, s) = (ok tt, commit_in (settle_order id o s.rows) s)
finish_pay_order c o (Attempt.uncharged, s) = (err call_failed, end_in s)
finish_pay_order c o (Attempt.lost id, s) =
    (err call_failed, if c.refund then end_in (record s { refunds = id ∷ s.refunds }) else s)

-- The conversion, after the transaction is begun and before the `try`.
unfoldable pub pay_converted :
    PayOrderCalls
    → PaidOrder
    → Result StripeError ℤ
    → Ledger OrderRows
    → Result OrderError (Unit {0}) × Ledger OrderRows
unfolding finish_pay_order
pay_converted c o (err e) s = (err (amount_refused e), begin_in s)
pay_converted c o (ok amount) s = finish_pay_order c o (
    attempt (c.ids && c.retrieve_card) c.charge
      (c.create_transaction && (c.update_order && (c.upsert_history && c.commit))) (ok amount)
      (begin_in s))

unfoldable pub pay_order :
    PayOrderCalls
    → Option PaidOrder
    → Ledger OrderRows
    → Result OrderError (Unit {0}) × Ledger OrderRows
unfolding pay_converted
pay_order c none s = (err order_not_found, s)
pay_order c (some o) s =
    if is_pending s.rows.status
    then pay_converted c o (calculate_amount_in_currency (to_fixed o.total_amount 1) o.currency) s
    else (err not_pending, s)
