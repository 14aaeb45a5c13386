-- ===== src/Orders/PayOutcome.antt =====
-- What a payment of an order leaves.
use space_next_door_core_api.Catalog.{OrderStatus, TransactionType}
use space_next_door_core_api.Base.Round.{to_fixed_one}
use space_next_door_core_api.Base.{
  ℕ, true, some, ◌∷◌, ◌≡◌, refl, ◌∙◌, ◌⊎◌, inl, inr, arith, Bool-cases, ap, sym,
}
use space_next_door_core_api.Payments.Ledger.{Attempt, Ledger, begin_in, attempt_cases, IsAttempt}
use space_next_door_core_api.Orders.Pay.{
  PaidOrder, pay_order, pay_converted, finish_pay_order, PayOrderCalls, settle_order,
}
use space_next_door_core_api.Orders.Types.{OrderRows, is_pending, OrderError, amount_refused}
use space_next_door_core_api.Base.Result.{Result, ok, err}
use space_next_door_core_api.Payments.Stripe.{StripeError, calculate_amount_in_currency}
use space_next_door_core_api.Base.Int.{ℤ}

-- By how it ended: paid with one charge of the order's amount; or the rows are as they were, and
-- nothing is charged, a currency that is refused leaving the transaction open, or the charge is
-- refunded.
abbrev pub OrderLeaves :
    PaidOrder → Ledger OrderRows → Result OrderError (Unit {0}) × Ledger OrderRows → Type 0
OrderLeaves o s (ok x, s') =
    (s'.in_flight ≡ s.in_flight)
    × (s'.refunds ≡ s.refunds)
    × ((id : ℕ) × (amount : ℤ) × (calculate_amount_in_currency o.total_amount o.currency
          ≡ ok amount)
        × (s'.charges ≡ record { id = id; amount = amount } ∷ s.charges)
        × (s'.rows ≡ record {
          status = OrderStatus.confirmed;
          history = OrderStatus.confirmed ∷ s.rows.history;
          transactions =
              record {
                stripe_charge_id = id;
                amount = o.total_amount;
                type = TransactionType.order;
              }
              ∷ s.rows.transactions;
        })
        × (is_pending s.rows.status ≡ true))
OrderLeaves o s (err e, s') =
    (s'.rows ≡ s.rows)
    × ((s' ≡ s)
        ⊎ ((x : StripeError) × (e ≡ amount_refused x) × (s' ≡ begin_in s))
        ⊎ ((s'.charges ≡ s.charges) × (s'.refunds ≡ s.refunds) × (s'.in_flight ≡ s.in_flight))
        ⊎ ((id : ℕ) × (amount : ℤ) × (s'.in_flight ≡ s.in_flight)
            × (s'.charges ≡ record { id = id; amount = amount } ∷ s.charges)
            × (s'.refunds ≡ id ∷ s.refunds)))

-- The confirmed rows, with the order's amount as it is.
settled :
    (id : ℕ) (o : PaidOrder) (rows : OrderRows)
    → settle_order id o rows ≡ record {
      status = OrderStatus.confirmed;
      history = OrderStatus.confirmed ∷ rows.history;
      transactions =
          record { stripe_charge_id = id; amount = o.total_amount; type = TransactionType.order }
          ∷ rows.transactions;
    }
unfolding settle_order
settled id o rows = rw (to_fixed_one o.total_amount) refl

finish_pay_order-OrderLeaves :
    (c : PayOrderCalls) (o : PaidOrder) (r : Result StripeError ℤ) (s : Ledger OrderRows)
    {a : Attempt × Ledger OrderRows}
    → c.refund ≡ true
    → is_pending s.rows.status ≡ true
    → calculate_amount_in_currency o.total_amount o.currency ≡ r
    → IsAttempt r (begin_in s) a
    → OrderLeaves o s (finish_pay_order c o a)
unfolding finish_pay_order settle_order
finish_pay_order-OrderLeaves c o r s h k p IsAttempt.refused =
    (refl, inr (inr (inl (refl, refl, omega arith))))
finish_pay_order-OrderLeaves c o r s h k p (IsAttempt.kept id amount e) =
    (omega arith, refl, (id, amount, p ∙ e, refl, settled id o s.rows, k))
finish_pay_order-OrderLeaves c o r s h k p (IsAttempt.dropped id amount) =
    rw h (refl, inr (inr (inr (id, amount, omega arith, refl, refl))))

pay_converted-OrderLeaves :
    (c : PayOrderCalls) (o : PaidOrder) (r : Result StripeError ℤ) (s : Ledger OrderRows)
    → c.refund ≡ true
    → is_pending s.rows.status ≡ true
    → calculate_amount_in_currency o.total_amount o.currency ≡ r
    → OrderLeaves o s (pay_converted c o r s)
unfolding pay_converted
pay_converted-OrderLeaves c o (err e) s h k p = (refl, inr (inl (e, refl, refl)))
pay_converted-OrderLeaves c o (ok amount) s h k p =
    finish_pay_order-OrderLeaves c o (ok amount) s h k p (attempt_cases _ _ _ _ _)

-- For every order and every way that the calls can end in which Stripe refunds what it is asked to:
-- a success was of a pending order, and has charged its amount once, in the currency's unit,
-- confirmed it, and recorded the transaction; after a throw the rows are as before, and nothing was
-- charged, or the charge is refunded. Only a currency that is refused leaves a transaction open.
pub pay_order-OrderLeaves :
    (c : PayOrderCalls) (o : PaidOrder) (s : Ledger OrderRows)
    → c.refund ≡ true
    → OrderLeaves o s (pay_order c (some o) s)
unfolding pay_order
pay_order-OrderLeaves c o s h = elim (Bool-cases (is_pending s.rows.status)) [
  | inl e ↦ rw e (
      pay_converted-OrderLeaves c o _ s h e
        (ap (λ a. calculate_amount_in_currency a o.currency) (sym (to_fixed_one o.total_amount))))
  | inr e ↦ rw e (refl, inl refl)
]
