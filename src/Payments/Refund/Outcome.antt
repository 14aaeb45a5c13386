-- ===== src/Payments/Refund/Outcome.antt =====
-- What a refund leaves behind.
use space_next_door_core_api.Base.{
  ℕ, Bool, true, Option, none, some, ◌∷◌, ◌&&◌, ◌+◌, ◌≡◌, refl, ◌⊎◌, inl, inr, arith, Bool-cases,
  false,
}
use space_next_door_core_api.Base.Int.{ℤ}
use space_next_door_core_api.Base.Result.{Result, ok, err}
use space_next_door_core_api.Payments.Stripe.{Currency, StripeError, calculate_amount_in_currency}
use space_next_door_core_api.Payments.Refund.{
  State, RefundPayload, RefundCalls, RefundError, record_refund, send_refund, refund_with, refund,
  begin_own, call_failed, Rows, keep_refund, transaction_type,
}

-- For every way that the calls can end, a refund whose payload has no currency sends nothing to
-- Stripe, and throws or answers `null`: the amount cannot be converted.
pub refund_without_currency :
    (c : RefundCalls) (own : Bool) (p : RefundPayload) (s : State)
    → p.currency ≡ Currency.missing
    → let (r, s') = refund c own p s in ((r ≡ err call_failed) ⊎ (r ≡ ok none)) × (s'.sent ≡ s.sent)
unfolding refund calculate_amount_in_currency
refund_without_currency c own p s h = ground arith

-- The two rows that a refund adds to those of a booking.
abbrev pub HasRefund : RefundPayload → Rows → Rows → Type 0
HasRefund p rows rows' =
    (rows'.status ≡ rows.status)
    × (rows'.history ≡ rows.history)
    × (rows'.refunds
        ≡ record { refunded_amount = p.amount; penalty_percent = p.penalty_percent; type = p.type }
          ∷ rows.refunds)
    × (rows'.transactions
        ≡ record {
          stripe_charge_id = p.charge_id;
          amount = p.amount;
          type = transaction_type p.type;
        }
          ∷ rows.transactions)

-- What a call that opens its own transaction leaves, by how it ended.
abbrev pub Leaves :
    RefundCalls → RefundPayload → State → Result RefundError (Option ℕ) × State → Type 0
Leaves c p s (err e, s') =
    (s'.committed ≡ s.committed)
    × (((s'.sent ≡ s.sent) × (s'.in_flight ≡ s.in_flight + 1))
        ⊎ ((c.commit ≡ false)
            × (s'.in_flight ≡ s.in_flight)
            × ((amount : ℤ) × (calculate_amount_in_currency p.amount p.currency ≡ ok amount)
                × (s'.sent ≡ record { charge = p.charge_id; amount = amount } ∷ s.sent))))
Leaves c p s (ok none, s') = (s'.committed ≡ s.committed) × (s'.in_flight ≡ s.in_flight)
Leaves c p s (ok (some id), s') =
    HasRefund p s.committed s'.committed
    × ((amount : ℤ) × (calculate_amount_in_currency p.amount p.currency ≡ ok amount)
        × (s'.sent ≡ record { charge = p.charge_id; amount = amount } ∷ s.sent))
    × (s'.in_flight ≡ s.in_flight)

send_refund-Leaves :
    (c : RefundCalls) (id : ℕ) (p : RefundPayload) (r : Result StripeError ℤ) (s : State)
    → calculate_amount_in_currency p.amount p.currency ≡ r
    → let begun = begin_own true s in
      Leaves c p s
        (send_refund c true id p r (record begun { pending = record_refund p begun.pending }))
unfolding send_refund keep_refund record_refund
send_refund-Leaves c id p (err e) s h = (refl, omega arith)
send_refund-Leaves c id p (ok amount) s h = elim (Bool-cases c.stripe_refund) [
  | inl sent ↦ elim (Bool-cases c.save) [
    | inl saved ↦ elim (Bool-cases c.commit) [
      | inl kept ↦ rw (sent, saved, kept) ((refl, refl, refl, refl), (amount, h, refl), omega arith)
      | inr lost ↦ rw (sent, saved, lost) (refl, inr (lost, omega arith, (amount, h, refl)))
    ]
    | inr lost ↦ rw (sent, lost) (refl, omega arith)
  ]
  | inr unsent ↦ rw unsent (refl, omega arith)
]

refund_with-Leaves :
    (c : RefundCalls) (p : RefundPayload) (o : Option ℕ) (s : State)
    → Leaves c p s (refund_with c true p o (begin_own true s))
unfolding refund_with
refund_with-Leaves c p none s = (refl, inl (refl, refl))
refund_with-Leaves c p (some id) s =
    elim (Bool-cases (c.retrieve_card && (c.ids && c.create_transaction))) [
      | inl e ↦ rw e (send_refund-Leaves c id p _ s refl)
      | inr e ↦ rw e (refl, inl (refl, refl))
    ]

-- For every refund in a transaction of its own: if it answers an id, a refund row with the payload's
-- amount, penalty and type, and a transaction row of its charge and amount, are committed and nothing
-- else, Stripe has one more refund, of the payload's charge and of its amount in the currency's unit,
-- and no transaction is left over; if it answers `null`, the rows are unchanged and no transaction is
-- left over; if it throws, the rows are unchanged, and either nothing was sent, but its transaction is
-- left unfinished, or the commit has failed, and Stripe has that one refund.
pub refund-Leaves :
    (c : RefundCalls) (p : RefundPayload) (s : State) → Leaves c p s (refund c true p s)
unfolding refund
refund-Leaves c p s = refund_with-Leaves c p c.create s
