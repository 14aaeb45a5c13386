-- ===== src/RefundDeposits/Once.antt =====
-- A deposit is refunded at most once.
use space_next_door_core_api.Base.{
  ℕ, Bool, true, false, Option, none, some, List, [], ◌∷◌, ◌&&◌, ◌+◌, ◌≤◌, length, any, All, filter,
  ◌≡◌, refl, ◌⊎◌, inl, inr, arith, Bool-cases, Option-cases,
}
use space_next_door_core_api.Cancellation.{
  RefundDetails, CancelledBooking, get_refund_payload_from_booking,
}
use space_next_door_core_api.Payments.Refund.{
  RefundCalls, RefundPayload, RefundRow, record_refund, State, refund, refund_with, send_refund,
  begin_own, keep_refund,
}
use space_next_door_core_api.RefundDeposits.{
  is_deposit, DepositCalls, refund_unused_days, refund_booking, refund_runs, refund_booking_cron,
  mark_refunded, RefundDetails, CancelledBooking, DepositState, deposit_refund,
}
use space_next_door_core_api.Base.Result.{Result, err, ok}
use space_next_door_core_api.Payments.Stripe.{StripeError}
use space_next_door_core_api.Base.Int.{ℤ, leb_ℤ, pos}

-- The refunds of the deposit that are on record.
abbrev pub deposits : List RefundRow → List RefundRow
deposits rs = filter is_deposit rs

-- A refund that Stripe was sent is saved and committed.
pub record IsSaved (c : RefundCalls) : Type 0 where
  pub save : c.save ≡ true
  pub commit : c.commit ≡ true

-- What a refund in its own transaction does: nothing, or it is sent and its row committed.
abbrev IsRefund : RefundPayload → State → State → Type 0
IsRefund p s s' =
    ((s'.committed.refunds ≡ s.committed.refunds) × (length s'.sent ≡ length s.sent))
    ⊎ ((s'.committed.refunds
          ≡ record {
            refunded_amount = p.amount;
            penalty_percent = p.penalty_percent;
            type = p.type;
          }
            ∷ s.committed.refunds)
        × (length s'.sent ≡ length s.sent + 1))

send_refund-IsRefund :
    (c : RefundCalls) (id : ℕ) (p : RefundPayload) (r : Result StripeError ℤ) (s : State)
    → IsSaved c
    → let begun = begin_own true s in
      IsRefund p s
        (send_refund c true id p r (record begun { pending = record_refund p begun.pending })).1
unfolding send_refund keep_refund record_refund
send_refund-IsRefund c id p (err e) s h = inl (refl, refl)
send_refund-IsRefund c id p (ok amount) s h = elim (Bool-cases c.stripe_refund) [
  | inl sent ↦ rw (sent, h.save, h.commit) (inr (refl, omega arith))
  | inr unsent ↦ rw unsent (inl (refl, refl))
]

refund_with-IsRefund :
    (c : RefundCalls) (p : RefundPayload) (o : Option ℕ) (s : State)
    → IsSaved c
    → IsRefund p s (refund_with c true p o (begin_own true s)).1
unfolding refund_with
refund_with-IsRefund c p none s h = inl (refl, refl)
refund_with-IsRefund c p (some id) s h =
    elim (Bool-cases (c.retrieve_card && (c.ids && c.create_transaction))) [
      | inl e ↦ rw e (send_refund-IsRefund c id p _ s h)
      | inr e ↦ rw e (inl (refl, refl))
    ]

refund-IsRefund :
    (c : RefundCalls) (p : RefundPayload) (s : State)
    → IsSaved c
    → IsRefund p s (refund c true p s).1
unfolding refund
refund-IsRefund c p s h = refund_with-IsRefund c p c.create s h

-- At most n refunds of the deposit are on record, and every refund on record was sent once.
abbrev pub HasDeposits : ℕ → State → Type 0
HasDeposits n s =
    (length (deposits s.committed.refunds) ≤ n) × (length s.sent ≡ length s.committed.refunds)

-- The payload's row, which counts if it is of the deposit.
refund-HasDeposits :
    (c : RefundCalls) (p : RefundPayload) (s : State) {n m : ℕ}
    → IsSaved c
    → length (
        deposits (
          record { refunded_amount = p.amount; penalty_percent = p.penalty_percent; type = p.type }
          ∷ s.committed.refunds))
      ≤ m
    → n ≤ m
    → HasDeposits n s
    → HasDeposits m (refund c true p s).1
refund-HasDeposits c p s h k l (a, b) = elim (refund-IsRefund c p s h) [
  | inl (e, f) ↦ rw (e, f) (omega (arith, a, l), b)
  | inr (e, f) ↦ rw (e, f) (k, omega (arith, b))
]

none_found : {A : Type 0} (p : A → Bool) (xs : List A) → any p xs ≡ false → length (filter p xs) ≡ 0
none_found p [] h = refl
none_found p (x ∷ xs) h = ground (arith, none_found p xs)

-- The calls of a run in which the booking is updated and what Stripe was sent is saved.
pub record IsRun (c : DepositCalls) : Type 0 where
  pub update : c.update ≡ true
  pub deposit : IsSaved c.deposit
  pub unused_days : IsSaved c.unused_days

refund_unused_days-HasDeposits :
    (c : RefundCalls) (d : RefundDetails) (s : State) {n : ℕ}
    → IsSaved c
    → HasDeposits n s
    → HasDeposits n (refund_unused_days c d s)
unfolding refund_unused_days
refund_unused_days-HasDeposits c d s {n} h k = elim (Option-cases d.unused_days_option) [
  | inl e ↦ rw e k
  | inr (u, e) ↦ elim (Bool-cases (leb_ℤ (pos 100) u.amount)) [
    | inl f ↦ rw (e, f) (refund-HasDeposits c _ s h k.0 (omega arith) k)
    | inr f ↦ rw (e, f) k
  ]
]

refund_booking-HasDeposits :
    (c : DepositCalls) (booking : CancelledBooking) (s : State)
    → IsRun c
    → HasDeposits 0 s
    → HasDeposits 1 (refund_booking c booking s)
unfolding refund_booking
refund_booking-HasDeposits c booking s h k =
    let d = get_refund_payload_from_booking booking in
    refund_unused_days-HasDeposits c.unused_days d _ h.unused_days (
      refund-HasDeposits c.deposit (deposit_refund d) s h.deposit (omega (arith, k.0)) (omega arith)
        k)

refund_booking_cron-HasDeposits :
    (c : DepositCalls) (booking : CancelledBooking) (s : DepositState)
    → IsRun c
    → HasDeposits 1 s.refunds
    → HasDeposits 1 (refund_booking_cron c booking s).refunds
unfolding refund_booking_cron mark_refunded
refund_booking_cron-HasDeposits c booking s h k =
    elim (Bool-cases (any is_deposit s.refunds.committed.refunds)) [
      | inl e ↦ rw (h.update, e) k
      | inr e ↦ elim (Bool-cases s.is_deposit_refunded) [
        | inl f ↦ rw (h.update, e, f) k
        | inr f ↦
            rw (h.update, e, f)
              (refund_booking-HasDeposits c booking s.refunds h
                (omega (arith, none_found is_deposit s.refunds.committed.refunds e), k.1))
      ]
    ]

-- For every booking and every sequence of runs in each of which the booking is updated and every
-- refund that Stripe was sent is saved and committed, from a state with at most one refund of the
-- deposit on record and with as many refunds sent as are on record, there is at most one refund of
-- the deposit on record afterwards, and again every refund on record was sent once.
pub refund_runs-HasDeposits :
    (cs : List DepositCalls) (booking : CancelledBooking) (s : DepositState)
    → All IsRun cs
    → HasDeposits 1 s.refunds
    → HasDeposits 1 (refund_runs cs booking s).refunds
unfolding refund_runs
refund_runs-HasDeposits [] booking s h k = k
refund_runs-HasDeposits (c ∷ cs) booking s (a, h) k =
    refund_runs-HasDeposits cs booking _ h (refund_booking_cron-HasDeposits c booking s a k)
