-- ===== src/Lifecycle/Steps.antt =====
-- The ways that a booking's status changes, as steps: a payment, a cancellation by the customer, and
-- the two jobs. What an administrator may set by `update` is not among them.
use space_next_door_core_api.Base.{
  Bool, true, false, some, ◌≡◌, refl, sym, ◌∙◌, ◌⊎◌, inl, inr, arith, Bool-cases,
}
use space_next_door_core_api.Lifecycle.{BookingRow, update_row, matches, ℤ}
use space_next_door_core_api.Payments.PayBooking.{
  try_pay, catch_pay, Calls, Booking, pay_booking, begin, pay_amount, try_catch, amount_to_pay,
}
use space_next_door_core_api.Catalog.{BookingStatus, same_status, same_status_eq}
use space_next_door_core_api.Cancellation.{
  cancel_booking, finish_cancel, mark_cancelled, CancelCalls, CancelledBooking,
}
use space_next_door_core_api.Payments.World.{World, PayError}
use space_next_door_core_api.Base.Int.{ℤ}
use space_next_door_core_api.Lifecycle.Jobs.{active_row, cancel_row}
use space_next_door_core_api.Payments.Refund.{
  record_refund, refund_with, refund, send_refund, State, record_refund,
}
use space_next_door_core_api.Base.Result.{Result, err, ok}
use space_next_door_core_api.Payments.Stripe.{calculate_amount_in_currency, StripeError}

-- The step of a payment is `payBooking`, and that of a cancellation is `cancelBooking`, on a database
-- in which the booking has its status; only a confirmed booking is found for a cancellation.
pub data Step (b : BookingRow) : BookingRow → Type 0 where
  pay :
      (c : Calls) (p : Booking) (w : World)
      → w.committed.status ≡ b.status
      → Step b (record b { status = (pay_booking c (some p) w).1.committed.status })
  cancel :
      (c : CancelCalls) (p : CancelledBooking) (started : Bool) (days : ℤ) (s : State)
      → b.status ≡ BookingStatus.confirmed
      → s.committed.status ≡ b.status
      → Step b (record b { status = (cancel_booking c (some p) started days s).1.committed.status })
  move_in_out : (updated : Bool) (now now' : ℤ) → Step b (active_row updated now now' b)
  give_up : (now : ℤ) → Step b (cancel_row now b)

pub data Steps (b : BookingRow) : BookingRow → Type 0 where
  done : Steps b b
  next : {c d : BookingRow} → Steps b c → Step c d → Steps b d

-- The order of the life cycle: reserved, confirmed, active, completed, and cancelled after
-- reserved or confirmed.
abbrev pub is_later : BookingStatus → BookingStatus → Bool
is_later BookingStatus.reserved BookingStatus.terminated = false
is_later BookingStatus.reserved _ = true
is_later BookingStatus.confirmed BookingStatus.reserved = false
is_later BookingStatus.confirmed BookingStatus.terminated = false
is_later BookingStatus.confirmed _ = true
is_later BookingStatus.active BookingStatus.active = true
is_later BookingStatus.active BookingStatus.completed = true
is_later BookingStatus.active _ = false
is_later BookingStatus.terminated s = same_status BookingStatus.terminated s
is_later BookingStatus.completed s = same_status BookingStatus.completed s
is_later BookingStatus.cancelled s = same_status BookingStatus.cancelled s

is_later_trans :
    (a b c : BookingStatus) → is_later a b ≡ true → is_later b c ≡ true → is_later a c ≡ true
is_later_trans a b c h k = ground arith

is_later_refl : (a : BookingStatus) → is_later a a ≡ true
is_later_refl a = ground arith

try_pay_status :
    (c : Calls) (b : Booking) (amount : ℤ) (w : World)
    → let w' = (try_pay c b amount (begin w)).1 in
      (w'.committed.status ≡ w.committed.status) ⊎ (w'.committed.status ≡ BookingStatus.confirmed)
unfolding try_pay
try_pay_status c b amount w = ground arith

catch_pay_status : (c : Calls) (w : World) → (catch_pay c w).committed.status ≡ w.committed.status
unfolding catch_pay
catch_pay_status c w = ground arith

cancel_status :
    (c : CancelCalls) (b : CancelledBooking) (started : Bool) (days : ℤ) (s : State)
    → let s' = (cancel_booking c (some b) started days s).1 in
      (s'.committed.status ≡ s.committed.status) ⊎ (s'.committed.status ≡ BookingStatus.cancelled)
unfolding cancel_booking finish_cancel mark_cancelled refund refund_with send_refund record_refund
cancel_status c b started days s = ground arith

active_row_status :
    (updated : Bool) (n n' : ℤ) (b : BookingRow)
    → is_later b.status (active_row updated n n' b).status ≡ true
unfolding update_row matches
active_row_status updated n n' b = ground arith

cancel_row_status : (n : ℤ) (b : BookingRow) → is_later b.status (cancel_row n b).status ≡ true
unfolding update_row matches
cancel_row_status n b = ground arith

try_catch_status :
    (c : Calls) (r : Result PayError (Unit {0}) × World)
    → (try_catch c r).1.committed.status ≡ r.1.committed.status
unfolding try_catch
try_catch_status c (ok x, w) = refl
try_catch_status c (err e, w) = catch_pay_status c w

pay_amount_status :
    (c : Calls) (b : Booking) (w : World) (r : Result StripeError ℤ)
    → let w' = (pay_amount c b (begin w) r).1 in
      (w'.committed.status ≡ w.committed.status) ⊎ (w'.committed.status ≡ BookingStatus.confirmed)
unfolding pay_amount
pay_amount_status c b w (err e) = inl refl
pay_amount_status c b w (ok amount) =
    let e = try_catch_status c (try_pay c b amount (begin w)) in
    elim (try_pay_status c b amount w) [ inl h ↦ inl (e ∙ h) | inr h ↦ inr (e ∙ h) ]

pay_status :
    (c : Calls) (b : Booking) (w : World)
    → is_later w.committed.status (pay_booking c (some b) w).1.committed.status ≡ true
unfolding pay_booking
pay_status c b w = elim (Bool-cases (same_status w.committed.status BookingStatus.reserved)) [
  | inl r ↦
      let s = same_status_eq w.committed.status BookingStatus.reserved r in
      rw r
        (elim (pay_amount_status c b w
          (calculate_amount_in_currency (amount_to_pay b) b.currency)) [
            | inl h ↦ rw h (is_later_refl w.committed.status)
            | inr h ↦ rw (h, s) refl
          ])
  | inr r ↦ rw r (is_later_refl w.committed.status)
]

later_of_Step : {b c : BookingRow} → Step b c → is_later b.status c.status ≡ true
later_of_Step {b} (pay c p w e) = rw (sym e) (pay_status c p w)
later_of_Step {b} (cancel c p started days s h e) = elim (cancel_status c p started days s) [
  | inl k ↦ rw (k, e) (is_later_refl b.status)
  | inr k ↦ rw (k, h) refl
]
later_of_Step {b} (move_in_out updated now now') = active_row_status updated now now' b
later_of_Step {b} (give_up now) = cancel_row_status now b

-- For every sequence of payments, cancellations and runs of the two jobs, however the calls in them
-- end, a booking's status only moves on in the life cycle.
pub Steps_later : {b c : BookingRow} → Steps b c → is_later b.status c.status ≡ true
Steps_later {b} done = is_later_refl b.status
Steps_later {b} {c} (next {c = m} steps step) =
    is_later_trans b.status m.status c.status (Steps_later steps) (later_of_Step step)
