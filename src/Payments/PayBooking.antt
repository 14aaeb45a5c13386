-- ===== src/Payments/PayBooking.antt =====
-- `BookingService.payBooking` (src/bookings/booking.service.ts).
pub mod Outcome
pub mod Refusal
pub mod Provider
use space_next_door_core_api.Base.{
  ℕ, zero, suc, Bool, true, false, Option, none, some, List, [], ◌∷◌, ◌++◌, ◌&&◌, ◌||◌, not, ◌+◌,
  ◌-◌, ◌*◌, ◌/◌, ◌%◌, ◌≤◌, ◌<◌, if◌then◌else◌, leb, ltb, ◌==◌, length, is_some, last?, head?, any,
  all, All, filter, find, includes, get_or, map, ◌≡◌, refl, sym, ap, ◌∙◌, ◌≢◌, ◌↔◌, ◌⊎◌, inl, inr,
  arith, Bool-cases, Option-cases,
}
use space_next_door_core_api.Base.Int.{ℤ, ◌+ℤ◌, pos}
use space_next_door_core_api.Base.Round.{to_fixed}
use space_next_door_core_api.Base.Result.{Result, ok, err}
use space_next_door_core_api.Catalog.{BookingStatus, RenewalStatus, TransactionType, same_status}
use space_next_door_core_api.Payments.Stripe.{
  Currency, StripeError, StripeCustomer, calculate_amount_in_currency,
}
use space_next_door_core_api.Payments.World.{
  TransactionRow, Db, Charge, TxState, World, PayError, booking_not_found, wrong_status,
  stripe_error, call_failed, Action, ◌>>=◌, ◌>>◌, pure, call, lift, write, write_if, commit,
}

-- The booking as it is loaded, with its first renewal, its order and its relations.
pub record Booking : Type 0 where
  pub renewal_total : ℤ
  pub order_total : Option ℤ
  pub has_promotion : Bool
  pub has_quotation : Bool
  pub currency : Currency

-- How each call ends: `false` is a throw.
pub record Calls : Type 0 where
  pub ids : Bool
  pub customer : Result StripeError StripeCustomer
  pub update_card : Bool
  pub retrieve_card : Bool
  pub charge : Option ℕ
  pub create_transaction : Bool
  pub create_redeem : Bool
  pub confirm_order : Bool
  pub confirm_booking : Bool
  pub accept_quotation : Bool
  pub commit : Bool
  -- Whether the booking's provider was found; `booking.provider.first_name` throws if not.
  pub provider_found : Bool
  pub fail_renewal : Bool
  pub refund : Bool

-- `parseFloat(totalAmount.toFixed(2))`.
unfoldable pub amount_to_pay : Booking → ℤ
amount_to_pay b = to_fixed (b.renewal_total +ℤ get_or b.order_total (pos 0)) 1

abbrev pub transaction_type : Booking → TransactionType
transaction_type b =
    if is_some b.order_total then TransactionType.booking_order else TransactionType.booking

-- `stripeService.charge`: Stripe keeps the charge, and the variable names it.
abbrev pub do_charge : Option ℕ → ℤ → Action ℕ
do_charge none amount w = (err call_failed, w)
do_charge (some id) amount w = (
  ok id,
  record w { charges = record { id = id; amount = amount } ∷ w.charges; charge = some id },
)

-- The body of the `try`.
unfoldable pub try_pay : Calls → Booking → ℤ → Action (Unit {0})
try_pay c b charge_amount = do
  call c.ids
  customer ← lift c.customer
  write_if customer.is_updated c.update_card (λ d. record d { customer_card = some customer.id })
  call c.retrieve_card
  id ← do_charge c.charge charge_amount
  write c.create_transaction (λ d. record d {
    transactions =
        record { stripe_charge_id = id; amount = amount_to_pay b; type = transaction_type b }
        ∷ d.transactions;
  })
  write_if b.has_promotion c.create_redeem (λ d. record d { redeems = d.redeems + 1 })
  write_if (is_some b.order_total) c.confirm_order (λ d. record d { order_confirmed = true })
  write c.confirm_booking (λ d. record d {
    renewal_status = RenewalStatus.paid;
    status = BookingStatus.confirmed;
    history = BookingStatus.confirmed ∷ d.history;
  })
  write_if b.has_quotation c.accept_quotation (λ d. record d { quotation_accepted = true })
  commit c.commit
  call c.provider_found

-- `t.rollback()`, which throws on a finished transaction; the method throws in either case.
abbrev pub rollback : World → World
rollback w = elim w.t [
  | TxState.active ↦ record w {
    pending = w.committed;
    t = TxState.finished;
    in_flight = w.in_flight - 1;
  }
  | TxState.finished ↦ w
]

-- The `catch`: a second transaction is opened. Without a charge it marks the renewal as failed and
-- is closed; with one the charge is refunded, and a refund that throws ends the method there.
unfoldable pub catch_pay : Calls → World → World
catch_pay c w =
    let w₁ = record w { in_flight = w.in_flight + 1 } in
    elim w.charge [
      | none ↦ rollback (record w₁ {
        committed =
            (if c.fail_renewal
              then record w.committed { renewal_status = RenewalStatus.failed }
              else w.committed);
        in_flight = w.in_flight;
      })
      | some id ↦ if c.refund then rollback (record w₁ { refunds = id ∷ w.refunds }) else w₁
    ]

unfoldable pub try_catch :
    Calls → Result PayError (Unit {0}) × World → Result PayError (Unit {0}) × World
unfolding catch_pay
try_catch c (ok x, w) = (ok x, w)
try_catch c (err e, w) = (err e, catch_pay c w)

-- The conversion to Stripe's unit, which is outside the `try`, and then the `try`.
unfoldable pub pay_amount :
    Calls → Booking → World → Result StripeError ℤ → Result PayError (Unit {0}) × World
unfolding try_catch
pay_amount c b w (err e) = (err (stripe_error e), w)
pay_amount c b w (ok amount) = try_catch c (try_pay c b amount w)

-- The world after `sequelize.transaction()`.
abbrev pub begin : World → World
begin w = record w {
  pending = w.committed;
  t = TxState.active;
  in_flight = w.in_flight + 1;
  charge = none;
}

-- The method, on the booking that was found and the state of its rows.
unfoldable pub pay_booking : Calls → Option Booking → Action (Unit {0})
unfolding try_pay pay_amount
pay_booking c none w = (err booking_not_found, w)
pay_booking c (some b) w =
    if same_status w.committed.status BookingStatus.reserved
    then pay_amount c b (begin w) (calculate_amount_in_currency (amount_to_pay b) b.currency)
    else (err (wrong_status w.committed.status), w)
