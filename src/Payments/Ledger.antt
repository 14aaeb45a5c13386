-- ===== src/Payments/Ledger.antt =====
-- What the payments of the jobs and of a unit change share: the committed rows, Stripe's side, and
-- an attempt to charge a customer and to record the charge.
use space_next_door_core_api.Base.{
  ℕ, Bool, true, false, Option, none, some, List, ◌∷◌, ◌+◌, ◌-◌, if◌then◌else◌, ◌≡◌, refl,
}
use space_next_door_core_api.Base.Result.{Result, err, ok}
use space_next_door_core_api.Base.Number.{Number}
use space_next_door_core_api.Payments.World.{Charge}
use space_next_door_core_api.Payments.Stripe.{
  StripeError, Currency, type_error, calculate_amount_in_currency,
}
use space_next_door_core_api.Base.Int.{ℤ}

-- `in_flight` counts the database transactions not yet finished.
pub record Ledger (R : Type 0) : Type 0 where
  pub rows : R
  pub in_flight : ℕ
  pub charges : List Charge
  pub refunds : List ℕ

module _ {R : Type 0} where
  abbrev pub begin_in : Ledger R → Ledger R
  begin_in s = record s { in_flight = s.in_flight + 1 }

  abbrev pub end_in : Ledger R → Ledger R
  end_in s = record s { in_flight = s.in_flight - 1 }

  abbrev pub commit_in : R → Ledger R → Ledger R
  commit_in rows s = record s { rows = rows; in_flight = s.in_flight - 1 }

-- How far an attempt comes: nothing is charged, or a charge is made and its rows are not recorded,
-- or both are done.
pub data Attempt : Type 0 where
  uncharged : Attempt
  lost recorded : ℕ → Attempt

-- `ready` tells whether the calls before the charge go through, and `recorded` those after it,
-- the commit included; no charge is a throw.
unfoldable pub attempt :
    {R : Type 0} → Bool → Option ℕ → Bool → Result StripeError ℤ → Ledger R → Attempt × Ledger R
attempt ready charge all_recorded (err e) s = (uncharged, s)
attempt ready none all_recorded (ok amount) s = (uncharged, s)
attempt ready (some id) all_recorded (ok amount) s =
    let s' = record s { charges = record { id = id; amount = amount } ∷ s.charges } in
    if ready then ((if all_recorded then recorded id else lost id), s') else (uncharged, s)

-- What an attempt does to Stripe's side, whatever the rows are.
pub data IsAttempt {R : Type 0} (r : Result StripeError ℤ) (s : Ledger R)
    : Attempt × Ledger R → Type 0 where
  refused : IsAttempt r s (uncharged, s)
  kept :
      (id : ℕ) (amount : ℤ)
      → r ≡ ok amount
      → IsAttempt r s
          (recorded id, record s { charges = record { id = id; amount = amount } ∷ s.charges })
  dropped :
      (id : ℕ) (amount : ℤ)
      → IsAttempt r s
          (lost id, record s { charges = record { id = id; amount = amount } ∷ s.charges })

pub attempt_cases :
    {R : Type 0} (ready all_recorded : Bool) (charge : Option ℕ) (r : Result StripeError ℤ)
    (s : Ledger R)
    → IsAttempt r s (attempt ready charge all_recorded r s)
unfolding attempt
attempt_cases ready all_recorded charge (err e) s = refused
attempt_cases ready all_recorded none (ok amount) s = refused
attempt_cases true true (some id) (ok amount) s = kept id amount refl
attempt_cases true false (some id) (ok amount) s = dropped id amount
attempt_cases false all_recorded (some id) (ok amount) s = refused

-- The conversion of an amount that may be `NaN`: it stays `NaN`, and Stripe refuses to charge it.
unfoldable pub convert : Number → Currency → Result StripeError ℤ
convert none c = err type_error
convert (some a) c = calculate_amount_in_currency a c
