-- ===== src/Payments/World.antt =====
-- What a payment changes: the rows of one booking, under a Sequelize transaction, and Stripe's
-- record of charges and refunds. A call that throws is one whose flag is `false`.
use space_next_door_core_api.Base.{ℕ, Bool, true, false, Option, List, ◌-◌}
use space_next_door_core_api.Base.Int.{ℤ}
use space_next_door_core_api.Base.Result.{Result, ok, err}
use space_next_door_core_api.Catalog.{BookingStatus, RenewalStatus, TransactionType}
use space_next_door_core_api.Payments.Stripe.{StripeError}

pub record TransactionRow : Type 0 where
  pub stripe_charge_id : ℕ
  pub amount : ℤ
  pub type : TransactionType

-- The rows of the booking, its first renewal, its order, its quotation and its customer.
pub record Db : Type 0 where
  pub status : BookingStatus
  pub renewal_status : RenewalStatus
  pub order_confirmed : Bool
  pub quotation_accepted : Bool
  pub history : List BookingStatus
  pub transactions : List TransactionRow
  pub redeems : ℕ
  pub customer_card : Option ℕ

pub record Charge : Type 0 where
  pub id : ℕ
  pub amount : ℤ

pub data TxState : Type 0 where
  active finished : TxState

-- `pending` is what the transaction `t` sees; `in_flight` counts the transactions not yet finished;
-- `charge` is the method's variable.
pub record World : Type 0 where
  pub committed : Db
  pub pending : Db
  pub t : TxState
  pub in_flight : ℕ
  pub charges : List Charge
  pub refunds : List ℕ
  pub charge : Option ℕ

pub data PayError : Type 0 where
  booking_not_found : PayError
  wrong_status : BookingStatus → PayError
  stripe_error : StripeError → PayError
  call_failed : PayError

abbrev pub Action : Type 0 → Type 0
Action A = World → Result PayError A × World

infixl 5 ◌>>=◌ ◌>>◌
abbrev pub ◌>>=◌ : {A B : Type 0} → Action A → (A → Action B) → Action B
◌>>=◌ m f w = let (r, w') = m w in elim r [ ok a ↦ f a w' | err e ↦ (err e, w') ]

abbrev pub ◌>>◌ : {B : Type 0} → Action (Unit {0}) → Action B → Action B
m >> k = m >>= λ _. k

abbrev pub pure : {A : Type 0} → A → Action A
pure a w = (ok a, w)

-- A call that may throw and changes nothing here.
abbrev pub call : Bool → Action (Unit {0})
call true w = (ok tt, w)
call false w = (err call_failed, w)

abbrev pub lift : {A : Type 0} → Result StripeError A → Action A
lift (ok a) w = (ok a, w)
lift (err e) w = (err (stripe_error e), w)

-- A write in the transaction.
abbrev pub write : Bool → (Db → Db) → Action (Unit {0})
write true f w = (ok tt, record w { pending = f w.pending })
write false f w = (err call_failed, w)

abbrev pub write_if : Bool → Bool → (Db → Db) → Action (Unit {0})
write_if true b f w = write b f w
write_if false b f w = (ok tt, w)

abbrev pub commit : Bool → Action (Unit {0})
commit true w =
    (ok tt, record w { committed = w.pending; t = TxState.finished; in_flight = w.in_flight - 1 })
commit false w = (err call_failed, w)
