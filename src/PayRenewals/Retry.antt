-- ===== src/PayRenewals/Retry.antt =====
-- src/cron-job/pay-renewals/pay-renewal.cron.ts: the loop that charges the failed renewals of one
-- booking again. Times are in milliseconds, without changes of the clock; messages are left out.
use space_next_door_core_api.Base.{
  ℕ, Bool, false, Option, none, some, List, [], ◌∷◌, ◌&&◌, ◌||◌, not, ◌+◌, ◌*◌, if◌then◌else◌, ◌==◌,
}
use space_next_door_core_api.Catalog.{RenewalStatus, TransactionType, is_paid}
use space_next_door_core_api.Payments.Stripe.{Currency, calculate_amount_in_currency}
use space_next_door_core_api.Payments.World.{TransactionRow}
use space_next_door_core_api.Base.Int.{ℤ, leb_ℤ, ◌-ℤ◌, pos}
use space_next_door_core_api.Base.Result.{Result, ok, err}
use space_next_door_core_api.Payments.Ledger.{Attempt, Ledger, commit_in, attempt, end_in, begin_in}
use space_next_door_core_api.Base.Number.{truthy}

pub record RenewalRow : Type 0 where
  pub id : ℕ
  pub status : RenewalStatus
  pub total_amount : ℤ
  pub promotion_id : Option ℕ
  pub renewal_paid_date : Option ℤ
  pub last_attempt_date : Option ℤ

pub record RenewalRows : Type 0 where
  pub renewals : List RenewalRow
  pub transactions : List TransactionRow
  pub redeems : ℕ

-- How the calls for one renewal end; `mark` is the update of the attempt's date.
pub record RetryCalls : Type 0 where
  pub ids : Bool
  pub retrieve_card : Bool
  pub charge : Option ℕ
  pub create_transaction : Bool
  pub update_renewal : Bool
  pub create_redeem : Bool
  pub commit : Bool
  pub refund : Bool
  pub mark : Bool

-- What is not caught ends the job.
pub data JobError : Type 0 where
  job_stopped : JobError

-- `diffInDays <= 2`, with fractions of a day.
unfoldable pub is_recent : ℤ → Option ℤ → Bool
is_recent now none = false
is_recent now (some last) = leb_ℤ (now -ℤ last) (pos (2 * 86_400_000))

unfoldable pub update_rows : ℕ → (RenewalRow → RenewalRow) → List RenewalRow → List RenewalRow
update_rows id f [] = []
update_rows id f (r ∷ rs) = (if r.id == id then f r else r) ∷ update_rows id f rs

abbrev pub pay_row : ℤ → RenewalRow → RenewalRow
pay_row now r = record r {
  status = RenewalStatus.paid;
  renewal_paid_date = some now;
  last_attempt_date = some now;
}

-- The rows that the transaction commits.
unfoldable pub settle_renewal : ℤ → ℕ → RenewalRow → RenewalRows → RenewalRows
unfolding update_rows
settle_renewal now charge r rows = record {
  renewals = update_rows r.id (pay_row now) rows.renewals;
  transactions =
      record { stripe_charge_id = charge; amount = r.total_amount; type = TransactionType.renewal }
      ∷ rows.transactions;
  redeems = (if truthy r.promotion_id then rows.redeems + 1 else rows.redeems);
}

unfoldable pub mark_attempt : ℤ → RenewalRow → RenewalRows → RenewalRows
unfolding update_rows
mark_attempt now r rows = record rows {
  renewals = update_rows r.id (λ x. record x { last_attempt_date = some now }) rows.renewals;
}

-- The end of the `catch`: the transaction is rolled back, and the attempt is noted.
unfoldable pub fail_retry :
    RetryCalls
    → ℤ
    → RenewalRow
    → Ledger RenewalRows
    → Result JobError (Unit {0}) × Ledger RenewalRows
unfolding mark_attempt
fail_retry c now r s =
    if c.mark
    then (ok tt, end_in (record s { rows = mark_attempt now r s.rows }))
    else (err job_stopped, end_in s)

-- The writes of the `try`, up to its commit.
abbrev pub all_written : RetryCalls → RenewalRow → Bool
all_written c r =
    c.create_transaction && (c.update_renewal && (not (truthy r.promotion_id) || c.create_redeem))

-- A refund that throws in the `catch` ends the job, with the transaction unfinished. A commit that
-- has thrown has finished the transaction: its rollback throws, before the attempt is noted.
unfoldable pub finish_retry :
    RetryCalls
    → ℤ
    → RenewalRow
    → Attempt × Ledger RenewalRows
    → Result JobError (Unit {0}) × Ledger RenewalRows
unfolding fail_retry settle_renewal
finish_retry c now r (Attempt.recorded id, s) =
    (ok tt, commit_in (settle_renewal now id r s.rows) s)
finish_retry c now r (Attempt.uncharged, s) = fail_retry c now r s
finish_retry c now r (Attempt.lost id, s) =
    if not c.refund
    then (err job_stopped, s)
    else (let s' = record s { refunds = id ∷ s.refunds } in
        if all_written c r && not c.commit
        then (err job_stopped, end_in s')
        else fail_retry c now r s')

unfoldable pub retry_renewal :
    RetryCalls
    → Currency
    → ℤ
    → RenewalRow
    → Ledger RenewalRows
    → Result JobError (Unit {0}) × Ledger RenewalRows
unfolding finish_retry is_recent
retry_renewal c currency now r s =
    if is_paid r.status || is_recent now r.last_attempt_date
    then (ok tt, s)
    else finish_retry c now r (
        attempt (c.ids && c.retrieve_card) c.charge (all_written c r && c.commit)
          (calculate_amount_in_currency r.total_amount currency) (begin_in s))

abbrev pub then_retry :
    Result JobError (Unit {0}) × Ledger RenewalRows
    → (Ledger RenewalRows → Result JobError (Unit {0}) × Ledger RenewalRows)
    → Result JobError (Unit {0}) × Ledger RenewalRows
then_retry (ok x, s) k = k s
then_retry (err e, s) k = (err e, s)

-- The loop over the renewals that were loaded with the booking.
unfoldable pub retry_renewals :
    (ℕ → RetryCalls)
    → Currency
    → ℤ
    → List RenewalRow
    → Ledger RenewalRows
    → Result JobError (Unit {0}) × Ledger RenewalRows
unfolding retry_renewal
retry_renewals calls currency now [] s = (ok tt, s)
retry_renewals calls currency now (r ∷ rs) s =
    then_retry (retry_renewal (calls r.id) currency now r s) (retry_renewals calls currency now rs)
