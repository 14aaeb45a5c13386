-- ===== src/PayRenewals/Renew.antt =====
-- src/cron-job/pay-renewals/pay-renewal.cron.ts: the renewal that the job creates and charges.
use space_next_door_core_api.Base.{
  ℕ, Bool, true, Option, none, some, List, [], ◌∷◌, ◌++◌, ◌&&◌, ◌||◌, not, if◌then◌else◌,
}
use space_next_door_core_api.Calendar.{Calendar}
use space_next_door_core_api.Taxes.{TaxOwner, Tax}
use space_next_door_core_api.Renewals.Projected.{get_renewal_info, RenewalInfo}
use space_next_door_core_api.PayRenewals.Amounts.{
  NewRenewal, RenewingBooking, is_renewal_due, new_renewal,
}
use space_next_door_core_api.Payments.Stripe.{Currency}
use space_next_door_core_api.Payments.Ledger.{
  Attempt, Ledger, attempt, commit_in, convert, end_in, begin_in,
}
use space_next_door_core_api.Base.Int.{ℤ}
use space_next_door_core_api.Base.Result.{Result, ok, err}
use space_next_door_core_api.PayRenewals.Retry.{JobError, job_stopped}
use space_next_door_core_api.Catalog.{RenewalStatus}

-- How the calls for one booking end. `create_failed` is that of the renewal that is written after a
-- failure, in a transaction of its own.
pub record RenewCalls : Type 0 where
  pub ids : Bool
  pub retrieve_card : Bool
  pub charge : Option ℕ
  pub create_transaction : Bool
  pub create_renewal : Bool
  pub link_transaction : Bool
  pub create_taxes : Bool
  pub create_redeem : Bool
  pub commit : Bool
  pub create_failed : Bool
  pub refund : Bool

module _ (cal : Calendar) where
  open cal use {Date}

  pub record BookingRows : Type 0 where
    pub renewals : List (NewRenewal cal)
    pub transactions : List ℕ

  abbrev pub paid_renewal : ℕ → NewRenewal cal → NewRenewal cal
  paid_renewal charge r = record r { transaction_id = some charge }

  abbrev pub failed_renewal : NewRenewal cal → NewRenewal cal
  failed_renewal r = record r {
    status = RenewalStatus.failed;
    transaction_id = none;
    is_attempted = true;
  }

  unfoldable pub add_renewal : NewRenewal cal → BookingRows → BookingRows
  add_renewal r rows = record rows { renewals = rows.renewals ++ (r ∷ []) }

  unfoldable pub settle_new : ℕ → NewRenewal cal → BookingRows → BookingRows
  unfolding add_renewal
  settle_new charge r rows =
      add_renewal (paid_renewal charge r)
        (record rows { transactions = charge ∷ rows.transactions })

  -- The writes of the `try`, up to its commit.
  abbrev pub all_created : RenewCalls → NewRenewal cal → Bool
  all_created c r =
      c.create_transaction
      && (c.create_renewal
          && (c.link_transaction && (c.create_taxes && (not r.is_redeemed || c.create_redeem))))

  -- The `catch`: the renewal is written as failed, then the charge is refunded, and a refund that
  -- throws ends the job with the first transaction unfinished. A commit that has thrown has finished
  -- that transaction, so its rollback throws, and ends the job as well.
  unfoldable pub fail_new :
      RenewCalls
      → NewRenewal cal
      → Option ℕ
      → Ledger BookingRows
      → Result JobError (Unit {0}) × Ledger BookingRows
  unfolding add_renewal
  fail_new c r charged s =
      let s' = record s {
        rows = (if c.create_failed then add_renewal (failed_renewal r) s.rows else s.rows);
      } in
      elim charged [
        | none ↦ (ok tt, end_in s')
        | some id ↦
            if c.refund
            then (
              (if all_created c r && not c.commit then err job_stopped else ok tt),
              end_in (record s' { refunds = id ∷ s'.refunds }),
            )
            else (err job_stopped, s')
      ]

  unfoldable pub finish_new :
      RenewCalls
      → NewRenewal cal
      → Attempt × Ledger BookingRows
      → Result JobError (Unit {0}) × Ledger BookingRows
  unfolding fail_new settle_new
  finish_new c r (Attempt.recorded id, s) = (ok tt, commit_in (settle_new id r s.rows) s)
  finish_new c r (Attempt.uncharged, s) = fail_new c r none s
  finish_new c r (Attempt.lost id, s) = fail_new c r (some id) s

  -- The charge of the renewal that was worked out.
  unfoldable pub charge_new :
      RenewCalls
      → Currency
      → NewRenewal cal
      → Ledger BookingRows
      → Result JobError (Unit {0}) × Ledger BookingRows
  unfolding finish_new
  charge_new c currency r s = finish_new c r (
      attempt (c.ids && c.retrieve_card) c.charge (all_created c r && c.commit)
        (convert r.total_amount currency) (begin_in s))

  unfoldable pub renew_from :
      (List TaxOwner → List Tax)
      → RenewCalls
      → ℤ
      → Date
      → RenewingBooking cal
      → Option (RenewalInfo cal)
      → Ledger BookingRows
      → Result JobError (Unit {0}) × Ledger BookingRows
  unfolding charge_new
  renew_from find_all c create_days today b none s = (err job_stopped, s)
  renew_from find_all c create_days today b (some info) s =
      if is_renewal_due cal today info.next_renewal_date_of_last b.move_out_date
      then charge_new c b.currency (new_renewal cal find_all create_days b info) s
      else (ok tt, s)

  -- The job's body for one booking, after its failed renewals. Without a renewal `getRenewalInfo`
  -- throws.
  unfoldable pub renew_booking :
      (List TaxOwner → List Tax)
      → RenewCalls
      → ℤ
      → Date
      → RenewingBooking cal
      → Ledger BookingRows
      → Result JobError (Unit {0}) × Ledger BookingRows
  unfolding renew_from get_renewal_info
  renew_booking find_all c create_days today b s =
      if b.is_termination_requested
      then (ok tt, s)
      else renew_from find_all c create_days today b
          (get_renewal_info cal b.move_out_date b.renewals) s
