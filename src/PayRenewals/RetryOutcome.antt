-- ===== src/PayRenewals/RetryOutcome.antt =====
-- What the loop over the failed renewals leaves.
use space_next_door_core_api.Base.{
  ℕ, false, Option, some, ◌∷◌, ◌==◌, ◌+◌, if◌then◌else◌, map, ◌≡◌, ◌⊎◌,
}
use space_next_door_core_api.PayRenewals.Retry.{RetryCalls, RenewalRow, RenewalRows}
use space_next_door_core_api.Catalog.{RenewalStatus, TransactionType}
use space_next_door_core_api.Base.Result.{ok}
use space_next_door_core_api.Payments.Ledger.{Ledger}
use space_next_door_core_api.Base.Int.{ℤ, pos, ◌-ℤ◌, ◌≤ℤ◌}
use space_next_door_core_api.Payments.Stripe.{Currency, calculate_amount_in_currency}
use space_next_door_core_api.Base.Number.{truthy}

-- The rows after a success: every row of the renewal's id is paid, now, and one transaction of its
-- amount is added, and the use of its promotion, if it has one.
abbrev pub IsPaidNow : ℤ → RenewalRow → ℕ → RenewalRows → RenewalRows → Type 0
IsPaidNow now r id rows rows' =
    (rows'.renewals
      ≡ map
          (λ x.
            if x.id == r.id
            then record x {
              status = RenewalStatus.paid;
              renewal_paid_date = some now;
              last_attempt_date = some now;
            }
            else x)
          rows.renewals)
    × (rows'.transactions
        ≡ record { stripe_charge_id = id; amount = r.total_amount; type = TransactionType.renewal }
          ∷ rows.transactions)
    × (rows'.redeems ≡ (if truthy r.promotion_id then rows.redeems + 1 else rows.redeems))

-- The rows after a failure: only the date of the attempt is written.
abbrev pub IsNoted : ℤ → RenewalRow → RenewalRows → RenewalRows → Type 0
IsNoted now r rows rows' =
    (rows'.renewals
      ≡ map (λ x. if x.id == r.id then record x { last_attempt_date = some now } else x)
          rows.renewals)
    × (rows'.transactions ≡ rows.transactions)
    × (rows'.redeems ≡ rows.redeems)

-- The renewal is paid, or was tried at most two days ago.
abbrev pub IsSkipped : ℤ → RenewalStatus → Option ℤ → Type 0
IsSkipped now status date =
    (status ≡ RenewalStatus.paid)
    ⊎ ((last : ℤ) × (date ≡ some last) × (now -ℤ last ≤ℤ pos 172_800_000))

-- One renewal: it was paid already or tried at most two days ago, and is left alone; or it was
-- charged once, and its rows are settled; or it was refused, and the charge, if
-- there is one, is refunded.
abbrev pub RetryLeaves :
    RetryCalls → ℤ → RenewalRow → Currency → Ledger RenewalRows → Ledger RenewalRows → Type 0
RetryLeaves c now r currency s s' =
    (s'.in_flight ≡ s.in_flight)
    × ((IsSkipped now r.status r.last_attempt_date × (s' ≡ s))
        ⊎ ((id : ℕ) × (amount : ℤ) × (calculate_amount_in_currency r.total_amount currency
              ≡ ok amount)
            × (s'.charges ≡ record { id = id; amount = amount } ∷ s.charges)
            × (s'.refunds ≡ s.refunds)
            × IsPaidNow now r id s.rows s'.rows)
        ⊎ ((s'.charges ≡ s.charges) × (s'.refunds ≡ s.refunds) × IsNoted now r s.rows s'.rows)
        ⊎ ((id : ℕ) × (amount : ℤ) × (s'.charges ≡ record { id = id; amount = amount } ∷ s.charges)
            × (s'.refunds ≡ id ∷ s.refunds)
            × (IsNoted now r s.rows s'.rows ⊎ ((c.commit ≡ false) × (s'.rows ≡ s.rows)))))
