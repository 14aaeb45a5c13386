-- ===== src/PayRenewals/Liveness.antt =====
-- The loop over the failed renewals pays them all when nothing stops it.
use space_next_door_core_api.Base.{
  ℕ, Bool, true, false, Option, none, some, List, [], ◌∷◌, ◌&&◌, ◌||◌, not, if◌then◌else◌, ◌==◌,
  is_some, any, All, ◌≡◌, refl, ap, inl, inr, arith, Bool-cases, ==_iff,
}
use space_next_door_core_api.Base.Int.{ℤ, leb_ℤ, ◌-ℤ◌, pos}
use space_next_door_core_api.Payments.Stripe.{Currency, calculate_amount_in_currency}
use space_next_door_core_api.PayRenewals.Retry.{
  update_rows, RetryCalls, RenewalRow, pay_row, is_recent, retry_renewals, retry_renewal,
  finish_retry, RenewalRows, settle_renewal, all_written,
}
use space_next_door_core_api.Catalog.{is_paid}
use space_next_door_core_api.Payments.Ledger.{Ledger, attempt, Attempt, begin_in, commit_in}
use space_next_door_core_api.Base.Result.{ok}

-- Every call goes through.
pub record IsOpen (c : RetryCalls) : Type 0 where
  pub ids : c.ids ≡ true
  pub retrieve_card : c.retrieve_card ≡ true
  pub charge : is_some c.charge ≡ true
  pub create_transaction : c.create_transaction ≡ true
  pub update_renewal : c.update_renewal ≡ true
  pub create_redeem : c.create_redeem ≡ true
  pub commit : c.commit ≡ true

-- The loop's own test.
abbrev is_done : ℤ → RenewalRow → Bool
is_done now r = is_paid r.status || is_recent now r.last_attempt_date

-- An attempt that is at most 172,800,000 milliseconds old, which are two days.
abbrev pub was_tried : ℤ → Option ℤ → Bool
was_tried now none = false
was_tried now (some last) = leb_ℤ (now -ℤ last) (pos 172_800_000)

is_recent-was_tried : (now : ℤ) (last : Option ℤ) → is_recent now last ≡ was_tried now last
unfolding is_recent
is_recent-was_tried now none = refl
is_recent-was_tried now (some last) = refl

-- The row is paid, or a loaded row with its id was tried shortly before.
abbrev pub is_settled_row : ℤ → List RenewalRow → RenewalRow → Bool
is_settled_row now loaded x =
    is_paid x.status || any (λ r. (r.id == x.id) && was_tried now r.last_attempt_date) loaded

abbrev pub is_supported : Currency → Bool
is_supported Currency.missing = false
is_supported Currency.unsupported = false
is_supported _ = true

-- The row is settled, or its renewal has its turn still and will be tried.
abbrev is_left : ℤ → List RenewalRow → List RenewalRow → RenewalRow → Bool
is_left now loaded turns x =
    is_settled_row now loaded x || any (λ r. (r.id == x.id) && not (is_done now r)) turns

AllLeft : ℤ → List RenewalRow → List RenewalRow → List RenewalRow → Type 0
AllLeft now loaded turns rows = All (λ x. is_left now loaded turns x ≡ true) rows

left_of_paid :
    (now : ℤ) (r x : RenewalRow) (loaded turns : List RenewalRow)
    → is_left now loaded (r ∷ turns) x ≡ true
    → is_left now loaded turns (if x.id == r.id then pay_row now x else x) ≡ true
left_of_paid now r x loaded turns h = elim (Bool-cases (x.id == r.id)) [
  | inl e ↦ rw e refl
  | inr e ↦ let e' : (r.id == x.id) ≡ false = ground arith in rw e (rw e' at h)
]

update_rows_left :
    (now : ℤ) (r : RenewalRow) (loaded turns rows : List RenewalRow)
    → AllLeft now loaded (r ∷ turns) rows
    → AllLeft now loaded turns (update_rows r.id (pay_row now) rows)
unfolding update_rows AllLeft
update_rows_left now r loaded turns [] h = tt
update_rows_left now r loaded turns (x ∷ xs) (a, b) =
    (left_of_paid now r x loaded turns a, update_rows_left now r loaded turns xs b)

skip_left :
    (now : ℤ) (r : RenewalRow) (loaded turns rows : List RenewalRow)
    → is_done now r ≡ true
    → AllLeft now loaded (r ∷ turns) rows
    → AllLeft now loaded turns rows
unfolding AllLeft
skip_left now r loaded turns [] e h = tt
skip_left now r loaded turns (x ∷ xs) e (a, b) =
    (ground (arith, a, e), skip_left now r loaded turns xs e b)

later_left :
    (now : ℤ) (r : RenewalRow) (loaded turns rows : List RenewalRow)
    → AllLeft now loaded turns rows
    → AllLeft now (r ∷ loaded) (r ∷ turns) rows
unfolding AllLeft
later_left now r loaded turns [] h = tt
later_left now r loaded turns (x ∷ xs) (a, b) =
    (ground (arith, a), later_left now r loaded turns xs b)

start_left : (now : ℤ) (rows : List RenewalRow) → AllLeft now rows rows rows
unfolding AllLeft
start_left now [] = tt
start_left now (x ∷ xs) = (
  ground (arith, (==_iff x.id x.id).1 refl, is_recent-was_tried now x.last_attempt_date),
  later_left now x xs xs xs (start_left now xs),
)

AllSettled : ℤ → List RenewalRow → List RenewalRow → Type 0
AllSettled now loaded rows = All (λ x. is_settled_row now loaded x ≡ true) rows

end_left :
    (now : ℤ) (loaded rows : List RenewalRow)
    → AllLeft now loaded [] rows
    → AllSettled now loaded rows
unfolding AllLeft AllSettled
end_left now loaded [] h = tt
end_left now loaded (x ∷ xs) (a, b) = (ground (arith, a), end_left now loaded xs b)

pub supported_amount :
    (a : ℤ) (currency : Currency)
    → is_supported currency ≡ true
    → (amount : ℤ) × (calculate_amount_in_currency a currency ≡ ok amount)
unfolding calculate_amount_in_currency
supported_amount a Currency.jpy h = (_, refl)
supported_amount a Currency.krw h = (_, refl)
supported_amount a Currency.thb h = (_, refl)
supported_amount a Currency.sgd h = (_, refl)
supported_amount a Currency.unsupported h = cc
supported_amount a Currency.missing h = cc

attempt_open :
    (id : Option ℕ) (amount : ℤ) (s : Ledger RenewalRows)
    → is_some id ≡ true
    → (i : ℕ) × (t : Ledger RenewalRows) × (attempt true id true (ok amount) s
        ≡ (Attempt.recorded i, t))
      × (t.rows ≡ s.rows)
unfolding attempt
attempt_open none amount s h = cc
attempt_open (some i) amount s h = (i, _, refl, refl)

-- A renewal that is not done is paid at its turn.
retry_renewal_open :
    (c : RetryCalls) (currency : Currency) (now : ℤ) (r : RenewalRow) (s : Ledger RenewalRows)
    → IsOpen c
    → is_supported currency ≡ true
    → is_done now r ≡ false
    → (s' : Ledger RenewalRows) × (retry_renewal c currency now r s ≡ (ok tt, s'))
      × (s'.rows.renewals ≡ update_rows r.id (pay_row now) s.rows.renewals)
unfolding retry_renewal finish_retry settle_renewal
retry_renewal_open c currency now r s o h e =
    let (amount, a) = supported_amount r.total_amount currency h in
    let (i, t, p, q) = attempt_open c.charge amount (begin_in s) o.charge in
    let k : all_written c r && c.commit ≡ true = ground (arith, o) in
    (
      commit_in (settle_renewal now i r t.rows) t,
      rw (e, o.ids, o.retrieve_card, k, a, p) refl,
      ap (λ rows. update_rows r.id (pay_row now) rows.renewals) q,
    )

skip_retry :
    (c : RetryCalls) (currency : Currency) (now : ℤ) (r : RenewalRow) (s : Ledger RenewalRows)
    → is_done now r ≡ true
    → retry_renewal c currency now r s ≡ (ok tt, s)
unfolding retry_renewal
skip_retry c currency now r s e = rw e refl

retry_renewals_left :
    (calls : ℕ → RetryCalls) (currency : Currency) (now : ℤ) (loaded turns : List RenewalRow)
    (s : Ledger RenewalRows)
    → ((id : ℕ) → IsOpen (calls id))
    → is_supported currency ≡ true
    → AllLeft now loaded turns s.rows.renewals
    → (s' : Ledger RenewalRows) × (retry_renewals calls currency now turns s ≡ (ok tt, s'))
      × AllSettled now loaded s'.rows.renewals
unfolding retry_renewals
retry_renewals_left calls currency now loaded [] s o h l =
    (s, refl, end_left now loaded s.rows.renewals l)
retry_renewals_left calls currency now loaded (r ∷ rs) s o h l = elim (Bool-cases (is_done now r)) [
  | inl e ↦
      let (s', p, q) =
        retry_renewals_left calls currency now loaded rs s o h
          (skip_left now r loaded rs s.rows.renewals e l) in
      (s', rw (skip_retry (calls r.id) currency now r s e) p, q)
  | inr e ↦
      let (t, p, q) = retry_renewal_open (calls r.id) currency now r s (o r.id) h e in
      let (s', p', q') =
        retry_renewals_left calls currency now loaded rs t o h
          (rw q (update_rows_left now r loaded rs s.rows.renewals l)) in
      (s', rw p p', q')
]

-- For every booking whose renewals were just loaded, in a supported currency, if every call goes
-- through then the loop ends without an error, and afterwards every renewal is paid, or a renewal
-- with its id had been tried at most two days before the run when it was loaded.
pub retry_renewals_complete :
    (calls : ℕ → RetryCalls) (currency : Currency) (now : ℤ) (s : Ledger RenewalRows)
    → ((id : ℕ) → IsOpen (calls id))
    → is_supported currency ≡ true
    → let (r, s') = retry_renewals calls currency now s.rows.renewals s in
      (r ≡ ok tt) × All (λ x. is_settled_row now s.rows.renewals x ≡ true) s'.rows.renewals
unfolding AllSettled
retry_renewals_complete calls currency now s o h =
    let (s', p, q) =
      retry_renewals_left calls currency now s.rows.renewals s.rows.renewals s o h
        (start_left now s.rows.renewals) in
    rw p (refl, q)
