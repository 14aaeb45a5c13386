-- ===== src/Payouts/Amounts.antt =====
-- What the job pays out.
use space_next_door_core_api.Base.{
  zero, suc, Option, none, some, ◌&&◌, if◌then◌else◌, ◌==◌, Option-cases, ℕ, Bool, List, [], ◌∷◌,
  ◌++◌, ◌*◌, ◌≤◌, filter, map, ◌≡◌, refl, sym, ap, ◌∙◌, inl, inr, arith, Bool-cases,
}
use space_next_door_core_api.Catalog.{PayoutStatus, is_paid}
use space_next_door_core_api.Payouts.{
  create_payouts_cron, PaidRenewal, payout_of, payouts_loop, commission_amount, Payout,
  get_by_paid_date, commission_percentage,
}
use space_next_door_core_api.Base.Int.{leb_ℤ, ltb_ℤ, ℤ, pos, negsuc, ◌+ℤ◌, ◌-ℤ◌, ◌*ℤ◌, ◌≤ℤ◌, *ℤ-pos}
use space_next_door_core_api.Base.Round.{to_fixed, round_div-le, round_div}

times_mono : (n p q : ℕ) → p ≤ q → n * p ≤ n * q
times_mono n p q h = grind arith

below : (n q : ℕ) → q ≤ n → (pos 0 ≤ℤ pos n -ℤ pos q) × (pos n -ℤ pos q +ℤ pos q ≡ pos n)
unfolding ◌-ℤ◌ ◌+ℤ◌
below n q h = ground arith

share :
    (n p : ℕ)
    → p ≤ 10_000
    → let c = to_fixed (pos n *ℤ pos p) 10_000 in
      (pos 0 ≤ℤ pos n -ℤ c) × (pos 0 ≤ℤ c) × (pos n -ℤ c +ℤ c ≡ pos n)
unfolding to_fixed
share n p h =
    let q = round_div-le (n * p) n 10_000 (omega arith) (times_mono n p 10_000 h) in
    let (a, b) = below n (round_div (n * p) 10_000) q in rw (*ℤ-pos n p) (a, omega arith, b)

share_of :
    (s : ℤ) (p : ℕ)
    → pos 0 ≤ℤ s
    → p ≤ 10_000
    → let c = to_fixed (s *ℤ pos p) 10_000 in (pos 0 ≤ℤ s -ℤ c) × (pos 0 ≤ℤ c) × (s -ℤ c +ℤ c ≡ s)
share_of (pos n) p h k = share n p k
share_of (negsuc n) p h k = absurd (omega arith)

++_nil : (ps : List Payout) → ps ++ [] ≡ ps
++_nil [] = refl
++_nil (p ∷ ps) = ap (λ xs. p ∷ xs) (++_nil ps)

++_snoc :
    (ps : List Payout) (q : Payout) (qs : List Payout) → (ps ++ (q ∷ [])) ++ qs ≡ ps ++ (q ∷ qs)
++_snoc [] q qs = refl
++_snoc (p ∷ ps) q qs = ap (λ xs. p ∷ xs) (++_snoc ps q qs)

module _ (default_commission : ℕ) where
  -- A renewal of at least 0 on a commission of at most 100%.
  abbrev pub IsFair : PaidRenewal → Type 0
  IsFair r =
      (pos 0 ≤ℤ r.sub_total_amount)
      × (commission_percentage default_commission r.commission ≤ 10_000)

  -- The renewals that a run pays out.
  abbrev pub paid_out : (ℕ → Bool) → List PaidRenewal → List PaidRenewal
  paid_out created renewals = filter (λ r. created r.id) renewals

  payouts_loop-map :
      (created : ℕ → Bool) (rs : List PaidRenewal) (payouts : List Payout)
      → payouts_loop default_commission created rs payouts
        ≡ payouts ++ map (payout_of default_commission) (paid_out created rs)
  unfolding payouts_loop
  payouts_loop-map created [] payouts = sym (++_nil payouts)
  payouts_loop-map created (r ∷ rs) payouts = elim (Bool-cases (created r.id)) [
    | inl e ↦ rw e (
        payouts_loop-map created rs (payouts ++ (payout_of default_commission r ∷ []))
        ∙ ++_snoc payouts (payout_of default_commission r)
            (map (payout_of default_commission) (paid_out created rs)))
    | inr e ↦ rw e (payouts_loop-map created rs payouts)
  ]

  -- `commission?.percentage || defaultCommission`, where a percentage of 0 counts as none.
  abbrev percentage : Option ℕ → ℕ
  percentage none = default_commission
  percentage (some n) = if n == 0 then default_commission else n

  percentage_lem : (o : Option ℕ) → commission_percentage default_commission o ≡ percentage o
  unfolding commission_percentage
  percentage_lem none = refl
  percentage_lem (some zero) = refl
  percentage_lem (some (suc n)) = ground arith

  -- What is owed on the renewals, read once: each one that was paid from `start` on and before `end`,
  -- and whose row goes through, gives the provider its subtotal less the percentage of it.
  abbrev pub owed : (ℕ → Bool) → ℤ → ℤ → List PaidRenewal → List Payout
  owed created start end [] = []
  owed created start end (r ∷ rs) =
      let rest = owed created start end rs in
      elim r.renewal_paid_date [
        | none ↦ rest
        | some d ↦
            if leb_ℤ start d && (ltb_ℤ d end && (is_paid r.status && created r.id))
            then record {
              status = PayoutStatus.pending;
              booking_id = r.booking_id;
              renewal_id = r.id;
              provider_id = r.provider_id;
              amount =
                  r.sub_total_amount
                  -ℤ to_fixed (r.sub_total_amount *ℤ pos (percentage r.commission)) 10_000;
              commission_percentage = percentage r.commission;
            }
              ∷ rest
            else rest
      ]

  paid_out-owed :
      (created : ℕ → Bool) (start end : ℤ) (rs : List PaidRenewal)
      → map (payout_of default_commission) (paid_out created (get_by_paid_date start end rs))
        ≡ owed created start end rs
  unfolding get_by_paid_date payout_of commission_amount
  paid_out-owed created start end [] = refl
  paid_out-owed created start end (r ∷ rs) =
      let ih = paid_out-owed created start end rs in
      elim (Option-cases r.renewal_paid_date) [
        | inl h ↦ rw h ih
        | inr (d, h) ↦ elim (Bool-cases (leb_ℤ start d)) [
          | inr e ↦ rw (h, e) ih
          | inl e ↦ elim (Bool-cases (ltb_ℤ d end)) [
            | inr f ↦ rw (h, e, f) ih
            | inl f ↦ elim (Bool-cases (is_paid r.status)) [
              | inr p ↦ rw (h, e, f, p) ih
              | inl p ↦ elim (Bool-cases (created r.id)) [
                | inr c ↦ rw (h, e, f, p, c) ih
                | inl c ↦ rw (h, e, f, p, c, percentage_lem r.commission, ih) refl
              ]
            ]
          ]
        ]
      ]

  -- For every renewals, a run adds, in their order and after the payouts that were there, one pending
  -- payout for each renewal that was paid from the start of the window on and before its end and whose
  -- row goes through: to its provider, of its subtotal less the commission's percentage, or the
  -- default one where the renewal has none or 0, rounded to a cent.
  pub create_payouts_cron-owed :
      (created : ℕ → Bool) (start end : ℤ) (renewals : List PaidRenewal) (payouts : List Payout)
      → create_payouts_cron default_commission created start end renewals payouts
        ≡ payouts ++ owed created start end renewals
  unfolding create_payouts_cron
  create_payouts_cron-owed created start end renewals payouts =
      payouts_loop-map created (get_by_paid_date start end renewals) payouts
      ∙ ap (λ xs. payouts ++ xs) (paid_out-owed created start end renewals)

  -- For every renewal of at least 0 with a commission of at most 100%, the payout and the commission
  -- are each at least 0 and together the renewal's subtotal.
  pub payout_of_bounds :
      (r : PaidRenewal)
      → IsFair r
      → (pos 0 ≤ℤ (payout_of default_commission r).amount)
        × (pos 0 ≤ℤ commission_amount default_commission r)
        × ((payout_of default_commission r).amount +ℤ commission_amount default_commission r
            ≡ r.sub_total_amount)
  unfolding payout_of commission_amount
  payout_of_bounds r (h, k) =
      share_of r.sub_total_amount (commission_percentage default_commission r.commission) h k
