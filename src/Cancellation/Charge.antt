-- ===== src/Cancellation/Charge.antt =====
-- Which charge a refund is made on.
use space_next_door_core_api.Base.{
  Bool, true, false, Option, none, some, List, [], ◌∷◌, ◌++◌, All, find, ◌≡◌, refl, sym, ap, ◌∙◌,
}
use mathlib.Core.List.{reverse, reverse-append, reverse-cons, append_assoc, append-nil}
use space_next_door_core_api.Base.Int.{ℤ}
use space_next_door_core_api.Cancellation.{
  BookingTransaction, UnusedDaysOption, covers_deposit, refund_charge,
}

module _ {ℓ} {A : Type ℓ} (test : A → Bool) where
  find-reverse_none :
      (xs ys : List A) → All (λ x. test x ≡ false) xs → find test (reverse xs ++ ys) ≡ find test ys
  find-reverse_none [] ys h = refl
  find-reverse_none (x ∷ xs) ys (e, h) =
      rw (reverse-cons, append_assoc, find-reverse_none xs (x ∷ ys) h, e)

  find-reverse_nil : (xs : List A) → All (λ x. test x ≡ false) xs → find test (reverse xs) ≡ none
  find-reverse_nil xs h = ap (find test) (sym (append-nil (reverse xs))) ∙ find-reverse_none xs [] h

  find-reverse_last :
      (before : List A) (x : A) (after : List A)
      → test x ≡ true
      → All (λ y. test y ≡ false) after
      → find test (reverse (before ++ (x ∷ after))) ≡ some x
  find-reverse_last before x after e h = rw (
    reverse-append,
    reverse-cons,
    append_assoc,
    find-reverse_none after (x ∷ reverse before) h,
    e,
  )

-- For every list of payments, the refund goes to the charge of the last one that covers the
-- deposit and is not the charge on which the unused days are refunded, whatever the ones before it
-- are.
pub refund_charge_last :
    (deposit : ℤ) (unused : Option UnusedDaysOption) (before : List BookingTransaction)
    (t : BookingTransaction) (after : List BookingTransaction)
    → covers_deposit deposit unused t ≡ true
    → All (λ u. covers_deposit deposit unused u ≡ false) after
    → refund_charge deposit unused (before ++ (t ∷ after)) ≡ some t.stripe_charge_id
unfolding refund_charge
refund_charge_last deposit unused before t after e h =
    rw (find-reverse_last (covers_deposit deposit unused) before t after e h, refund_charge)

-- Where no payment covers the deposit on another charge, the refund goes to the first charge.
pub refund_charge_first :
    (deposit : ℤ) (unused : Option UnusedDaysOption) (t : BookingTransaction)
    (after : List BookingTransaction)
    → All (λ u. covers_deposit deposit unused u ≡ false) (t ∷ after)
    → refund_charge deposit unused (t ∷ after) ≡ some t.stripe_charge_id
unfolding refund_charge
refund_charge_first deposit unused t after h =
    rw (find-reverse_nil (covers_deposit deposit unused) (t ∷ after) h, refund_charge)
