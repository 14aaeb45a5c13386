-- ===== src/Lifecycle/Jobs.antt =====
-- What the jobs of src/cron-job do to the table of bookings when they run late, or twice.
use space_next_door_core_api.Base.{
  ℕ, Bool, true, false, Option, none, some, List, [], ◌∷◌, ◌&&◌, ◌+◌, if◌then◌else◌, length, filter,
  map, ◌≡◌, refl, sym, ap, ◌∙◌, inl, inr, arith, Bool-cases,
}
use space_next_door_core_api.Base.Int.{ℤ, ◌≤ℤ◌}
use space_next_door_core_api.Lifecycle.{
  active_bookings_cron, update_row, BookingRow, BookingStatus, move_outs, unpaid, move_ins, is_lte,
  BookingsFilter, matches, update_bookings_status,
}
use space_next_door_core_api.Catalog.{BookingStatus, same_status, same_status_eq}

-- Both updates of the job on one row.
abbrev pub active_row : Bool → ℤ → ℤ → BookingRow → BookingRow
active_row updated now now' b =
    update_row BookingStatus.completed (move_outs now')
      (if updated then update_row BookingStatus.active (move_ins now) b else b)

abbrev pub cancel_row : ℤ → BookingRow → BookingRow
cancel_row now b = update_row BookingStatus.cancelled (unpaid now) b

pub active_bookings_cron-map :
    (updated : Bool) (now now' : ℤ) (rows : List BookingRow)
    → active_bookings_cron updated now now' rows ≡ map (active_row updated now now') rows
unfolding active_bookings_cron
active_bookings_cron-map true now now' [] = refl
active_bookings_cron-map false now now' [] = refl
active_bookings_cron-map true now now' (b ∷ bs) =
    ap (λ xs. active_row true now now' b ∷ xs) (active_bookings_cron-map true now now' bs)
active_bookings_cron-map false now now' (b ∷ bs) =
    ap (λ xs. active_row false now now' b ∷ xs) (active_bookings_cron-map false now now' bs)

is_lte_mono :
    (n m : ℤ) (d : Option ℤ) → n ≤ℤ m → is_lte (some n) d ≡ true → is_lte (some m) d ≡ true
is_lte_mono n m none h e = cc
is_lte_mono n m (some d) h e = ground arith

-- The status that the job leaves, by the two tests on dates.
abbrev next : Bool → Bool → BookingStatus → BookingStatus
next i o BookingStatus.confirmed =
    if i
    then (if o then BookingStatus.completed else BookingStatus.active)
    else BookingStatus.confirmed
next i o BookingStatus.active = if o then BookingStatus.completed else BookingStatus.active
next i o BookingStatus.reserved = BookingStatus.reserved
next i o BookingStatus.terminated = BookingStatus.terminated
next i o BookingStatus.completed = BookingStatus.completed
next i o BookingStatus.cancelled = BookingStatus.cancelled

active_row-next :
    (updated : Bool) (n n' : ℤ) (b : BookingRow)
    → active_row updated n n' b ≡ record b {
      status =
          next
            (updated && is_lte (some n) (some b.move_in_date))
            (is_lte (some n') b.move_out_date)
            b.status;
    }
unfolding update_row
active_row-next updated n n' b = ground arith

next_again :
    (i o j p : Bool) (s : BookingStatus)
    → (i ≡ true → j ≡ true)
    → (o ≡ true → p ≡ true)
    → next j p (next i o s) ≡ next j p s
next_again i o j p s h k = ground arith

and_true : (updated b c : Bool) → (b ≡ true → c ≡ true) → updated && b ≡ true → c ≡ true
and_true updated b c h e = ground arith

active_row_later :
    (updated : Bool) (n n' m m' : ℤ) (b : BookingRow)
    → n ≤ℤ m
    → n' ≤ℤ m'
    → active_row true m m' (active_row updated n n' b) ≡ active_row true m m' b
active_row_later updated n n' m m' b h k =
    let e =
      next_again (updated && is_lte (some n) (some b.move_in_date))
        (is_lte (some n') b.move_out_date) (is_lte (some m) (some b.move_in_date))
        (is_lte (some m') b.move_out_date) b.status
        (and_true updated (is_lte (some n) (some b.move_in_date))
          (is_lte (some m) (some b.move_in_date)) (is_lte_mono n m (some b.move_in_date) h))
        (is_lte_mono n' m' b.move_out_date k) in
    ap (active_row true m m') (active_row-next updated n n' b)
    ∙ active_row-next true m m' (record b {
      status =
          next (updated && is_lte (some n) (some b.move_in_date)) (is_lte (some n') b.move_out_date)
            b.status;
    })
    ∙ ap (λ s. record b { status = s }) e
    ∙ sym (active_row-next true m m' b)

map_later :
    (updated : Bool) (n n' m m' : ℤ) (rows : List BookingRow)
    → n ≤ℤ m
    → n' ≤ℤ m'
    → map (active_row true m m') (map (active_row updated n n') rows)
      ≡ map (active_row true m m') rows
map_later updated n n' m m' [] h k = refl
map_later updated n n' m m' (b ∷ bs) h k =
    ap (λ x. x ∷ map (active_row true m m') (map (active_row updated n n') bs))
      (active_row_later updated n n' m m' b h k)
    ∙ ap (λ xs. active_row true m m' b ∷ xs) (map_later updated n n' m m' bs h k)

-- For every table, a run of the job makes up for every earlier one, also for one whose first
-- update failed: a run at a time leaves the same table whether the job has run at an earlier or
-- the same time before, or not at all.
pub active_bookings_cron_catches_up :
    (updated : Bool) (n n' m m' : ℤ) (rows : List BookingRow)
    → n ≤ℤ m
    → n' ≤ℤ m'
    → active_bookings_cron true m m' (active_bookings_cron updated n n' rows)
      ≡ active_bookings_cron true m m' rows
active_bookings_cron_catches_up updated n n' m m' rows h k =
    active_bookings_cron-map true m m' (active_bookings_cron updated n n' rows)
    ∙ ap (map (active_row true m m')) (active_bookings_cron-map updated n n' rows)
    ∙ map_later updated n n' m m' rows h k
    ∙ sym (active_bookings_cron-map true m m' rows)

-- The number of bookings in a status.
abbrev pub count : BookingStatus → List BookingRow → ℕ
count s rows = length (filter (λ b. same_status b.status s) rows)

status_self : (s : BookingStatus) → same_status s s ≡ true
status_self s = ground arith

matches_status :
    (f : BookingsFilter) (b : BookingRow) {from : BookingStatus}
    → f.status ≡ some from
    → matches f b ≡ true
    → b.status ≡ from
unfolding matches
matches_status f b {from} h e = same_status_eq b.status from (ground (arith, h, e))

-- For every table and every filter that names a status, the number of bookings that the answer calls
-- modified have left that status and entered the new one, a different one: none is lost or counted
-- twice.
pub update_bookings_status_counts :
    (to from : BookingStatus) (f : BookingsFilter) (rows : List BookingRow)
    → f.status ≡ some from
    → same_status from to ≡ false
    → let (answer, rows') = update_bookings_status to f rows in
      (count to rows' ≡ count to rows + answer.modified)
      × (count from rows' + answer.modified ≡ count from rows)
unfolding update_bookings_status update_row
update_bookings_status_counts to from f [] h k = omega arith
update_bookings_status_counts to from f (b ∷ bs) h k = elim (Bool-cases (matches f b)) [
  | inl e ↦
      let s = matches_status f b h e in
      let ih = update_bookings_status_counts to from f bs h k in
      rw e (ground (arith, ih, s, k, status_self to, status_self from))
  | inr e ↦ let ih = update_bookings_status_counts to from f bs h k in rw e (ground (arith, ih))
]
