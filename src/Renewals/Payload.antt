-- ===== src/Renewals/Payload.antt =====
-- `getRenewalPayload` and `getNextRenewalDate` of src/bookings/renewals/renewal.service.ts.
use space_next_door_core_api.Base.{ℕ, Option, none, some, ◌&&◌, if◌then◌else◌}
use space_next_door_core_api.Calendar.{Calendar}
use space_next_door_core_api.Base.Int.{ℤ, leb_ℤ, pos, ◌*ℤ◌, ltb_ℤ, min_ℤ, ◌-ℤ◌, ◌+ℤ◌}
use space_next_door_core_api.Catalog.{RenewalType, RenewalStatus}
use space_next_door_core_api.Base.Round.{to_fixed}
use space_next_door_core_api.Base.Number.{Number, fixed, add}

module _ (cal : Calendar) where
  open cal use {Date, add_day, add_month, diff_day, diff_month}

  -- The arguments, in the order of the source.
  pub record RenewalArgs : Type 0 where
    pub insurance_price_per_day : ℤ
    pub deposit_amount : ℤ
    pub renewal_start_date : Date
    pub next_renewal_date_of_last : Option Date
    pub booking_id : ℕ
    pub base_amount : ℤ
    pub discounted_amount : ℤ
    pub status : RenewalStatus
    pub type : RenewalType
    pub transaction_id : Option ℕ
    pub move_out_date : Option Date

  pub record RenewalPayload : Type 0 where
    pub booking_id : ℕ
    pub next_renewal_date : Option Date
    pub deposit_amount : ℤ
    pub status : RenewalStatus
    pub type : RenewalType
    pub base_amount : ℤ
    pub transaction_id : Option ℕ
    pub total_amount : ℤ
    pub sub_total_amount : ℤ
    pub discount_amount : ℤ
    pub renewal_start_date : Date
    pub renewal_end_date : Date
    pub insurance_amount : ℤ
    pub total_tax_amount : ℤ
    pub next_renewal_sub_total : Option ℤ

  -- The variables that the two branches on the move out date set.
  pub record RenewalTerms : Type 0 where
    pub next_renewal_date : Option Date
    pub renewal_end_date : Date
    pub amount : ℤ
    pub next_renewal_sub_total : Option ℤ

  -- `create_days` is `app.renewal.createBefore`. Without a last renewal the date is invalid.
  unfoldable pub get_next_renewal_date : ℤ → RenewalType → Date → Option Date → Option Date
  get_next_renewal_date create_days RenewalType.booking start last =
      some (add_day (add_month start 1) (pos 0 -ℤ create_days))
  get_next_renewal_date create_days RenewalType.full_subscription start none = none
  get_next_renewal_date create_days RenewalType.full_subscription start (some d) =
      some (add_month d 1)
  get_next_renewal_date create_days RenewalType.partial_subscription start none = none
  get_next_renewal_date create_days RenewalType.partial_subscription start (some d) =
      some (add_month d 1)

  -- `parseFloat(((price / 30) * days).toFixed(2))`, of at most 30 days.
  abbrev pub amount_of_days : ℤ → ℤ → ℤ
  amount_of_days price days = to_fixed (price *ℤ min_ℤ days (pos 30)) 30

  -- The part of the next month, from the days and the months that are left after this one.
  unfoldable pub projected_sub_total : ℤ → ℤ → ℤ → Option ℤ
  projected_sub_total base days months =
      if leb_ℤ (pos 1) days && leb_ℤ months (pos 1)
      then some (amount_of_days base days)
      else (if ltb_ℤ (pos 30) days then some base else none)

  -- The stay ends: `days` and `months` are from the renewal's start to the day after the move out.
  unfoldable pub terms_until : ℤ → RenewalArgs → Date → RenewalTerms
  unfolding projected_sub_total get_next_renewal_date
  terms_until create_days a move_out =
      let after = add_day move_out (pos 1) in
      let month_later = add_month a.renewal_start_date 1 in
      let days = diff_day after a.renewal_start_date in
      let is_last = leb_ℤ (diff_month after a.renewal_start_date) (pos 1) in
      record {
        next_renewal_date =
            (if is_last
              then none
              else (if ltb_ℤ (pos 30) days
                  then get_next_renewal_date create_days a.type a.renewal_start_date
                      a.next_renewal_date_of_last
                  else none));
        renewal_end_date = (if is_last then move_out else month_later);
        amount = to_fixed (if is_last then amount_of_days a.base_amount days else a.base_amount) 1;
        next_renewal_sub_total =
            projected_sub_total a.base_amount (diff_day after month_later)
              (diff_month after month_later);
      }

  unfoldable pub renewal_terms : ℤ → RenewalArgs → Option Date → RenewalTerms
  unfolding terms_until get_next_renewal_date
  renewal_terms create_days a none = record {
    next_renewal_date =
        get_next_renewal_date create_days a.type a.renewal_start_date a.next_renewal_date_of_last;
    renewal_end_date = add_month a.renewal_start_date 1;
    amount = a.base_amount;
    next_renewal_sub_total = some a.base_amount;
  }
  renewal_terms create_days a (some move_out) = terms_until create_days a move_out

  unfoldable pub get_renewal_payload : ℤ → RenewalArgs → RenewalPayload
  unfolding renewal_terms
  get_renewal_payload create_days a =
      let terms = renewal_terms create_days a a.move_out_date in
      let insurance = a.insurance_price_per_day *ℤ pos 30 in
      let discount = to_fixed a.discounted_amount 1 in
      let sub_total = to_fixed terms.amount 1 in
      record {
        booking_id = a.booking_id;
        next_renewal_date = terms.next_renewal_date;
        deposit_amount = a.deposit_amount;
        status = a.status;
        type = a.type;
        base_amount = to_fixed a.base_amount 1;
        transaction_id = a.transaction_id;
        total_amount = to_fixed (sub_total +ℤ a.deposit_amount +ℤ insurance -ℤ discount) 1;
        sub_total_amount = sub_total;
        discount_amount = discount;
        renewal_start_date = a.renewal_start_date;
        renewal_end_date = terms.renewal_end_date;
        insurance_amount = insurance;
        total_tax_amount = pos 0;
        next_renewal_sub_total = terms.next_renewal_sub_total;
      }

  -- The first renewal, as `create` of src/bookings/booking.service.ts has it made: `price` is the
  -- month's price, `deposit` and `discount` are those of the booking.
  unfoldable pub first_renewal : ℤ → ℕ → ℤ → ℤ → ℤ → Date → Option Date → RenewalPayload
  unfolding get_renewal_payload
  first_renewal create_days booking price deposit discount move_in move_out =
      get_renewal_payload create_days (record {
        insurance_price_per_day = pos 0;
        deposit_amount = deposit;
        renewal_start_date = move_in;
        next_renewal_date_of_last = none;
        booking_id = booking;
        base_amount = price;
        discounted_amount = discount;
        status = RenewalStatus.un_paid;
        type = RenewalType.booking;
        transaction_id = none;
        move_out_date = move_out;
      })

  -- The total that is stored with it, which is what `payBooking` charges.
  unfoldable pub first_renewal_total : RenewalPayload → Number → Number
  first_renewal_total p tax = fixed (add (some p.total_amount) tax)
