-- ===== src/Promotions/Gets.antt =====
-- What one entry of `customer_gets` takes off, shared by the promotion service and the booking
-- promotion service, whose loops have the same text here.
use space_next_door_core_api.Base.{Option, none, some, if◌then◌else◌}
use space_next_door_core_api.Base.Int.{ℤ, pos, ◌+ℤ◌, ◌-ℤ◌, ◌*ℤ◌, ltb_ℤ}
use space_next_door_core_api.Base.Round.{to_fixed}
use space_next_door_core_api.Catalog.{PromotionType}
use space_next_door_core_api.Promotions.Types.{CustomerGets}

-- The running discount with one more entry, before the cap, in ten-thousandths of a cent: the
-- percentage `(amount * gets.value) / 100` is exact in this unit.
abbrev pub raw_discount : PromotionType → ℤ → ℤ → ℤ → ℤ
raw_discount PromotionType.fixed_amount_discount amount value discount =
    (discount +ℤ value) *ℤ pos 10_000
raw_discount PromotionType.percentage_discount amount value discount =
    discount *ℤ pos 10_000 +ℤ amount *ℤ value
raw_discount PromotionType.total_amount amount value discount =
    (discount +ℤ (amount -ℤ value)) *ℤ pos 10_000

-- `if (gets.max_amount_per_booking)`: a cap of 0 is no cap.
abbrev pub capped : Option ℤ → ℤ → ℤ
capped none raw = raw
capped (some (pos Prim.Native.Nat.zero)) raw = raw
capped (some cap) raw = if ltb_ℤ (cap *ℤ pos 10_000) raw then cap *ℤ pos 10_000 else raw

unfoldable pub add_discount : ℤ → CustomerGets → ℤ → ℤ
add_discount amount gets discount =
    to_fixed
      (capped gets.max_amount_per_booking (raw_discount gets.type amount gets.value discount))
      10_000
