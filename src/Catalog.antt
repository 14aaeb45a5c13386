-- ===== src/Catalog.antt =====
-- The enumerations of src/graphql.schema.ts that the modelled services branch on.
use space_next_door_core_api.Base.{ℕ, Bool, ◌==◌, ◌≡◌, arith}

pub data BookingStatus : Type 0 where
  reserved confirmed active terminated completed cancelled : BookingStatus

pub data PriceChangeStatus : Type 0 where
  price_changed booking_not_found no_price_change invalid_price : PriceChangeStatus

pub data PromotionForType : Type 0 where
  first_months last_months renewal_index : PromotionForType

pub data RenewalStatus : Type 0 where
  paid un_paid failed : RenewalStatus

pub data RenewalType : Type 0 where
  booking full_subscription partial_subscription : RenewalType

pub data TransactionType : Type 0 where
  booking order booking_order termination renewal refund_cancel_booking refund_deposit
        refund_unused_days :
      TransactionType

pub data OrderStatus : Type 0 where
  pending confirmed active cancelled completed : OrderStatus

pub data PayoutStatus : Type 0 where
  pending paid : PayoutStatus

pub data TaxType : Type 0 where
  percentage absolute : TaxType

pub data TaxEntityType : Type 0 where
  site service insurance : TaxEntityType

pub data PromotionBuyTypes : Type 0 where
  min_days min_price : PromotionBuyTypes

pub data PromotionType : Type 0 where
  total_amount percentage_discount fixed_amount_discount : PromotionType

pub data PromotionFormat : Type 0 where
  public voucher code : PromotionFormat

pub data PromotionStatus : Type 0 where
  draft active finish in_active : PromotionStatus

pub data RefundType : Type 0 where
  refund_cancel_booking refund_deposit refund_unused_days : RefundType

pub data TerminationStatus : Type 0 where
  requested on_hold scheduled terminated : TerminationStatus

pub data TerminationPaymentStatus : Type 0 where
  pending paid failed : TerminationPaymentStatus

-- The position of a booking status in its enumeration, for `===`.
abbrev pub status_code : BookingStatus → ℕ
status_code BookingStatus.reserved = 0
status_code BookingStatus.confirmed = 1
status_code BookingStatus.active = 2
status_code BookingStatus.terminated = 3
status_code BookingStatus.completed = 4
status_code BookingStatus.cancelled = 5

abbrev pub same_status : BookingStatus → BookingStatus → Bool
same_status a b = status_code a == status_code b

pub same_status_eq : (a b : BookingStatus) → same_status a b ≡ Bool.true → a ≡ b
same_status_eq a b h = ground arith

abbrev pub is_paid : RenewalStatus → Bool
is_paid RenewalStatus.paid = Bool.true
is_paid _ = Bool.false

abbrev pub is_public : PromotionFormat → Bool
is_public PromotionFormat.public = Bool.true
is_public _ = Bool.false

abbrev pub is_voucher : PromotionFormat → Bool
is_voucher PromotionFormat.voucher = Bool.true
is_voucher _ = Bool.false

abbrev pub is_min_days : PromotionBuyTypes → Bool
is_min_days PromotionBuyTypes.min_days = Bool.true
is_min_days _ = Bool.false
