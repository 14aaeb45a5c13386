-- ===== src/Orders/CreateOutcome.antt =====
-- What a new order leaves.
use space_next_door_core_api.Base.{
  Bool, true, false, Option, none, some, List, ◌∷◌, ◌&&◌, ◌≡◌, refl, ◌⊎◌, inl, inr, Bool-cases,
}
use space_next_door_core_api.Orders.Create.{
  create_checked, OrderBooking, check_order, create_order, PickUpService, record_order, is_closed,
  new_order, CreateOrderCalls, LogisticsOrder, OrderWorld, NewOrder,
}
use space_next_door_core_api.Taxes.{TaxOwner, Tax}
use space_next_door_core_api.Base.Int.{ℤ}
use space_next_door_core_api.Base.Result.{Result, ok, err}
use space_next_door_core_api.Orders.Types.{OrderError}
use space_next_door_core_api.Logistics.{vehicle_type_validate}

-- What the checks have found out when they accept.
abbrev pub Checked :
    Option OrderBooking
    → Bool
    → Option PickUpService
    → Result OrderError (OrderBooking × PickUpService)
    → Type 0
Checked booking has_details service (ok (b, found)) =
    (booking ≡ some b)
    × (has_details ≡ true)
    × (is_closed b.status ≡ false)
    × (service ≡ some found)
    × (vehicle_type_validate b.space_type found.vehicle_code ≡ true)
Checked booking has_details service (err e) = Unit {0}

check_order-Checked :
    (booking : Option OrderBooking) (has_details : Bool) (service : Option PickUpService)
    → Checked booking has_details service (check_order booking has_details service)
unfolding check_order
check_order-Checked none has_details service = tt
check_order-Checked (some b) false service = tt
check_order-Checked (some b) true none = elim (Bool-cases (is_closed b.status)) [
  | inl e ↦ rw e tt
  | inr e ↦ rw e tt
]
check_order-Checked (some b) true (some s) = elim (Bool-cases (is_closed b.status)) [
  | inl e ↦ rw e tt
  | inr e ↦ rw e (elim (Bool-cases (vehicle_type_validate b.space_type s.vehicle_code)) [
    | inl e' ↦ rw e' (refl, refl, e, refl, e')
    | inr e' ↦ rw e' tt
  ])
]

-- By how it ended: a success has checked the payload and written one pending order; a throw has
-- written no order and left none at the partner, unless the taxes, the commit or the read after it
-- failed.
abbrev pub CreateLeaves :
    (List TaxOwner → List Tax)
    → ℤ
    → CreateOrderCalls
    → Option OrderBooking
    → Bool
    → Option PickUpService
    → Option LogisticsOrder
    → OrderWorld
    → Result OrderError (Unit {0}) × OrderWorld
    → Type 0
CreateLeaves find_all percent c booking has_details service partner w (ok x, w') =
    (b : OrderBooking) × (s : PickUpService) × (l : LogisticsOrder) × Checked booking has_details
      service (ok (b, s))
    × (partner ≡ some l)
    × (w'.orders ≡ new_order find_all percent b s l ∷ w.orders)
    × (w'.made ≡ l.order_id ∷ w.made)
    × (w'.cancelled ≡ w.cancelled)
CreateLeaves find_all percent c booking has_details service partner w (err e, w') =
    (w' ≡ w)
    ⊎ ((l : LogisticsOrder) × (partner ≡ some l)
        × (w'.made ≡ l.order_id ∷ w.made)
        × (((w'.orders ≡ w.orders) × (w'.cancelled ≡ l.order_id ∷ w.cancelled))
            ⊎ ((o : NewOrder) × (w'.orders ≡ o ∷ w.orders)
                × (o.tracking_id ≡ l.order_id)
                × (w'.cancelled ≡ w.cancelled)
                × (c.reload ≡ false))
            ⊎ ((w'.orders ≡ w.orders)
                × (w'.cancelled ≡ w.cancelled)
                × ((c.calculate_tax ≡ false) ⊎ (c.commit ≡ false)))))

record_order-CreateLeaves :
    (find_all : List TaxOwner → List Tax) (percent : ℤ) (c : CreateOrderCalls)
    (booking : Option OrderBooking) (has_details : Bool) (service : Option PickUpService)
    (b : OrderBooking) (s : PickUpService) (l : LogisticsOrder) (w : OrderWorld)
    → c.cancel_partner ≡ true
    → Checked booking has_details service (ok (b, s))
    → CreateLeaves find_all percent c booking has_details service
        (some l)
        w
        (create_checked find_all percent c (some l) (ok (b, s)) w)
unfolding create_checked record_order new_order
record_order-CreateLeaves find_all percent c booking has_details service b s l w k h =
    elim (Bool-cases c.calculate_tax) [
      | inr t ↦ rw t (inr (l, refl, refl, inr (inr (refl, refl, inl refl))))
      | inl t ↦
          elim (Bool-cases (
            c.ids
            && (c.create_pick_up && (c.create_order && (c.upsert_history && c.create_taxes))))) [
              | inr e ↦ rw (t, e, k) (inr (l, refl, refl, inl (refl, refl)))
              | inl e ↦ elim (Bool-cases c.commit) [
                | inr q ↦ rw (t, e, q) (inr (l, refl, refl, inr (inr (refl, refl, inr refl))))
                | inl q ↦ elim (Bool-cases c.reload) [
                  | inl r ↦ rw (t, e, q, r) (b, s, l, h, refl, refl, refl, refl)
                  | inr r ↦
                      rw (t, e, q, r) (inr (l, refl, refl, inr (inl (_, refl, refl, refl, refl))))
                ]
              ]
            ]
    ]

create_checked-CreateLeaves :
    (find_all : List TaxOwner → List Tax) (percent : ℤ) (c : CreateOrderCalls)
    (booking : Option OrderBooking) (has_details : Bool) (service : Option PickUpService)
    (partner : Option LogisticsOrder) (r : Result OrderError (OrderBooking × PickUpService))
    (w : OrderWorld)
    → c.cancel_partner ≡ true
    → Checked booking has_details service r
    → CreateLeaves find_all percent c booking has_details service partner w
        (create_checked find_all percent c partner r w)
unfolding create_checked
create_checked-CreateLeaves find_all percent c booking has_details service partner (err e) w k h =
    inl refl
create_checked-CreateLeaves find_all percent c booking has_details service none (ok r) w k h =
    inl refl
create_checked-CreateLeaves find_all percent c booking has_details service (some l) (ok (b, s)) w k
      h =
    record_order-CreateLeaves find_all percent c booking has_details service b s l w k h

-- For every payload, answer of the partner and way that the calls can end in which the partner
-- cancels what it is asked to: a success was for an open booking with the details of a pick-up, by a
-- vehicle that carries its space, and has written exactly the one new order, with the partner's id;
-- a throw has changed nothing, or the partner's order is cancelled and no order is written, or the
-- order is written and only the read after the commit has failed, or no order is written and the
-- partner's order stands, which is so only when the taxes or the commit fail.
pub create_order-CreateLeaves :
    (find_all : List TaxOwner → List Tax) (percent : ℤ) (c : CreateOrderCalls)
    (booking : Option OrderBooking) (has_details : Bool) (service : Option PickUpService)
    (partner : Option LogisticsOrder) (w : OrderWorld)
    → c.cancel_partner ≡ true
    → CreateLeaves find_all percent c booking has_details service partner w
        (create_order find_all percent c booking has_details service partner w)
unfolding create_order
create_order-CreateLeaves find_all percent c booking has_details service partner w k =
    create_checked-CreateLeaves find_all percent c booking has_details service partner _ w k
      (check_order-Checked booking has_details service)
