-- ===== src/Tests/PricingTests.antt =====
-- Prices of stays.
use space_next_door_core_api.Base.{false, none, some, List, [], ◌∷◌, ◌≡◌, refl, ◌≢◌}
use space_next_door_core_api.Base.Int.{pos, ◌+ℤ◌}
use space_next_door_core_api.Promotions.Amount.{Commitment}
use space_next_door_core_api.Taxes.{Tax, TaxOwner}
use space_next_door_core_api.Pricing.{
  Space, CheckoutPromotion, checkout_price, create_amounts, get_total_days, space_price_per_month,
}
use space_next_door_core_api.Pricing.Agreement.{bare, bare_answers, checkout_price-eq}
use space_next_door_core_api.Tests.Sample.{plain_days, vat}

ten_days : get_total_days plain_days 5 (some 14) ≢ some (pos 0)
unfolding get_total_days ◌+ℤ◌
ten_days = λ e. cc

abbrev long_month : Commitment
long_month = record { open_ended = false; commit_days = pos 31; commit_months = pos 0 }

abbrev space : Space
space = record { site_id = 3; is_affiliate = false; prices = pos 30_000 ∷ [] }

abbrev ten_off : CheckoutPromotion
ten_off = record {
  applied_promotion = none;
  public_promotion = none;
  discounted_amount = pos 1000;
  promotion_error = false;
}

abbrev taxes : List TaxOwner → List Tax
taxes owners = vat ∷ []

checkout_price-eq_example :
    let site = record space { site_id = 4 } in
    let quoted =
      checkout_price taxes site
        (bare none (some 9))
        (bare_answers none)
        (get_total_days plain_days 5 (some 14))
        ten_off in
    let booked =
      create_amounts plain_days taxes 4 (space_price_per_month site none) 5 (some 14) (pos 1000) in
    (quoted.payable_amount ≡ booked.total_amount)
    × (quoted.total_tax ≡ booked.total_tax_amount)
    × (quoted.sub_total_amount ≡ booked.sub_total_amount)
    × (quoted.deposit_amount ≡ booked.deposited_amount)
checkout_price-eq_example =
    checkout_price-eq plain_days taxes space none none (some 9) 5 (some 14) ten_off ten_days
      (refl, tt)
