-- ===== src/Payments/Stripe.antt =====
-- src/stripe/stripe.service.ts: amounts in the currency's unit, and the customer to charge.
use space_next_door_core_api.Base.{
  ℕ, suc, Bool, true, false, Option, none, some, ◌+◌, ◌*◌, ◌/◌, ◌≤◌, ◌<◌, is_some, ◌≡◌, refl, ◌↔◌,
  arith,
}
use space_next_door_core_api.Base.Int.{ℤ, pos, negsuc, sub_ℕ}
use space_next_door_core_api.Base.Result.{Result, ok, err, ◌>>=◌, or_throw}

-- `missing` is `undefined`, of which the code takes `toLowerCase()`.
pub data Currency : Type 0 where
  jpy krw thb sgd unsupported missing : Currency

pub data StripeError : Type 0 where
  currency_not_supported card_token_required type_error : StripeError

-- `parseInt(amount.toFixed(2), 10)` of an amount in cents: the whole units, towards 0.
abbrev pub whole_units : ℤ → ℤ
whole_units (pos n) = pos (n / 100)
whole_units (negsuc n) = sub_ℕ 0 (suc n / 100)

-- Stripe takes yen and won in whole units, and baht and dollars in cents.
unfoldable pub calculate_amount_in_currency : ℤ → Currency → Result StripeError ℤ
calculate_amount_in_currency amount Currency.jpy = ok (whole_units amount)
calculate_amount_in_currency amount Currency.krw = ok (whole_units amount)
calculate_amount_in_currency amount Currency.thb = ok amount
calculate_amount_in_currency amount Currency.sgd = ok amount
calculate_amount_in_currency amount Currency.unsupported = err currency_not_supported
calculate_amount_in_currency amount Currency.missing = err type_error

-- What one unit of the currency's Stripe amount is in cents.
abbrev pub unit : Currency → ℕ
unit Currency.jpy = 100
unit Currency.krw = 100
unit _ = 1

-- For every amount of at least 0 and every supported currency, the amount that Stripe is asked
-- for is worth at most the amount, and less than one of the currency's units below it.
pub calculate_amount_in_currency_bounds :
    (cents : ℕ) (currency : Currency) {charged : ℤ}
    → calculate_amount_in_currency (pos cents) currency ≡ ok charged
    → (n : ℕ) × (charged ≡ pos n)
      × (n * unit currency ≤ cents)
      × (cents < n * unit currency + unit currency)
unfolding calculate_amount_in_currency
calculate_amount_in_currency_bounds cents Currency.jpy e =
    (cents / 100, cc, omega arith, omega arith)
calculate_amount_in_currency_bounds cents Currency.krw e =
    (cents / 100, cc, omega arith, omega arith)
calculate_amount_in_currency_bounds cents Currency.thb e = (cents, cc, omega arith, omega arith)
calculate_amount_in_currency_bounds cents Currency.sgd e = (cents, cc, omega arith, omega arith)
calculate_amount_in_currency_bounds cents Currency.unsupported e = cc
calculate_amount_in_currency_bounds cents Currency.missing e = cc

-- Stripe's two calls on customers: update or create with a card token; the customer's id.
pub record Customers : Type 0 where
  pub update : ℕ → ℕ → ℕ
  pub create : ℕ → ℕ

-- `undefined` where neither test applies.
unfoldable pub upsert_stripe_customer_source :
    Customers → Option ℕ → Option ℕ → Result StripeError (Option ℕ)
upsert_stripe_customer_source stripe none none = err card_token_required
upsert_stripe_customer_source stripe (some token) (some id) = ok (some (stripe.update id token))
upsert_stripe_customer_source stripe (some token) none = ok (some (stripe.create token))
upsert_stripe_customer_source stripe none (some id) = ok none

pub record StripeCustomer : Type 0 where
  pub id : ℕ
  pub is_updated : Bool

-- `stored` is the Stripe id in the customer's row. `stripeCustomer.id` throws on `undefined`.
unfoldable pub get_stripe_customer_id :
    Customers → Option ℕ → Option ℕ → Result StripeError StripeCustomer
unfolding upsert_stripe_customer_source
get_stripe_customer_id stripe none none = err card_token_required
get_stripe_customer_id stripe none (some id) = ok (record { id = id; is_updated = false })
get_stripe_customer_id stripe (some token) stored = do
  found ← upsert_stripe_customer_source stripe (some token) stored
  id ← or_throw found type_error
  ok (record { id = id; is_updated = true })

-- Whatever Stripe answers, the call fails for want of a card token exactly when there is neither a
-- token nor a stored Stripe id.
pub get_stripe_customer_id_iff :
    (stripe : Customers) (token stored : Option ℕ)
    → (get_stripe_customer_id stripe token stored ≡ err card_token_required)
      ↔ ((is_some token ≡ false) × (is_some stored ≡ false))
unfolding get_stripe_customer_id
get_stripe_customer_id_iff stripe none none = ((λ e. (refl, refl)), (λ h. refl))
get_stripe_customer_id_iff stripe none (some id) = ((λ e. cc), (λ h. cc))
get_stripe_customer_id_iff stripe (some token) none = ((λ e. cc), (λ h. cc))
get_stripe_customer_id_iff stripe (some token) (some id) = ((λ e. cc), (λ h. cc))
