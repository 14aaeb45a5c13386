-- ===== src/Sitelink/Units.antt =====
-- The units of an answer and their stock. Areas are whole thousandths, rates whole cents.
use space_next_door_core_api.Base.{
  ℕ, Option, none, some, List, [], ◌∷◌, ◌+◌, if◌then◌else◌, leb, ◌≡◌, arith,
}
use space_next_door_core_api.Sitelink.Groups.{sum_by}

pub record SiteLinkUnit : Type 0 where
  pub unit_type_id : ℕ
  pub area : ℕ
  pub total_units : ℕ
  pub total_vacant : ℕ
  pub total_reserved : ℕ
  pub push_rate : ℕ
  pub standard_rate : ℕ

-- The price is none while it is `Infinity`.
pub record Stock : Type 0 where
  pub total : ℕ
  pub vacant : ℕ
  pub reserved : ℕ
  pub price : Option ℕ

abbrev pub min_of : ℕ → ℕ → ℕ
min_of a b = if leb a b then a else b

abbrev pub min_price : Option ℕ → ℕ → ℕ
min_price none p = p
min_price (some q) p = min_of q p

abbrev pub add_unit : Stock → SiteLinkUnit → Stock
add_unit o u = record {
  total = o.total + u.total_units;
  vacant = o.vacant + u.total_vacant;
  reserved = o.reserved + u.total_reserved;
  price = some (min_price o.price (min_of u.push_rate u.standard_rate));
}

abbrev pub stock_into : Stock → List SiteLinkUnit → Stock
stock_into o [] = o
stock_into o (u ∷ us) = stock_into (add_unit o u) us

unfoldable pub stock_of : List SiteLinkUnit → Stock
stock_of us = stock_into (record { total = 0; vacant = 0; reserved = 0; price = none }) us

total-stock_into :
    (o : Stock) (us : List SiteLinkUnit)
    → (stock_into o us).total ≡ o.total + sum_by (λ u. u.total_units) us
total-stock_into o [] = omega arith
total-stock_into o (u ∷ us) = omega (arith, total-stock_into (add_unit o u) us)

vacant-stock_into :
    (o : Stock) (us : List SiteLinkUnit)
    → (stock_into o us).vacant ≡ o.vacant + sum_by (λ u. u.total_vacant) us
vacant-stock_into o [] = omega arith
vacant-stock_into o (u ∷ us) = omega (arith, vacant-stock_into (add_unit o u) us)

pub total-stock_of : (us : List SiteLinkUnit) → (stock_of us).total ≡ sum_by (λ u. u.total_units) us
unfolding stock_of
total-stock_of us = omega (arith, total-stock_into _ us)

pub vacant-stock_of :
    (us : List SiteLinkUnit) → (stock_of us).vacant ≡ sum_by (λ u. u.total_vacant) us
unfolding stock_of
vacant-stock_of us = omega (arith, vacant-stock_into _ us)
