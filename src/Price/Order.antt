-- ===== src/Price/Order.antt =====
-- How a price moves with the parcel.
use siedler_sterreich.Prelude.{ℕ, ◌≤◌, ◌<◌, String, ◌≡◌, ◌⊎◌, arith}
use native.Mathlib.Nat.{mul-le-mul_right}
use siedler_sterreich.Price.{price_per_sqm, weighted_area, calc_price}

weighted_area_mono :
    (area area' count built built' : ℕ)
    → area ≤ area'
    → built ≤ built'
    → (count ≡ 0) ⊎ (0 < built) ⊎ (built' ≡ 0)
    → weighted_area area count built ≤ weighted_area area' count built'
unfolding weighted_area
weighted_area_mono area area' count built built' h k c = ground arith

-- A price lies between 10 and 5000 coins. It never falls when the parcel and its built-up area are
-- at least as large, if no building is on record, or some built-up area already is, or the larger
-- parcel has none either.
pub calc_price_mono :
    (area area' count built built' : ℕ) (lu : String)
    → area ≤ area'
    → built ≤ built'
    → (count ≡ 0) ⊎ (0 < built) ⊎ (built' ≡ 0)
    → (calc_price area lu count built ≤ calc_price area' lu count built')
      × (10 ≤ calc_price area lu count built)
      × (calc_price area lu count built ≤ 5000)
unfolding calc_price
calc_price_mono area area' count built built' lu h k c = omega (
  arith,
  mul-le-mul_right (price_per_sqm lu) (weighted_area_mono area area' count built built' h k c),
)
