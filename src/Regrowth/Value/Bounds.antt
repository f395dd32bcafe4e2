-- ===== src/Regrowth/Value/Bounds.antt =====
-- What a parcel's regrowth is worth at most and at least.
use siedler_sterreich.Prelude.{ℕ, ◌+◌, ◌*◌, ◌≤◌, ◌<◌, List, Option, none, some, ◌≡◌, arith}
use native.Mathlib.Decide.{dec_le}
use siedler_sterreich.Landuse.Water.{Frac}
use siedler_sterreich.Claims.{Stamp, unset, unreadable, at, Claim, HarvestState, harvest_of}
use siedler_sterreich.Regrowth.Field.{
  FieldStage, field_stage, crop_stage, cycle_stage, Field, field_kind_for, parcel_crop,
}
use siedler_sterreich.Regrowth.Hash.{simple_hash}
use siedler_sterreich.Regrowth.Field.Forecast.{crop_cycle_bounds}
use native.Mathlib.Nat.{
  div-lt_iff_lt-mul, le-div_iff_mul-le, mul-le-mul_left, mul-le-mul_right, div-add-mod', mod-lt,
}
use siedler_sterreich.Regrowth.Value.{
  Plot, forest_factor, forest_regen, field_regen, regen_of, round_frac, sell_quote,
}

-- A factor between `lo / 20` and 1.
pub record IsFactor (lo : ℕ) (f : Frac) : Type 0 where
  pub positive : 0 < f.den
  pub at_least : lo * f.den ≤ 20 * f.num
  pub at_most : f.num ≤ f.den

forest_factor-IsFactor : (cut now : ℕ) → IsFactor 8 (forest_factor cut now)
unfolding forest_factor
forest_factor-IsFactor cut now = ground arith

field_regen-IsFactor : (f : FieldStage) → 0 < f.cycle → IsFactor 8 (field_regen f)
unfolding field_regen
field_regen-IsFactor f pos = ground arith

field_stage-cycle_pos :
    (states : List HarvestState) (p : Field) (claim : Option Claim) (now : ℕ)
    → 0 < (field_stage states p claim now).cycle
unfolding field_stage crop_stage cycle_stage
field_stage-cycle_pos states p claim now =
    let kind = field_kind_for p (simple_hash p.id_units) in
    ground (arith, crop_cycle_bounds (parcel_crop p) kind)

forest_regen-IsFactor :
    (hv : Option Stamp) (now : ℕ) (f : Frac) → forest_regen hv now ≡ some f → IsFactor 8 f
unfolding forest_regen
forest_regen-IsFactor none now f h = ground arith
forest_regen-IsFactor (some (at cut)) now f h = ground arith
forest_regen-IsFactor (some unset) now f h = cc
forest_regen-IsFactor (some unreadable) now f h = cc

-- Whatever stands on a parcel, its regrowth factor, if it is a number, lies between two fifths and one.
pub regen_of-IsFactor :
    (states : List HarvestState) (p : Plot) (claim : Option Claim) (now : ℕ) {f : Frac}
    → regen_of states p claim now ≡ some f
    → IsFactor 8 f
unfolding regen_of
regen_of-IsFactor states p claim now {f} h = ground (
  arith,
  forest_regen-IsFactor (harvest_of states p.field.parcel_id claim) now f,
  field_regen-IsFactor (field_stage states p.field claim now),
  field_stage-cycle_pos states p.field claim now,
)

-- `Math.round` from above, from below, and in order.
round_frac-le : (n d k : ℕ) → 0 < d → n ≤ k * d → round_frac n d ≤ k
round_frac-le n d k pos h =
    let lt = (div-lt_iff_lt-mul {k = 2 * d} {x = 2 * n + d} {y = k + 1} (omega arith)).1 in
    omega (arith, lt (grind arith))

round_frac-ge : (n d k : ℕ) → 0 < d → k * (2 * d) ≤ 2 * n + d → k ≤ round_frac n d
round_frac-ge n d k pos h =
    (le-div_iff_mul-le {k = 2 * d} {x = k} {y = 2 * n + d} (omega arith)).1 h

round_frac-near : (n d : ℕ) → 0 < d → 2 * n < 2 * (round_frac n d * d) + d
round_frac-near n d pos =
    omega (arith, div-add-mod' (2 * n + d) (2 * d), mod-lt (2 * n + d) {m = 2 * d} (omega arith))

quote_low :
    (price q num den : ℕ)
    → 0 < den
    → 8 * den ≤ 20 * num
    → 2 * (price * 6 * num) < 2 * (q * (10 * den)) + 10 * den
    → 24 * price ≤ 100 * q + 50
quote_low price q num den pos lo near = elim (dec_le (24 * price) (100 * q + 50)) [
  | yes h ↦ h
  | no h ↦
      let over : 100 * q + 50 ≤ 24 * price = omega arith in
      absurd (omega (arith, mul-le-mul_right den over, mul-le-mul_left price lo))
]

quote_high : (price num den : ℕ) → num ≤ den → price * 6 * num ≤ price * (10 * den)
quote_high price num den h = grind arith

-- What a sale pays for a parcel bought at a `price` of at least one, whatever stands on it, if its
-- regrowth factor is a number: never more than `price`, never less than one coin, and at least 24 % of
-- `price`, rounded.
pub sell_quote_bounds :
    (states : List HarvestState) (p : Plot) (claim : Option Claim) (now price : ℕ) {f : Frac}
    → 1 ≤ price
    → regen_of states p claim now ≡ some f
    → (sell_quote price f ≤ price)
      × (1 ≤ sell_quote price f)
      × (24 * price ≤ 100 * sell_quote price f + 50)
unfolding sell_quote
sell_quote_bounds states p claim now price {f} pos h =
    let i = regen_of-IsFactor states p claim now h in
    let low =
      quote_low price (round_frac (price * 6 * f.num) (10 * f.den)) f.num f.den i.positive
        i.at_least (round_frac-near _ _ (omega arith)) in
    let high =
      round_frac-le (price * 6 * f.num) (10 * f.den) price (omega arith)
        (quote_high price f.num f.den i.at_most) in
    omega arith
