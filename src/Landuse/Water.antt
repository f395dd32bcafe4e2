-- ===== src/Landuse/Water.antt =====
-- srv/static/game.js: `waterFraction`, on exact fractions.
use siedler_sterreich.Prelude.{
  ℕ, ◌+◌, ◌*◌, String, Bool, List, [], ◌∷◌, Option, none, some, has, ltb, leb, or_else,
  if◌then◌else◌,
}

-- A fraction of a parcel's area: `num / den`, with `0 < den`.
pub record Frac : Type 0 where
  pub num : ℕ
  pub den : ℕ

abbrev pub frac_le : Frac → Frac → Bool
frac_le a b = leb (a.num * b.den) (b.num * a.den)

-- `Math.max(a, b)`
abbrev pub frac_max : Frac → Frac → Frac
frac_max a b = if frac_le b a then a else b

-- A parcel's observed layer (`p.ne`): its cells, and the water share of its cover.
pub record Observed : Type 0 where
  pub cells : ℕ
  pub cover : Option (Option Frac)

abbrev pub water_ns : List String
water_ns = "59" ∷ "60" ∷ []

-- Square metres by NS code (`landuse_areas`).
abbrev pub Areas : Type 0
Areas = List (String × ℕ)

unfoldable pub total_area : Areas → ℕ
total_area [] = 0
total_area ((code, a) ∷ rest) = a + total_area rest

unfoldable pub water_area : Areas → ℕ
unfolding has
water_area [] = 0
water_area ((code, a) ∷ rest) = (if has code water_ns then a else 0) + water_area rest

-- `obs`: the observed share, `0` where the cover names no water.
unfoldable pub observed_water : Option Observed → Option Frac
observed_water none = none
observed_water (some ne) = if ltb 0 ne.cells then share ne.cover else none
  where
    share : Option (Option Frac) → Option Frac
    share none = none
    share (some water) = some (or_else water (record { num = 0; den = 1 }))

-- `decl`: the declared share, if any area is declared.
unfoldable pub declared_water : Areas → Option Frac
unfolding total_area water_area
declared_water areas =
    if ltb 0 (total_area areas)
    then some (record { num = water_area areas; den = total_area areas })
    else none

abbrev pub greater_share : Option Frac → Option Frac → Option Frac
greater_share none decl = decl
greater_share (some obs) none = some obs
greater_share (some obs) (some decl) = some (frac_max decl obs)

-- `waterFraction(pid, p)` for a parcel with its properties at hand; `none` is unknown.
unfoldable pub water_fraction : Option Observed → Option Areas → Option Frac
unfolding observed_water declared_water
water_fraction ne none = observed_water ne
water_fraction ne (some areas) = greater_share (observed_water ne) (declared_water areas)
