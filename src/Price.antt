-- ===== src/Price.antt =====
-- srv/static/game.js: `calcPrice` and `harvestYield`, in exact arithmetic on whole square metres.
pub mod Order
use siedler_sterreich.Prelude.{
  ℕ, ◌+◌, ◌*◌, ◌/◌, min, max, String, ◌&&◌, Option, none, some, ltb, ◌==◌, lookup, if◌then◌else◌,
}
use siedler_sterreich.Landuse.Table.{NsEntry, ns_table}

abbrev price_or : Option NsEntry → ℕ
price_or none = 15
price_or (some e) = if e.price == 0 then 15 else e.price

-- `ppm`, in hundredths of a coin per square metre.
unfoldable pub price_per_sqm : String → ℕ
price_per_sqm lu = price_or (lookup lu ns_table)

-- `area * densityMult`, in tenths of a square metre: the density follows from the built-up ratio
-- `totalBuildingArea / area`, with its limits 0.3 and 0.05.
unfoldable pub weighted_area : ℕ → ℕ → ℕ → ℕ
weighted_area area building_count building_area =
    if ltb 0 area && ltb 0 building_area
    then (if ltb (3 * area) (10 * building_area)
        then 20 * area
        else if ltb (5 * area) (100 * building_area)
        then 8 * area + 40 * building_area
        else 5 * area + 100 * building_area)
    else if building_count == 0
    then 5 * area
    else 10 * area

-- `Math.max(10, Math.min(5000, Math.round(…)))`; the product is in thousandths of a coin.
unfoldable pub calc_price : ℕ → String → ℕ → ℕ → ℕ
calc_price area lu building_count building_area =
    max 10
      (min 5000 ((weighted_area area building_count building_area * price_per_sqm lu + 500) / 1000))

-- `Math.max(5, Math.min(300, Math.round(areaSqm * 0.012)))`
unfoldable pub harvest_yield : ℕ → ℕ
harvest_yield area = max 5 (min 300 ((12 * area + 500) / 1000))
