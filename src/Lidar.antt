-- ===== src/Lidar.antt =====
-- srv/static/game.js: the measured buildings by the cells of their own grid (`addLidarBuilding`, `lidarGridKey`), and the
-- one near a point (`findLidarBuilding`). A coordinate counts steps of 10⁻⁹ degrees.
pub mod Nearby
use siedler_sterreich.Prelude.{
  ℕ, suc, ◌+◌, ◌-◌, ◌*◌, ◌/◌, max, min, Bool, true, false, ◌&&◌, ◌||◌, List, [], ◌∷◌, ◌++◌, Option,
  none, some, ltb, ◌==◌, any, if◌then◌else◌,
}
use siedler_sterreich.Geometry.{Pt}
use siedler_sterreich.Parcels.{Key, same_key}

pub record Building : Type 0 where
  pub lon : ℕ
  pub lat : ℕ
  pub max_height_m : ℕ

-- `Math.round(x * 2000)` and `Math.round(x * 50000)`
abbrev pub cell_no : ℕ → ℕ
cell_no x = (x + 250000) / 500000

abbrev pub seen_no : ℕ → ℕ
seen_no x = (x + 10000) / 20000

-- `lidarGridKey`
abbrev pub lidar_grid_key : ℕ → ℕ → Key
lidar_grid_key lon lat = (cell_no lon, cell_no lat)

abbrev pub seen_key : ℕ → ℕ → Key
seen_key lon lat = (seen_no lon, seen_no lat)

abbrev pub Index : Type 0
Index = List (Key × List Building)

-- `G.lidarBuildingIdx[key]`, and a new building under a key.
unfoldable pub under : Key → Index → List Building
under key [] = []
under key (entry ∷ rest) = if same_key entry.0 key then entry.1 else under key rest

unfoldable pub put : Building → Key → Index → Index
put b key [] = (key, b ∷ []) ∷ []
put b key (entry ∷ rest) =
    if same_key entry.0 key then (key, entry.1 ++ b ∷ []) ∷ rest else entry ∷ put b key rest

-- `G.lidarBuildingIdx` and `G._bldgSeen`
pub record Buildings : Type 0 where
  pub index : Index
  pub seen : List Key

-- `addLidarBuilding`, of a building whose position may be missing.
unfoldable pub add_lidar_building : Option Pt → ℕ → Buildings → Buildings
unfolding put
add_lidar_building none height g = g
add_lidar_building (some p) height g =
    if any (same_key (seen_key p.0 p.1)) g.seen then g else record {
      index =
          put (record { lon = p.0; lat = p.1; max_height_m = height }) (lidar_grid_key p.0 p.1)
            g.index;
      seen = seen_key p.0 p.1 ∷ g.seen;
    }

abbrev pub apart : ℕ → ℕ → ℕ
apart x y = max x y - min x y

-- The square of a distance, and `bestD` at the start.
abbrev pub distance_2 : Pt → Building → ℕ
distance_2 p b = apart b.lon p.0 * apart b.lon p.0 + apart b.lat p.1 * apart b.lat p.1

abbrev pub limit_2 : ℕ
limit_2 = 400000000000

abbrev pub Best : Type 0
Best = ℕ × Option Building

unfoldable pub closest : Pt → List Building → Best → Best
closest p [] best = best
closest p (b ∷ bs) best =
    closest p bs (if ltb (distance_2 p b) best.0 then (distance_2 p b, some b) else best)

unfoldable pub closest_under : Pt → Index → List Key → Best → Best
unfolding closest under
closest_under p index [] best = best
closest_under p index (key ∷ keys) best =
    closest_under p index keys (closest p (under key index) best)

-- The nine cells around a point, in the order of the loops. No coordinate is near 0.
abbrev pub column_around : ℕ → ℕ → List Key
column_around x y = (x, y - 1) ∷ (x, y) ∷ (x, y + 1) ∷ []

abbrev pub keys_around : ℕ → ℕ → List Key
keys_around x y = column_around (x - 1) y ++ (column_around x y ++ column_around (x + 1) y)

-- `findLidarBuilding(lon, lat)`
unfoldable pub find_lidar_building : Pt → Index → Option Building
unfolding closest_under
find_lidar_building p index =
    (closest_under p index (keys_around (cell_no p.0) (cell_no p.1)) (limit_2, none)).1
