-- ===== src/Parcels.antt =====
-- srv/static/game.js: `geoBounds`, the grid of the loaded parcels (`parcelGrid`), and the parcel at a point (`parcelAt`).
-- A coordinate counts steps of 10⁻⁹ degrees.
pub mod Search
pub mod Schlag
use siedler_sterreich.Prelude.{
  ℕ, zero, suc, ◌+◌, ◌-◌, ◌*◌, ◌/◌, min, max, String, Bool, true, false, not, ◌&&◌, List, [], ◌∷◌,
  ◌++◌, Option, none, some, leb, ltb, ◌==◌, find, length, if◌then◌else◌,
}
use siedler_sterreich.Geometry.{Pt, Ring, Geometry, polygon, multi_polygon, other, part_rings}
use siedler_sterreich.Geometry.EvenOdd.{pip_geom}

pub record Bounds : Type 0 where
  pub w : ℕ
  pub e : ℕ
  pub s : ℕ
  pub n : ℕ

-- One point of `walk`; `none` stands for the bounds of nothing, which are infinite.
abbrev pub widen : Pt → Option Bounds → Option Bounds
widen p none = some (record { w = p.0; e = p.0; s = p.1; n = p.1 })
widen p (some b) =
    some (record { w = min b.w p.0; e = max b.e p.0; s = min b.s p.1; n = max b.n p.1 })

unfoldable pub ring_bounds : Option Bounds → Ring → Option Bounds
ring_bounds b [] = b
ring_bounds b (p ∷ r) = ring_bounds (widen p b) r

unfoldable pub rings_bounds : Option Bounds → List Ring → Option Bounds
unfolding ring_bounds
rings_bounds b [] = b
rings_bounds b (r ∷ rs) = rings_bounds (ring_bounds b r) rs

-- `geoBounds`
unfoldable pub geo_bounds : Geometry → Option Bounds
unfolding rings_bounds part_rings
geo_bounds (polygon rings) = rings_bounds none rings
geo_bounds (multi_polygon parts) = rings_bounds none (part_rings parts)
geo_bounds (other none) = none
geo_bounds (other (some p)) = widen p none

pub record Feature : Type 0 where
  pub parcel_id : String
  pub geometry : Geometry

-- `PGRID`
abbrev pub pgrid : ℕ
pgrid = 2000000

abbrev pub Key : Type 0
Key = ℕ × ℕ

abbrev pub same_key : Key → Key → Bool
same_key k j = k.0 == j.0 && k.1 == j.1

abbrev pub Cells : Type 0
Cells = List (Key × List Feature)

-- `g.map.get(key)`, and a new feature under a key.
unfoldable pub cell_at : Key → Cells → List Feature
cell_at key [] = []
cell_at key (entry ∷ rest) = if same_key entry.0 key then entry.1 else cell_at key rest

unfoldable pub push_at : Feature → Key → Cells → Cells
push_at f key [] = (key, f ∷ []) ∷ []
push_at f key (entry ∷ rest) =
    if same_key entry.0 key then (key, entry.1 ++ f ∷ []) ∷ rest else entry ∷ push_at f key rest

-- The keys from a column and a row on.
unfoldable pub column_keys : ℕ → ℕ → ℕ → List Key
column_keys x zero y = []
column_keys x (suc m) y = (x, y) ∷ column_keys x m (suc y)

unfoldable pub keys_from : ℕ → ℕ → ℕ → ℕ → List Key
unfolding column_keys
keys_from zero x m y = []
keys_from (suc n) x m y = column_keys x m y ++ keys_from n (suc x) m y

unfoldable pub push_all : Feature → List Key → Cells → Cells
unfolding push_at
push_all f [] cells = cells
push_all f (key ∷ keys) cells = push_all f keys (push_at f key cells)

-- The numbers of columns and rows that bounds meet.
abbrev pub columns_of : Bounds → ℕ
columns_of b = b.e / pgrid + 1 - b.w / pgrid

abbrev pub rows_of : Bounds → ℕ
rows_of b = b.n / pgrid + 1 - b.s / pgrid

abbrev pub is_giant : Bounds → Bool
is_giant b = ltb 2500 (columns_of b * rows_of b)

abbrev pub keys_of : Option Bounds → List Key
keys_of none = []
keys_of (some b) =
    if is_giant b then [] else keys_from (columns_of b) (b.w / pgrid) (rows_of b) (b.s / pgrid)

unfoldable pub add_features : List Feature → Cells → Cells
unfolding push_all keys_from geo_bounds
add_features [] cells = cells
add_features (f ∷ fs) cells = add_features fs (push_all f (keys_of (geo_bounds f.geometry)) cells)

-- `G._pgrid`
pub record Grid : Type 0 where
  pub cells : Cells
  pub n : ℕ

abbrev pub drop : ℕ → List Feature → List Feature
drop zero fs = fs
drop (suc n) [] = []
drop (suc n) (f ∷ fs) = drop n fs

-- `parcelGrid`: the features that have come since the last call join.
unfoldable pub parcel_grid : List Feature → Grid → Grid
unfolding add_features
parcel_grid polys g = record { cells = add_features (drop g.n polys) g.cells; n = length polys }

abbrev pub in_bounds : Pt → Option Bounds → Bool
in_bounds p none = false
in_bounds p (some b) = leb b.w p.0 && leb p.0 b.e && leb b.s p.1 && leb p.1 b.n

unfoldable pub holds : Pt → Feature → Bool
unfolding geo_bounds pip_geom
holds p f = in_bounds p (geo_bounds f.geometry) && pip_geom p f.geometry

-- `parcelAt(lon, lat)`, after `parcelGrid`.
unfoldable pub parcel_at : Pt → Grid → Option Feature
unfolding cell_at holds
parcel_at p g = find (holds p) (cell_at (p.0 / pgrid, p.1 / pgrid) g.cells)
