-- ===== src/Geometry.antt =====
-- srv/static/game.js: rings, parts and points. Coordinates are counts of a small fixed step of a
-- degree, measured from a south-western corner, so they are natural numbers.
pub mod EvenOdd
pub mod Biggest
use siedler_sterreich.Prelude.{
  ℕ, zero, suc, ◌+◌, ◌-◌, ◌*◌, Bool, true, false, not, List, [], ◌∷◌, ◌++◌, Option, none, some, ltb,
  leb, ◌==◌, length, if◌then◌else◌,
}

abbrev pub Pt : Type 0
Pt = ℕ × ℕ

abbrev pub Ring : Type 0
Ring = List Pt

-- A GeoJSON geometry. `other` holds the coordinates of a point, if it is one.
pub data Geometry : Type 0 where
  polygon : List Ring → Geometry
  multi_polygon : List (List Ring) → Geometry
  other : Option Pt → Geometry

-- The rings of all parts.
unfoldable pub part_rings : List (List Ring) → List Ring
part_rings [] = []
part_rings (p ∷ ps) = p ++ part_rings ps

-- `geomAllRings`
unfoldable pub geom_all_rings : Geometry → List Ring
unfolding part_rings
geom_all_rings (polygon rings) = rings
geom_all_rings (multi_polygon parts) = part_rings parts
geom_all_rings (other c) = []

-- `isAreaGeom`
unfoldable pub is_area_geom : Geometry → Bool
is_area_geom (polygon rings) = true
is_area_geom (multi_polygon parts) = true
is_area_geom (other c) = false

-- An edge of a ring: from a point to the next one, the last to the first.
abbrev pub Edge : Type 0
Edge = Pt × Pt

unfoldable pub edges_from : Pt → Pt → Ring → List Edge
edges_from start p [] = (p, start) ∷ []
edges_from start p (q ∷ r) = (p, q) ∷ edges_from start q r

unfoldable pub edges : Ring → List Edge
unfolding edges_from
edges [] = []
edges (p ∷ r) = edges_from p p r

-- The positive and the negative terms of `ringArea2`.
unfoldable pub forward_sum : List Edge → ℕ
forward_sum [] = 0
forward_sum ((p, q) ∷ es) = p.0 * q.1 + forward_sum es

unfoldable pub backward_sum : List Edge → ℕ
backward_sum [] = 0
backward_sum ((p, q) ∷ es) = q.0 * p.1 + backward_sum es

-- `Math.abs(ringArea2(r))`, doubled: one of the two differences is 0.
unfoldable pub double_area : Ring → ℕ
unfolding edges forward_sum backward_sum
double_area r =
    forward_sum (edges r)
    - backward_sum (edges r)
    + (backward_sum (edges r) - forward_sum (edges r))

-- One round of `biggestRing`; `none` stands for `ba = -1`.
unfoldable pub bigger : Option Ring → Ring → Option Ring
unfolding double_area
bigger best r = if ltb (length r) 3 then best else against best
  where
    against : Option Ring → Option Ring
    against none = some r
    against (some b) = if ltb (double_area b) (double_area r) then some r else some b

unfoldable pub biggest_from : Option Ring → List Ring → Option Ring
unfolding bigger
biggest_from best [] = best
biggest_from best (r ∷ rs) = biggest_from (bigger best r) rs

-- `biggestRing`
unfoldable pub biggest_ring : Geometry → Option Ring
unfolding biggest_from geom_all_rings
biggest_ring g = biggest_from none (geom_all_rings g)

-- A point whose coordinates are `lon / parts` and `lat / parts`.
pub record LonLat : Type 0 where
  pub lon : ℕ
  pub lat : ℕ
  pub parts : ℕ

unfoldable pub sum_lon : Ring → ℕ
sum_lon [] = 0
sum_lon (p ∷ r) = p.0 + sum_lon r

unfoldable pub sum_lat : Ring → ℕ
sum_lat [] = 0
sum_lat (p ∷ r) = p.1 + sum_lat r

-- `centroidOf`
unfoldable pub centroid_of : Ring → LonLat
unfolding sum_lon sum_lat
centroid_of r = record { lon = sum_lon r; lat = sum_lat r; parts = length r }

abbrev pub at_point : Pt → LonLat
at_point p = record { lon = p.0; lat = p.1; parts = 1 }

-- `featureLonLat`, from the explicit position, the biggest ring, or the point itself; `none` is
-- `[null, null]`.
unfoldable pub feature_lon_lat : Option LonLat → Geometry → Option LonLat
unfolding biggest_ring centroid_of
feature_lon_lat (some p) g = some p
feature_lon_lat none g = elim (biggest_ring g) [ some r ↦ some (centroid_of r) | none ↦ raw g ]
  where
    raw : Geometry → Option LonLat
    raw (other (some p)) = some (at_point p)
    raw _ = none
