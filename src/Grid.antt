-- ===== src/Grid.antt =====
-- srv/static/game.js: the cells of the map's grid, those that a view needs, and the pool that loads them.
-- A coordinate counts steps of 10⁻⁹ degrees, so that the source's `eps` is one step.

pub mod Nearest
pub mod Pool
pub mod Opening
use siedler_sterreich.Prelude.{
  ℕ, zero, suc, ◌+◌, ◌-◌, ◌*◌, ◌/◌, min, max, Bool, true, false, List, [], ◌∷◌, ◌++◌, Option, none,
  some, ltb, ◌==◌, take, keep_if, any, if◌then◌else◌,
}
use siedler_sterreich.Geometry.{Ring}
use siedler_sterreich.Geometry.EvenOdd.{pip_rings}

-- `CELL_DEG`
abbrev pub cell_deg : ℕ
cell_deg = 20000000

pub record Cell : Type 0 where
  pub i : ℕ
  pub j : ℕ
  pub w : ℕ
  pub s : ℕ
  pub e : ℕ
  pub n : ℕ

pub record Box : Type 0 where
  pub w : ℕ
  pub s : ℕ
  pub e : ℕ
  pub n : ℕ

pub record Camera : Type 0 where
  pub lon : ℕ
  pub lat : ℕ

-- `cellBox`; its key is `i:j`.
unfoldable pub cell_box : ℕ → ℕ → Cell
cell_box i j = record {
  i = i;
  j = j;
  w = i * cell_deg;
  s = j * cell_deg;
  e = (i + 1) * cell_deg;
  n = (j + 1) * cell_deg;
}

-- `cellOf`
unfoldable pub cell_of : ℕ → ℕ → Cell
unfolding cell_box
cell_of lon lat = cell_box (lon / cell_deg) (lat / cell_deg)

abbrev pub gap : ℕ → ℕ → ℕ
gap a b = max a b - min a b

-- The square of the distance of a cell's centre from the camera, times (18 · 2)²: `_d` divides the latitude by 0.72.
abbrev pub distance : Camera → Cell → ℕ
distance cam c =
    let dx = gap (c.w + c.e) (cam.lon * 2) in
    let dy = gap (c.s + c.n) (cam.lat * 2) in 18 * dx * (18 * dx) + 25 * dy * (25 * dy)

-- The numbers from `a` on, `n` of them.
unfoldable pub numbers : ℕ → ℕ → List ℕ
numbers zero a = []
numbers (suc n) a = a ∷ numbers n (suc a)

unfoldable pub column : ℕ → List ℕ → List Cell
unfolding cell_box
column i [] = []
column i (j ∷ js) = cell_box i j ∷ column i js

unfoldable pub columns : List ℕ → List ℕ → List Cell
unfolding column
columns [] js = []
columns (i ∷ is) js = column i js ++ columns is js

-- The stable sort by `_d`.
unfoldable pub insert_by_distance : Camera → Cell → List Cell → List Cell
insert_by_distance cam c [] = c ∷ []
insert_by_distance cam c (d ∷ ds) =
    if ltb (distance cam d) (distance cam c) then d ∷ insert_by_distance cam c ds else c ∷ d ∷ ds

unfoldable pub sort_by_distance : Camera → List Cell → List Cell
unfolding insert_by_distance
sort_by_distance cam [] = []
sort_by_distance cam (c ∷ cs) = insert_by_distance cam c (sort_by_distance cam cs)

-- The cells that a box meets.
unfoldable pub cells_in : Box → List Cell
unfolding cell_of numbers columns
cells_in b =
    let a = cell_of (b.w + 1) (b.s + 1) in
    let z = cell_of (b.e - 1) (b.n - 1) in
    columns (numbers (z.i + 1 - a.i) a.i) (numbers (z.j + 1 - a.j) a.j)

-- `gridTiles(b, maxTiles)`
unfoldable pub grid_tiles : Camera → Box → ℕ → List Cell
unfolding cells_in sort_by_distance
grid_tiles cam b max_tiles =
    take (if max_tiles == 0 then 12 else max_tiles) (sort_by_distance cam (cells_in b))

-- `insideAustria`; a border that is not there holds everything.
unfoldable pub inside_austria : Option (List Ring) → ℕ → ℕ → Bool
unfolding pip_rings
inside_austria none lon lat = true
inside_austria (some border) lon lat = pip_rings (lon, lat) border

abbrev pub meets_austria : Option (List Ring) → Cell → Bool
meets_austria border c =
    any (λ (p : ℕ × ℕ). inside_austria border p.0 p.1)
      ((c.w, c.s) ∷ (c.e, c.s) ∷ (c.w, c.n) ∷ (c.e, c.n) ∷ ((c.w + c.e) / 2, (c.s + c.n) / 2) ∷ [])

-- `tilesInAustria`
unfoldable pub tiles_in_austria : Option (List Ring) → List Cell → List Cell
unfolding inside_austria
tiles_in_austria none tiles = tiles
tiles_in_austria (some border) tiles = keep_if (meets_austria (some border)) tiles

-- The view with a quarter more on each side.
abbrev pub padded : Box → Box
padded b = record {
  w = b.w - (b.e - b.w) / 4;
  e = b.e + (b.e - b.w) / 4;
  s = b.s - (b.n - b.s) / 4;
  n = b.n + (b.n - b.s) / 4;
}

-- The cells whose layers `fetchKGPolygons` asks for, and those that it gives to the pool.
unfoldable pub cells_to_show : Option (List Ring) → Camera → Bool → Box → List Cell
unfolding grid_tiles tiles_in_austria
cells_to_show border cam flowing view =
    tiles_in_austria border (grid_tiles cam (padded view) (if flowing then 4 else 12))

unfoldable pub cells_to_load : Option (List Ring) → Camera → Bool → Box → List Cell
unfolding cells_to_show
cells_to_load border cam flowing view =
    let cells = cells_to_show border cam flowing view in if flowing then take 2 cells else cells
