-- ===== src/Cadastre/Surroundings.antt =====
-- The loops of `loadViewportGeometry` over the footprints, land-use areas and communities of an answer.
use siedler_sterreich.Prelude.{
  ℕ, ◌+◌, Bool, false, not, ◌&&◌, ◌||◌, List, [], ◌∷◌, ◌++◌, Option, none, some, str_eq, has, add,
  insert, ◌==◌, if◌then◌else◌,
}
use siedler_sterreich.Geometry.{Ring, Geometry, is_area_geom, biggest_ring}
use siedler_sterreich.Claims.{is_text}
use siedler_sterreich.Cadastre.Rows.{FootprintRow, LanduseRow, KgRow}
use siedler_sterreich.Cadastre.Store.{Store, LuKey, LandusePoly}

-- The loop over `data.footprints`.
unfoldable pub merge_footprint : FootprintRow → Store → Store
unfolding has
merge_footprint it g = elim it.geometry [
  | none ↦ g
  | some shape ↦
      if is_text it.footprint_id && not (has it.footprint_id g.fp_ids)
      then record g {
        fp_ids = g.fp_ids ++ it.footprint_id ∷ [];
        building_footprints = g.building_footprints ++ (it.footprint_id, shape) ∷ [];
      }
      else g
]

unfoldable pub merge_footprints : List FootprintRow → Store → Store
unfolding merge_footprint
merge_footprints [] g = g
merge_footprints (it ∷ rest) g = merge_footprints rest (merge_footprint it g)

unfoldable pub lu_key_eq : LuKey → LuKey → Bool
lu_key_eq (c, a, p) (d, b, q) = str_eq c d && a == b && p.0 == q.0 && p.1 == q.1

unfoldable pub has_key : LuKey → List LuKey → Bool
unfolding lu_key_eq
has_key k [] = false
has_key k (j ∷ s) = lu_key_eq j k || has_key k s

-- The dedup key of a row: its code, its area and the first corner of its biggest ring.
unfoldable pub key_of : LanduseRow → Option LuKey
unfolding is_area_geom biggest_ring
key_of it = of_geometry it.geometry
  where
    of_ring : Option Ring → Option LuKey
    of_ring (some (p ∷ r)) = some (it.code, it.area_sqm, p)
    of_ring _ = none

    of_geometry : Option Geometry → Option LuKey
    of_geometry none = none
    of_geometry (some g) = if is_area_geom g then of_ring (biggest_ring g) else none

-- One round of the loop over `data.landuse`, with its count.
unfoldable pub merge_landuse : LanduseRow → Store × ℕ → Store × ℕ
unfolding key_of has_key
merge_landuse it (g, n) = elim (key_of it) [
  | none ↦ (g, n)
  | some key ↦ if has_key key g.lu_ids then (g, n) else (
    record g {
      lu_ids = g.lu_ids ++ key ∷ [];
      landuse_polys = add_poly it.geometry g.landuse_polys;
    },
    n + 1,
  )
]
  where
    add_poly : Option Geometry → List LandusePoly → List LandusePoly
    add_poly none m = m
    add_poly (some shape) m =
        m
        ++ (record { landuse_code = if is_text it.code then it.code else it.ns; geometry = shape })
          ∷ []

unfoldable pub merge_landuses : List LanduseRow → Store × ℕ → Store × ℕ
unfolding merge_landuse
merge_landuses [] s = s
merge_landuses (it ∷ rest) s = merge_landuses rest (merge_landuse it s)

-- The loop over `data.kgs`.
unfoldable pub merge_kg : KgRow → Store → Store
unfolding add insert
merge_kg k g =
    if is_text k.kg_code
    then record g {
      kgs_loaded = add k.kg_code g.kgs_loaded;
      kg_names =
          if is_text k.kg_name
          then insert k.kg_code
              (record {
                name = k.kg_name;
                gemeinde = k.gemeinde_name;
                gemeinde_code = k.gemeinde_code;
              })
              g.kg_names
          else g.kg_names;
      terrain_kgs = if k.enhanced then add k.kg_code g.terrain_kgs else g.terrain_kgs;
    }
    else g

unfoldable pub merge_kgs : List KgRow → Store → Store
unfolding merge_kg
merge_kgs [] g = g
merge_kgs (k ∷ rest) g = merge_kgs rest (merge_kg k g)
