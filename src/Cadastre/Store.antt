-- ===== src/Cadastre/Store.antt =====
-- The part of `G` that cells fill.
use siedler_sterreich.Prelude.{ℕ, String, List, [], ◌∷◌, Option, none, some, str_eq, if◌then◌else◌}
use siedler_sterreich.Landuse.Water.{Frac, Observed}
use siedler_sterreich.Geometry.{Pt, Geometry, LonLat}
use siedler_sterreich.Claims.{Rows, Hashes}
use siedler_sterreich.Cadastre.Rows.{Props}

-- A polygon feature; `properties` is one object, which the point feature of the parcel shares.
pub record Feature : Type 0 where
  pub parcel_id : String
  pub props : Props
  pub geometry : Geometry

-- `unnoted` is an entry without a state.
pub data CellStatus : Type 0 where
  unnoted loading pending ready down error gaveup : CellStatus

-- An entry of `G.cellState`, for what later code reads of it.
pub record CellNote : Type 0 where
  pub status : CellStatus
  pub xcache : String
  pub parcels : ℕ
  pub tries : ℕ

-- A dedup key of a landuse polygon: code, area and first corner.
abbrev pub LuKey : Type 0
LuKey = String × ℕ × Pt

pub record LandusePoly : Type 0 where
  pub landuse_code : String
  pub geometry : Geometry

pub record KgName : Type 0 where
  pub name : String
  pub gemeinde : String
  pub gemeinde_code : String

-- An entry of `G.terrainParcels`.
pub record Terrain : Type 0 where
  pub elev : Option ℕ
  pub dom_terrain : Option String
  pub forest_frac : Option Frac
  pub fracs : Option (List (String × Frac))
  pub kg : Option String
  pub ne : Option Observed

pub record Store : Type 0 where
  pub vp_tiles : List String
  pub cell_state : List (String × CellNote)
  pub busy : ℕ
  pub notice : String
  pub ne_cells : ℕ
  pub ne_epoch : String
  -- the cell of the last `pendingNotice`
  pub pending_cell : String
  pub poly_ids : List String
  pub parcel_polys : List Feature
  -- the point features, by the parcel whose properties they share
  pub parcels : List (String × LonLat)
  pub pid_by_hash : List (String × String)
  pub ez_by_hash : List (String × String)
  pub kgs_loaded : List String
  pub kg_names : List (String × KgName)
  -- `G._kgNameReq`: KG names asked for
  pub kg_name_req : List String
  pub terrain_kgs : List String
  pub terrain_parcels : List (String × Terrain)
  -- parcels whose nature scene and apex trees are to be built anew after an upgrade
  pub stale_scenes : List String
  pub fp_ids : List String
  pub building_footprints : List (String × Geometry)
  pub lu_ids : List LuKey
  pub landuse_polys : List LandusePoly
  pub lidar_gen : ℕ
  pub base_gen : ℕ
  pub rows : Rows

abbrev pub hashes_of : Store → Hashes
hashes_of g = record { pid_by_hash = g.pid_by_hash; ez_by_hash = g.ez_by_hash }

-- `polyById`: the cached index finds the feature with the id. Ids are unique (`IsMerged`), so the
-- first one is the one.
unfoldable pub poly_by_id : String → List Feature → Option Feature
poly_by_id id [] = none
poly_by_id id (f ∷ fs) = if str_eq f.parcel_id id then some f else poly_by_id id fs

-- The feature with the id is mutated in place.
unfoldable pub set_poly : String → Feature → List Feature → List Feature
set_poly id g [] = []
set_poly id g (f ∷ fs) = if str_eq f.parcel_id id then g ∷ fs else f ∷ set_poly id g fs

unfoldable pub ids : List Feature → List String
ids [] = []
ids (f ∷ fs) = f.parcel_id ∷ ids fs
