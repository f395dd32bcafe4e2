-- ===== src/Cadastre/Rows.antt =====
-- The answer of `/api/viewport` for a cell. An empty text is an absent or empty field.
use siedler_sterreich.Prelude.{ℕ, String, Bool, List, Option}
use siedler_sterreich.Landuse.Summary.{Summary}
use siedler_sterreich.Landuse.Water.{Frac, Observed}
use siedler_sterreich.Geometry.{Geometry, LonLat}

-- A parcel's properties. `none` is a key that the row does not have.
pub record Props : Type 0 where
  pub complete : Option Bool
  pub area_sqm : Option ℕ
  pub kg_code : Option String
  pub ez : Option String
  pub ph : Option String
  pub ezh : Option String
  pub landuse : Option Summary
  pub landuse_summary : Option Summary
  pub position : Option LonLat
  pub elev_m : Option ℕ
  pub dom_terrain : Option String
  pub fracs : Option (List (String × Frac))
  pub tree_frac : Option Frac
  pub ne : Option Observed

pub record ParcelRow : Type 0 where
  pub parcel_id : String
  pub geometry : Option Geometry
  pub props : Props

pub record FootprintRow : Type 0 where
  pub footprint_id : String
  pub geometry : Option Geometry

-- `code` and `ns` name the use; `area_sqm` is part of the dedup key.
pub record LanduseRow : Type 0 where
  pub code : String
  pub ns : String
  pub area_sqm : ℕ
  pub geometry : Option Geometry

pub record KgRow : Type 0 where
  pub kg_code : String
  pub kg_name : String
  pub gemeinde_name : String
  pub gemeinde_code : String
  pub enhanced : Bool

pub record NeNote : Type 0 where
  pub ready : Bool
  pub epoch : String

pub record Answer : Type 0 where
  pub error : Bool
  pub down : Bool
  pub retry_after_s : Option ℕ
  pub notice : String
  pub ne : Option NeNote
  pub ready_false : Bool
  pub pending : Bool
  pub truncated : Bool
  pub xcache : String
  pub kgs : List KgRow
  pub parcels : Option (List ParcelRow)
  pub footprints : List FootprintRow
  pub landuse : List LanduseRow

-- What `await GET(…)` gives: it throws, or it returns nothing or an object.
pub data Reply : Type 0 where
  throws nothing : Reply
  got : Answer → Reply
