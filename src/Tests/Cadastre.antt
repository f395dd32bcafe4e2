-- ===== src/Tests/Cadastre.antt =====
-- An answer with two parcels, one of them twice, for a cell of an empty store.
use siedler_sterreich.Prelude.{ℕ, String, Bool, true, false, [], ◌∷◌, none, some, ◌≡◌, refl, has}
use siedler_sterreich.Geometry.{Geometry, polygon}
use siedler_sterreich.Cadastre.Rows.{Answer, ParcelRow, Props, got}
use siedler_sterreich.Cadastre.Store.{Store, Feature, ids, poly_by_id}
use siedler_sterreich.Cadastre.Load.{load_viewport_geometry}
use siedler_sterreich.Cadastre.Merge.Unique.{IsMerged}
use siedler_sterreich.Cadastre.Merge.Upgrade.{NoWorse}
use siedler_sterreich.Cadastre.Load.Upgrade.{load_viewport_geometry-NoWorse}
use siedler_sterreich.Cadastre.Load.Laws.{
  load_viewport_geometry-IsMerged, load_viewport_geometry-taken,
}

abbrev square : Geometry
square = polygon (((1, 1) ∷ (5, 1) ∷ (5, 5) ∷ (1, 5) ∷ []) ∷ [])

abbrev props : Bool → ℕ → Props
props complete area = record {
  complete = some complete;
  area_sqm = some area;
  kg_code = some "01004";
  ez = none;
  ph = some "a1";
  ezh = none;
  landuse = none;
  landuse_summary = none;
  position = none;
  elev_m = some 180;
  dom_terrain = none;
  fracs = none;
  tree_frac = none;
  ne = none;
}

abbrev row : String → Bool → ℕ → ParcelRow
row id complete area = record {
  parcel_id = id;
  geometry = some square;
  props = props complete area;
}

abbrev answer : Bool → Answer
answer truncated = record {
  error = false;
  down = false;
  retry_after_s = none;
  notice = "";
  ne = none;
  ready_false = false;
  pending = false;
  truncated = truncated;
  xcache = "HIT";
  kgs = [];
  parcels = some (row "p1" false 100 ∷ row "p2" true 50 ∷ row "p1" true 120 ∷ []);
  footprints = [];
  landuse = [];
}

abbrev pub empty_store : Store
empty_store = record {
  vp_tiles = [];
  cell_state = [];
  busy = 0;
  notice = "";
  ne_cells = 0;
  ne_epoch = "";
  pending_cell = "";
  poly_ids = [];
  parcel_polys = [];
  parcels = [];
  pid_by_hash = [];
  ez_by_hash = [];
  kgs_loaded = [];
  kg_names = [];
  kg_name_req = [];
  terrain_kgs = [];
  terrain_parcels = [];
  stale_scenes = [];
  fp_ids = [];
  building_footprints = [];
  lu_ids = [];
  landuse_polys = [];
  lidar_gen = 0;
  base_gen = 0;
  rows = record { claimed = []; offers = []; harvest_states = [] };
}

pub empty_store-IsMerged : IsMerged empty_store
unfolding ids
empty_store-IsMerged = record { in_step = refl; unique = tt }

abbrev loaded : Bool → Store
loaded truncated = (load_viewport_geometry false "w" (got (answer truncated)) empty_store).0

load_viewport_geometry-IsMerged_example : IsMerged (loaded false)
load_viewport_geometry-IsMerged_example =
    load_viewport_geometry-IsMerged false "w" (got (answer false)) empty_store empty_store-IsMerged

load_viewport_geometry-taken_example : has "w" (loaded true).vp_tiles ≡ false
unfolding load_viewport_geometry
load_viewport_geometry-taken_example =
    load_viewport_geometry-taken false "w" (got (answer true)) empty_store "w" empty_store-IsMerged

abbrev first_copy : Feature
first_copy = record { parcel_id = "p1"; props = props false 100; geometry = square }

abbrev neighbour_store : Store
neighbour_store = record empty_store { poly_ids = "p1" ∷ []; parcel_polys = first_copy ∷ [] }

first_copy_loaded : poly_by_id "p1" neighbour_store.parcel_polys ≡ some first_copy
unfolding poly_by_id
first_copy_loaded = refl

load_viewport_geometry-NoWorse_example :
    (new : Feature) × (poly_by_id "p1"
        (load_viewport_geometry true "w" (got (answer true)) neighbour_store).0.parcel_polys
      ≡ some new)
    × NoWorse first_copy.props new.props
load_viewport_geometry-NoWorse_example =
    load_viewport_geometry-NoWorse true "w" (got (answer true)) neighbour_store "p1" first_copy
      first_copy_loaded
