-- ===== src/Cadastre/Merge.antt =====
-- The loop of `loadViewportGeometry` over the parcels of an answer.
pub mod Frame
pub mod Unique
pub mod Upgrade
use siedler_sterreich.Prelude.{
  ℕ, zero, suc, ◌+◌, ◌*◌, String, Bool, true, false, not, ◌&&◌, ◌||◌, List, [], ◌∷◌, ◌++◌, Option,
  none, some, is_some, or_else, str_eq, lookup, has, add, insert, ltb, ◌==◌, if◌then◌else◌,
}
use siedler_sterreich.Geometry.{
  Pt, Ring, Geometry, LonLat, is_area_geom, biggest_ring, feature_lon_lat, at_point,
}
use siedler_sterreich.Landuse.Summary.{Summary}
use siedler_sterreich.Claims.{is_text}
use siedler_sterreich.Cadastre.Rows.{Props, ParcelRow, FootprintRow, LanduseRow, KgRow}
use siedler_sterreich.Cadastre.Store.{
  Store, Feature, Terrain, KgName, LuKey, LandusePoly, poly_by_id, set_poly,
}

abbrev pub is_true : Option Bool → Bool
is_true o = or_else o false

abbrev pub text_of : Option String → String
text_of o = or_else o ""

-- `old && ((it.complete && !old.complete) || (same && it.area > old.area * 1.001))`
pub better : Props → Props → Bool
better new old =
    (is_true new.complete && not (is_true old.complete))
    || ((if is_true new.complete then is_true old.complete else not (is_true old.complete))
        && ltb (1001 * or_else old.area_sqm 0) (1000 * or_else new.area_sqm 0))

-- The newer key, if the row has it.
abbrev pub newer {ℓ} : {A : Type ℓ} → Option A → Option A → Option A
newer (some a) old = some a
newer none old = old

-- `Object.assign(old.properties, np)`, and the summary from `landuse` where the row has none.
pub assign : Props → Props → Props
assign old np = record {
  complete = newer np.complete old.complete;
  area_sqm = newer np.area_sqm old.area_sqm;
  kg_code = newer np.kg_code old.kg_code;
  ez = newer np.ez old.ez;
  ph = newer np.ph old.ph;
  ezh = newer np.ezh old.ezh;
  landuse = newer np.landuse old.landuse;
  landuse_summary = newer np.landuse_summary (newer np.landuse old.landuse_summary);
  position = newer np.position old.position;
  elev_m = newer np.elev_m old.elev_m;
  dom_terrain = newer np.dom_terrain old.dom_terrain;
  fracs = newer np.fracs old.fracs;
  tree_frac = newer np.tree_frac old.tree_frac;
  ne = newer np.ne old.ne;
}

-- The store with the counts `addedP` and `upgradedP`, and the features that were new.
pub record Progress : Type 0 where
  pub store : Store
  pub added : ℕ
  pub upgraded : ℕ

-- A parcel that is loaded already: the complete copy wins, then the larger area.
pub merge_known : ParcelRow → Geometry → Feature → Progress → Progress
unfolding set_poly
merge_known it geometry old s =
    if better it.props old.props
    then record {
      store = record g {
        parcel_polys =
            set_poly it.parcel_id
              (record {
                parcel_id = old.parcel_id;
                props = assign old.props it.props;
                geometry = geometry;
              })
              g.parcel_polys;
        stale_scenes = g.stale_scenes ++ it.parcel_id ∷ [];
      };
      added = s.added;
      upgraded = s.upgraded + 1;
    }
    else s
  where
    open s use {store as g}

abbrev pub insert_if : Bool → String → String → List (String × String) → List (String × String)
insert_if b k v m = if b then insert k v m else m

-- `terrainParcels[id] = {…}` for a row that carries terrain.
pub add_terrain : String → Props → List (String × Terrain) → List (String × Terrain)
add_terrain id p m =
    if is_some p.elev_m || is_text (text_of p.dom_terrain) || is_some p.fracs
    then insert id
        (record {
          elev = p.elev_m;
          dom_terrain = p.dom_terrain;
          forest_frac = p.tree_frac;
          fracs = p.fracs;
          kg = p.kg_code;
          ne = p.ne;
        })
        m
    else m

-- `addPointParcel`: a position that is missing is written into the shared properties.
pub place : Geometry → Props → Props
unfolding feature_lon_lat
place g p = record p { position = feature_lon_lat p.position g }

pub add_point : String → Option LonLat → List (String × LonLat) → List (String × LonLat)
add_point id none m = m
add_point id (some at) m = m ++ (id, at) ∷ []

-- `ensureKGName`: a name that is not known is asked for once.
pub ensure_kg_name : String → Store → Store
unfolding has lookup
ensure_kg_name kg g =
    if is_some (lookup kg g.kg_names) || has kg g.kg_name_req
    then g
    else record g { kg_name_req = g.kg_name_req ++ kg ∷ [] }

pub note_kg : String → Store → Store
unfolding add ensure_kg_name
note_kg kg g =
    if is_text kg then ensure_kg_name kg (record g { kgs_loaded = add kg g.kgs_loaded }) else g

-- A new parcel is listed, with its summary and position filled in, and its hashes are learnt.
pub new_props : Geometry → Props → Props
unfolding place
new_props geometry row =
    place geometry (record row { landuse_summary = newer row.landuse_summary row.landuse })

pub list_new : ParcelRow → Geometry → Store → Store
unfolding add insert new_props add_point
list_new it geometry g =
    let id = it.parcel_id in
    let row = it.props in
    let props = new_props geometry row in
    record g {
      poly_ids = add id g.poly_ids;
      parcel_polys =
          g.parcel_polys ++ (record { parcel_id = id; props = props; geometry = geometry }) ∷ [];
      parcels = add_point id props.position g.parcels;
      pid_by_hash = insert_if (is_text (text_of row.ph)) (text_of row.ph) id g.pid_by_hash;
      ez_by_hash =
          insert_if (is_text (text_of row.ezh) && is_text (text_of row.ez)) (text_of row.ezh)
            (text_of row.ez) g.ez_by_hash;
    }

-- A parcel that is new.
pub merge_new : ParcelRow → Geometry → Progress → Progress
merge_new it geometry s =
    let named = note_kg (text_of it.props.kg_code) (list_new it geometry s.store) in
    record {
      store = record named {
        terrain_parcels = add_terrain it.parcel_id it.props named.terrain_parcels;
      };
      added = s.added + 1;
      upgraded = s.upgraded;
    }

-- One round of the loop over `data.parcels`.
pub merge_parcel : ParcelRow → Progress → Progress
unfolding has merge_known merge_new poly_by_id
merge_parcel it s =
    if is_text it.parcel_id then elim it.geometry [ none ↦ s | some g ↦ merge_at g ] else s
  where
    merge_at : Geometry → Progress
    merge_at g =
        if has it.parcel_id s.store.poly_ids
        then elim (poly_by_id it.parcel_id s.store.parcel_polys) [
          | none ↦ s
          | some old ↦ merge_known it g old s
        ]
        else merge_new it g s

pub merge_parcels : List ParcelRow → Progress → Progress
unfolding merge_parcel
merge_parcels [] s = s
merge_parcels (it ∷ rest) s = merge_parcels rest (merge_parcel it s)
