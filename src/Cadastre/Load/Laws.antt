-- ===== src/Cadastre/Load/Laws.antt =====
-- What `loadViewportGeometry` promises to the callers that pace it, for every reply.
use siedler_sterreich.Prelude.{
  ℕ, ◌+◌, String, Bool, false, not, ◌&&◌, ◌||◌, [], Option, none, some, is_some, ◌≡◌, refl, ◌∙◌, ap,
  arith, length, has, add, delete, has-add, has-delete, eq_iff, str_eq, or_else, if◌then◌else◌,
  if_split,
}
use siedler_sterreich.Cadastre.Rows.{Answer, NeNote, Reply, throws, nothing, got}
use siedler_sterreich.Cadastre.Store.{Store, CellStatus, down, error}
use siedler_sterreich.Cadastre.Merge.{Progress, merge_parcels}
use siedler_sterreich.Cadastre.Surroundings.{merge_footprints, merge_landuses, merge_kgs}
use siedler_sterreich.Cadastre.Merge.Frame.{
  Keeps, Keeps-trans, merge_kgs-Keeps, merge_footprints-Keeps, merge_landuses-Keeps,
  merge_parcels-vp_tiles,
}
use siedler_sterreich.Cadastre.Merge.Unique.{
  IsMerged, IsMerged-same, length-ids, merge_parcels-Grows,
}
use siedler_sterreich.Cadastre.Load.{
  Outcome, note, settle, set_attribution, note_ne, refresh, merge_answer, receive, start_load,
  load_viewport_geometry, unfinished, failed, release, vp_busy_down,
}

pub note-Keeps :
    (k : String) (st : CellStatus) (x : Option String) (n : Option ℕ) (g : Store)
    → Keeps g (note k st x n g)
unfolding note
note-Keeps k st x n g = record { vp_tiles = refl; poly_ids = refl; parcel_polys = refl }

pub announce-Keeps :
    (notice : String) (ne : Option NeNote) (g : Store)
    → Keeps g (note_ne ne (set_attribution notice g))
unfolding note_ne set_attribution
announce-Keeps notice ne g = ground arith

pub refresh-Keeps : (a b c : ℕ) (g : Store) → Keeps g (refresh a b c g)
unfolding refresh
refresh-Keeps a b c g = ground arith

-- `settle` touches the cells only.
pub record Settles (key : String) (d : Answer) (g h : Store) : Type 0 where
  pub poly_ids : h.poly_ids ≡ g.poly_ids
  pub parcel_polys : h.parcel_polys ≡ g.parcel_polys
  taken :
      (k : String)
      → has k h.vp_tiles
        ≡ (if str_eq key k && (unfinished d || d.truncated) then false else has k g.vp_tiles)

pub settle-Settles : (key : String) (d : Answer) (g : Store) → Settles key d g (settle key d g)
unfolding settle note
settle-Settles key d g = record {
  poly_ids = ground arith;
  parcel_polys = ground arith;
  taken =
      λ k. ground (arith, has-delete key k g.vp_tiles, has-delete key k (delete key g.vp_tiles));
}

-- What a call leaves behind, from the store `g` in which the cell `key` is taken.
record Leaves (key : String) (g : Store) (r : Store × Outcome) : Type 0 where
  merged : IsMerged r.0
  count : length r.0.poly_ids ≡ length g.poly_ids + r.1.added
  taken :
      (k : String)
      → has k r.0.vp_tiles
        ≡ (if str_eq key k && not (r.1.ready && not r.1.truncated) then false else has k g.vp_tiles)

merge_answer-Leaves :
    (key : String) (d : Answer) (g : Store) → IsMerged g → Leaves key g (merge_answer key d g)
unfolding merge_answer
merge_answer-Leaves key d g m =
    let told = note_ne d.ne (set_attribution d.notice g) in
    let a = announce-Keeps d.notice d.ne g in
    let b = settle-Settles key d told in
    let listed = merge_kgs d.kgs (settle key d told) in
    let c = merge_kgs-Keeps d.kgs (settle key d told) in
    let start : Progress = record { store = listed; added = 0; upgraded = 0 } in
    let rows = or_else d.parcels [] in
    let grown = merge_parcels-Grows rows start (
      IsMerged-same (c.poly_ids ∙ b.poly_ids ∙ a.poly_ids)
        (c.parcel_polys ∙ b.parcel_polys ∙ a.parcel_polys) m) in
    let end = merge_parcels rows start in
    let e = merge_footprints-Keeps d.footprints end.store in
    let f = merge_landuses-Keeps d.landuse (merge_footprints d.footprints end.store, 0) in
    let used = merge_landuses d.landuse (merge_footprints d.footprints end.store, 0) in
    let h = Keeps-trans (Keeps-trans e f) (refresh-Keeps end.added end.upgraded used.1 used.0) in
    record {
      merged = IsMerged-same h.poly_ids h.parcel_polys grown.merged;
      count = omega (
        arith,
        grown.count,
        ap length h.poly_ids,
        ap length (c.poly_ids ∙ b.poly_ids ∙ a.poly_ids),
      );
      taken = λ k.
          ap (has k) (h.vp_tiles ∙ merge_parcels-vp_tiles rows start ∙ c.vp_tiles)
          ∙ (b.taken k ∙ ground (arith, ap (has k) a.vp_tiles));
    }

-- A failed call drops the cell.
failed-Leaves :
    (key : String) (st : CellStatus) (x : Option String) (g : Store) (is_down : Bool)
    (retry : Option ℕ)
    → IsMerged g
    → Leaves key g (note key st x none (release key g), failed is_down retry)
unfolding note
failed-Leaves key st x g is_down retry m = record {
  merged = IsMerged-same refl refl m;
  count = omega arith;
  taken = λ k. ground (arith, has-delete key k g.vp_tiles);
}

receive-Leaves :
    (key : String) (reply : Reply) (g : Store) → IsMerged g → Leaves key g (receive key reply g)
unfolding receive
receive-Leaves key throws g m = failed-Leaves key error none g false none m
receive-Leaves key nothing g m = failed-Leaves key error (some "") g false none m
receive-Leaves key (got d) g m =
    if_split (Leaves key g) (d.error && not (is_some d.parcels))
      (λ _.
        failed-Leaves key (if d.down then down else error) (some d.xcache) g d.down d.retry_after_s
          m)
      (λ _. merge_answer-Leaves key d g m)

pub start_load-Keeps :
    (key : String) (g : Store)
    → ((vp_busy_down (start_load key g)).poly_ids ≡ g.poly_ids)
      × ((vp_busy_down (start_load key g)).parcel_polys ≡ g.parcel_polys)
      × ((vp_busy_down (start_load key g)).vp_tiles ≡ add key g.vp_tiles)
unfolding start_load note
start_load-Keeps key g = (refl, refl, refl)

-- A call that may skip a cell that is taken.
requested-Leaves :
    (key : String) (reply : Reply) (g : Store)
    → IsMerged g
    → Leaves key
        (vp_busy_down (start_load key g))
        (receive key reply (vp_busy_down (start_load key g)))
requested-Leaves key reply g m =
    let s = start_load-Keeps key g in
    receive-Leaves key reply (vp_busy_down (start_load key g)) (IsMerged-same s.0 s.1 m)

-- Whatever the reply is, a call leaves every parcel listed once: if `polyIds` holds the ids of
-- `parcelPolys`, in order and each once, before the call, it does so after the call.
pub load_viewport_geometry-IsMerged :
    (force : Bool) (key : String) (reply : Reply) (g : Store)
    → IsMerged g
    → IsMerged (load_viewport_geometry force key reply g).0
unfolding load_viewport_geometry
load_viewport_geometry-IsMerged force key reply g m =
    if_split {A = Store × Outcome} (λ r. IsMerged r.0) (not force && has key g.vp_tiles) (λ _. m)
      (λ _. (requested-Leaves key reply g m).merged)

load_viewport_geometry-count :
    (force : Bool) (key : String) (reply : Reply) (g : Store)
    → IsMerged g
    → length (load_viewport_geometry force key reply g).0.poly_ids
      ≡ length g.poly_ids + (load_viewport_geometry force key reply g).1.added
unfolding load_viewport_geometry
load_viewport_geometry-count force key reply g m =
    if_split {A = Store × Outcome} (λ r. length r.0.poly_ids ≡ length g.poly_ids + r.1.added)
      (not force && has key g.vp_tiles) (λ _. omega arith)
      (λ _.
        omega (arith, (requested-Leaves key reply g m).count, ap length (start_load-Keeps key g).0))

-- From a store where every parcel is listed once, the `added` that a call returns is exactly the
-- number of parcels by which `parcelPolys` has grown, whatever the reply is.
pub load_viewport_geometry-added :
    (force : Bool) (key : String) (reply : Reply) (g : Store)
    → IsMerged g
    → length (load_viewport_geometry force key reply g).0.parcel_polys
      ≡ length g.parcel_polys + (load_viewport_geometry force key reply g).1.added
load_viewport_geometry-added force key reply g m =
    let after = load_viewport_geometry-IsMerged force key reply g m in
    omega (
      arith,
      load_viewport_geometry-count force key reply g m,
      length-ids g m,
      length-ids (load_viewport_geometry force key reply g).0 after,
    )

-- A call marks its cell as loaded exactly if it reports it ready and not truncated, so that a
-- partial, truncated or failed cell is fetched again; every other cell stays as it was. This is
-- for each reply, forced or not, from a store where every parcel is listed once.
pub load_viewport_geometry-taken :
    (force : Bool) (key : String) (reply : Reply) (g : Store) (k : String)
    → IsMerged g
    → has k (load_viewport_geometry force key reply g).0.vp_tiles ≡ (
        if str_eq key k
        then (load_viewport_geometry force key reply g).1.ready
          && not (load_viewport_geometry force key reply g).1.truncated
        else has k g.vp_tiles)
unfolding load_viewport_geometry
load_viewport_geometry-taken force key reply g k m =
    if_split {A = Store × Outcome}
      (λ r.
        has k r.0.vp_tiles
        ≡ (if str_eq key k then r.1.ready && not r.1.truncated else has k g.vp_tiles))
      (not force && has key g.vp_tiles) (λ h. ground (arith, h, eq_iff key k))
      (λ _. ground (
        arith,
        (requested-Leaves key reply g m).taken k,
        ap (has k) (start_load-Keeps key g).2,
        has-add key k g.vp_tiles,
      ))
