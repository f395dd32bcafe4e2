-- ===== src/Cadastre/Load.antt =====
-- `loadViewportGeometry`, and the pacing around it: `loadTileResilient`.
pub mod Laws
pub mod Upgrade
pub mod Retry
use siedler_sterreich.Prelude.{
  ℕ, zero, suc, ◌+◌, ◌-◌, ◌*◌, min, String, Bool, true, false, not, ◌&&◌, ◌||◌, List, [], ◌∷◌,
  Option, none, some, is_some, or_else, has, add, delete, lookup, insert, ltb, ◌==◌, length,
  if◌then◌else◌,
}
use siedler_sterreich.Claims.{is_text, resolve_claims}
use siedler_sterreich.Cadastre.Rows.{Answer, NeNote, Reply, throws, nothing, got}
use siedler_sterreich.Cadastre.Store.{
  Store, CellNote, CellStatus, loading, pending, ready, down, error, gaveup, hashes_of,
}
use siedler_sterreich.Cadastre.Merge.{Progress, merge_parcels}
use siedler_sterreich.Cadastre.Surroundings.{merge_footprints, merge_landuses, merge_kgs}

-- What the function returns.
pub record Outcome : Type 0 where
  pub added : ℕ
  pub ready : Bool
  pub truncated : Bool
  pub cached : Bool
  pub down : Bool
  pub retry_after : Option ℕ

-- `cellNote`: a patch of the entry; `none` leaves a field as it is.
pub note : String → CellStatus → Option String → Option ℕ → Store → Store
unfolding lookup insert
note key status xcache parcels g = record g {
  cell_state = insert key (patched (lookup key g.cell_state)) g.cell_state;
}
  where
    patched : Option CellNote → CellNote
    patched none = record {
      status = status;
      xcache = or_else xcache "";
      parcels = or_else parcels 0;
      tries = 0;
    }
    patched (some st) = record st {
      status = status;
      xcache = or_else xcache st.xcache;
      parcels = or_else parcels st.parcels;
    }

abbrev pub release : String → Store → Store
release key g = record g { vp_tiles = delete key g.vp_tiles }

-- `setAttribution` and `noteNE`, for what they keep in `G`.
pub set_attribution : String → Store → Store
set_attribution notice g = if is_text notice then record g { notice = notice } else g

pub note_ne : Option NeNote → Store → Store
note_ne none g = g
note_ne (some ne) g =
    if ne.ready
    then record g {
      ne_cells = g.ne_cells + 1;
      ne_epoch = if is_text ne.epoch then ne.epoch else g.ne_epoch;
    }
    else g

abbrev pub unfinished : Answer → Bool
unfinished d = d.ready_false || d.pending

-- The cell is pending, and may be fetched again, or ready.
pub settle : String → Answer → Store → Store
unfolding note delete
settle key d g =
    let noted =
      if unfinished d
      then record (note key pending (some d.xcache) none (release key g)) { pending_cell = key }
      else note key ready (some d.xcache) (some (length (or_else d.parcels []))) g in
    if d.truncated then release key noted else noted

-- The last lines: what changed is drawn, and new parcels resolve claims.
pub refresh : ℕ → ℕ → ℕ → Store → Store
unfolding resolve_claims
refresh added upgraded added_lu g =
    let resolved =
      if ltb 0 (added + upgraded)
      then record g { lidar_gen = g.lidar_gen + 1; rows = (resolve_claims (hashes_of g) g.rows).0 }
      else g in
    if ltb 0 (added + upgraded + added_lu)
    then record resolved { base_gen = resolved.base_gen + 1 }
    else resolved

-- The answer is merged into the store.
pub merge_answer : String → Answer → Store → Store × Outcome
unfolding settle set_attribution note_ne refresh
merge_answer key d g =
    let settled = settle key d (note_ne d.ne (set_attribution d.notice g)) in
    let start : Progress = record { store = merge_kgs d.kgs settled; added = 0; upgraded = 0 } in
    let merged = merge_parcels (or_else d.parcels []) start in
    let (used, added_lu) =
      merge_landuses d.landuse (merge_footprints d.footprints merged.store, 0) in
    (
      refresh merged.added merged.upgraded added_lu used,
      record {
        added = merged.added;
        ready = not (unfinished d);
        truncated = d.truncated;
        cached = false;
        down = false;
        retry_after = d.retry_after_s;
      },
    )

abbrev pub failed : Bool → Option ℕ → Outcome
failed is_down retry = record {
  added = 0;
  ready = false;
  truncated = false;
  cached = false;
  down = is_down;
  retry_after = retry;
}

pub receive : String → Reply → Store → Store × Outcome
unfolding note delete merge_answer
receive key throws g = (note key error none none (release key g), failed false none)
receive key nothing g = (note key error (some "") none (release key g), failed false none)
receive key (got d) g =
    if d.error && not (is_some d.parcels)
    then (
      note key (if d.down then down else error) (some d.xcache) none (release key g),
      failed d.down d.retry_after_s,
    )
    else merge_answer key d g

abbrev pub cached_outcome : Outcome
cached_outcome = record {
  added = 0;
  ready = true;
  truncated = false;
  cached = true;
  down = false;
  retry_after = none;
}

-- `vpBusy`
abbrev pub vp_busy_up : Store → Store
vp_busy_up g = record g { busy = g.busy + 1 }

abbrev pub vp_busy_down : Store → Store
vp_busy_down g = record g { busy = g.busy - 1 }

-- Up to the request: the cell is taken, noted as loading and counted as busy. Other code may run
-- before `receive`.
pub start_load : String → Store → Store
unfolding add note
start_load key g =
    vp_busy_up (note key loading none none (record g { vp_tiles = add key g.vp_tiles }))

-- `loadViewportGeometry(c, opts)` for the cell `key`, with the reply that its request gets while
-- nothing else runs.
unfoldable pub load_viewport_geometry : Bool → String → Reply → Store → Store × Outcome
unfolding has start_load receive
load_viewport_geometry force key reply g =
    if not force && has key g.vp_tiles
    then (g, cached_outcome)
    else receive key reply (vp_busy_down (start_load key g))
