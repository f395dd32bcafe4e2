-- ===== src/Tests/Map.antt =====
-- A view of two by two cells, a pool of three cells, a folio with a point, an address with a visit, and notices.
use siedler_sterreich.Prelude.{
  some, ℕ, ◌+◌, ◌≤◌, ◌<◌, String, true, false, not, List, [], ◌∷◌, ◌++◌, none, ◌≡◌, ◌⊎◌, inl, refl,
  arith, length, All, keep_if, last_of, Text, text_eq,
}
use siedler_sterreich.Grid.{Box, Camera, cell_of, distance, grid_tiles}
use siedler_sterreich.Grid.Nearest.{In, IsByDistance, grid_tiles-nearest}
use siedler_sterreich.Grid.Pool.{Running, After, started, finished, run_pool, finish, width}
use siedler_sterreich.Grid.Pool.Laws.{Fair, After-Fair, sum_of}
use siedler_sterreich.Grid.Pool.Ends.{Complete, run_pool-Complete, run_pool-loses}
use siedler_sterreich.Toasts.{Opts, no_toasts, ok, info, toast, loaded, after, toasts}
use siedler_sterreich.Toasts.Tidy.{IsTidy, Reach-IsTidy}
use siedler_sterreich.Folio.{Facts, Parcel, EzIndex, group, build_ez_index}
use siedler_sterreich.Folio.Current.{not_yet, index_of, search_folio, build_ez_index-search}
use siedler_sterreich.Visited.{
  Visit, Seen, all_digits, pad5, is_recent, visited_kgs, note_visited_kg,
}
use siedler_sterreich.Visited.Note.{note_visited_kg-visited_kgs}

abbrev camera : Camera
camera = record { lon = 15631000000; lat = 48391000000 }

abbrev view : Box
view = record { w = 15615000000; s = 48375000000; e = 15645000000; n = 48405000000 }

grid_tiles-nearest_example :
    IsByDistance camera (grid_tiles camera view 2)
    × (In (cell_of 15630000000 48390000000) (grid_tiles camera view 2)
        ⊎ ((length (grid_tiles camera view 2) ≡ 2)
            × All
                (λ d. distance camera d ≤ distance camera (cell_of 15630000000 48390000000))
                (grid_tiles camera view 2)))
grid_tiles-nearest_example =
    grid_tiles-nearest camera view 2 15630000000 48390000000 (omega arith) (omega arith)
      (omega arith) (omega arith)

abbrev cells : List ℕ
cells = 10 ∷ 11 ∷ 12 ∷ []

abbrev one_back : After 2 cells 1 (finish 1 5 (run_pool 2 cells))
unfolding run_pool finish
one_back = finished 1 5 (omega arith) started

After-Fair_example : Fair (width 2 cells) cells (finish 1 5 (run_pool 2 cells))
After-Fair_example = After-Fair 2 cells 1 (finish 1 5 (run_pool 2 cells)) one_back

run_pool-Complete_example :
    ((1 < length cells) × (1 ≤ length (finish 1 5 (run_pool 2 cells)).runners))
    ⊎ ((1 ≡ length cells) × Complete cells (finish 1 5 (run_pool 2 cells)))
run_pool-Complete_example = run_pool-Complete 2 cells 1 (finish 1 5 (run_pool 2 cells)) one_back

run_pool-loses_example :
    (p : Running ℕ) × After 2 (10 ∷ 11 ∷ []) 2 p
    × (p.runners ≡ [])
    × (p.total ≡ 0)
    × (sum_of p.done ≡ 7 + 0)
run_pool-loses_example = run_pool-loses 10 11 7 0

abbrev plain : Opts
plain = record { quiet = false; now = false; key = ""; ms = 0 }

Reach-IsTidy_example :
    IsTidy (toast 800 false 5400 "b" 1 info plain (toast 800 false 5000 "a" 1 ok plain no_toasts))
Reach-IsTidy_example =
    Reach-IsTidy
      (toast 800 false 5400 "b" 1 info plain (toast 800 false 5000 "a" 1 ok plain no_toasts))
      (after (after loaded (toasts 800 false 5000 "a" 1 ok plain))
        (toasts 800 false 5400 "b" 1 info plain))

abbrev pub meadow_facts : Facts
meadow_facts = record {
  gnr = "68/3";
  area_sqm = 1200;
  lu = record {
    parcel_id = "";
    ne = none;
    landuse_areas = none;
    dominant_ns = some "48";
    landuse_summary = none;
    landuse_codes = [];
    dominant_landuse = none;
  };
  building_count = 0;
  total_building_area_sqm = 0;
}

abbrev pub parcel : String → String → Parcel
parcel id ez = record { parcel_id = id; kg_code = "12105"; ez = ez; facts = meadow_facts }

abbrev pub unbuilt : EzIndex
unbuilt = record { index = none; polys_n = 0; parcels_n = 0 }

build_ez_index-search_example :
    group "12105-EZ7" (
      index_of (
        build_ez_index
          ([] ++ parcel "1" "7" ∷ [])
          ([] ++ parcel "1" "7" ∷ parcel "2" "7" ∷ [])
          unbuilt))
    ≡ search_folio "12105-EZ7"
        ([] ++ parcel "1" "7" ∷ [])
        ([] ++ parcel "1" "7" ∷ parcel "2" "7" ∷ [])
build_ez_index-search_example =
    build_ez_index-search "12105-EZ7" [] (parcel "1" "7" ∷ []) []
      (parcel "1" "7" ∷ parcel "2" "7" ∷ []) unbuilt (not_yet refl)

abbrev address : Seen
address = record { param = []; last = [] }

abbrev kg_1210 : Text
kg_1210 = 49 ∷ 50 ∷ 49 ∷ 48 ∷ []

kg_1210_digits : all_digits kg_1210 ≡ true
unfolding all_digits
kg_1210_digits = refl

note_visited_kg-visited_kgs_example :
    visited_kgs 29000030 (note_visited_kg 29000000 kg_1210 address).param
    ≡ keep_if (is_recent 29000030) (
        last_of 40 (
          keep_if (λ (e : Visit). not (text_eq e.kg (pad5 kg_1210))) (visited_kgs 29000000 [])
          ++ record { kg = pad5 kg_1210; t = 29000000 } ∷ []))
note_visited_kg-visited_kgs_example =
    note_visited_kg-visited_kgs 29000000 29000030 49 (50 ∷ 49 ∷ 48 ∷ []) address (omega arith)
      kg_1210_digits (inl refl)
