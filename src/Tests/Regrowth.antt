-- ===== src/Tests/Regrowth.antt =====
-- A wheat field, a young stand and a forest parcel that was cut an hour ago.
use siedler_sterreich.Prelude.{
  ◌≤◌, ◌+◌, ◌*◌, List, [], ◌∷◌, none, some, codes, ◌≡◌, ◌≢◌, refl, arith,
}
use siedler_sterreich.Claims.{HarvestState, at, harvest_of}
use siedler_sterreich.Landuse.Code.{extract_lu_code}
use siedler_sterreich.Regrowth.Forest.{forest_stage_at, baumholz}
use siedler_sterreich.Regrowth.Field.{Field}
use siedler_sterreich.Regrowth.Value.{
  Plot, claim_is_forest, forest_regen, regen_of, sell_quote, forest_factor,
}
use siedler_sterreich.Regrowth.Value.Bounds.{sell_quote_bounds}

young : (forest_stage_at 0 6000000).stage ≢ baumholz
unfolding forest_stage_at
young = ground arith

abbrev wheat : Field
wheat = record {
  parcel_id = "01004-.17/3";
  id_units = codes "01004-.17/3";
  schlag = some "getreide";
}

abbrev pub woods : Plot
woods = record {
  lu = record {
    parcel_id = "01004-12";
    ne = none;
    landuse_areas = none;
    dominant_ns = some "56";
    landuse_summary = none;
    landuse_codes = [];
    dominant_landuse = none;
  };
  field = record { parcel_id = "01004-12"; id_units = codes "01004-12"; schlag = none };
  tree = none;
}

abbrev cut_states : List HarvestState
cut_states =
    (record {
      names = record { parcel_hash = ""; parcel_id = "01004-12"; ez_hash = ""; ez = "" };
      crop_group = "";
      harvested_at = at 1000;
    })
    ∷ []

woods_regen : regen_of cut_states woods none 3601000 ≡ some (forest_factor 1000 3601000)
unfolding regen_of claim_is_forest harvest_of extract_lu_code forest_regen
woods_regen = refl

sell_quote_bounds_example :
    (sell_quote 400 (forest_factor 1000 3601000) ≤ 400)
    × (1 ≤ sell_quote 400 (forest_factor 1000 3601000))
    × (24 * 400 ≤ 100 * sell_quote 400 (forest_factor 1000 3601000) + 50)
sell_quote_bounds_example =
    sell_quote_bounds cut_states woods none 3601000 400 (omega arith) woods_regen
