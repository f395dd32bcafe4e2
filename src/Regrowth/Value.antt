-- ===== src/Regrowth/Value.antt =====
-- srv/static/game.js: `claimIsForest`, `isCropField`, `regenOf`, `sellQuote` and `convertXPOf`.
pub mod Bounds
use siedler_sterreich.Prelude.{
  ℕ, ◌+◌, ◌-◌, ◌*◌, ◌/◌, min, max, String, Bool, true, false, List, Option, none, some, ltb, leb,
  str_eq, or_else, if◌then◌else◌,
}
use siedler_sterreich.Landuse.Water.{Frac}
use siedler_sterreich.Landuse.Code.{LuProps, extract_lu_code}
use siedler_sterreich.Claims.{Stamp, unset, unreadable, at, Claim, HarvestState, harvest_of}
use siedler_sterreich.Regrowth.Forest.{full_ms}
use siedler_sterreich.Regrowth.Field.{
  Field, FieldStage, Stage, fallow, meadow, ploughed, growing, ripe, stubble, field_stage,
}

-- A parcel as the regrowth rules see it: its land-use sources, its crop, and the tree cover that
-- the terrain row measured.
pub record Plot : Type 0 where
  pub lu : LuProps
  pub field : Field
  pub tree : Option Frac

abbrev pub lu_of : Plot → String
lu_of p = extract_lu_code "" p.lu

abbrev converted_to : Option Claim → String
converted_to none = ""
converted_to (some c) = c.converted_to

abbrev half_trees : Option Frac → Bool
half_trees none = false
half_trees (some t) = leb t.den (2 * t.num)

unfoldable pub claim_is_forest : Plot → Option Claim → Bool
claim_is_forest p claim =
    if str_eq (converted_to claim) "wildforest"
    then true
    else if str_eq (lu_of p) "56"
    then true
    else if str_eq (lu_of p) "48"
    then false
    else half_trees p.tree

unfoldable pub is_crop_field : Plot → Bool
is_crop_field p = str_eq (lu_of p) "48"

abbrev pub whole : Frac
whole = record { num = 1; den = 1 }

-- `REGEN_FLOOR_FOREST + (1 - REGEN_FLOOR_FOREST) * pr`, where `pr` is the age over 510 minutes,
-- held between 0 and 1.
unfoldable pub forest_factor : ℕ → ℕ → Frac
forest_factor cut now = record {
  num = 2 * full_ms + 3 * min full_ms (now - cut);
  den = 5 * full_ms;
}

-- `t / FIELD_RIPE_AT`, at most 1, as a fraction.
unfoldable pub crop_progress : FieldStage → Frac
crop_progress f = of_stage f.stage
  where
    of_stage : Stage → Frac
    of_stage ripe = whole
    of_stage stubble = record { num = 0; den = 1 }
    of_stage _ = record { num = min (6 * f.cycle) (10 * f.position); den = 6 * f.cycle }

-- `REGEN_FLOOR_FIELD + (1 - REGEN_FLOOR_FIELD) * pr`
unfoldable pub field_factor : Frac → Frac
field_factor pr = record { num = 3 * pr.den + pr.num; den = 4 * pr.den }

abbrev is_resting : Stage → Bool
is_resting fallow = true
is_resting meadow = true
is_resting _ = false

-- The forest branch of `regenOf`; `none` is `NaN`, from a harvest time that cannot be read.
unfoldable pub forest_regen : Option Stamp → ℕ → Option Frac
unfolding forest_factor
forest_regen none now = some whole
forest_regen (some (at cut)) now = some (forest_factor cut now)
forest_regen (some unset) now = none
forest_regen (some unreadable) now = none

unfoldable pub field_regen : FieldStage → Frac
unfolding field_factor crop_progress
field_regen f = if is_resting f.stage then whole else field_factor (crop_progress f)

-- `regenOf(p, claim).factor`
unfoldable pub regen_of : List HarvestState → Plot → Option Claim → ℕ → Option Frac
regen_of states p claim now = if str_eq (converted_to claim) "" then growing_value else some whole
  where
    growing_value : Option Frac
    growing_value =
        if claim_is_forest p claim
        then forest_regen (harvest_of states p.field.parcel_id claim) now
        else if is_crop_field p
        then some (field_regen (field_stage states p.field claim now))
        else some whole

-- `Math.round` of a fraction that is not negative.
abbrev pub round_frac : ℕ → ℕ → ℕ
round_frac num den = (2 * num + den) / (2 * den)

-- `sellQuote`: six tenths of the purchase price times the factor, rounded, and at least 1.
unfoldable pub sell_quote : ℕ → Frac → ℕ
sell_quote purchase_price factor =
    max 1 (round_frac (purchase_price * 6 * factor.num) (10 * factor.den))

-- `convertXPOf`
unfoldable pub convert_xp_of : Option Claim → ℕ
convert_xp_of none = 0
convert_xp_of (some c) =
    if str_eq c.converted_to ""
    then 0
    else if ltb 0 c.convert_xp
    then c.convert_xp
    else if str_eq c.converted_to "biodiversity"
    then 100
    else if str_eq c.converted_to "wildforest"
    then 150
    else 50
