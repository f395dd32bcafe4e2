-- ===== src/Landuse/Code.antt =====
-- srv/static/game.js: `extractLuCode`, the code that decides a parcel's terrain and price.
pub mod Mode
pub mod Wet
use Prim.Native.Char.{Char, code}
use siedler_sterreich.Prelude.{
  ℕ, ◌+◌, ◌*◌, String, Bool, ◌&&◌, List, [], ◌∷◌, Option, none, some, lookup, insert, str_eq, ltb,
  leb, or_else, is_some, if◌then◌else◌, ◌==◌,
}
use siedler_sterreich.Landuse.Table.{ns_table, ns_weight}
use siedler_sterreich.Landuse.Summary.{Summary, Parsed, Entry, parse_landuse_summary}
use siedler_sterreich.Landuse.Water.{Frac, Observed, Areas, water_fraction}

-- The properties of a parcel that `extractLuCode` reads. `ne` is its observed layer, from the row
-- or from `G.terrainParcels`; `landuse_codes` are the parts of the raw text between its commas,
-- trimmed.
pub record LuProps : Type 0 where
  pub parcel_id : String
  pub ne : Option Observed
  pub landuse_areas : Option Areas
  pub dominant_ns : Option String
  pub landuse_summary : Option Summary
  pub landuse_codes : List String
  pub dominant_landuse : Option String

-- `counts`, `best` and `bestW` of the loop over `landuse_codes`.
pub record Tally : Type 0 where
  pub counts : List (String × ℕ)
  pub best : String
  pub best_w : ℕ

abbrev pub no_tally : Tally
no_tally = record { counts = []; best = ""; best_w = 0 }

abbrev pub count_in : String → List (String × ℕ) → ℕ
count_in c counts = or_else (lookup c counts) 0

pub tally_code : Tally → String → Tally
tally_code s c =
    if str_eq c ""
    then s
    else let n = count_in c s.counts + 1 in
      let counts = insert c n s.counts in
      if ltb s.best_w (n * ns_weight c)
      then record { counts = counts; best = c; best_w = n * ns_weight c }
      else record s { counts = counts }

pub tally_codes : Tally → List String → Tally
tally_codes s [] = s
tally_codes s (c ∷ cs) = tally_codes (tally_code s c) cs

-- `s || d` on texts.
abbrev pub or_text : String → String → String
or_text s d = if str_eq s "" then d else s

is_digit : Char → Bool
is_digit c = leb b'0' (code c) && leb (code c) b'9'

-- The first two digits in a row (`/(\d{2})/`).
unfoldable pub two_digits : String → String
unfolding is_digit
two_digits String.[] = ""
two_digits (String.◌∷◌ c String.[]) = ""
two_digits (String.◌∷◌ c (String.◌∷◌ d s)) =
    if is_digit c && is_digit d
    then String.◌∷◌ c (String.◌∷◌ d String.[])
    else two_digits (String.◌∷◌ d s)

abbrev code_of_dominant : Option Parsed → String
code_of_dominant none = ""
code_of_dominant (some p) = elim p.dominant [ none ↦ "" | some e ↦ e.code ]

abbrev pub area_of : String → Option Areas → ℕ
area_of c areas = or_else (lookup c (or_else areas [])) 0

-- The water branch: `59` unless the standing water is larger.
unfoldable pub water_code : LuProps → Option String
unfolding water_fraction lookup
water_code p = if str_eq p.parcel_id "" then none else elim (water_fraction p.ne p.landuse_areas) [
  | none ↦ none
  | some wf ↦
      if leb wf.den (2 * wf.num)
      then some
          (if leb (area_of "60" p.landuse_areas) (area_of "59" p.landuse_areas) then "59" else "60")
      else none
]

-- `NS_TABLE[String(p.dominant_ns)]`
unfoldable pub dominant_ns_code : LuProps → Option String
unfolding lookup ns_table
dominant_ns_code p = elim p.dominant_ns [
  | none ↦ none
  | some c ↦ if is_some (lookup c ns_table) then some c else none
]

-- The cadastre's answer, from the richest source to the poorest.
unfoldable pub declared_code : String → LuProps → String
unfolding dominant_ns_code parse_landuse_summary tally_codes two_digits
declared_code lu p = or_else (dominant_ns_code p) (
    or_text (summary_code p.landuse_summary) (
      or_text (tally_codes no_tally p.landuse_codes).best
        (or_else p.dominant_landuse (two_digits lu))))
  where
    summary_code : Option Summary → String
    summary_code none = ""
    summary_code (some s) = code_of_dominant (parse_landuse_summary (some s))

unfoldable pub extract_lu_code : String → LuProps → String
unfolding water_code declared_code
extract_lu_code lu p = or_else (water_code p) (declared_code lu p)
