-- ===== src/Tests/Landuse.antt =====
-- Land-use summaries, rings and prices.
use siedler_sterreich.Prelude.{
  lookup, none, ◌≤◌, List, [], ◌∷◌, ◌++◌, some, String, length, codes, ◌≡◌, refl, inl, arith,
}
use siedler_sterreich.Geometry.{Ring}
use siedler_sterreich.Landuse.Summary.{Summary, Parsed, parse_landuse_summary}
use siedler_sterreich.Landuse.Summary.Dominant.{IsHeaviest, parse_landuse_summary-dominant}
use siedler_sterreich.Landuse.Water.{Areas, observed_water}
use siedler_sterreich.Landuse.Code.Wet.{Wet, extract_lu_code-Wet}
use siedler_sterreich.Landuse.Code.{LuProps, extract_lu_code}
use siedler_sterreich.Price.{calc_price}
use siedler_sterreich.Price.Order.{calc_price_mono}

abbrev summary : Summary
summary = (codes "B-Gebf", 5) ∷ (codes "Wald", 1) ∷ []

parse_landuse_summary-dominant_example :
    (p : Parsed) × (parse_landuse_summary (some summary) ≡ some p)
    × (length p.entries ≡ 2)
    × IsHeaviest p.entries p.dominant
parse_landuse_summary-dominant_example = parse_landuse_summary-dominant summary

abbrev lu_codes : List String
lu_codes = "92" ∷ "48" ∷ "" ∷ "92" ∷ "48" ∷ []

abbrev half : Ring
half = (0, 0) ∷ (4, 0) ∷ []

abbrev other_half : Ring
other_half = (4, 4) ∷ (0, 4) ∷ []

abbrev part : List Ring
part = (half ++ other_half) ∷ []

calc_price_mono_example :
    (calc_price 500 "41" 0 0 ≤ calc_price 900 "41" 0 120)
    × (10 ≤ calc_price 500 "41" 0 0)
    × (calc_price 500 "41" 0 0 ≤ 5000)
calc_price_mono_example =
    calc_price_mono 500 900 0 0 120 "41" (omega arith) (omega arith) (inl refl)

-- A pond on declared fields.
abbrev pond_areas : Areas
pond_areas = ("48", 900) ∷ ("60", 100) ∷ []

abbrev pond : LuProps
pond = record {
  parcel_id = "01004-9";
  ne = some (record { cells = 12; cover = some (some (record { num = 3; den = 4 })) });
  landuse_areas = some pond_areas;
  dominant_ns = some "48";
  landuse_summary = none;
  landuse_codes = [];
  dominant_landuse = none;
}

pond-Wet : Wet pond.ne pond_areas
unfolding observed_water
pond-Wet = inl (record { num = 3; den = 4 }, refl, omega arith, omega arith)

extract_lu_code-Wet_example : extract_lu_code "" pond ≡ "60"
unfolding lookup
extract_lu_code-Wet_example = extract_lu_code-Wet "" pond pond_areas refl refl pond-Wet
