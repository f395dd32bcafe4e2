-- ===== src/Landuse/Summary.antt =====
-- srv/static/game.js: `parseLanduseSummary`.
pub mod Dominant
use siedler_sterreich.Prelude.{
  ℕ, ◌+◌, ◌*◌, String, Bool, List, [], ◌∷◌, Option, none, some, Text, has, ltb, or_else,
  if◌then◌else◌, ◌>>=◌,
}
use siedler_sterreich.Landuse.Table.{Terrain, Info, ns_weight, ns_building}
use siedler_sterreich.Landuse.Keys.{after_dash, info_for}

pub record Entry : Type 0 where
  pub abbr : Text
  pub terrain : Terrain
  pub code : String
  pub name : Text
  pub count : ℕ

pub record Parsed : Type 0 where
  pub dominant : Option Entry
  pub building_count : ℕ
  pub entries : List Entry

-- `Object.entries(summary)`
abbrev pub Summary : Type 0
Summary = List (Text × ℕ)

abbrev pub entry_with : Text → ℕ → Info → Entry
entry_with abbr count info = record {
  abbr = abbr;
  terrain = info.terrain;
  code = info.code;
  name = info.name;
  count = count;
}

-- One round of the first loop: the text behind the dash, or the whole key, is looked up.
pub entry_of : Text → ℕ → Option Entry
unfolding info_for after_dash
entry_of key count = do
  let abbr = or_else (after_dash key) key
  info ← info_for key abbr
  some (entry_with abbr count info)

-- The first loop: the entries in order, and the buildings among them.
pub entries_of : Summary → Option (List Entry)
unfolding entry_of
entries_of [] = some []
entries_of ((key, count) ∷ rest) = do e ← entry_of key count; es ← entries_of rest; some (e ∷ es)

pub building_count_of : List Entry → ℕ
unfolding has
building_count_of [] = 0
building_count_of (e ∷ es) = (if has e.code ns_building then e.count else 0) + building_count_of es

-- `e.count * nsWeight(e.code)`, in quarters.
pub weight : Entry → ℕ
unfolding ns_weight
weight e = e.count * ns_weight e.code

-- The second loop; `none` stands for `bestW = -1`, which every weight exceeds.
pub heavier : Option Entry → Entry → Option Entry
unfolding weight
heavier none e = some e
heavier (some best) e = if ltb (weight best) (weight e) then some e else some best

pub dominant_from : Option Entry → List Entry → Option Entry
unfolding heavier
dominant_from best [] = best
dominant_from best (e ∷ es) = dominant_from (heavier best e) es

-- `none` is a summary that is missing or no object.
unfoldable pub parse_landuse_summary : Option Summary → Option Parsed
unfolding entries_of building_count_of dominant_from
parse_landuse_summary none = some (record { dominant = none; building_count = 0; entries = [] })
parse_landuse_summary (some summary) = do
  entries ← entries_of summary
  some (record {
    dominant = dominant_from none entries;
    building_count = building_count_of entries;
    entries = entries;
  })
