-- ===== src/Landuse/Table.antt =====
-- srv/static/game.js: `TERRAIN`, `NS_TABLE` and the lookups derived from it.
use siedler_sterreich.Prelude.{
  ℕ, String, ◌||◌, List, [], ◌∷◌, Option, none, some, str_eq, has, Text, codes, text_eq,
  if◌then◌else◌, ◌≤◌, ◌<◌, arith,
}

-- The keys of `TERRAIN`; the palettes are colours only.
pub data Terrain : Type 0 where
  grass forest water farm meadow building road garden wetland waste glacier bio : Terrain
  schlag regrow wildforest : Terrain

-- A row of `NS_TABLE`; `price` is in hundredths of a coin per square metre.
pub record NsEntry : Type 0 where
  pub abbr : Text
  pub name : Text
  pub terrain : Terrain
  pub price : ℕ

abbrev row : String → String → String → Terrain → ℕ → String × NsEntry
row code abbr name terrain price =
    (code, record { abbr = codes abbr; name = codes name; terrain = terrain; price = price })

unfoldable pub ns_table : List (String × NsEntry)
ns_table =
    row "40" "LN(Dk)" "Dauerkulturen" garden 30
    ∷ row "41" "B(Geb)" "Gebäude" building 50
    ∷ row "42" "So(Pp)" "Parkplatz" road 25
    ∷ row "48" "LN" "Äcker/Wiesen/Weiden" farm 30
    ∷ row "52" "GA" "Garten" garden 45
    ∷ row "53" "WG" "Weingarten" garden 35
    ∷ row "54" "Alpe" "Alm" meadow 12
    ∷ row "55" "W(Kr)" "Krummholz" forest 10
    ∷ row "56" "W" "Wald" forest 20
    ∷ row "57" "LN(vb)" "Verbuschte Fläche" meadow 15
    ∷ row "58" "W(Fs)" "Forststraße" road 10
    ∷ row "59" "GW(f)" "Fließgewässer" water 5
    ∷ row "60" "GW(s)" "Stehendes Gewässer" water 5
    ∷ row "61" "GW(Fg)" "Feuchtgebiet" wetland 8
    ∷ row "62" "So(vg)" "Vegetationsarm" waste 5
    ∷ row "63" "So(Bf)" "Betriebsfläche" waste 40
    ∷ row "64" "GW(Rf)" "Gewässerrand" wetland 8
    ∷ row "65" "So(Vr)" "Verkehrsrand" grass 10
    ∷ row "72" "So(Fh)" "Friedhof" garden 20
    ∷ row "83" "B(Nf)" "Gebäudenebenfläche" building 45
    ∷ row "84" "So(Ab)" "Abbau/Halde/Deponie" waste 15
    ∷ row "87" "So(Fe)" "Fels/Geröll" waste 3
    ∷ row "88" "So(Gl)" "Gletscher" glacier 3
    ∷ row "92" "So(Bahn)" "Bahnanlage" road 15
    ∷ row "95" "So(Str)" "Straße" road 10
    ∷ row "96" "So(Fz)" "Freizeitfläche" meadow 35
    ∷ []

-- `ABBR_MAP` values: what a `landuse_summary` abbreviation stands for.
pub record Info : Type 0 where
  pub terrain : Terrain
  pub code : String
  pub name : Text

-- The loop that fills `ABBR_MAP`, read as a search: abbreviations are distinct in the table.
unfoldable pub abbr_in : Text → List (String × NsEntry) → Option Info
unfolding text_eq
abbr_in abbr [] = none
abbr_in abbr ((code, e) ∷ rest) =
    if text_eq abbr e.abbr
    then some (record { terrain = e.terrain; code = code; name = e.name })
    else abbr_in abbr rest

-- `ABBR_MAP[abbr]`, with the synthetic entry `Bio`, which is written last.
unfoldable pub abbr_map : Text → Option Info
unfolding abbr_in ns_table text_eq
abbr_map abbr =
    if text_eq abbr (codes "Bio")
    then some (record { terrain = bio; code = ""; name = codes "Naturschutz" })
    else abbr_in abbr ns_table

abbrev pub ns_traffic : List String
ns_traffic = "42" ∷ "58" ∷ "92" ∷ "95" ∷ []

abbrev pub ns_building : List String
ns_building = "41" ∷ []

-- `nsWeight`, in quarters.
unfoldable pub ns_weight : String → ℕ
unfolding has
ns_weight code =
    if has code ns_traffic then 1 else if has code ns_building || str_eq code "83" then 2 else 4

pub ns_weight_bounds : (code : String) → (0 < ns_weight code) × (ns_weight code ≤ 4)
unfolding ns_weight
ns_weight_bounds code = ground arith
