-- ===== src/Enhanced.antt =====
-- srv/static/game.js: `loadEnhancedRegistry`, which communities and municipalities have measured terrain, and
-- `loadEnhancedForKGs`, which asks for it once.
pub mod Flags
use siedler_sterreich.Prelude.{
  ℕ, String, Bool, true, false, not, ◌&&◌, ◌||◌, List, [], ◌∷◌, ◌++◌, Option, none, some, or_else,
  lookup, insert, has, add, if◌then◌else◌,
}

-- A row of the registry.
pub record KgRow : Type 0 where
  pub kg_code : String
  pub gemeinde_code : String
  pub gemeinde_name : String
  pub lon : ℕ
  pub lat : ℕ
  pub v2 : Bool
  pub v24 : Bool

pub record Gemeinde : Type 0 where
  pub gemeinde_code : String
  pub gemeinde_name : String
  pub lon : ℕ
  pub lat : ℕ
  pub v2 : Bool
  pub ne : Bool

-- `by_gem` has the municipalities by their codes; the list `G.enhancedGemeinden` are its values.
pub record Registry : Type 0 where
  pub enhanced_kgs : List String
  pub v2_kgs : List String
  pub ne_kgs : List String
  pub by_gem : List (String × Gemeinde)

-- The set of the codes of some rows, which joins those that there are.
unfoldable pub codes_if : (KgRow → Bool) → List KgRow → List String → List String
unfolding add
codes_if f [] s = s
codes_if f (k ∷ ks) s = codes_if f ks (if f k then add k.kg_code s else s)

abbrev pub new_gemeinde : KgRow → Gemeinde
new_gemeinde k = record {
  gemeinde_code = k.gemeinde_code;
  gemeinde_name = k.gemeinde_name;
  lon = k.lon;
  lat = k.lat;
  v2 = false;
  ne = false;
}

abbrev pub flagged : KgRow → Gemeinde → Gemeinde
flagged k g = record g { v2 = g.v2 || k.v2; ne = g.ne || k.v24 }

-- One round of the loop.
unfoldable pub note_row : KgRow → List (String × Gemeinde) → List (String × Gemeinde)
unfolding lookup insert
note_row k by_gem =
    insert k.gemeinde_code (flagged k (or_else (lookup k.gemeinde_code by_gem) (new_gemeinde k)))
      by_gem

unfoldable pub note_rows : List KgRow → List (String × Gemeinde) → List (String × Gemeinde)
unfolding note_row
note_rows [] by_gem = by_gem
note_rows (k ∷ ks) by_gem = note_rows ks (note_row k by_gem)

-- `loadEnhancedRegistry`, with the rows of its answer; without an answer nothing changes.
unfoldable pub load_enhanced_registry : Option (List KgRow) → Registry → Registry
unfolding codes_if note_rows
load_enhanced_registry none r = r
load_enhanced_registry (some ks) r = record {
  enhanced_kgs = codes_if (λ k. true) ks [];
  v2_kgs = codes_if (λ (k : KgRow). k.v2) ks [];
  ne_kgs = codes_if (λ (k : KgRow). k.v24) ks [];
  by_gem = note_rows ks [];
}

-- `loadEnhancedForKGs`: `G.enhancedLoaded` after it, and the communities that it asks for.
unfoldable pub load_enhanced_for_kgs :
    List String → List String → List String → List String → List String × List String
unfolding has add
load_enhanced_for_kgs enhanced terrain [] loaded = (loaded, [])
load_enhanced_for_kgs enhanced terrain (kg ∷ kgs) loaded =
    let rest = load_enhanced_for_kgs enhanced terrain kgs in
    if has kg loaded || (not (has kg enhanced) && not (has kg terrain))
    then rest loaded
    else let (after, asked) = rest (add kg loaded) in (after, kg ∷ asked)
