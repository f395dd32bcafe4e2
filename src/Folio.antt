-- ===== src/Folio.antt =====
-- srv/static/game.js: `buildEZIndex`, the loaded parcels by their folio, and `visibleQuests`.
pub mod Current
use Prim.Native.String.{◌++◌ as append}
use siedler_sterreich.Prelude.{
  ℕ, String, Bool, true, false, not, ◌&&◌, ◌||◌, List, [], ◌∷◌, ◌++◌, Option, none, some, or_else,
  lookup, insert, ltb, ◌==◌, str_eq, has, length, keep_if, if◌then◌else◌,
}
use siedler_sterreich.Landuse.Code.{LuProps}

-- What a claim sends of a parcel: its number, its land and its buildings; an empty `gnr` is absent.
pub record Facts : Type 0 where
  pub gnr : String
  pub area_sqm : ℕ
  pub lu : LuProps
  pub building_count : ℕ
  pub total_building_area_sqm : ℕ

-- A feature. The index reads its three names; an empty `ez` is absent.
pub record Parcel : Type 0 where
  pub parcel_id : String
  pub kg_code : String
  pub ez : String
  pub facts : Facts

abbrev pub Index : Type 0
Index = List (String × List Parcel)

-- `G.ezIndex`, and the lengths that it was built for.
pub record EzIndex : Type 0 where
  pub index : Option Index
  pub polys_n : ℕ
  pub parcels_n : ℕ

abbrev pub key_of : Parcel → String
key_of p = append p.kg_code (append "-EZ" p.ez)

abbrev pub group : String → Index → List Parcel
group key index = or_else (lookup key index) []

unfoldable pub add_poly : Parcel → Index → Index
unfolding lookup insert
add_poly p index =
    if str_eq p.ez "" then index else insert (key_of p) (group (key_of p) index ++ p ∷ []) index

unfoldable pub add_polys : List Parcel → Index → Index
unfolding add_poly
add_polys [] index = index
add_polys (p ∷ ps) index = add_polys ps (add_poly p index)

unfoldable pub has_parcel : String → List Parcel → Bool
has_parcel id [] = false
has_parcel id (p ∷ ps) = str_eq p.parcel_id id || has_parcel id ps

-- A point joins its folio if the folio does not have its parcel.
abbrev pub joined : Parcel → List Parcel → List Parcel
joined p ps = if has_parcel p.parcel_id ps then ps else ps ++ p ∷ []

unfoldable pub add_point : Parcel → Index → Index
unfolding lookup insert has_parcel
add_point p index =
    if str_eq p.ez "" then index else insert (key_of p) (joined p (group (key_of p) index)) index

unfoldable pub add_points : List Parcel → Index → Index
unfolding add_point
add_points [] index = index
add_points (p ∷ ps) index = add_points ps (add_point p index)

-- `buildEZIndex`
unfoldable pub build_ez_index : List Parcel → List Parcel → EzIndex → EzIndex
unfolding add_polys add_points
build_ez_index polys parcels g = elim g.index [
  | none ↦ built
  | some index ↦ if g.polys_n == length polys && g.parcels_n == length parcels then g else built
]
  where
    built : EzIndex
    built = record {
      index = some (add_points parcels (add_polys polys []));
      polys_n = length polys;
      parcels_n = length parcels;
    }

-- A challenge, as `visibleQuests` reads it.
pub record Challenge : Type 0 where
  pub challenge_type : String
  pub title : String

-- `enhancedLoaded`
unfoldable pub enhanced_loaded : List String → List String → Bool
unfolding has
enhanced_loaded [] enhanced = false
enhanced_loaded (kg ∷ kgs) enhanced = has kg enhanced || enhanced_loaded kgs enhanced

-- `visibleQuests`
unfoldable pub visible_quests : List String → List String → ℕ → List Challenge → List Challenge
unfolding enhanced_loaded
visible_quests kgs_loaded enhanced ne_cells challenges =
    keep_if
      (λ (c : Challenge).
        (not (str_eq c.challenge_type "tree") || enhanced_loaded kgs_loaded enhanced)
        && (not (str_eq c.challenge_type "observe") || ltb 0 ne_cells))
      challenges
