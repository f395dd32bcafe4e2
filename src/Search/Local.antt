-- ===== src/Search/Local.antt =====
-- srv/static/game.js: `searchLocal`, what the table of municipalities and communities has for a query, and
-- `kgsAroundCamera`. Lengths are in metres. In the game `dist` is the distance to the camera; `rank` is a name's place
-- in the order of `localeCompare`.
pub mod Best
pub mod Order
pub mod Query
use Prim.Native.String.{◌++◌ as append}
use siedler_sterreich.Prelude.{
  ℕ, ◌+◌, ◌-◌, ◌*◌, String, Bool, true, false, not, ◌&&◌, ◌||◌, List, [], ◌∷◌, ◌++◌, Option, none,
  some, is_some, ltb, leb, ◌==◌, str_eq, Text, text_eq, has, take, length, keep_if, find, lookup,
  insert, or_else, map, if◌then◌else◌,
}
use siedler_sterreich.Search.Match.{sqnorm, tokens, smatch}
use siedler_sterreich.Search.Ranked.{insert_row, sort_onto, sort_rows}

-- The municipality of a community: its code and its key.
pub record Home : Type 0 where
  pub code : String
  pub n : Text

-- A row of the table, `home` only for a community; `n` is the name's key, `span` is in thousandths of a degree.
pub record Row : Type 0 where
  pub code : String
  pub name : Text
  pub n : Text
  pub span : ℕ
  pub home : Option Home

pub record Table : Type 0 where
  pub g : List Row
  pub k : List Row

pub record Around : Type 0 where
  pub in_game : Bool
  pub dist : Row → ℕ
  pub rank : Text → ℕ
  pub enhanced : List String
  pub loaded : List (String × ℕ)
  pub loaded_ids : List Text

pub record Hit : Type 0 where
  pub row : Row
  pub score : ℕ
  pub d : ℕ
  pub enh : Bool

pub record Intent : Type 0 where
  pub kg : Row
  pub gnr : Text
  pub local : Bool

pub record Found : Type 0 where
  pub gemeinden : List Hit
  pub kgs : List Hit
  pub parcels : List Intent

abbrev pub distance_of : Around → Row → ℕ
distance_of a r = if a.in_game then a.dist r else 0

-- A municipality may have measured terrain, a community has no such mark.
abbrev pub is_enhanced : Around → Row → Bool
is_enhanced a r = not (is_some r.home) && has r.code a.enhanced

abbrev pub hit : Around → ℕ → Row → Hit
hit a score r = record { row = r; score = score; d = distance_of a r; enh = is_enhanced a r }

-- The rows that match, in the table's order.
unfoldable pub hits : Around → Text → List Text → List Row → List Hit
unfolding smatch has
hits a q toks [] = []
hits a q toks (r ∷ rs) =
    let rest = hits a q toks rs in
    let score = smatch r.n q toks in if score == 0 then rest else hit a score r ∷ rest

-- `eff`: in the game a name nearby counts more.
abbrev pub eff : Bool → Hit → ℕ
eff in_game r =
    r.score + (if in_game then if ltb r.d 3000 then 2 else if ltb r.d 15000 then 1 else 0 else 0)

-- `a - b || next`: the next criterion decides where this one does not.
abbrev pub before : ℕ → ℕ → Bool → Bool
before x y next = if ltb x y then true else if ltb y x then false else next

abbrev pub mark : Bool → ℕ
mark b = if b then 1 else 0

-- `cmp(a, b) < 0`
unfoldable pub ahead : Around → Hit → Hit → Bool
ahead a x y = before (eff a.in_game y) (eff a.in_game x) (
    before (mark y.enh) (mark x.enh) (
      before (if a.in_game then x.d else 0) (if a.in_game then y.d else 0) (
        before (length x.row.name) (length y.row.name)
          (ltb (a.rank x.row.name) (a.rank y.row.name)))))

abbrev pub sorted_hits : Around → Text → List Row → List Hit
sorted_hits a q rows = sort_rows (ahead a) (hits a q (tokens q) rows)

-- A community that only repeats a municipality which is listed.
abbrev pub home_shown : Text → Option Home → List Hit → Bool
home_shown n none shown = false
home_shown n (some g) [] = false
home_shown n (some g) (h ∷ hs) =
    text_eq n g.n && has g.code (map (λ (x : Hit). x.row.code) (h ∷ hs))

unfoldable pub repeats : List Hit → Hit → Bool
unfolding text_eq has
repeats shown k = home_shown k.row.n k.row.home shown && ltb k.score 4

-- The part of `searchLocal` that ranks names.
unfoldable pub search_names : Around → Table → Text → List Intent → Found
unfolding hits ahead sort_onto repeats tokens
search_names a t q parcels =
    let shown = take (if a.in_game then 4 else 6) (sorted_hits a q t.g) in
    record {
      gemeinden = shown;
      kgs = take 5 (keep_if (λ (k : Hit). not (repeats shown k)) (sorted_hits a q t.k));
      parcels = parcels;
    }

-- `kgsAroundCamera`: the communities of the loaded parcels within 2.5 km, each with its nearest parcel.
unfoldable pub nearest_parcels : List (String × ℕ) → List (String × ℕ) → List (String × ℕ)
unfolding lookup insert
nearest_parcels [] by_code = by_code
nearest_parcels ((kg, d) ∷ rest) by_code =
    let nearer = or_else (lookup kg by_code) d in
    nearest_parcels rest (
      if str_eq kg "" || ltb 2500 d
      then by_code
      else insert kg (if ltb d nearer then d else nearer) by_code)

abbrev pub row_of : String → List Row → Option Row
row_of code rows = find (λ (k : Row). str_eq k.code code) rows

unfoldable pub rows_of : List (String × ℕ) → List Row → List Row
rows_of [] rows = []
rows_of (entry ∷ rest) rows = elim (row_of entry.0 rows) [
  | none ↦ rows_of rest rows
  | some k ↦ k ∷ rows_of rest rows
]

abbrev pub is_neighbour : Around → List Row → Row → Bool
is_neighbour a near k =
    not (has k.code (map (λ (r : Row). r.code) near)) && ltb (a.dist k) (6000 + k.span * 60)

unfoldable pub kgs_around_camera : Around → ℕ → List Row → List Row
unfolding nearest_parcels rows_of sort_onto has
kgs_around_camera a n rows =
    let near =
      rows_of (sort_rows (λ (x y : String × ℕ). ltb x.1 y.1) (nearest_parcels a.loaded [])) rows in
    let wider =
      near
      ++ take (n - length near) (
          sort_rows (λ (x y : Row). ltb (a.dist x) (a.dist y))
            (keep_if (is_neighbour a near) rows)) in
    take n (if ltb (length near) n then wider else near)
