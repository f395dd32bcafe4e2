-- ===== src/Search/Local/Query.antt =====
-- srv/static/game.js: `searchLocal`, which reads a query as a parcel, a code or a name.
pub mod Bounds
use Prim.Native.String.{◌++◌ as append}
use siedler_sterreich.Prelude.{
  ℕ, any, ◌+◌, String, Bool, true, false, not, ◌&&◌, ◌||◌, List, [], ◌∷◌, ◌++◌, Option, none, some,
  ltb, leb, ◌==◌, str_eq, Text, codes, text_eq, includes, has, take, length, keep_if, find, map,
  if◌then◌else◌,
}
use siedler_sterreich.Visited.{is_digit, all_digits, point}
use siedler_sterreich.Search.Match.{is_space, sqnorm, tokens, smatch}
use siedler_sterreich.Search.Ranked.{sort_onto, sort_rows}
use siedler_sterreich.Search.Box.{digits_at, without_point}
use siedler_sterreich.Search.Local.{
  Row, Table, Around, Hit, Intent, Found, distance_of, hit, search_names, kgs_around_camera,
}

-- `\d{1,6}(?:\/\d{1,5})?$`, and with the point in front of it.
abbrev short_denominator : Text → Bool
short_denominator [] = true
short_denominator (c ∷ s) = c == 47 && ltb 0 (length s) && leb (length s) 5 && all_digits s

abbrev number_from : ℕ × Text → Bool
number_from (n, rest) = leb 1 n && leb n 6 && short_denominator rest

unfoldable pub is_gnr : Text → Bool
unfolding digits_at all_digits
is_gnr s = number_from (digits_at (without_point s))

-- `\s*[- ]\s*`: what stands behind it; `spaced` says that a space has come.
unfoldable pub skip_spaces : Text → Text
skip_spaces [] = []
skip_spaces (c ∷ s) = let rest = skip_spaces s in if is_space c then rest else c ∷ s

unfoldable pub after_dash : Bool → Text → Option Text
unfolding skip_spaces
after_dash spaced [] = none
after_dash spaced (c ∷ s) =
    let rest = after_dash (spaced || c == 32) s in
    if c == 45
    then some (skip_spaces s)
    else if is_space c
    then rest
    else if spaced
    then some (c ∷ s)
    else none

-- A code of five digits and a parcel number; the code stays a text, as it is compared.
abbrev behind_code : Text → ℕ × Text → Option (Text × Text)
behind_code raw (n, rest) =
    if n == 5
    then elim (after_dash false rest) [
      | none ↦ none
      | some s ↦ if is_gnr s then some (take 5 raw, without_point s) else none
    ]
    else none

unfoldable pub code_and_gnr : Text → Option (Text × Text)
unfolding digits_at after_dash is_gnr
code_and_gnr raw = behind_code raw (digits_at raw)

unfoldable pub is_code : Text → Bool
unfolding all_digits
is_code raw = length raw == 5 && all_digits raw

-- The bare number of a parcel: with a slash or a point, or of three units at most.
abbrev starts_point : Text → Bool
starts_point [] = false
starts_point (c ∷ s) = c == point

unfoldable pub is_bare_gnr : Text → Bool
unfolding is_gnr includes
is_bare_gnr raw = is_gnr raw && (includes raw (codes "/") || starts_point raw || leb (length raw) 3)

-- What stands before the last white space of a text, and behind it.
unfoldable pub cut_last : Text → Option (Text × Text)
cut_last [] = none
cut_last (c ∷ s) = elim (cut_last s) [
  | some (name, word) ↦ some (c ∷ name, word)
  | none ↦ if is_space c then some ([], s) else none
]

unfoldable pub trim_end : Text → Text
trim_end [] = []
trim_end (c ∷ s) = elim (trim_end s) [
  | [] ↦ if is_space c then [] else c ∷ []
  | d ∷ rest ↦ c ∷ d ∷ rest
]

-- A number behind a name has a slash or a point.
unfoldable pub is_marked_gnr : Text → Bool
unfolding is_gnr includes
is_marked_gnr word = is_gnr word && (includes word (codes "/") || starts_point word)

abbrev name_and_number : Option (Text × Text) → Option (Text × Text)
name_and_number none = none
name_and_number (some (name, word)) = elim (trim_end name) [
  | [] ↦ none
  | c ∷ s ↦ if is_marked_gnr word then some (c ∷ s, without_point word) else none
]

unfoldable pub name_and_gnr : Text → Option (Text × Text)
unfolding cut_last trim_end is_marked_gnr
name_and_gnr raw = name_and_number (cut_last raw)

abbrev pub no_hits : List Intent → Found
no_hits parcels = record { gemeinden = []; kgs = []; parcels = parcels }

abbrev pub by_code : Text → List Row → Option Row
by_code code rows = find (λ (r : Row). text_eq (codes r.code) code) rows

abbrev pub intent_of : Text → Option Row → List Intent
intent_of gnr none = []
intent_of gnr (some k) = record { kg = k; gnr = gnr; local = false } ∷ []

abbrev pub exact_hit : Around → Option Row → List Hit
exact_hit a none = []
exact_hit a (some r) = hit a 4 r ∷ []

abbrev pub near_intent : Around → Text → Row → Intent
near_intent a gnr k = record {
  kg = k;
  gnr = gnr;
  local = any (text_eq (codes k.code ++ 45 ∷ gnr)) a.loaded_ids;
}

-- A bare parcel number, in the communities around the camera.
unfoldable pub near_parcels : Around → Text → Option Table → List Intent
unfolding is_bare_gnr kgs_around_camera text_eq
near_parcels a raw none = []
near_parcels a raw (some t) =
    if a.in_game && is_bare_gnr raw
    then map (near_intent a (without_point raw)) (kgs_around_camera a 3 t.k)
    else []

-- The communities of a name in front of a number, the nearest first.
unfoldable pub named_kgs : (ℕ → ℕ) → Around → Text → Table → List Row
unfolding sqnorm tokens smatch sort_onto
named_kgs base a name t =
    let nq = sqnorm base name in
    take 3 (
      sort_rows (λ (x y : Row). ltb (distance_of a x) (distance_of a y))
        (keep_if (λ (k : Row). leb 3 (smatch k.n nq (tokens nq))) t.k))

abbrev pub far_intent : Text → Row → Intent
far_intent gnr k = record { kg = k; gnr = gnr; local = false }

-- The name that is searched for, and the parcels of the number behind it.
abbrev pub name_query : Text → List Row → Option (Text × Text) → Text × List Intent
name_query raw ks none = (raw, [])
name_query raw [] (some (name, gnr)) = (raw, [])
name_query raw (k ∷ ks) (some (name, gnr)) = (name, map (far_intent gnr) (k ∷ ks))

abbrev pub kgs_named : (ℕ → ℕ) → Around → Table → Option (Text × Text) → List Row
kgs_named base a t none = []
kgs_named base a t (some (name, gnr)) = named_kgs base a name t

unfoldable pub search_by_name : (ℕ → ℕ) → Around → Text → Table → List Intent → Found
unfolding name_and_gnr named_kgs sqnorm search_names
search_by_name base a raw t parcels =
    let found = name_and_gnr raw in
    let (name_q, more) = name_query raw (kgs_named base a t found) found in
    let q = sqnorm base name_q in
    if ltb (length q) 2 then no_hits (parcels ++ more) else search_names a t q (parcels ++ more)

unfoldable pub search_text : (ℕ → ℕ) → Around → Option Table → Text → Found
unfolding is_code near_parcels text_eq search_by_name
search_text base a none raw = no_hits []
search_text base a (some t) raw =
    if is_code raw
    then record {
      gemeinden = exact_hit a (by_code raw t.g);
      kgs = exact_hit a (by_code raw t.k);
      parcels = near_parcels a raw (some t);
    }
    else search_by_name base a raw t (near_parcels a raw (some t))

abbrev pub rows_k : Option Table → List Row
rows_k none = []
rows_k (some t) = t.k

-- `searchLocal(q0, mode)`, where `raw` is the query without white space around it. The table is there once it has come.
unfoldable pub search_local : (ℕ → ℕ) → Around → Option Table → Text → Found
unfolding code_and_gnr text_eq search_text
search_local base a t [] = no_hits []
search_local base a t (c ∷ s) = elim (code_and_gnr (c ∷ s)) [
  | some (code, gnr) ↦ no_hits (intent_of gnr (by_code code (rows_k t)))
  | none ↦ search_text base a t (c ∷ s)
]
