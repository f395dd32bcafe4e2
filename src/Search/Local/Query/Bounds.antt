-- ===== src/Search/Local/Query/Bounds.antt =====
-- How much a search lists, whatever the query is read as.
use siedler_sterreich.Prelude.{
  ℕ, ◌≤◌, List, [], ◌∷◌, ◌++◌, Option, none, some, ◌≡◌, refl, ap, suc, arith, ltb, length,
  length-append, map, Text, if_split, option_split, if◌then◌else◌,
}
use siedler_sterreich.Search.Match.{sqnorm}
use siedler_sterreich.Search.Ranked.{take-length}
use siedler_sterreich.Search.Local.{
  Row, Table, Around, Intent, Found, search_names, kgs_around_camera,
}
use siedler_sterreich.Search.Local.Best.{search_names-bounds}
use siedler_sterreich.Search.Local.Query.{
  is_code, code_and_gnr, name_and_gnr, no_hits, by_code, intent_of, exact_hit, near_intent,
  near_parcels, named_kgs, far_intent, name_query, kgs_named, rows_k, search_by_name, search_text,
  search_local,
}

map-length : {A B : Type 0} (f : A → B) (xs : List A) → length (map f xs) ≡ length xs
map-length f [] = refl
map-length f (x ∷ xs) = ap suc (map-length f xs)

kgs_around_camera-length :
    (a : Around) (n : ℕ) (rows : List Row) → length (kgs_around_camera a n rows) ≤ n
unfolding kgs_around_camera
kgs_around_camera-length a n rows = take-length n _

near_parcels-length :
    (a : Around) (raw : Text) (t : Option Table) → length (near_parcels a raw t) ≤ 3
unfolding near_parcels
near_parcels-length a raw none = omega arith
near_parcels-length a raw (some t) = ground (
  arith,
  map-length (near_intent a _) (kgs_around_camera a 3 t.k),
  kgs_around_camera-length a 3 t.k,
)

kgs_named-length :
    (base : ℕ → ℕ) (a : Around) (t : Table) (found : Option (Text × Text))
    → length (kgs_named base a t found) ≤ 3
unfolding named_kgs
kgs_named-length base a t none = omega arith
kgs_named-length base a t (some (name, gnr)) = take-length 3 _

name_query-length :
    (raw : Text) (ks : List Row) (found : Option (Text × Text))
    → length (name_query raw ks found).1 ≤ length ks
name_query-length raw ks none = omega arith
name_query-length raw [] (some (name, gnr)) = omega arith
name_query-length raw (k ∷ ks) (some (name, gnr)) = omega (arith, map-length (far_intent gnr) ks)

-- A list of what is found that is short enough.
pub record IsShort (a : Around) (f : Found) : Type 0 where
  pub gemeinden : length f.gemeinden ≤ (if a.in_game then 4 else 6)
  pub kgs : length f.kgs ≤ 5
  pub parcels : length f.parcels ≤ 6

no_hits-IsShort : (a : Around) (ps : List Intent) → length ps ≤ 6 → IsShort a (no_hits ps)
no_hits-IsShort a ps le = record { gemeinden = ground arith; kgs = omega arith; parcels = le }

search_by_name-IsShort :
    (base : ℕ → ℕ) (a : Around) (raw : Text) (t : Table) (ps : List Intent)
    → length ps ≤ 3
    → IsShort a (search_by_name base a raw t ps)
unfolding search_by_name search_names
search_by_name-IsShort base a raw t ps le =
    if_split {A = Found} (IsShort a) (ltb (length q) 2) (λ _. no_hits-IsShort a every few)
      (λ _.
        let b = search_names-bounds a t q every in
        record { gemeinden = b.0; kgs = b.1; parcels = few })
  where
    found : Option (Text × Text)
    found = name_and_gnr raw

    query : Text × List Intent
    query = name_query raw (kgs_named base a t found) found

    q : Text
    q = sqnorm base query.0

    every : List Intent
    every = ps ++ query.1

    few : length every ≤ 6
    few = omega (
      arith,
      le,
      length-append ps query.1,
      name_query-length raw (kgs_named base a t found) found,
      kgs_named-length base a t found,
    )

exact_hit-length : (a : Around) (o : Option Row) → length (exact_hit a o) ≤ 1
exact_hit-length a none = omega arith
exact_hit-length a (some r) = omega arith

intent_of-length : (gnr : Text) (o : Option Row) → length (intent_of gnr o) ≤ 1
intent_of-length gnr none = omega arith
intent_of-length gnr (some k) = omega arith

search_text-IsShort :
    (base : ℕ → ℕ) (a : Around) (t : Option Table) (raw : Text)
    → IsShort a (search_text base a t raw)
unfolding search_text
search_text-IsShort base a none raw = no_hits-IsShort a [] (omega arith)
search_text-IsShort base a (some t) raw =
    if_split {A = Found} (IsShort a) (is_code raw)
      (λ _. record {
        gemeinden = ground (arith, exact_hit-length a (by_code raw t.g));
        kgs = omega (arith, exact_hit-length a (by_code raw t.k));
        parcels = omega (arith, near_parcels-length a raw (some t));
      })
      (λ _.
        search_by_name-IsShort base a raw t (near_parcels a raw (some t))
          (near_parcels-length a raw (some t)))

-- Whatever a query is read as, a search in the game lists at most four municipalities and elsewhere six, at most five
-- communities and at most six parcels.
pub search_local-IsShort :
    (base : ℕ → ℕ) (a : Around) (t : Option Table) (raw : Text)
    → IsShort a (search_local base a t raw)
unfolding search_local
search_local-IsShort base a t [] = no_hits-IsShort a [] (omega arith)
search_local-IsShort base a t (c ∷ s) =
    option_split {B = Found} (IsShort a) (code_and_gnr (c ∷ s))
      (search_text-IsShort base a t (c ∷ s))
      (λ m _. no_hits-IsShort a _ (omega (arith, intent_of-length m.1 (by_code m.0 (rows_k t)))))
