-- ===== src/Search/Box.antt =====
-- srv/static/game.js, `createSearchBox`: the query, the two remote searches with their timers, and the cache. The
-- local hits, the words of the rows and the keys are left out; a query has been trimmed, and has no line break.
pub mod Sound
pub mod Steps
pub mod Shows
use Prim.Native.String.{◌++◌ as append}
use siedler_sterreich.Prelude.{
  ℕ, ◌+◌, String, Bool, true, false, not, ◌&&◌, ◌||◌, List, [], ◌∷◌, ◌++◌, Option, none, some, ltb,
  leb, ◌==◌, str_eq, Text, codes, lookup, insert, is_some, has, take, length, keep_if,
  if◌then◌else◌,
}
use siedler_sterreich.Visited.{is_digit, all_digits, point}

-- What the cache holds under a key: the rows for a query, or the places for one, with the query that was asked. A row
-- is the key that makes it unlike another.
pub data Cached : Type 0 where
  addresses : (asked : String) → (addr topo : List String) → Cached
  places : (asked : String) → List String → Cached

-- `st`, less what is drawn; a timer is the query that it was set for.
pub record Box : Type 0 where
  pub q : String
  pub seq : ℕ
  pub remote : Option Cached
  pub remote_for : String
  pub orte : Option Cached
  pub orte_for : String
  pub pending : Bool
  pub cache : List (String × Cached)
  pub timer : Option String
  pub timer_l : Option String

abbrev slash : ℕ
slash = 47

abbrev is_space : ℕ → Bool
is_space c = c == 32 || (leb 9 c && leb c 13) || c == 160

-- `n` digits at the start, and the rest.
unfoldable pub digits_at : Text → ℕ × Text
digits_at [] = (0, [])
digits_at (c ∷ s) = let (n, rest) = digits_at s in if is_digit c then (n + 1, rest) else (0, c ∷ s)

-- `(\/\d+)?$`
abbrev denominator : Text → Bool
denominator [] = true
denominator (c ∷ s) = c == slash && ltb 0 (length s) && all_digits s

abbrev number_from : ℕ × Text → Bool
number_from (n, rest) = leb 1 n && leb n 6 && denominator rest

abbrev pub without_point : Text → Text
without_point [] = []
without_point (c ∷ s) = if c == point then s else c ∷ s

-- `/^\.?\d{1,6}(\/\d+)?$/`
unfoldable pub is_parcel_number : Text → Bool
unfolding digits_at all_digits
is_parcel_number s = number_from (digits_at (without_point s))

-- `/^\d{4}$/`, a post code
unfoldable pub is_plz : Text → Bool
unfolding all_digits
is_plz s = length s == 4 && all_digits s

-- `(\s*[- ].*)?$`
unfoldable pub dash_or_end : Text → Bool
dash_or_end [] = true
dash_or_end (c ∷ s) = c == 45 || c == 32 || (is_space c && ltb 0 (length s) && dash_or_end s)

abbrev five_from : ℕ × Text → Bool
five_from (n, rest) = n == 5 && dash_or_end rest

-- `remoteWanted`
unfoldable pub remote_wanted : Text → Bool
unfolding digits_at dash_or_end is_parcel_number is_plz
remote_wanted q =
    leb 3 (length q) && not (five_from (digits_at q)) && not (is_parcel_number q && not (is_plz q))

-- The test in front of the fast search: at least two units, no five digits, no parcel number but a post code.
unfoldable pub lookup_wanted : Text → Bool
unfolding digits_at is_parcel_number is_plz
lookup_wanted q =
    leb 2 (length q) && not (leb 5 (digits_at q).0) && (is_plz q || not (is_parcel_number q))

abbrev pub lookup_key : String → String
lookup_key q = append "l:" q

abbrev pub is_cached : String → Box → Bool
is_cached key b = is_some (lookup key b.cache)

-- `onInput`, in its order: the fast search, the slow one's rows, and its timer.
unfoldable pub note_orte : String → Box → Box
unfolding lookup
note_orte q b = if str_eq b.orte_for q then b else record b { orte = lookup (lookup_key q) b.cache }

unfoldable pub note_remote : String → Box → Box
unfolding lookup
note_remote q b = if str_eq b.remote_for q then b else elim (lookup q b.cache) [
  | none ↦ record b { remote = none }
  | some c ↦ record b { remote = some c; remote_for = q }
]

unfoldable pub plan_remote : String → Box → Box
unfolding lookup remote_wanted
plan_remote q b =
    if remote_wanted (codes q)
    then elim (lookup q b.cache) [
      | some c ↦ record b { remote = some c; remote_for = q; pending = false }
      | none ↦ record b { pending = true; timer = some q }
    ]
    else record b { pending = false; seq = b.seq + 1 }

unfoldable pub on_input : String → Box → Box
unfolding note_orte note_remote plan_remote lookup_wanted
on_input q b = plan_remote q (
    note_remote q (record (note_orte q (record b { q = q; timer = none })) {
      timer_l = if lookup_wanted (codes q) then some q else none;
    }))

-- The field gets the focus with a text in it.
abbrev pub focus : String → Box → Box
focus q b = record b { q = q }

-- The start of `fetchLookup` when its timer fires, and of `fetchRemote`; each waits unless its query is cached.
unfoldable pub fetch_lookup : String → Box → Box
unfolding lookup
fetch_lookup q b = elim (lookup (lookup_key q) b.cache) [
  | some c ↦ record b { orte = some c; orte_for = q; timer_l = none }
  | none ↦ record b { timer_l = none }
]

unfoldable pub fetch_remote : String → Box → Box
unfolding lookup
fetch_remote q b = elim (lookup q b.cache) [
  | some c ↦ record b {
    seq = b.seq + 1;
    remote = some c;
    remote_for = q;
    pending = false;
    timer = none;
  }
  | none ↦ record b { seq = b.seq + 1; pending = true; timer = none }
]

-- The loop over the rows of the register: each name and municipality once, four at most.
unfoldable pub distinct_rows : List String → List String → List String
unfolding has
distinct_rows seen [] = []
distinct_rows seen (row ∷ rows) = elim (has row seen) [
  | true ↦ distinct_rows seen rows
  | false ↦ row ∷ distinct_rows (row ∷ seen) rows
]

unfoldable pub lookup_reply : String → ℕ → List String → Box → Box
unfolding distinct_rows insert
lookup_reply q my_seq rows b =
    let found = places q (take 4 (distinct_rows [] rows)) in
    let kept = record b { cache = insert (lookup_key q) found b.cache } in
    if my_seq == b.seq then record kept { orte = some found; orte_for = q } else kept

-- `if (st.cache.size > 80)`: the oldest entry goes.
abbrev pub drop_oldest : List (String × Cached) → List (String × Cached)
drop_oldest [] = []
drop_oldest (entry ∷ rest) = rest

unfoldable pub evict : List (String × Cached) → List (String × Cached)
evict cache = if ltb 80 (length cache) then drop_oldest cache else cache

-- The reply to the slow search: the rows near the municipality come first.
unfoldable pub remote_reply :
    Bool → String → ℕ → List String → List String → List String → Box → Box
unfolding distinct_rows insert evict
remote_reply is_game q my_seq addr_local addr_all topo b =
    let found =
      addresses q (take (if is_game then 6 else 5) (distinct_rows [] (addr_local ++ addr_all)))
        topo in
    let kept = record b { cache = evict (insert q found b.cache) } in
    if my_seq == b.seq
    then record kept { remote = some found; remote_for = q; pending = false }
    else kept

-- What `paint` takes of the two: only what is kept for the query in the box.
abbrev pub painted_remote : Box → Option Cached
painted_remote b = if str_eq b.remote_for b.q then b.remote else none

abbrev pub painted_orte : Box → Option Cached
painted_orte b = if str_eq b.orte_for b.q then b.orte else none

-- The remote rows that stand on the screen, and the query that they were painted for.
pub record Screen : Type 0 where
  pub q : String
  pub addr : Option Cached
  pub orte : Option Cached

-- The remote part of `paint`: none without a query, where the recent searches stand. (The places that the local hits
-- repeat are left out there.)
abbrev pub paint : Box → Screen
paint b = record {
  q = b.q;
  addr = if str_eq b.q "" then none else painted_remote b;
  orte = if str_eq b.q "" then none else painted_orte b;
}

-- `if (st.q === q) paint();` behind `if (mySeq !== st.seq) return;`, with the box as it was before the reply.
abbrev pub repaint_reply : String → ℕ → Box → Box → Screen → Screen
repaint_reply q my_seq b after screen =
    if my_seq == b.seq && str_eq b.q q then paint after else screen

-- `fetchLookup` paints at its start only what is cached.
abbrev pub repaint_lookup : String → Box → Box → Screen → Screen
repaint_lookup q b after screen = if is_cached (lookup_key q) b then paint after else screen
