-- ===== src/Enhanced/Flags.antt =====
-- The municipalities of the registry are those of its rows.
use siedler_sterreich.Prelude.{
  String, Bool, true, false, ◌&&◌, ◌||◌, List, [], ◌∷◌, Option, none, some, or_else, is_some,
  lookup, lookup-insert, str_eq, eq_iff, any, ◌≡◌, arith,
}
use siedler_sterreich.Enhanced.{
  KgRow, Gemeinde, Registry, flagged, new_gemeinde, note_row, note_rows, load_enhanced_registry,
}

abbrev pub v2_of : Option Gemeinde → Bool
v2_of none = false
v2_of (some g) = g.v2

abbrev pub ne_of : Option Gemeinde → Bool
ne_of none = false
ne_of (some g) = g.ne

-- A row of a municipality, with a flag.
abbrev pub flag_in : String → (KgRow → Bool) → KgRow → Bool
flag_in code f k = str_eq k.gemeinde_code code && f k

-- An entry with the flags of some rows more.
pub record Joins (code : String) (ks : List KgRow) (before after : Option Gemeinde) : Type 0 where
  pub there : is_some after ≡ (is_some before || any (flag_in code (λ k. true)) ks)
  pub v2 : v2_of after ≡ (v2_of before || any (flag_in code (λ k. k.v2)) ks)
  pub ne : ne_of after ≡ (ne_of before || any (flag_in code (λ k. k.v24)) ks)

note_row-Joins :
    (code : String) (k : KgRow) (by_gem : List (String × Gemeinde))
    → Joins code (k ∷ []) (lookup code by_gem) (lookup code (note_row k by_gem))
unfolding note_row
note_row-Joins code k by_gem =
    let g = flagged k (or_else (lookup k.gemeinde_code by_gem) (new_gemeinde k)) in
    let found = lookup-insert k.gemeinde_code code g by_gem in
    record {
      there = ground (arith, found, eq_iff k.gemeinde_code code);
      v2 = ground (arith, found, eq_iff k.gemeinde_code code);
      ne = ground (arith, found, eq_iff k.gemeinde_code code);
    }

note_rows-Joins :
    (code : String) (ks : List KgRow) (by_gem : List (String × Gemeinde))
    → Joins code ks (lookup code by_gem) (lookup code (note_rows ks by_gem))
unfolding note_rows
note_rows-Joins code [] by_gem = record {
  there = ground arith;
  v2 = ground arith;
  ne = ground arith;
}
note_rows-Joins code (k ∷ ks) by_gem =
    let one = note_row-Joins code k by_gem in
    let rest = note_rows-Joins code ks (note_row k by_gem) in
    record {
      there = ground (arith, one.there, rest.there);
      v2 = ground (arith, one.v2, rest.v2);
      ne = ground (arith, one.ne, rest.ne);
    }

-- After the registry has come, a municipality is listed exactly if a row has its code, and its two flags say exactly
-- whether one of its rows has them.
pub load_enhanced_registry-Joins :
    (code : String) (ks : List KgRow) (r : Registry)
    → Joins code ks none (lookup code (load_enhanced_registry (some ks) r).by_gem)
unfolding load_enhanced_registry lookup
load_enhanced_registry-Joins code ks r = note_rows-Joins code ks []
