-- ===== src/Landuse/Summary/Dominant.antt =====
-- What `parseLanduseSummary` returns: it never throws, and the dominant entry is the heaviest one.
use siedler_sterreich.Prelude.{
  ℕ, suc, ap, ◌≤◌, ◌<◌, List, [], ◌∷◌, ◌++◌, Option, none, some, ◌≡◌, refl, All, length, arith,
  Text, or_else, Bool-cases, inl, inr, ltb, ltb→lt, All-append, ◌∙◌,
}
use mathlib.Core.List.{append-nil, append_assoc}
use siedler_sterreich.Landuse.Keys.{after_dash, info_for_defined}
use siedler_sterreich.Landuse.Summary.{
  Entry, Parsed, Summary, entry_of, entries_of, building_count_of, weight, heavier, dominant_from,
  entry_with, parse_landuse_summary,
}

entry_of_defined : (key : Text) (count : ℕ) → (e : Entry) × (entry_of key count ≡ some e)
unfolding entry_of
entry_of_defined key count =
    let abbr = or_else (after_dash key) key in
    let (info, e) = info_for_defined key abbr in (entry_with abbr count info, rw e)

entries_of_defined :
    (s : Summary) → (es : List Entry) × (entries_of s ≡ some es) × (length es ≡ length s)
unfolding entries_of
entries_of_defined [] = ([], refl, refl)
entries_of_defined ((key, count) ∷ rest) =
    let (e, p) = entry_of_defined key count in
    let (es, q, n) = entries_of_defined rest in (e ∷ es, rw (p, q), ap suc n)

-- The first of the heaviest entries: those before it weigh less, those behind it no more.
pub data IsHeaviest (es : List Entry) : Option Entry → Type 0 where
  empty : es ≡ [] → IsHeaviest es none
  first :
      {d : Entry} (before after : List Entry)
      → es ≡ before ++ d ∷ after
      → All (λ e. weight e < weight d) before
      → All (λ e. weight e ≤ weight d) after
      → IsHeaviest es (some d)

All-raise :
    (k m : ℕ) (es : List Entry) → k < m → All (λ e. weight e ≤ k) es → All (λ e. weight e < m) es
All-raise k m [] h p = tt
All-raise k m (e ∷ es) h p = (omega arith, All-raise k m es h p.1)

All-weaken :
    (k m : ℕ) (es : List Entry) → k < m → All (λ e. weight e < k) es → All (λ e. weight e < m) es
All-weaken k m [] h p = tt
All-weaken k m (e ∷ es) h p = (omega arith, All-weaken k m es h p.1)

regroup :
    (before : List Entry) (d : Entry) (between : List Entry) (e : Entry) (es : List Entry)
    → (before ++ d ∷ between) ++ e ∷ es ≡ (before ++ d ∷ (between ++ e ∷ [])) ++ es
regroup before d between e es = simp append_assoc

dominant_from-IsHeaviest :
    (all before : List Entry) (d : Entry) (between es : List Entry)
    → all ≡ (before ++ d ∷ between) ++ es
    → All (λ e. weight e < weight d) before
    → All (λ e. weight e ≤ weight d) between
    → IsHeaviest all (dominant_from (some d) es)
unfolding dominant_from heavier
dominant_from-IsHeaviest all before d between [] h p q =
    first before between (h ∙ append-nil (before ++ d ∷ between)) p q
dominant_from-IsHeaviest all before d between (e ∷ es) h p q =
    elim (Bool-cases (ltb (weight d) (weight e))) [
      | inl more ↦
          let gt = ltb→lt _ _ more in
          rw more (
            dominant_from-IsHeaviest all (before ++ d ∷ between) e [] es (rw append_assoc h)
              (All-append _ before (d ∷ between) (All-weaken (weight d) (weight e) before gt p)
                (gt, All-raise (weight d) (weight e) between gt q))
              tt)
      | inr less ↦ rw less (
          dominant_from-IsHeaviest all before d (between ++ e ∷ []) es
            (h ∙ regroup before d between e es) p
            (All-append _ between (e ∷ []) q (ground arith, tt)))
    ]

-- `parseLanduseSummary` never throws, keeps one entry for each key, and its dominant entry is the
-- first of those with the greatest weighted count; there is none only if there is no entry.
pub parse_landuse_summary-dominant :
    (s : Summary)
    → (p : Parsed) × (parse_landuse_summary (some s) ≡ some p)
      × (length p.entries ≡ length s)
      × IsHeaviest p.entries p.dominant
unfolding parse_landuse_summary
parse_landuse_summary-dominant s =
    let (es, e, n) = entries_of_defined s in
    (
      record {
        dominant = dominant_from none es;
        building_count = building_count_of es;
        entries = es;
      },
      rw e,
      n,
      heaviest es,
    )
  where
    heaviest : (es : List Entry) → IsHeaviest es (dominant_from none es)
    heaviest [] = empty refl
    heaviest (e ∷ es) = dominant_from-IsHeaviest (e ∷ es) [] e [] es refl tt tt
