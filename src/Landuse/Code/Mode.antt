-- ===== src/Landuse/Code/Mode.antt =====
-- The loop over `landuse_codes` picks a code of the greatest weighted count.
use siedler_sterreich.Prelude.{
  ℕ, ◌+◌, ◌*◌, ◌≤◌, ◌<◌, String, List, [], ◌∷◌, ◌≡◌, arith, lookup, refl, lookup-insert,
  str_eq_refl, eq_iff, str_eq, if◌then◌else◌, ◌∙◌, ap, ltb, Bool-cases, false, inl, inr,
}
use native.Mathlib.Nat.{add_assoc}
use siedler_sterreich.Landuse.Table.{ns_weight, ns_weight_bounds}
use siedler_sterreich.Landuse.Code.{Tally, no_tally, count_in, tally_code, tally_codes}

-- One part counts for a code if it is that code and not empty.
abbrev pub one : String → String → ℕ
one c d = if str_eq d "" then 0 else if str_eq d c then 1 else 0

-- How often a code stands in the list.
pub occurrences : String → List String → ℕ
occurrences c [] = 0
occurrences c (d ∷ ds) = one c d + occurrences c ds

-- A tally after parts of which `seen` says how often each code stood among them.
record IsTally (seen : String → ℕ) (s : Tally) : Type 0 where
  counted : (c : String) → count_in c s.counts ≡ seen c
  greatest : (c : String) → seen c * ns_weight c ≤ s.best_w
  reached : s.best_w ≡ seen s.best * ns_weight s.best

IsTally-ext :
    (f g : String → ℕ) (s : Tally) → ((c : String) → f c ≡ g c) → IsTally f s → IsTally g s
IsTally-ext f g s e h = record {
  counted = λ c. h.counted c ∙ e c;
  greatest = λ c. rw (← e c) (h.greatest c);
  reached = h.reached ∙ ap (λ n. n * ns_weight s.best) (e s.best);
}

-- The tally's best weight stays the weight of its best code.
reached_after :
    (n w : String → ℕ) (best d : String) (best_w : ℕ)
    → 0 < w d
    → best_w ≡ n best * w best
    → ltb best_w ((n d + 1) * w d) ≡ false
    → best_w ≡ (n best + (if str_eq d best then 1 else 0)) * w best
reached_after n w best d best_w pos e small = elim (Bool-cases (str_eq d best)) [
  | inl same ↦
      let eq = (eq_iff d best).0 same in absurd (ground (arith, ap (λ (c : String). n c * w c) eq))
  | inr other ↦ rw other (omega (arith))
]

tally_code-IsTally :
    (seen : String → ℕ) (s : Tally) (d : String)
    → IsTally seen s
    → IsTally (λ c. seen c + one c d) (tally_code s d)
unfolding tally_code
tally_code-IsTally seen s d h = record {
  counted = λ c. ground (
    arith,
    h.counted c,
    h.counted d,
    lookup-insert d c (count_in d s.counts + 1) s.counts,
    eq_iff d c,
  );
  greatest = λ c. ground (arith, h.greatest c, h.counted d, eq_iff d c, eq_iff d "");
  reached = ground (
    arith,
    h.counted d,
    eq_iff d s.best,
    str_eq_refl d,
    (ns_weight_bounds d).0,
    reached_after seen ns_weight s.best d s.best_w,
  );
}

tally_codes-IsTally :
    (seen : String → ℕ) (s : Tally) (ds : List String)
    → IsTally seen s
    → IsTally (λ c. seen c + occurrences c ds) (tally_codes s ds)
unfolding tally_codes occurrences
tally_codes-IsTally seen s [] h = IsTally-ext seen _ s (λ c. omega arith) h
tally_codes-IsTally seen s (d ∷ ds) h =
    IsTally-ext (λ c. seen c + one c d + occurrences c ds) _ (tally_codes (tally_code s d) ds)
      (λ c. add_assoc (seen c) (one c d) (occurrences c ds))
      (tally_codes-IsTally (λ c. seen c + one c d) (tally_code s d) ds
        (tally_code-IsTally seen s d h))

no_tally-IsTally : IsTally (λ c. 0) no_tally
unfolding lookup ns_weight
no_tally-IsTally = record { counted = λ c. refl; greatest = λ c. omega arith; reached = refl }

-- The code that the loop over `landuse_codes` keeps is one of the greatest weighted count: no code
-- of the list, stray road and building symbols included, outweighs it, and its weight is that of
-- all its own occurrences.
pub tally_codes-best :
    (ds : List String)
    → let s = tally_codes no_tally ds in
      ((c : String) → occurrences c ds * ns_weight c ≤ occurrences s.best ds * ns_weight s.best)
      × (s.best_w ≡ occurrences s.best ds * ns_weight s.best)
tally_codes-best ds =
    let h = tally_codes-IsTally (λ c. 0) no_tally ds no_tally-IsTally in
    (λ c. omega (arith, h.greatest c, h.reached), omega (arith, h.reached))
