-- ===== src/Visited/Note.antt =====
-- A visit that is noted is read back, with those before it.
use siedler_sterreich.Prelude.{
  ℕ, ◌≤◌, true, not, ◌||◌, List, [], ◌∷◌, ◌++◌, Option, none, some, ◌≡◌, ◌⊎◌, inl, inr, refl, ap,
  ◌∙◌, sym, arith, ltb, ◌==◌, Text, text_eq, text_eq→eq, length, length-append, keep_if, last_of,
  All, All-append, All-keep_if, All-last_of, if_split, option_split,
}
use siedler_sterreich.Visited.{
  Visit, Seen, comma, point, all_digits, print36, pad5, split_commas, join_commas, lead,
  behind_lead, stamp_of, visit_of, visits_of, is_recent, visited_kgs, entry_of, entries_of,
  with_visit, note_visited_kg,
}
use siedler_sterreich.Visited.Trip.{IsPadded, visit, visited-written, pad5-IsPadded, lead_digits}

-- What is read is padded.
abbrev EachPadded : Option Visit → Type 0
EachPadded none = Unit
EachPadded (some e) = IsPadded e.kg

visit_of-EachPadded : (s : Text) → EachPadded (visit_of s)
unfolding visit_of
visit_of-EachPadded s =
    if_split EachPadded (length (lead s) == 4 || length (lead s) == 5)
      (λ e.
        option_split EachPadded (stamp_of (behind_lead s)) tt
          (λ t _. pad5-IsPadded (lead s) (ground (arith, e)) (lead_digits s)))
      (λ _. tt)

add_visit-All :
    (o : Option Visit) (es : List Visit)
    → EachPadded o
    → All (λ (e : Visit). IsPadded e.kg) es
    → All (λ (e : Visit). IsPadded e.kg) (elim o [ none ↦ es | some e ↦ e ∷ es ])
add_visit-All none es p a = a
add_visit-All (some e) es p a = (p, a)

visits-All : (ss : List Text) → All (λ (e : Visit). IsPadded e.kg) (visits_of ss)
unfolding visits_of
visits-All [] = tt
visits-All (s ∷ ss) =
    add_visit-All (visit_of s) (visits_of ss) (visit_of-EachPadded s) (visits-All ss)

with_visit-All :
    (now : ℕ) (kg seen : Text)
    → IsPadded kg
    → All (λ (e : Visit). IsPadded e.kg) (with_visit now kg seen)
unfolding with_visit visited_kgs
with_visit-All now kg seen p =
    All-last_of (λ e. IsPadded e.kg) 40 (others ++ visit kg now ∷ [])
      (All-append (λ e. IsPadded e.kg) others (visit kg now ∷ [])
        (All-keep_if (λ e. IsPadded e.kg) (λ (e : Visit). not (text_eq e.kg kg))
          (visited_kgs now seen)
          (All-keep_if (λ e. IsPadded e.kg) (is_recent now) (visits_of (split_commas seen))
            (visits-All (split_commas seen))))
        (p, tt))
  where
    others : List Visit
    others = keep_if (λ (e : Visit). not (text_eq e.kg kg)) (visited_kgs now seen)

last_of_some : (es : List Visit) (e : Visit) → 1 ≤ length (last_of 40 (es ++ e ∷ []))
unfolding last_of
last_of_some [] e = omega arith
last_of_some (d ∷ es) e =
    if_split {y = d ∷ (es ++ e ∷ [])} (λ l. 1 ≤ length l) (ltb 40 (length (d ∷ (es ++ e ∷ []))))
      (λ _. last_of_some es e) (λ _. omega arith)

with_visit_some : (now : ℕ) (kg seen : Text) → 1 ≤ length (with_visit now kg seen)
unfolding with_visit
with_visit_some now kg seen =
    last_of_some (keep_if (λ (e : Visit). not (text_eq e.kg kg)) (visited_kgs now seen))
      (visit kg now)

join_some : (s : Text) (ss : List Text) → 1 ≤ length s → 1 ≤ length (join_commas (s ∷ ss))
unfolding join_commas
join_some s [] h = h
join_some s (t ∷ ss) h = omega (arith, h, length-append s (comma ∷ join_commas (t ∷ ss)))

entries_some :
    (es : List Visit)
    → 1 ≤ length es
    → All (λ (e : Visit). IsPadded e.kg) es
    → 1 ≤ length (join_commas (entries_of es))
unfolding entries_of join_commas
entries_some [] h p = h
entries_some (e ∷ es) h p =
    join_some (entry_of e) (entries_of es)
      (omega (arith, length-append e.kg (point ∷ print36 e.t), p.0.five))

written :
    (now : ℕ) (c : ℕ) (kg : Text) (s : Seen)
    → IsPadded (pad5 (c ∷ kg))
    → (s.last ≡ []) ⊎ (s.last ≡ s.param)
    → (note_visited_kg now (c ∷ kg) s).param
      ≡ join_commas (entries_of (with_visit now (pad5 (c ∷ kg)) s.param))
unfolding note_visited_kg
written now c kg s padded kept =
    if_split {A = Seen} (λ t. t.param ≡ v) (text_eq v s.last)
      (λ e.
        let same : v ≡ s.last = text_eq→eq v s.last e in
        elim kept [
          | inl nothing ↦ absurd (omega (arith, some_text, ap length (same ∙ nothing)))
          | inr param ↦ sym (same ∙ param)
        ])
      (λ _. refl)
  where
    v : Text
    v = join_commas (entries_of (with_visit now (pad5 (c ∷ kg)) s.param))

    some_text : 1 ≤ length v
    some_text =
        entries_some (with_visit now (pad5 (c ∷ kg)) s.param)
          (with_visit_some now (pad5 (c ∷ kg)) s.param)
          (with_visit-All now (pad5 (c ∷ kg)) s.param padded)

-- noteVisitedKG and visitedKGs fit together: for a community with a code of one to five digits, what is read at any
-- later or earlier time are the visits that were recent when it was noted, those of the same community apart, and
-- the new one, the last 40 of them, without those that are too old at the time of reading. The address holds what
-- was last written, or nothing has been written.
pub note_visited_kg-visited_kgs :
    (now later c : ℕ) (kg : Text) (s : Seen)
    → length (c ∷ kg) ≤ 5
    → all_digits (c ∷ kg) ≡ true
    → (s.last ≡ []) ⊎ (s.last ≡ s.param)
    → visited_kgs later (note_visited_kg now (c ∷ kg) s).param
      ≡ keep_if (is_recent later) (
          last_of 40 (
            keep_if (λ (e : Visit). not (text_eq e.kg (pad5 (c ∷ kg)))) (visited_kgs now s.param)
            ++ record { kg = pad5 (c ∷ kg); t = now } ∷ []))
unfolding with_visit
note_visited_kg-visited_kgs now later c kg s short digits kept =
    ap (visited_kgs later) (written now c kg s (pad5-IsPadded (c ∷ kg) short digits) kept)
    ∙ visited-written later (with_visit now (pad5 (c ∷ kg)) s.param)
        (with_visit_some now (pad5 (c ∷ kg)) s.param)
        (with_visit-All now (pad5 (c ∷ kg)) s.param (pad5-IsPadded (c ∷ kg) short digits))
