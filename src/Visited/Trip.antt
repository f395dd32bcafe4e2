-- ===== src/Visited/Trip.antt =====
-- What is written into the address is read back.
use siedler_sterreich.Prelude.{
  ℕ, zero, suc, ◌+◌, ◌-◌, ◌≤◌, Bool, true, not, ◌&&◌, ◌||◌, List, [], ◌∷◌, ◌++◌, Option, none, some,
  ◌≡◌, refl, ap, ◌∙◌, arith, ◌==◌, Text, length, keep_if, All, if_split,
}
use siedler_sterreich.Visited.{
  Visit, comma, point, all_digits, all_digits36, parse36_from, print36, zeros, pad5, split_commas,
  before_first, join_commas, lead, behind_lead, stamp_of, visit_of, visits_of, is_recent,
  visited_kgs, entry_of, entries_of,
}
use siedler_sterreich.Visited.Base36.{
  HasFirst, starts, parse36-print36, all_digits36-print36, print36-HasFirst,
}

-- A padded code of a community.
pub record IsPadded (kg : Text) : Type 0 where
  pub five : length kg ≡ 5
  pub digits : all_digits kg ≡ true

-- A text that a list of entries can hold.
no_comma : Text → Bool
no_comma [] = true
no_comma (c ∷ s) = not (c == comma) && no_comma s

split_commas_one : (s : Text) → no_comma s ≡ true → split_commas s ≡ s ∷ []
unfolding split_commas no_comma
split_commas_one [] h = refl
split_commas_one (c ∷ s) h =
    let rest = split_commas_one s (ground (arith, h)) in
    if_split {x = [] ∷ split_commas s} {y = before_first c (split_commas s)} (λ l. l ≡ (c ∷ s) ∷ [])
      (c == comma) (λ e. absurd (ground (arith, e, h))) (λ _. ap (before_first c) rest)

split_commas_more :
    (s t : Text) → no_comma s ≡ true → split_commas (s ++ comma ∷ t) ≡ s ∷ split_commas t
unfolding split_commas no_comma
split_commas_more [] t h = refl
split_commas_more (c ∷ s) t h =
    let rest = split_commas_more s t (ground (arith, h)) in
    if_split {x = [] ∷ split_commas (s ++ comma ∷ t)}
      {y = before_first c (split_commas (s ++ comma ∷ t))} (λ l. l ≡ (c ∷ s) ∷ split_commas t)
      (c == comma) (λ e. absurd (ground (arith, e, h))) (λ _. ap (before_first c) rest)

split-join :
    (s : Text) (ss : List Text)
    → All (λ t. no_comma t ≡ true) (s ∷ ss)
    → split_commas (join_commas (s ∷ ss)) ≡ s ∷ ss
unfolding join_commas
split-join s [] p = split_commas_one s p.0
split-join s (t ∷ ss) p =
    split_commas_more s (join_commas (t ∷ ss)) p.0 ∙ ap (λ l. s ∷ l) (split-join t ss p.1)

digits36_no_comma : (s : Text) → all_digits36 s ≡ true → no_comma s ≡ true
unfolding all_digits36 no_comma
digits36_no_comma [] h = refl
digits36_no_comma (c ∷ s) h = ground (arith, h, digits36_no_comma s)

entry_no_comma :
    (kg s : Text) → all_digits kg ≡ true → all_digits36 s ≡ true → no_comma (kg ++ point ∷ s) ≡ true
unfolding all_digits no_comma
entry_no_comma [] s h k = ground (arith, digits36_no_comma s k)
entry_no_comma (c ∷ kg) s h k = ground (arith, h, entry_no_comma kg s (ground (arith, h)) k)

lead_entry :
    (kg s : Text)
    → all_digits kg ≡ true
    → (lead (kg ++ point ∷ s) ≡ kg) × (behind_lead (kg ++ point ∷ s) ≡ point ∷ s)
unfolding lead behind_lead all_digits
lead_entry [] s h = (refl, refl)
lead_entry (c ∷ kg) s h = ground (arith, h, lead_entry kg s (ground (arith, h)))

stamp_of_digits :
    (s : Text) (n : ℕ)
    → HasFirst s
    → all_digits36 s ≡ true
    → parse36_from 0 s ≡ n
    → stamp_of (point ∷ s) ≡ some n
unfolding stamp_of
stamp_of_digits _ n (starts c s) all same =
    if_split {x = some (parse36_from 0 (c ∷ s))} {y = none} (λ o. o ≡ some n) (all_digits36 (c ∷ s))
      (λ _. ap some same) (λ e. absurd (cc (e, all)))

pad5_five : (kg : Text) → length kg ≡ 5 → pad5 kg ≡ kg
unfolding zeros
pad5_five kg h = ap (λ n. zeros (5 - n) kg) h

abbrev pub visit : Text → ℕ → Visit
visit kg t = record { kg = kg; t = t }

visit-entry : (e : Visit) → IsPadded e.kg → visit_of (entry_of e) ≡ some e
unfolding visit_of
visit-entry e p =
    let split = lead_entry e.kg (print36 e.t) p.digits in
    let stamp : stamp_of (behind_lead (entry_of e)) ≡ some e.t =
      ap stamp_of split.1
      ∙ stamp_of_digits (print36 e.t) e.t (print36-HasFirst e.t) (all_digits36-print36 e.t)
          (parse36-print36 e.t) in
    let five : length (lead (entry_of e)) ≡ 5 = ap length split.0 ∙ p.five in
    if_split {A = Option Visit} (λ o. o ≡ some e)
      (length (lead (entry_of e)) == 4 || length (lead (entry_of e)) == 5)
      (λ _.
        ap (λ o. elim o [ none ↦ none | some t ↦ some (visit (pad5 (lead (entry_of e))) t) ]) stamp
        ∙ ap (λ k. some (visit k e.t)) (ap pad5 split.0 ∙ pad5_five e.kg p.five))
      (λ n. absurd (ground (arith, n, five)))

visits-entries :
    (es : List Visit) → All (λ (e : Visit). IsPadded e.kg) es → visits_of (entries_of es) ≡ es
unfolding visits_of entries_of
visits-entries [] p = refl
visits-entries (e ∷ es) p =
    ap (λ o. elim o [ none ↦ visits_of (entries_of es) | some f ↦ f ∷ visits_of (entries_of es) ])
      (visit-entry e p.0)
    ∙ ap (λ l. e ∷ l) (visits-entries es p.1)

entries_no_comma :
    (es : List Visit)
    → All (λ (e : Visit). IsPadded e.kg) es
    → All (λ s. no_comma s ≡ true) (entries_of es)
unfolding entries_of
entries_no_comma [] p = tt
entries_no_comma (e ∷ es) p = (
  entry_no_comma e.kg (print36 e.t) p.0.digits (all_digits36-print36 e.t),
  entries_no_comma es p.1,
)

-- A list that is not empty is read back from the parameter, but for what is too old by then.
pub visited-written :
    (now : ℕ) (es : List Visit)
    → 1 ≤ length es
    → All (λ (e : Visit). IsPadded e.kg) es
    → visited_kgs now (join_commas (entries_of es)) ≡ keep_if (is_recent now) es
unfolding visited_kgs entries_of
visited-written now [] some_there p = absurd (omega (arith, some_there))
visited-written now (e ∷ es) some_there p =
    ap (λ l. keep_if (is_recent now) (visits_of l))
      (split-join (entry_of e) (entries_of es) (entries_no_comma (e ∷ es) p))
    ∙ ap (keep_if (is_recent now)) (visits-entries (e ∷ es) p)

zeros-padded :
    (n : ℕ) (s : Text)
    → all_digits s ≡ true
    → (length (zeros n s) ≡ n + length s) × (all_digits (zeros n s) ≡ true)
unfolding zeros all_digits
zeros-padded zero s h = (omega arith, h)
zeros-padded (suc n) s h =
    let rest = zeros-padded n s h in (omega (arith, rest.0), ground (arith, rest.1))

pub pad5-IsPadded : (kg : Text) → length kg ≤ 5 → all_digits kg ≡ true → IsPadded (pad5 kg)
pad5-IsPadded kg le h =
    let padded = zeros-padded (5 - length kg) kg h in
    record { five = omega (arith, padded.0, le); digits = padded.1 }

pub lead_digits : (s : Text) → all_digits (lead s) ≡ true
unfolding lead all_digits
lead_digits [] = refl
lead_digits (c ∷ s) = ground (arith, lead_digits s)
