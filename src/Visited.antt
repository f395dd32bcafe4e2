-- ===== src/Visited.antt =====
-- srv/static/game.js: the communities visited within the hour, which the page's address carries as `seen`.
-- Texts are lists of code units, and times whole minutes. The address gives a parameter back as it was set.
pub mod Base36
pub mod Trip
pub mod Note
pub mod Lucky
use siedler_sterreich.Prelude.{
  ℕ, zero, suc, ◌+◌, ◌-◌, ◌*◌, ◌/◌, ◌%◌, Bool, true, false, not, ◌&&◌, ◌||◌, List, [], ◌∷◌, ◌++◌,
  Option, none, some, ltb, leb, ◌==◌, Text, text_eq, length, keep_if, last_of, if◌then◌else◌,
}

pub record Visit : Type 0 where
  pub kg : Text
  pub t : ℕ

-- `SEEN_TTL_MIN`
abbrev pub seen_ttl_min : ℕ
seen_ttl_min = 60

abbrev pub comma : ℕ
comma = 44

abbrev pub point : ℕ
point = 46

abbrev pub is_digit : ℕ → Bool
is_digit c = leb 48 c && leb c 57

abbrev pub is_digit36 : ℕ → Bool
is_digit36 c = is_digit c || (leb 97 c && leb c 122)

unfoldable pub all_digits : Text → Bool
all_digits [] = true
all_digits (c ∷ s) = is_digit c && all_digits s

unfoldable pub all_digits36 : Text → Bool
all_digits36 [] = true
all_digits36 (c ∷ s) = is_digit36 c && all_digits36 s

abbrev pub digit36 : ℕ → ℕ
digit36 v = if ltb v 10 then 48 + v else 87 + v

abbrev pub value36 : ℕ → ℕ
value36 c = if leb c 57 then c - 48 else c - 87

-- `t.toString(36)`; a number has fewer digits than it counts, and one more at most.
unfoldable pub digits36 : ℕ → ℕ → Text → Text
digits36 zero n acc = acc
digits36 (suc k) n acc = elim (ltb n 36) [
  | true ↦ digit36 n ∷ acc
  | false ↦ digits36 k (n / 36) (digit36 (n % 36) ∷ acc)
]

unfoldable pub print36 : ℕ → Text
unfolding digits36
print36 n = digits36 (n + 1) n []

-- `parseInt(s, 36)` of digits
unfoldable pub parse36_from : ℕ → Text → ℕ
parse36_from n [] = n
parse36_from n (c ∷ s) = parse36_from (n * 36 + value36 c) s

-- `s.padStart(5, '0')`
unfoldable pub zeros : ℕ → Text → Text
zeros zero s = s
zeros (suc n) s = 48 ∷ zeros n s

abbrev pub pad5 : Text → Text
pad5 s = zeros (5 - length s) s

-- `s.split(',')`
abbrev pub before_first : ℕ → List Text → List Text
before_first c [] = (c ∷ []) ∷ []
before_first c (s ∷ ss) = (c ∷ s) ∷ ss

unfoldable pub split_commas : Text → List Text
split_commas [] = [] ∷ []
split_commas (c ∷ s) =
    let rest = split_commas s in if c == comma then [] ∷ rest else before_first c rest

-- `arr.join(',')`
unfoldable pub join_commas : List Text → Text
join_commas [] = []
join_commas (s ∷ []) = s
join_commas (s ∷ ss) = s ++ comma ∷ join_commas ss

-- The leading digits of an entry, and what follows.
unfoldable pub lead : Text → Text
lead [] = []
lead (c ∷ s) = let rest = lead s in if is_digit c then c ∷ rest else []

unfoldable pub behind_lead : Text → Text
behind_lead [] = []
behind_lead (c ∷ s) = let rest = behind_lead s in if is_digit c then rest else c ∷ s

unfoldable pub stamp_of : Text → Option ℕ
unfolding all_digits36 parse36_from
stamp_of [] = none
stamp_of (c ∷ []) = none
stamp_of (c ∷ d ∷ s) =
    if c == point && all_digits36 (d ∷ s) then some (parse36_from 0 (d ∷ s)) else none

-- The test of an entry by `/^(\d{4,5})\.([0-9a-z]+)$/`, and what it holds.
unfoldable pub visit_of : Text → Option Visit
unfolding lead behind_lead stamp_of zeros
visit_of s =
    if length (lead s) == 4 || length (lead s) == 5
    then elim (stamp_of (behind_lead s)) [
      | none ↦ none
      | some t ↦ some (record { kg = pad5 (lead s); t = t })
    ]
    else none

abbrev pub is_recent : ℕ → Visit → Bool
is_recent now e = leb (now - e.t) seen_ttl_min

unfoldable pub visits_of : List Text → List Visit
unfolding visit_of
visits_of [] = []
visits_of (s ∷ ss) =
    let rest = visits_of ss in elim (visit_of s) [ none ↦ rest | some e ↦ e ∷ rest ]

-- `visitedKGs`; `now` is `nowM`, and `seen` the parameter.
unfoldable pub visited_kgs : ℕ → Text → List Visit
unfolding split_commas visits_of
visited_kgs now seen = keep_if (is_recent now) (visits_of (split_commas seen))

abbrev pub entry_of : Visit → Text
entry_of e = e.kg ++ point ∷ print36 e.t

unfoldable pub entries_of : List Visit → List Text
unfolding print36
entries_of [] = []
entries_of (e ∷ es) = entry_of e ∷ entries_of es

-- The parameter `seen` and `_seenLast`.
pub record Seen : Type 0 where
  pub param : Text
  pub last : Text

-- The list that `noteVisitedKG` writes for a padded code.
unfoldable pub with_visit : ℕ → Text → Text → List Visit
unfolding visited_kgs text_eq last_of
with_visit now kg seen = last_of 40 (
    keep_if (λ (e : Visit). not (text_eq e.kg kg)) (visited_kgs now seen)
    ++ record { kg = kg; t = now } ∷ [])

-- `noteVisitedKG`
unfoldable pub note_visited_kg : ℕ → Text → Seen → Seen
unfolding with_visit entries_of join_commas zeros text_eq
note_visited_kg now [] s = s
note_visited_kg now (c ∷ kg) s =
    let v = join_commas (entries_of (with_visit now (pad5 (c ∷ kg)) s.param)) in
    if text_eq v s.last then s else record { param = v; last = v }
