-- ===== src/Visited/Lucky.antt =====
-- srv/static/game.js: `luckyAvoidQS`, the places that a lucky trip should not lead to.
use siedler_sterreich.Prelude.{ℕ, List, [], ◌∷◌, ◌++◌, Text, codes}
use siedler_sterreich.Visited.{Visit, visited_kgs, join_commas}

unfoldable pub kgs_of : List Visit → List Text
kgs_of [] = []
kgs_of (e ∷ es) = e.kg ∷ kgs_of es

abbrev pub kgs_part : List Text → List Text
kgs_part [] = []
kgs_part (kg ∷ kgs) = (codes "avoid_kgs=" ++ join_commas (kg ∷ kgs)) ∷ []

-- `encode` is `encodeURIComponent`; an empty `last` is absent.
abbrev pub last_part : (Text → Text) → Text → List Text
last_part encode [] = []
last_part encode (c ∷ last) = (codes "avoid=" ++ encode (c ∷ last)) ∷ []

-- `parts.join('&')`
unfoldable pub join_and : List Text → Text
join_and [] = []
join_and (p ∷ []) = p
join_and (p ∷ q ∷ ps) = p ++ 38 ∷ join_and (q ∷ ps)

abbrev pub with_distance : List Text → Text
with_distance [] = []
with_distance (p ∷ ps) = 63 ∷ join_and ((p ∷ ps) ++ codes "min_km=30" ∷ [])

-- `luckyAvoidQS`; `seen` and `last` are the parameters of the address.
unfoldable pub lucky_avoid_qs : (Text → Text) → ℕ → Text → Text → Text
unfolding visited_kgs kgs_of join_commas join_and
lucky_avoid_qs encode now seen last =
    with_distance (kgs_part (kgs_of (visited_kgs now seen)) ++ last_part encode last)
