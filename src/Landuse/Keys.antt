-- ===== src/Landuse/Keys.antt =====
-- srv/static/game.js, `parseLanduseSummary`: what one key of a summary stands for.
use siedler_sterreich.Prelude.{
  String, Bool, true, List, [], ◌∷◌, Option, none, some, ◌≡◌, refl, arith, Text, codes, includes,
  starts_with, to_lower, any, ◌&&◌, is_some, Option-cases, inl, inr, if◌then◌else◌,
}
use siedler_sterreich.Landuse.Table.{grass, Info, abbr_map}

-- The text behind the last " - ", if there is one (`lastIndexOf` and `slice`).
unfoldable pub after_dash : Text → Option Text
unfolding starts_with
after_dash [] = none
after_dash (c ∷ s) = elim (after_dash s) [
  | some t ↦ some t
  | none ↦ if starts_with (c ∷ s) (codes " - ") then some (tail_of s) else none
]
  where
    tail_of : Text → Text
    tail_of [] = []
    tail_of (_ ∷ []) = []
    tail_of (_ ∷ _ ∷ s) = s

-- One `else if` of the chain: the words it looks for, and the abbreviation it picks.
abbrev Rule : Type 0
Rule = List String × String

abbrev chain : List Rule
chain =
    ("wald" ∷ "wälder" ∷ "forst" ∷ [], "W")
    ∷ ("acker" ∷ "äcker" ∷ "wiese" ∷ "weide" ∷ [], "LN")
    ∷ ("gebäudeneben" ∷ [], "B(Nf)")
    ∷ ("gebäude" ∷ [], "B(Geb)")
    ∷ ("weingarten" ∷ "weingärten" ∷ [], "WG")
    ∷ ("garten" ∷ "gärten" ∷ [], "GA")
    ∷ ("straß" ∷ "verkehr" ∷ "bahn" ∷ [], "So(Str)")
    ∷ ("gewässer" ∷ [], "GW(f)")
    ∷ ("feucht" ∷ "sumpf" ∷ "moor" ∷ [], "GW(Fg)")
    ∷ ("alpe" ∷ "alm" ∷ [], "Alpe")
    ∷ ("fels" ∷ "geröll" ∷ [], "So(Fe)")
    ∷ ("gletscher" ∷ [], "So(Gl)")
    ∷ []

-- The first rule of which the text says a word; `none` is the last branch.
unfoldable pub first_rule : Text → List Rule → Option String
unfolding includes
first_rule t [] = none
first_rule t ((words, abbr) ∷ rest) =
    if any (λ word. includes t (codes word)) words then some abbr else first_rule t rest

unfoldable pub classify : Text → Option String
unfolding first_rule
classify t = first_rule t chain

abbrev pub by_description : Text → Option String → Option Info
by_description abbr (some known) = abbr_map (codes known)
by_description abbr none = some (record { terrain = grass; code = ""; name = abbr })

abbrev pub or_described : Option Info → Option Info → Option Info
or_described (some i) _ = some i
or_described none other = other

-- `info` for a key with its abbreviation; `none` would be a read of a property of `undefined`.
unfoldable pub info_for : Text → Text → Option Info
unfolding classify
info_for key abbr = or_described (abbr_map abbr) (by_description abbr (classify (to_lower key)))

all_known : List Rule → Bool
all_known [] = true
all_known ((words, abbr) ∷ rest) = is_some (abbr_map (codes abbr)) && all_known rest

first_rule-known :
    (abbr t : Text) (rules : List Rule)
    → all_known rules ≡ true
    → is_some (by_description abbr (first_rule t rules)) ≡ true
unfolding all_known first_rule
first_rule-known abbr t [] h = refl
first_rule-known abbr t ((words, picked) ∷ rest) h = ground (arith, first_rule-known abbr t rest)

chain_known : all_known chain ≡ true
unfolding all_known abbr_map
chain_known = refl

-- Every key of a summary stands for something: no read of a property of `undefined`.
pub info_for_defined : (key abbr : Text) → (i : Info) × (info_for key abbr ≡ some i)
unfolding info_for
info_for_defined key abbr = elim (Option-cases (abbr_map abbr)) [
  | inr (i, e) ↦ (i, rw e)
  | inl e ↦ rw e (defined _ (first_rule-known abbr (to_lower key) chain chain_known))
]
  where
    defined : (o : Option Info) → is_some o ≡ true → (i : Info) × (o ≡ some i)
    defined none h = cc
    defined (some i) h = (i, refl)
