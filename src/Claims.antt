-- ===== src/Claims.antt =====
-- srv/static/game.js: claims, offers and harvest clocks as the client keeps them (`G.claimed`,
-- `G.offers`, `G.harvestStates`), and the resolution of the hashes that the server sends.
pub mod Resolve
use siedler_sterreich.Prelude.{
  ℕ, ◌+◌, String, Bool, true, false, ◌&&◌, not, List, [], ◌∷◌, Option, none, some, str_eq, lookup,
  is_some, find, if◌then◌else◌,
}

-- A time in milliseconds, as `Date.parse` reads it: absent, unreadable (`NaN`) or a number.
pub data Stamp : Type 0 where
  unset unreadable : Stamp
  at : ℕ → Stamp

abbrev pub is_set : Stamp → Bool
is_set unset = false
is_set unreadable = true
is_set (at _) = true

-- The hashed names of a row that the server sent, and those the client has found for them; an
-- empty text is absent.
pub record Names : Type 0 where
  pub parcel_hash : String
  pub parcel_id : String
  pub ez_hash : String
  pub ez : String

pub record Claim : Type 0 where
  pub names : Names
  pub player_id : String
  pub landuse : String
  pub converted_to : String
  pub convert_xp : ℕ
  pub purchase_price : ℕ
  pub harvested_at : Stamp

pub record Offer : Type 0 where
  pub names : Names
  pub offer_price : ℕ

pub record HarvestState : Type 0 where
  pub names : Names
  pub crop_group : String
  pub harvested_at : Stamp

-- `harvestOf(pid, claim)`, as the stamp of the row that it returns; `none` is `null`.
unfoldable pub harvest_of : List HarvestState → String → Option Claim → Option Stamp
harvest_of states pid claim = if own claim then stamp claim else left_behind
  where
    own : Option Claim → Bool
    own none = false
    own (some c) = is_set c.harvested_at

    stamp : Option Claim → Option Stamp
    stamp none = none
    stamp (some c) = some c.harvested_at

    left_behind : Option Stamp
    left_behind =
        if str_eq pid "" then none else elim (find (λ h. str_eq h.names.parcel_id pid) states) [
          | none ↦ none
          | some h ↦ some h.harvested_at
        ]

-- The tables that a loaded cell fills: `G.pidByHash`, `G.ezByHash`.
pub record Hashes : Type 0 where
  pub pid_by_hash : List (String × String)
  pub ez_by_hash : List (String × String)

abbrev pub is_text : String → Bool
is_text s = not (str_eq s "")

-- The entry of a table, if it is not an empty text.
pub named : String → List (String × String) → Option String
named h table = elim (lookup h table) [ none ↦ none | some v ↦ if is_text v then some v else none ]

-- `fix`: the row, and whether its parcel was found.
pub fix_parcel : Hashes → Names → Names × ℕ
fix_parcel g c =
    if is_text c.parcel_hash && not (is_text c.parcel_id)
    then elim (named c.parcel_hash g.pid_by_hash) [
      | none ↦ (c, 0)
      | some pid ↦ (record c { parcel_id = pid }, 1)
    ]
    else (c, 0)

pub fix_ez : Hashes → Names → Names
fix_ez g c =
    if is_text c.ez_hash && not (is_text c.ez)
    then elim (named c.ez_hash g.ez_by_hash) [ none ↦ c | some e ↦ record c { ez = e } ]
    else c

pub fix : Hashes → Names → Names × ℕ
unfolding fix_parcel fix_ez
fix g c = let (c', n) = fix_parcel g c in (fix_ez g c', n)

-- The rows of the three lists that `resolveClaims` visits.
pub record Rows : Type 0 where
  pub claimed : List Claim
  pub offers : List Offer
  pub harvest_states : List HarvestState

pub fix_claims : Hashes → List Claim → List Claim × ℕ
unfolding fix
fix_claims g [] = ([], 0)
fix_claims g (c ∷ cs) =
    let (names, n) = fix g c.names in
    let (rest, m) = fix_claims g cs in (record c { names = names } ∷ rest, n + m)

pub fix_offers : Hashes → List Offer → List Offer × ℕ
unfolding fix
fix_offers g [] = ([], 0)
fix_offers g (c ∷ cs) =
    let (names, n) = fix g c.names in
    let (rest, m) = fix_offers g cs in (record c { names = names } ∷ rest, n + m)

pub fix_states : Hashes → List HarvestState → List HarvestState × ℕ
unfolding fix
fix_states g [] = ([], 0)
fix_states g (c ∷ cs) =
    let (names, n) = fix g c.names in
    let (rest, m) = fix_states g cs in (record c { names = names } ∷ rest, n + m)

unfoldable pub resolve_claims : Hashes → Rows → Rows × ℕ
unfolding fix_claims fix_offers fix_states
resolve_claims g r =
    let (claimed, a) = fix_claims g r.claimed in
    let (offers, b) = fix_offers g r.offers in
    let (states, c) = fix_states g r.harvest_states in
    (record { claimed = claimed; offers = offers; harvest_states = states }, a + b + c)
