-- ===== src/Regrowth/Field.antt =====
-- srv/static/game.js: the crop cycle, `fieldKindFor`, `cropCycleS` and `fieldStage`. Times are in
-- milliseconds; positions in the cycle are the source's `t` times the cycle's length.
pub mod Forecast
use siedler_sterreich.Prelude.{
  ℕ, zero, suc, ◌+◌, ◌-◌, ◌*◌, ◌/◌, ◌%◌, String, Bool, true, false, ◌||◌, not, List, [], ◌∷◌,
  Option, none, some, ltb, leb, ◌==◌, str_eq, lookup, or_else, if◌then◌else◌, Text,
}
use siedler_sterreich.Claims.{Stamp, unset, unreadable, at, Claim, HarvestState, harvest_of}
use siedler_sterreich.Regrowth.Hash.{simple_hash, hash_mix}

-- `CROP_GROUPS`, the kinds only: 0 to 2 are crops, 3 is a meadow.
unfoldable pub crop_kinds : List (String × ℕ)
crop_kinds =
    ("getreide", 0)
    ∷ ("mais", 1)
    ∷ ("sonst", 1)
    ∷ ("obst", 2)
    ∷ ("wein", 2)
    ∷ ("gruenland", 3)
    ∷ ("alm", 3)
    ∷ ("brache", 3)
    ∷ []

-- `CROP_CYCLE_MIN`
unfoldable pub crop_cycle_min : List (String × ℕ)
crop_cycle_min =
    ("getreide", 60) ∷ ("mais", 90) ∷ ("sonst", 45) ∷ ("obst", 180) ∷ ("wein", 240) ∷ []

-- What the cycle reads of a parcel. `schlag` is the crop group of the INVEKOS field that covers it.
pub record Field : Type 0 where
  pub parcel_id : String
  pub id_units : Text
  pub schlag : Option String

unfoldable pub field_kind : ℕ → ℕ
field_kind hash = hash % 4

unfoldable pub field_kind_for : Field → ℕ → ℕ
unfolding field_kind lookup crop_kinds
field_kind_for p hash = elim p.schlag [
  | none ↦ field_kind hash
  | some crop ↦ or_else (lookup crop crop_kinds) (field_kind hash)
]

-- `cropCycleS`, in minutes.
unfoldable pub crop_cycle : String → ℕ → ℕ
unfolding lookup crop_cycle_min
crop_cycle crop kind =
    or_else (lookup crop crop_cycle_min) (if kind == 1 then 90 else if kind == 2 then 150 else 60)

abbrev pub parcel_crop : Field → String
parcel_crop p = or_else p.schlag ""

pub data Stage : Type 0 where
  fallow meadow ploughed growing ripe stubble : Stage

-- `ripe_in` and `ripe_left` are in milliseconds, before the source rounds them to seconds.
pub record FieldStage : Type 0 where
  pub kind : ℕ
  pub stage : Stage
  pub position : ℕ
  pub ripe_in : ℕ
  pub ripe_left : ℕ
  pub harvested : Bool
  pub cycle : ℕ

-- `Math.round(ms / 1000)`
abbrev pub round_s : ℕ → ℕ
round_s ms = (ms + 500) / 1000

abbrev pub resting : ℕ → Stage → FieldStage
resting kind stage = record {
  kind = kind;
  stage = stage;
  position = 0;
  ripe_in = 0;
  ripe_left = 0;
  harvested = false;
  cycle = 3600000;
}

-- `Date.parse(hv.harvested_at) / 1000 >= cycleStart`
abbrev pub cut_since : Option Stamp → ℕ → ℕ → Bool
cut_since (some (at cut)) now position = leb now (cut + position)
cut_since _ now position = false

abbrev pub stage_of : ℕ → ℕ → Bool → Stage
stage_of position cycle true = stubble
stage_of position cycle false =
    if ltb (10 * position) (3 * cycle)
    then ploughed
    else if ltb (10 * position) (6 * cycle)
    then growing
    else if ltb (100 * position) (85 * cycle)
    then ripe
    else stubble

abbrev is_ripe : Stage → Bool
is_ripe ripe = true
is_ripe _ = false

-- The stage at a position of a cycle.
unfoldable pub cycle_stage : ℕ → ℕ → ℕ → Bool → FieldStage
cycle_stage kind cycle position harvested =
    let stage = stage_of position cycle harvested in
    let ripe_at =
      if leb (85 * cycle) (100 * position) || harvested then 16 * cycle / 10 else 6 * cycle / 10 in
    record {
      kind = kind;
      stage = stage;
      position = position;
      ripe_in = if is_ripe stage then 0 else ripe_at - position;
      ripe_left = if is_ripe stage then 85 * cycle / 100 - position else 0;
      harvested = harvested;
      cycle = cycle;
    }

-- The field worked with a cycle of `cycle` and a phase shift of `phase`.
unfoldable pub crop_stage : ℕ → ℕ → ℕ → Option Stamp → ℕ → FieldStage
crop_stage kind cycle phase hv now =
    let position = (now + phase) % cycle in
    cycle_stage kind cycle position (cut_since hv now position)

-- `FIELD_CYCLE_S` seconds, by the parcel's hash.
abbrev pub phase_of : ℕ → ℕ
phase_of hash = hash_mix hash % 3600 * 1000

abbrev pub is_converted : Option Claim → Bool
is_converted none = false
is_converted (some c) = not (str_eq c.converted_to "")

unfoldable pub field_stage : List HarvestState → Field → Option Claim → ℕ → FieldStage
field_stage states p claim now =
    let hash = simple_hash p.id_units in
    let kind = field_kind_for p hash in
    if is_converted claim
    then resting kind fallow
    else if kind == 3
    then resting kind meadow
    else crop_stage kind (crop_cycle (parcel_crop p) kind * 60000) (phase_of hash)
        (harvest_of states p.parcel_id claim) now
