-- ===== src/Beacon.antt =====
-- srv/static/game.js: `BEACON`, the arbiter that lets one hint beacon at a time onto the screen.
pub mod Paced
pub mod Turns
use siedler_sterreich.Prelude.{
  ℕ, ◌+◌, ◌-◌, ◌*◌, min, String, Bool, true, false, not, ◌&&◌, ◌||◌, List, [], ◌∷◌, Option, none,
  some, leb, ltb, ◌==◌, str_eq, length, has, add, if◌then◌else◌,
}

-- `asked` is a set in the order of the asking.
pub record Beacon : Type 0 where
  pub cur : Option String
  pub since : ℕ
  pub last : Option String
  pub gap_until : ℕ
  pub asked : List String
  pub n : ℕ
  pub rounds : ℕ

abbrev pub show : ℕ
show = 12000

-- `beaconGap`
abbrev pub beacon_gap : ℕ → ℕ
beacon_gap rounds = min 25000 (5000 + rounds * 4000)

abbrev pub is : String → Option String → Bool
is id none = false
is id (some c) = str_eq c id

unfoldable pub any_other : String → List String → Bool
any_other id [] = false
any_other id (a ∷ s) = not (str_eq a id) || any_other id s

-- The first that is not the last one on show, or else the first of all.
unfoldable pub first_other : Option String → List String → Option String
first_other last [] = none
first_other last (a ∷ s) = let rest = first_other last s in if is a last then rest else some a

unfoldable pub first_of : List String → Option String
first_of [] = none
first_of (a ∷ s) = some a

unfoldable pub next_beacon : Option String → List String → Option String
unfolding first_other first_of
next_beacon last asked = elim (first_other last asked) [ none ↦ first_of asked | some a ↦ some a ]

-- The beacon on show asks no more.
unfoldable pub drop_silent : ℕ → Beacon → Beacon
unfolding has
drop_silent now b = elim b.cur [
  | none ↦ b
  | some c ↦
      if has c b.asked then b else record b { last = some c; cur = none; gap_until = now + 1500 }
]

-- Its time is up and another one asks.
unfoldable pub hand_over : ℕ → Beacon → Beacon
unfolding any_other
hand_over now b = elim b.cur [
  | none ↦ b
  | some c ↦
      if ltb show (now - b.since) && any_other c b.asked
      then record b {
        last = some c;
        cur = none;
        rounds = b.rounds + 1;
        gap_until = now + beacon_gap (b.rounds + 1);
      }
      else b
]

-- The gap is over and one asks.
unfoldable pub bring_next : ℕ → Beacon → Beacon
unfolding next_beacon
bring_next now b = elim b.cur [
  | some c ↦ b
  | none ↦
      if leb b.gap_until now
      then elim (next_beacon b.last b.asked) [
        | none ↦ b
        | some a ↦ record b { cur = some a; since = now }
      ]
      else b
]

-- `beaconFrameBegin`
unfoldable pub beacon_frame_begin : ℕ → Beacon → Beacon
unfolding drop_silent hand_over bring_next
beacon_frame_begin now b =
    let c = bring_next now (hand_over now (drop_silent now b)) in
    record c { n = length b.asked; asked = [] }

-- `beaconTurn(id)`; the opacity is in 1440000ths, and the camera last moved at `moved`.
unfoldable pub beacon_turn : String → ℕ → ℕ → Beacon → Beacon × ℕ
unfolding add
beacon_turn id moved now b =
    let age = now - b.since in
    let fade_in = min 1200 age * 2 in
    let fade_out = if leb b.n 1 then 2400 else min 800 (show + 400 - age) * 3 in
    let settled = min 600 (now - moved - 700) in
    (record b { asked = add id b.asked }, if is id b.cur then min fade_in fade_out * settled else 0)
