-- ===== src/Treasures.antt =====
-- srv/static/game.js: the treasures that can be found (`treasureGone`, `unfoundTreasures`) and how often the server is
-- asked for new ones nearby (`maybeRoamTreasures`). Times are milliseconds since 1970.
use siedler_sterreich.Prelude.{
  ℕ, ◌+◌, ◌-◌, String, Bool, true, false, not, ◌&&◌, List, Option, none, some, ltb, str_eq, keep_if,
  if◌then◌else◌,
}
use siedler_sterreich.Claims.{Stamp, unset, unreadable, at}

pub record Treasure : Type 0 where
  pub id : String
  pub treasure_type : String
  pub created_at : Stamp
  pub found_by : Option String

-- `ROAMING_LIFETIME_MS`
abbrev pub roaming_lifetime : ℕ
roaming_lifetime = 2700000

abbrev pub older_than : ℕ → ℕ → Stamp → Bool
older_than age now unset = false
older_than age now unreadable = false
older_than age now (at t) = ltb age (now - t)

unfoldable pub treasure_gone : ℕ → Treasure → Bool
treasure_gone now t =
    str_eq t.treasure_type "roaming" && older_than roaming_lifetime now t.created_at

abbrev pub is_found : Option String → Bool
is_found none = false
is_found (some player) = not (str_eq player "")

unfoldable pub unfound_treasures : ℕ → List Treasure → List Treasure
unfolding treasure_gone
unfound_treasures now ts =
    keep_if (λ (t : Treasure). not (is_found t.found_by) && not (treasure_gone now t)) ts

-- `_roamAskedAt` and `_roamKey`
pub record Roam : Type 0 where
  pub asked_at : ℕ
  pub key : String

abbrev pub is_near : Option ℕ → Bool
is_near none = false
is_near (some nearest_m) = ltb nearest_m 2500

-- The guards of `maybeRoamTreasures`: `busy` is a game without a session or player, or a river trip.
unfoldable pub may_roam : Bool → Option ℕ → ℕ → String → Roam → Bool
may_roam busy nearest_m now key r =
    not busy
    && not (is_near nearest_m)
    && not (str_eq key r.key && ltb (now - r.asked_at) 150000)
    && not (ltb (now - r.asked_at) 20000)

-- `maybeRoamTreasures(nearestM)` in the cell `key`, and whether it asks.
unfoldable pub maybe_roam_treasures : Bool → Option ℕ → ℕ → String → Roam → Roam × Bool
unfolding may_roam
maybe_roam_treasures busy nearest_m now key r =
    if may_roam busy nearest_m now key r
    then (record { asked_at = now; key = key }, true)
    else (r, false)

-- The reply to a request of the time `asked`: a cell that is still being made may be asked for again in 8 s.
unfoldable pub roam_reply : ℕ → Bool → Roam → Roam
roam_reply asked pending r = if pending then record r { asked_at = asked - 150000 + 8000 } else r
