-- ===== src/Regrowth/Forest.antt =====
-- srv/static/game.js: `forestStage`. Times are in milliseconds; the source's minutes are exact
-- multiples.
use siedler_sterreich.Prelude.{
  ℕ, ◌+◌, ◌-◌, ◌*◌, ◌≤◌, ◌<◌, min, max, Option, none, some, ltb, ◌≡◌, ◌≢◌, ◌↔◌, arith,
  if◌then◌else◌,
}
use siedler_sterreich.Claims.{Stamp, unset, unreadable, at}

abbrev minute : ℕ
minute = 60000

-- `FOREST`
abbrev pub schlag_ms : ℕ
schlag_ms = 40 * 60000

abbrev pub jung_ms : ℕ
jung_ms = 90 * 60000

abbrev pub stangen_ms : ℕ
stangen_ms = 150 * 60000

abbrev pub full_ms : ℕ
full_ms = 510 * 60000

pub data Stand : Type 0 where
  schlag jungwuchs stangenholz baumholz : Stand

-- `factor` is in parts of `factor_unit`, so that its ramp is exact; the two times are in
-- milliseconds.
pub record ForestStage : Type 0 where
  pub stage : Stand
  pub factor : ℕ
  pub next_in : ℕ
  pub ready_in : ℕ

abbrev pub factor_unit : ℕ
factor_unit = 2 * (full_ms - stangen_ms)

abbrev pub grown : ForestStage
grown = record { stage = baumholz; factor = factor_unit; next_in = 0; ready_in = 0 }

abbrev growing : Stand → ℕ → ℕ → ForestStage
growing stage next ready = record { stage = stage; factor = 0; next_in = next; ready_in = ready }

-- The stand cut at `cut`. A cut in the future counts as a negative age, which is below every limit.
unfoldable pub forest_stage_at : ℕ → ℕ → ForestStage
forest_stage_at cut now =
    if ltb now (cut + schlag_ms)
    then growing schlag (cut + schlag_ms - now) (cut + stangen_ms - now)
    else if ltb now (cut + jung_ms)
    then growing jungwuchs (cut + jung_ms - now) (cut + stangen_ms - now)
    else if ltb now (cut + stangen_ms)
    then growing stangenholz (cut + stangen_ms - now) (cut + stangen_ms - now)
    else record {
      stage = baumholz;
      factor =
          max (full_ms - stangen_ms)
            (min factor_unit (full_ms - stangen_ms + (now - (cut + stangen_ms))));
      next_in = 0;
      ready_in = 0;
    }

unfoldable pub forest_stage : Option Stamp → ℕ → ForestStage
unfolding forest_stage_at
forest_stage none now = grown
forest_stage (some unset) now = grown
forest_stage (some unreadable) now = grown
forest_stage (some (at cut)) now = forest_stage_at cut now

abbrev pub rank : Stand → ℕ
rank schlag = 0
rank jungwuchs = 1
rank stangenholz = 2
rank baumholz = 3

-- A stand never falls back while it is left alone, its timber value never sinks, and it is never
-- worth more than the full value.
pub forest_stage_mono :
    (hv : Option Stamp) (t dt : ℕ)
    → (rank (forest_stage hv t).stage ≤ rank (forest_stage hv (t + dt)).stage)
      × ((forest_stage hv t).factor ≤ (forest_stage hv (t + dt)).factor)
      × ((forest_stage hv t).factor ≤ factor_unit)
unfolding forest_stage
forest_stage_mono none t dt = ground arith
forest_stage_mono (some unset) t dt = ground arith
forest_stage_mono (some unreadable) t dt = ground arith
forest_stage_mono (some (at cut)) t dt = ground arith

-- The two forecasts of a stand that may not be cut yet are exact: it stays in its stage for as long
-- as less than `next_in` has passed and no longer, and it may be cut as soon as `ready_in` has
-- passed and not before. Until then its factor is zero.
pub forest_stage-forecast :
    (cut now dt : ℕ)
    → (forest_stage_at cut now).stage ≢ baumholz
    → (((forest_stage_at cut (now + dt)).stage ≡ (forest_stage_at cut now).stage)
        ↔ (dt < (forest_stage_at cut now).next_in))
      × (((forest_stage_at cut (now + dt)).stage ≡ baumholz)
          ↔ ((forest_stage_at cut now).ready_in ≤ dt))
      × ((forest_stage_at cut now).factor ≡ 0)
unfolding forest_stage_at
forest_stage-forecast cut now dt h = ground arith
