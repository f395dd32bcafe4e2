-- ===== src/Regrowth/Field/Forecast.antt =====
-- The forecast of `fieldStage`: a field is ripe when it says so.
use siedler_sterreich.Prelude.{ℕ, ◌+◌, ◌*◌, ◌≤◌, String, Bool, false, Option, some, ◌≡◌, ◌⊎◌, arith}
use siedler_sterreich.Claims.{Stamp, at}
use siedler_sterreich.Regrowth.Field.{Field, crop_cycle}

-- A harvest is recorded before it is asked for.
abbrev pub Past : Option Stamp → ℕ → Type 0
Past (some (at cut)) now = cut ≤ now
Past _ now = Unit

-- How long it is, by a stage that is not ripe, to the ripe point of this or of the next cycle.
Reaches : ℕ → ℕ → Bool → ℕ → Type 0
Reaches u position cut k = ((position + k ≡ 12 * u) × (cut ≡ false)) ⊎ (position + k ≡ 32 * u)

pub crop_cycle_bounds :
    (crop : String) (kind : ℕ) → (45 ≤ crop_cycle crop kind) × (crop_cycle crop kind ≤ 240)
unfolding crop_cycle
crop_cycle_bounds crop kind = ground arith
