-- ===== src/Grid/Opening.antt =====
-- srv/static/game.js: `fetchKGPolygonsBlocking`, the cells that are loaded while the loading screen shows, and how long
-- it waits for the one in the centre. Times are milliseconds.
use siedler_sterreich.Prelude.{
  ℕ, zero, suc, ◌+◌, ◌*◌, ◌/◌, min, Bool, true, not, ◌&&◌, ◌||◌, List, [], ◌∷◌, Option, ltb, leb,
  ◌==◌, keep_if, if◌then◌else◌,
}
use siedler_sterreich.Geometry.{Ring}
use siedler_sterreich.Grid.{Cell, Box, Camera, cell_of, grid_tiles, tiles_in_austria}
use siedler_sterreich.Grid.Pool.{Running, run_pool}

-- `budgetMs || 6000`
abbrev pub budget_or : ℕ → ℕ
budget_or budget_ms = if budget_ms == 0 then 6000 else budget_ms

-- `Math.min(70, 40 + 30 * elapsed / budget)`, in hundredths.
abbrev pub progress : ℕ → ℕ → ℕ
progress budget elapsed = min 7000 (4000 + 3000 * elapsed / budget)

-- How the wait ended, after what time, and what the bar of progress showed meanwhile.
pub record Waited : Type 0 where
  pub elapsed : ℕ
  pub is_ready : Bool
  pub bar : List ℕ

-- The loop from a time on: `done` says whether the load has come back by a time, `ready` whether the cell is ready, and
-- `late` is what the timer of a round adds to its 150 ms.
unfoldable pub wait_rounds : (ℕ → Bool) → (ℕ → Bool) → (ℕ → ℕ) → ℕ → ℕ → ℕ → Waited
wait_rounds done ready late budget zero elapsed = record {
  elapsed = elapsed;
  is_ready = ready elapsed;
  bar = [];
}
wait_rounds done ready late budget (suc rounds) elapsed =
    let now = elapsed + 150 + late elapsed in
    let rest = wait_rounds done ready late budget rounds now in
    if not (done elapsed) && ltb elapsed budget
    then if ready now
      then record { elapsed = now; is_ready = true; bar = [] }
      else record rest { bar = progress budget now ∷ rest.bar }
    else record { elapsed = elapsed; is_ready = ready elapsed; bar = [] }

-- A round takes 150 ms or more, so that this many are enough.
abbrev pub rounds_of : ℕ → ℕ
rounds_of budget = budget / 150 + 1

unfoldable pub wait_for_centre : (ℕ → Bool) → (ℕ → Bool) → (ℕ → ℕ) → ℕ → Waited
unfolding wait_rounds
wait_for_centre done ready late budget_ms =
    wait_rounds done ready late (budget_or budget_ms) (rounds_of (budget_or budget_ms)) 0

-- The cells of the first screen, and those that come after the centre, four at a time.
unfoldable pub opening_ring : Option (List Ring) → Camera → Box → List Cell
unfolding tiles_in_austria grid_tiles
opening_ring border cam view = tiles_in_austria border (grid_tiles cam view 6)

abbrev pub same_cell : Cell → Cell → Bool
same_cell c d = c.i == d.i && c.j == d.j

unfoldable pub neighbours : Camera → List Cell → List Cell
unfolding cell_of
neighbours cam ring = keep_if (λ (c : Cell). not (same_cell c (cell_of cam.lon cam.lat))) ring

unfoldable pub load_neighbours : Option (List Ring) → Camera → Box → Running Cell
unfolding opening_ring neighbours run_pool
load_neighbours border cam view = run_pool 4 (neighbours cam (opening_ring border cam view))

-- The loop has ended as the source's does.
abbrev pub is_over : (ℕ → Bool) → ℕ → Waited → Bool
is_over done budget w = w.is_ready || done w.elapsed || leb budget w.elapsed
