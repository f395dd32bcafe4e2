-- ===== src/Cadastre/Load/Retry.antt =====
-- The pacing around a cell: `layerRetryMs` and `loadTileResilient`. Times are in milliseconds.
pub mod Bounded
use siedler_sterreich.Prelude.{
  ℕ, zero, suc, ◌+◌, ◌*◌, min, max, String, Bool, true, false, ◌&&◌, List, Option, none, some, ltb,
  ◌==◌, lookup, insert, remove, or_else, if◌then◌else◌,
}
use siedler_sterreich.Cadastre.Rows.{Reply}
use siedler_sterreich.Cadastre.Store.{Store, CellNote, gaveup, unnoted}
use siedler_sterreich.Cadastre.Load.{Outcome, note, load_viewport_geometry}

-- `n || d` for a number that may be absent.
abbrev pub number_or : Option ℕ → ℕ → ℕ
number_or none d = d
number_or (some n) d = if n == 0 then d else n

-- `layerRetryMs(data, attempt)`; `jitter` is `Math.random() * 10 * 1000`.
unfoldable pub layer_retry_ms : Bool → Option ℕ → ℕ → ℕ → ℕ
layer_retry_ms is_down retry attempt jitter =
    if is_down
    then (min (max (number_or retry 30) 10) 200 + 5) * 1000 + jitter
    else min (max (number_or retry 4) 3) 30 * 1000 * attempt

-- The store and `_vpRetries`.
pub record Session : Type 0 where
  pub store : Store
  pub vp_retries : List (String × ℕ)

-- What a round arranges: nothing more, another call after a wait, or no further call.
pub data Next : Type 0 where
  settled gave_up : Next
  retry_in : ℕ → Next

abbrev pub tries_of : String → List (String × ℕ) → ℕ
tries_of key retries = or_else (lookup key retries) 0

-- `const max`
abbrev pub max_tries : Outcome → ℕ
max_tries res = if res.down then 4 else 10

pub wait_ms : Outcome → ℕ → ℕ → ℕ
unfolding layer_retry_ms
wait_ms res tries jitter =
    if res.down
    then layer_retry_ms true res.retry_after 1 jitter
    else if ltb 0 (or_else res.retry_after 0)
    then min (or_else res.retry_after 0) 12 * 1000
    else 1500 * (tries + 1)

-- `cellNote(c, { tries })`
note_tries : String → ℕ → Store → Store
unfolding lookup insert
note_tries key n g = record g {
  cell_state = insert key (patched (lookup key g.cell_state)) g.cell_state;
}
  where
    patched : Option CellNote → CellNote
    patched none = record { status = unnoted; xcache = ""; parcels = 0; tries = n }
    patched (some st) = record st { tries = n }

-- Behind the call: a cell that is not ready is called again, up to its number of tries.
pub pace : String → Outcome → ℕ → Session → Session × Next
unfolding wait_ms note_tries note
pace key res jitter s =
    if res.cached
    then (s, settled)
    else if res.ready
    then (record s { vp_retries = remove key s.vp_retries }, settled)
    else if ltb (tries_of key s.vp_retries) (max_tries res)
    then (
      record {
        store = note_tries key (tries_of key s.vp_retries + 1) s.store;
        vp_retries = insert key (tries_of key s.vp_retries + 1) s.vp_retries;
      },
      retry_in (wait_ms res (tries_of key s.vp_retries) jitter),
    )
    else (record s { store = note key gaveup none none s.store }, gave_up)

-- One round of `loadTileResilient`.
pub load_tile_resilient : String → Reply → ℕ → Session → Session × Next
unfolding pace
load_tile_resilient key reply jitter s =
    let loaded = load_viewport_geometry false key reply s.store in
    pace key loaded.1 jitter (record s { store = loaded.0 })

-- What the rounds of a cell meet: the reply, the jitter, and whether the cell is still on screen when
-- the timer fires.
pub record Round : Type 0 where
  pub reply : Reply
  pub jitter : ℕ
  pub on_screen : Bool

-- How a cell's rounds end. `out_of_fuel` is no end.
pub data End : Type 0 where
  finished abandoned off_screen out_of_fuel : End

-- The rounds of a cell, while nothing else touches it: the timer's callback calls again unless the
-- cell has left the screen.
pub poll : ℕ → (ℕ → Round) → ℕ → String → Session → Session × End
unfolding load_tile_resilient
poll zero rounds i key s = (s, out_of_fuel)
poll (suc fuel) rounds i key s =
    let r = load_tile_resilient key (rounds i).reply (rounds i).jitter s in
    let rest = poll fuel rounds (i + 1) key r.0 in
    elim r.1 [
      | settled ↦ (r.0, finished)
      | gave_up ↦ (r.0, abandoned)
      | retry_in wait ↦
          if (rounds i).on_screen
          then rest
          else (record r.0 { vp_retries = remove key r.0.vp_retries }, off_screen)
    ]
