-- ===== src/Cadastre/Load/Retry/Bounded.antt =====
-- A cell that never becomes ready is not polled for ever.
use siedler_sterreich.Prelude.{
  ℕ, zero, suc, ◌+◌, ◌≤◌, ◌<◌, String, Bool, true, false, if◌then◌else◌, ◌≡◌, ◌≢◌, refl, arith,
  lookup-insert, str_eq_refl, remove, subst, sym,
}
use siedler_sterreich.Cadastre.Rows.{Reply}
use siedler_sterreich.Cadastre.Merge.Unique.{IsMerged, IsMerged-same}
use siedler_sterreich.Cadastre.Load.{Outcome, note, load_viewport_geometry}
use siedler_sterreich.Cadastre.Load.Laws.{load_viewport_geometry-IsMerged}
use siedler_sterreich.Cadastre.Load.Retry.{
  Session, Next, settled, gave_up, retry_in, tries_of, wait_ms, layer_retry_ms, pace,
  load_tile_resilient, Round, End, finished, abandoned, off_screen, out_of_fuel, poll, note_tries,
}

-- A round that arranges another one has counted a try, and there are at most ten.
record Counts (key : String) (s : Session) (r : Session × Next) : Type 0 where
  try :
      (wait : ℕ)
      → r.1 ≡ retry_in wait
      → (tries_of key r.0.vp_retries ≡ tries_of key s.vp_retries + 1)
        × (tries_of key s.vp_retries < 10)

pace-Counts :
    (key : String) (res : Outcome) (jitter : ℕ) (s : Session) → Counts key s (pace key res jitter s)
unfolding pace
pace-Counts key res jitter s = record {
  try = λ wait h. ground (
    arith,
    lookup-insert key key (tries_of key s.vp_retries + 1) s.vp_retries,
    str_eq_refl key,
    h,
  );
}

-- The tenth and every earlier try of a cell waits at least one second and less than 215, and at most
-- 15 seconds unless the data service is down, when it waits at least 15: the jitter is less than ten
-- seconds.
pub wait_ms_bounds :
    (res : Outcome) (tries jitter : ℕ)
    → tries < 10
    → jitter < 10000
    → (1000 ≤ wait_ms res tries jitter)
      × (wait_ms res tries jitter < 215000)
      × (if res.down then 15000 ≤ wait_ms res tries jitter else wait_ms res tries jitter ≤ 15000)
unfolding wait_ms layer_retry_ms
wait_ms_bounds res tries jitter h k = ground arith

pace-IsMerged :
    (key : String) (res : Outcome) (jitter : ℕ) (s : Session)
    → IsMerged s.store
    → IsMerged (pace key res jitter s).0.store
unfolding pace note_tries note
pace-IsMerged key res jitter s m = IsMerged-same {g = s.store} (ground arith) (ground arith) m

load_tile_resilient-Counts :
    (key : String) (reply : Reply) (jitter : ℕ) (s : Session)
    → Counts key s (load_tile_resilient key reply jitter s)
unfolding load_tile_resilient
load_tile_resilient-Counts key reply jitter s = record {
  try =
      (pace-Counts key (load_viewport_geometry false key reply s.store).1 jitter
        (record s { store = (load_viewport_geometry false key reply s.store).0 })).try;
}

load_tile_resilient-IsMerged :
    (key : String) (reply : Reply) (jitter : ℕ) (s : Session)
    → IsMerged s.store
    → IsMerged (load_tile_resilient key reply jitter s).0.store
unfolding load_tile_resilient
load_tile_resilient-IsMerged key reply jitter s m =
    pace-IsMerged key (load_viewport_geometry false key reply s.store).1 jitter
      (record s { store = (load_viewport_geometry false key reply s.store).0 })
      (load_viewport_geometry-IsMerged false key reply s.store m)

-- A run of rounds ends, and leaves the parcels listed once each.
record Ends (r : Session × End) : Type 0 where
  ends : r.1 ≢ out_of_fuel
  merged : IsMerged r.0.store

next_Ends :
    (r : Session × Next) (rest : Session × End) (on_screen : Bool) (gone : Session)
    → IsMerged r.0.store
    → gone.store ≡ r.0.store
    → ((wait : ℕ) → r.1 ≡ retry_in wait → Ends rest)
    → Ends (elim r.1 [
      | settled ↦ (r.0, finished)
      | gave_up ↦ (r.0, abandoned)
      | retry_in wait ↦ if on_screen then rest else (gone, off_screen)
    ])
next_Ends (s, settled) rest on_screen gone m e h = record { ends = cc; merged = m }
next_Ends (s, gave_up) rest on_screen gone m e h = record { ends = cc; merged = m }
next_Ends (s, retry_in wait) rest true gone m e h = h wait refl
next_Ends (s, retry_in wait) rest false gone m e h = record {
  ends = cc;
  merged = subst IsMerged (sym e) m;
}

poll_step :
    (fuel : ℕ) (rounds : ℕ → Round) (i : ℕ) (key : String) (s : Session)
    → IsMerged s.store
    → (let r = load_tile_resilient key (rounds i).reply (rounds i).jitter s in
        tries_of key s.vp_retries < 10
        → tries_of key r.0.vp_retries ≡ tries_of key s.vp_retries + 1
        → IsMerged r.0.store
        → Ends (poll fuel rounds (i + 1) key r.0))
    → Ends (poll (suc fuel) rounds i key s)
unfolding poll
poll_step fuel rounds i key s m later =
    let r = load_tile_resilient key (rounds i).reply (rounds i).jitter s in
    let c = load_tile_resilient-Counts key (rounds i).reply (rounds i).jitter s in
    let m' = load_tile_resilient-IsMerged key (rounds i).reply (rounds i).jitter s m in
    next_Ends r (poll fuel rounds (i + 1) key r.0) (rounds i).on_screen
      (record r.0 { vp_retries = remove key r.0.vp_retries }) m' refl
      (λ wait h. let t = c.try wait h in later t.1 t.0 m')

poll-Ends_from :
    (fuel : ℕ) (rounds : ℕ → Round) (i : ℕ) (key : String) (s : Session)
    → 11 ≤ suc fuel + tries_of key s.vp_retries
    → IsMerged s.store
    → Ends (poll (suc fuel) rounds i key s)
poll-Ends_from zero rounds i key s enough m =
    poll_step zero rounds i key s m (λ few _ _. absurd (omega (arith, enough, few)))
poll-Ends_from (suc fuel) rounds i key s enough m =
    poll_step (suc fuel) rounds i key s m
      (λ few more m'. poll-Ends_from fuel rounds (i + 1) key _ (omega (arith, enough, more)) m')

-- From a store where every parcel is listed once, whatever the replies, jitters and camera moves are,
-- and however many tries the cell has had, the rounds of a cell end after at most eleven calls: it is
-- loaded, given up, or off the screen, and every parcel is still listed once.
pub poll-ends :
    (rounds : ℕ → Round) (key : String) (s : Session)
    → IsMerged s.store
    → ((poll 11 rounds 0 key s).1 ≢ out_of_fuel) × IsMerged (poll 11 rounds 0 key s).0.store
poll-ends rounds key s m =
    let e = poll-Ends_from 10 rounds 0 key s (omega arith) m in (e.ends, e.merged)
