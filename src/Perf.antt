-- ===== src/Perf.antt =====
-- srv/static/game.js: `PERF`, the two tiers of drawing. Times are whole milliseconds; the averages are fractions, so they
-- are exact.
pub mod Recovery
use siedler_sterreich.Prelude.{
  ℕ, ◌+◌, ◌-◌, ◌*◌, String, Bool, true, false, not, ◌&&◌, ◌||◌, Option, none, some, ltb, leb, ◌==◌,
  str_eq, if◌then◌else◌,
}
use siedler_sterreich.Landuse.Water.{Frac}

-- `PERF.why`
pub data Why : Type 0 where
  nothing hardware reduced_motion build frame recovered : Why

pub record Perf : Type 0 where
  pub forced : Option String
  pub slow : Bool
  pub build_ms : Frac
  pub frame_ms : Frac
  pub fast_builds : ℕ
  pub builds : ℕ
  pub slow_since : ℕ
  pub why : Why

-- `perfSlow`
unfoldable pub perf_slow : Perf → Bool
perf_slow p = elim p.forced [ none ↦ p.slow | some tier ↦ str_eq tier "low" ]

abbrev pub is_tier : String → Bool
is_tier q = str_eq q "low" || str_eq q "high"

abbrev pub fresh : Perf
fresh = record {
  forced = none;
  slow = false;
  build_ms = record { num = 0; den = 1 };
  frame_ms = record { num = 0; den = 1 };
  fast_builds = 0;
  builds = 0;
  slow_since = 0;
  why = nothing;
}

-- `perfInit`, with 4 for a number of cores or an amount of memory that the browser does not tell.
unfoldable pub perf_init : ℕ → ℕ → Bool → Option String → Perf
perf_init cores memory reduced q =
    let weak = leb cores 2 || leb memory 2 in
    record fresh {
      slow = weak || reduced;
      why = if reduced then reduced_motion else if weak then hardware else nothing;
      forced = elim q [ none ↦ none | some tier ↦ if is_tier tier then some tier else none ];
    }

-- `avg ? avg * (1 - share) + ms * share : ms`, where the share is a number of fifths.
unfoldable pub average : ℕ → Frac → ℕ → Frac
average fifths avg ms =
    if avg.num == 0
    then record { num = ms; den = 1 }
    else record { num = (5 - fifths) * avg.num + fifths * ms * avg.den; den = 5 * avg.den }

abbrev pub exceeds : ℕ → Frac → Bool
exceeds limit avg = ltb (limit * avg.den) avg.num

abbrev pub is_reduced : Why → Bool
is_reduced reduced_motion = true
is_reduced _ = false

abbrev pub drop : Why → ℕ → Perf → Perf
drop why now p = record p { slow = true; slow_since = now; why = why; fast_builds = 0 }

-- The count of cheap builds in a row, and the return to the high tier.
unfoldable pub count_fast : ℕ → ℕ → Perf → Perf
count_fast now ms p =
    let fast = if ltb ms 90 then p.fast_builds + 1 else 0 in
    if leb 10 fast && ltb 60000 (now - p.slow_since)
    then record p { fast_builds = fast; slow = false; why = recovered }
    else record p { fast_builds = fast }

-- `perfNoteBuild(ms)`
unfoldable pub perf_note_build : ℕ → ℕ → Perf → Perf
unfolding average count_fast
perf_note_build now ms before =
    let p = record before { builds = before.builds + 1; build_ms = average 2 before.build_ms ms } in
    if not p.slow && leb 2 p.builds && exceeds 450 p.build_ms
    then drop build now p
    else if p.slow && not (is_reduced p.why)
    then count_fast now ms p
    else p

-- `perfNoteFrame(ms)`
unfoldable pub perf_note_frame : ℕ → ℕ → Perf → Perf
unfolding average
perf_note_frame now ms before =
    let p = record before { frame_ms = average 1 before.frame_ms ms } in
    if not p.slow && exceeds 34 p.frame_ms && ltb 34 ms then drop frame now p else p
