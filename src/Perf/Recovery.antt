-- ===== src/Perf/Recovery.antt =====
-- How the page comes back to the high tier.
use siedler_sterreich.Prelude.{
  ℕ, ◌+◌, ◌-◌, ◌≤◌, String, Bool, false, not, ◌&&◌, List, [], ◌∷◌, Option, ltb, leb, ◌≡◌, arith,
  if◌then◌else◌,
}
use siedler_sterreich.Perf.{
  Perf, is_reduced, perf_init, perf_note_build, perf_note_frame, count_fast,
}

-- The builds since the page was opened, the newest first, each with the time that it took.
pub data Reach : Perf → List ℕ → Type 0 where
  opened :
      (cores memory : ℕ) (reduced : Bool) (q : Option String)
      → Reach (perf_init cores memory reduced q) []
  forces :
      (tier : Option String) (p : Perf) (took : List ℕ)
      → Reach p took
      → Reach (record p { forced = tier }) took
  framed :
      (now ms : ℕ) (p : Perf) (took : List ℕ) → Reach p took → Reach (perf_note_frame now ms p) took
  built :
      (now ms : ℕ) (p : Perf) (took : List ℕ)
      → Reach p took
      → Reach (perf_note_build now ms p) (ms ∷ took)

-- The number of cheap builds at the head of a list.
abbrev pub cheap_run : List ℕ → ℕ
cheap_run [] = 0
cheap_run (ms ∷ took) = let rest = cheap_run took in if ltb ms 90 then 1 + rest else 0

abbrev pub counted : Perf → ℕ
counted p = if p.slow && not (is_reduced p.why) then p.fast_builds else 0

framed-counted :
    (now ms : ℕ) (p : Perf) (n : ℕ) → counted p ≤ n → counted (perf_note_frame now ms p) ≤ n
unfolding perf_note_frame
framed-counted now ms p n h = ground (arith, h)

built-counted :
    (now ms : ℕ) (p : Perf) (took : List ℕ)
    → counted p ≤ cheap_run took
    → counted (perf_note_build now ms p) ≤ cheap_run (ms ∷ took)
unfolding perf_note_build count_fast
built-counted now ms p took h = ground (arith, h)

Reach-counted : (p : Perf) (took : List ℕ) → Reach p took → counted p ≤ cheap_run took
unfolding perf_init
Reach-counted _ _ (opened cores memory reduced q) = ground arith
Reach-counted _ _ (forces tier p took r) = Reach-counted p took r
Reach-counted _ _ (framed now ms p took r) =
    framed-counted now ms p (cheap_run took) (Reach-counted p took r)
Reach-counted _ _ (built now ms p took r) = built-counted now ms p took (Reach-counted p took r)

-- What a return to the high tier takes: a run of ten cheap builds, a minute, and motion that is not reduced.
abbrev pub is_earned : ℕ → Perf → List ℕ → Bool
is_earned now p took =
    leb 10 (cheap_run took) && ltb 60000 (now - p.slow_since) && not (is_reduced p.why)

-- A build returns the page to the high tier only at the end of ten builds in a row of less than 90 ms, more than a
-- minute after the drop, and not where motion is reduced; a frame never does.
pub Reach-recovery :
    (now ms : ℕ) (p : Perf) (took : List ℕ)
    → Reach p took
    → ((p.slow && not (perf_note_build now ms p).slow && not (is_earned now p (ms ∷ took))) ≡ false)
      × ((p.slow && not (perf_note_frame now ms p).slow) ≡ false)
unfolding perf_note_build perf_note_frame count_fast
Reach-recovery now ms p took r = (ground (arith, Reach-counted p took r), ground arith)
