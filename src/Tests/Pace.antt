-- ===== src/Tests/Pace.antt =====
-- Outages, slow builds, a parcel that is looked for, and the loading screen.
use siedler_sterreich.Prelude.{
  ℕ, zero, suc, Option, some, ◌≤◌, ◌<◌, Bool, true, false, not, ◌&&◌, [], ◌∷◌, none, leb, ◌≡◌,
  if◌then◌else◌,
}
use siedler_sterreich.Perf.{Perf, perf_init, perf_note_build, perf_note_frame}
use siedler_sterreich.Perf.Recovery.{opened, is_earned, Reach-recovery}
use siedler_sterreich.Upstream.{note_upstream_down}
use siedler_sterreich.Upstream.Spaced.{are_spaced, quiet, told, Reach-are_spaced}
use siedler_sterreich.Api.{Exchange, Run, accepted, answered, get}
use siedler_sterreich.Search.Parcel.{FindReply, pending, total, resolve_parcel_intent}
use siedler_sterreich.Search.Parcel.Requests.{requests_in, waited_in, resolve_parcel_intent-InTime}

abbrev slow_page : Perf
slow_page = perf_init 2 8 false none

Reach-recovery_example :
    ((slow_page.slow
        && not (perf_note_build 90000 40 slow_page).slow
        && not (is_earned 90000 slow_page (40 ∷ [])))
      ≡ false)
    × ((slow_page.slow && not (perf_note_frame 90000 40 slow_page).slow) ≡ false)
unfolding perf_init
Reach-recovery_example = Reach-recovery 90000 40 slow_page [] (opened 2 8 false none)

Reach-are_spaced_example : are_spaced (if true then 400000 ∷ [] else []) ≡ true
unfolding note_upstream_down
Reach-are_spaced_example =
    Reach-are_spaced (note_upstream_down 400000 "cadastre" 20 []).0 _
      (told 400000 20 "cadastre" [] [] quiet)

-- Each call of `GET` is told twice to come back, and then that the search goes on.
abbrev patient : ℕ → ℕ → Exchange ℕ
patient i zero = record { response = accepted none 0 5; took = 200 }
patient i (suc zero) = record { response = accepted (some 1) 20 0; took = 200 }
patient i _ = record { response = answered 7; took = 100 }

abbrev goes_on : ℕ → Option (Run ℕ) → FindReply × ℕ
goes_on i r = (pending 9, 17500)

resolve_parcel_intent-InTime_example :
    ((resolve_parcel_intent none (λ i. goes_on i (get (patient i)))).asked ≤ 20)
    × (total (resolve_parcel_intent none (λ i. goes_on i (get (patient i)))).waits < 66000)
    × (requests_in patient (resolve_parcel_intent none (λ i. goes_on i (get (patient i)))).asked
        ≤ 180)
    × (waited_in patient (resolve_parcel_intent none (λ i. goes_on i (get (patient i)))).asked
        ≤ 900000)
resolve_parcel_intent-InTime_example = resolve_parcel_intent-InTime none patient goes_on

abbrev never : ℕ → Bool
never t = false

abbrev after_2_s : ℕ → Bool
after_2_s t = leb 2000 t
