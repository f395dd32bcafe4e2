-- ===== src/Search/Parcel.antt =====
-- srv/static/game.js: what choosing a parcel does (`resolveParcelIntent`, `selectParcelWhenLoaded`). Times are milliseconds.
pub mod Requests
use siedler_sterreich.Prelude.{
  ℕ, zero, suc, ◌+◌, ◌*◌, ◌≤◌, ◌<◌, min, max, Bool, true, List, [], ◌∷◌, Option, none, some, ltb,
  ◌==◌, arith, if_split, if◌then◌else◌,
}
use siedler_sterreich.Geometry.{LonLat}

-- What a call of `GET` for `/api/parcel-find` gives, as the loop tells them apart; 0 is no time to retry.
pub data FindReply : Type 0 where
  found : LonLat → FindReply
  pending : (retry_s : ℕ) → FindReply
  down other : FindReply

pub data Resolved : Type 0 where
  place : LonLat → Resolved
  missing unreachable : Resolved

-- The result, with the number of calls of `GET` and the waits between them; the requests and waits of `GET` itself are
-- those of `Api`, and a call takes as long as they do.
pub record Search : Type 0 where
  pub result : Resolved
  pub asked : ℕ
  pub waits : List ℕ

abbrev pub retry_ms : ℕ → ℕ
retry_ms retry_s = min (max (if retry_s == 0 then 2 else retry_s) 1) 6 * 1000

abbrev pub ended : Resolved → Search
ended result = record { result = result; asked = 1; waits = [] }

abbrev pub give_up : Search
give_up = record { result = missing; asked = 0; waits = [] }

abbrev pub after_wait : ℕ → Search → Search
after_wait wait s = record s { asked = 1 + s.asked; waits = wait ∷ s.waits }

-- A round's end: `next` goes on after a wait.
abbrev pub answered : FindReply → (ℕ → Search) → Search
answered (found p) next = ended (place p)
answered (pending retry_s) next = after_wait (retry_ms retry_s) (next (retry_ms retry_s))
answered down next = ended unreachable
answered other next = ended missing

-- The loop from its round `i` on: the replies with the times that they take, the rounds that are left, and the time since
-- the first.
unfoldable pub find_parcel : (ℕ → FindReply × ℕ) → ℕ → ℕ → ℕ → Search
find_parcel replies i zero elapsed = give_up
find_parcel replies i (suc left) elapsed =
    if ltb elapsed 60000
    then answered (replies i).0
        (λ wait. find_parcel replies (i + 1) left (elapsed + (replies i).1 + wait))
    else give_up

-- `resolveParcelIntent`: a parcel that is loaded needs no call.
unfoldable pub resolve_parcel_intent : Option LonLat → (ℕ → FindReply × ℕ) → Search
unfolding find_parcel
resolve_parcel_intent (some p) replies = record { result = place p; asked = 0; waits = [] }
resolve_parcel_intent none replies = find_parcel replies 0 20 0

abbrev pub total : List ℕ → ℕ
total [] = 0
total (t ∷ ts) = t + total ts

-- At most so many calls of `GET`, and waits between them that end before the 66th second.
abbrev pub EndsBy : ℕ → ℕ → Search → Type 0
EndsBy left elapsed s = (s.asked ≤ left) × (elapsed + total s.waits < max (elapsed + 1) 66000)

answered-EndsBy :
    (reply : FindReply) (next : ℕ → Search) (took left elapsed : ℕ)
    → elapsed < 60000
    → ((wait : ℕ) → EndsBy left (elapsed + took + wait) (next wait))
    → EndsBy (suc left) elapsed (answered reply next)
answered-EndsBy (found p) next took left elapsed lt h = (omega arith, omega arith)
answered-EndsBy down next took left elapsed lt h = (omega arith, omega arith)
answered-EndsBy other next took left elapsed lt h = (omega arith, omega arith)
answered-EndsBy (pending retry_s) next took left elapsed lt h =
    let e = h (retry_ms retry_s) in (omega (arith, e.0), ground (arith, lt, e.1))

find_parcel-EndsBy :
    (replies : ℕ → FindReply × ℕ) (i left elapsed : ℕ)
    → EndsBy left elapsed (find_parcel replies i left elapsed)
unfolding find_parcel
find_parcel-EndsBy replies i zero elapsed = (omega arith, omega arith)
find_parcel-EndsBy replies i (suc left) elapsed =
    if_split {A = Search} (EndsBy (suc left) elapsed) (ltb elapsed 60000)
      (λ e.
        answered-EndsBy (replies i).0
          (λ wait. find_parcel replies (i + 1) left (elapsed + (replies i).1 + wait)) (replies i).1
          left elapsed (ground (arith, e))
          (λ wait. find_parcel-EndsBy replies (i + 1) left (elapsed + (replies i).1 + wait)))
      (λ _. (omega arith, omega arith))

-- Whatever the calls of `GET` give and however long they take, the search for a parcel ends after at most twenty of them,
-- and its waits between them are together shorter than 66 s.
pub resolve_parcel_intent-ends :
    (loaded : Option LonLat) (replies : ℕ → FindReply × ℕ)
    → ((resolve_parcel_intent loaded replies).asked ≤ 20)
      × (total (resolve_parcel_intent loaded replies).waits < 66000)
unfolding resolve_parcel_intent
resolve_parcel_intent-ends (some p) replies = (omega arith, omega arith)
resolve_parcel_intent-ends none replies =
    let e = find_parcel-EndsBy replies 0 20 0 in (e.0, ground (arith, e.1))

-- `selectParcelWhenLoaded(pid, tries)`: whether the parcel is selected, and after how many waits of 400 ms; `loaded` tells
-- of each look whether it is there by then.
unfoldable pub select_when_loaded : (ℕ → Bool) → ℕ → ℕ → Bool × ℕ
select_when_loaded loaded i zero = (loaded i, 0)
select_when_loaded loaded i (suc tries) =
    let (selected, waits) = select_when_loaded loaded (i + 1) tries in
    if loaded i then (true, 0) else (selected, suc waits)
