-- ===== src/Relief/Steps.antt =====
-- All events of the tile queue, in any order. A tile is an object of the map, told apart by its number; a look-up in a
-- full map may make another object with the same z, x and y.
use siedler_sterreich.Prelude.{
  ℕ, ◌+◌, ◌≤◌, Bool, true, false, List, [], ◌∷◌, Option, none, some, is_some, ◌≡◌, ◌⊎◌, inl, inr,
  refl, arith, ltb, ◌==◌, length, if_split,
}
use siedler_sterreich.Relief.{Tile, TileRange, Tileq, idle}
use siedler_sterreich.Relief.Picture.{Pixel, decode}
use siedler_sterreich.Relief.Queue.{
  put, drop_far, sort_by_distance, is_queued, is_loading, count, relief_tile, begin_fetch, launch,
  fetch_near, tile_pump, is_waiting, max_inflight,
}
use siedler_sterreich.Relief.Queue.Laws.{one_if, IsCounted, tile_pump-IsCounted}
use siedler_sterreich.Relief.Queue.Look.{relief_tile-IsCounted}
use siedler_sterreich.Relief.Fetch.{
  Answer, picture, tainted, no_picture, no_content, throttled, refused, thrown, decoded,
  answered_tile, answered_backoff, remove_one, landed, fetch_ends,
}

abbrev pub nothing_yet : Tileq
nothing_yet = record {
  tiles = λ _. record { z = 0; x = 0; y = 0; state = idle; canvas = none; at = 0; retry_at = 0 };
  made = 0;
  listed = [];
  inflight = 0;
  flights = [];
  queue = [];
  pause_until = 0;
  backoff = 0;
  timer = none;
  stats = record { ok = 0; empty = 0; throttled = 0; errors = 0; dropped = 0 };
}

-- A tile is drawn, the camera has settled, the pause's timer fires, or a request ends.
pub data Event : Tileq → Tileq → Type 0 where
  draws : {s : Tileq} (z x y : ℕ) (want : Bool) (now : ℕ) → Event s (relief_tile z x y want now s)
  settles : {s : Tileq} (range : TileRange) (now : ℕ) → Event s (tile_pump range now s)
  resumes :
      {s : Tileq} (range : TileRange) (now : ℕ)
      → Event s (tile_pump range now (record s { timer = none }))
  ends :
      {s : Tileq} (range : TileRange) (now r : ℕ) (a : Answer)
      → 1 ≤ count r s.flights
      → Event s (fetch_ends range now r a s)

pub data Reach : Tileq → Type 0 where
  started : Reach nothing_yet
  after : {s t : Tileq} → Reach s → Event s t → Reach t

count-remove_one :
    (r q : ℕ) (xs : List ℕ)
    → 1 ≤ count r xs
    → count q (remove_one r xs) + one_if (r == q) ≡ count q xs
unfolding remove_one count
count-remove_one r q [] h = absurd (omega (arith, h))
count-remove_one r q (x ∷ xs) h = ground (arith, h, count-remove_one r q xs)

length-remove_one :
    (r : ℕ) (xs : List ℕ) → 1 ≤ count r xs → length (remove_one r xs) + 1 ≡ length xs
unfolding remove_one count
length-remove_one r [] h = absurd (omega (arith, h))
length-remove_one r (x ∷ xs) h = ground (arith, h, length-remove_one r xs)

decoded-Free :
    (c : Option (List Pixel)) (t : Tile)
    → (is_queued (decoded c t).state ≡ false) × (is_loading (decoded c t).state ≡ false)
decoded-Free none t = (refl, refl)
decoded-Free (some c) t = (refl, refl)

answered_tile-Free :
    (now : ℕ) (a : Answer) (t : Tile)
    → (is_queued (answered_tile now a t).state ≡ false)
      × (is_loading (answered_tile now a t).state ≡ false)
unfolding answered_tile
answered_tile-Free now (picture ps) t = decoded-Free (decode ps) t
answered_tile-Free now (tainted ps) t = (refl, refl)
answered_tile-Free now no_picture t = (refl, refl)
answered_tile-Free now no_content t = (refl, refl)
answered_tile-Free now (throttled ra) t = (refl, refl)
answered_tile-Free now refused t = (refl, refl)
answered_tile-Free now thrown t = (refl, refl)

answered_backoff_le : (a : Answer) (b : ℕ) → b ≤ 30 → answered_backoff a b ≤ 30
unfolding answered_backoff
answered_backoff_le (picture ps) b h = omega arith
answered_backoff_le (tainted ps) b h = omega arith
answered_backoff_le no_picture b h = omega arith
answered_backoff_le no_content b h = omega arith
answered_backoff_le (throttled ra) b h = ground arith
answered_backoff_le refused b h = h
answered_backoff_le thrown b h = h

landed-IsCounted :
    (now r : ℕ) (a : Answer) (s : Tileq)
    → 1 ≤ count r s.flights
    → IsCounted s
    → IsCounted (landed now r a s)
unfolding landed put
landed-IsCounted now r a s flies c =
    let free = answered_tile-Free now a (s.tiles r) in
    record {
      counted = omega (arith, c.counted, length-remove_one r s.flights flies);
      bounded = omega (arith, c.bounded);
      capped = answered_backoff_le a s.backoff c.capped;
      waits_once = λ q. ground (arith, free, flies, c.waits_once q, c.flies_once q);
      flies_once =
          λ q. ground (arith, free, flies, c.flies_once q, count-remove_one r q s.flights flies);
      unborn_idle = λ q le. ground (arith, flies, c.flies_once q, c.unborn_idle q le);
      listed_born = c.listed_born;
    }

Event-IsCounted : {s t : Tileq} → Event s t → IsCounted s → IsCounted t
unfolding fetch_ends
Event-IsCounted {s} (draws z x y want now) c = relief_tile-IsCounted z x y want now s c
Event-IsCounted {s} (settles range now) c = tile_pump-IsCounted range now s c
Event-IsCounted {s} (resumes range now) c =
    tile_pump-IsCounted range now (record s { timer = none }) c
Event-IsCounted {s} (ends range now r a flies) c =
    tile_pump-IsCounted range now (landed now r a s) (landed-IsCounted now r a s flies c)

nothing_yet-IsCounted : IsCounted nothing_yet
unfolding count
nothing_yet-IsCounted = record {
  counted = refl;
  bounded = omega arith;
  capped = omega arith;
  waits_once = λ _. refl;
  flies_once = λ _. refl;
  unborn_idle = λ _ _. refl;
  listed_born = λ _ _. refl;
}

-- In every state that the queue can reach, its counter is the number of running requests, eight at most, the
-- back-off is at most 30 s, a tile object is in the queue once if it is queued and else never, and has one running
-- request if it loads and else none. (A full map may make a second object of one and the same tile.)
pub Reach-IsCounted : (s : Tileq) → Reach s → IsCounted s
Reach-IsCounted _ started = nothing_yet-IsCounted
Reach-IsCounted s (after {s = r} reach e) = Event-IsCounted e (Reach-IsCounted r reach)

-- Something will come back to the queue, if there is anything in it.
pub data Goes (s : Tileq) : Type 0 where
  nothing_left : s.queue ≡ [] → Goes s
  all_busy : s.inflight ≡ 8 → Goes s
  timed : is_some s.timer ≡ true → Goes s

launch-Goes : (rest : List ℕ) (s : Tileq) → s.inflight ≤ 8 → Goes (launch rest s)
unfolding launch
launch-Goes [] s b = nothing_left refl
launch-Goes (r ∷ rest) s b =
    if_split Goes (ltb s.inflight max_inflight)
      (λ room. launch-Goes rest (begin_fetch r rest s) (ground (arith, room)))
      (λ full. all_busy (ground (arith, full, b)))

fetch_near-Goes : (range : TileRange) (s : Tileq) → s.inflight ≤ 8 → Goes (fetch_near range s)
unfolding fetch_near
fetch_near-Goes range s b =
    let kept = drop_far range s.queue s.tiles in
    launch-Goes (sort_by_distance range kept.tiles kept.queue)
      (record s {
        tiles = kept.tiles;
        stats = record s.stats { dropped = s.stats.dropped + kept.dropped };
      })
      b

-- A pump never leaves the queue forgotten: it is empty, or eight requests run and each pumps at its end, or a
-- timer is set; and during a pause no request starts.
pub tile_pump-Goes :
    (range : TileRange) (now : ℕ) (s : Tileq)
    → s.inflight ≤ 8
    → Goes (tile_pump range now s)
      × ((s.pause_until ≤ now) ⊎ ((tile_pump range now s).flights ≡ s.flights))
unfolding tile_pump
tile_pump-Goes range now s b = (
  if_split Goes (ltb now s.pause_until)
      (λ _. if_split Goes (is_some s.timer) (λ set. timed set) (λ _. timed refl))
      (λ _.
        if_split Goes (is_waiting s.queue) (λ _. fetch_near-Goes range s b)
          (λ no. nothing_left (waits s.queue no))),
  paused,
)
  where
    waits : (q : List ℕ) → is_waiting q ≡ false → q ≡ []
    waits [] e = refl
    waits (r ∷ q) e = cc

    Still : Tileq → Type 0
    Still t = (s.pause_until ≤ now) ⊎ (t.flights ≡ s.flights)

    paused : (s.pause_until ≤ now) ⊎ ((tile_pump range now s).flights ≡ s.flights)
    paused =
        if_split {A = Tileq} Still (ltb now s.pause_until)
          (λ _. if_split Still (is_some s.timer) (λ _. inr refl) (λ _. inr refl))
          (λ over. inl (ground (arith, over)))
