-- ===== src/Relief/Queue.antt =====
-- The queue of tiles: at most eight requests at a time, the nearest first, none during a pause.
pub mod Laws
pub mod Look
use siedler_sterreich.Prelude.{
  ℕ, suc, zero, ◌+◌, ◌-◌, ◌*◌, min, max, Bool, true, false, not, ◌&&◌, ◌||◌, List, [], ◌∷◌, ◌++◌,
  Option, none, some, is_some, or_else, ltb, leb, ◌==◌, length, take, keep_if, find, if◌then◌else◌,
}
use siedler_sterreich.Relief.{
  Tile, TileState, TileRange, Tileq, Stats, idle, queued, loading, with_data, empty, error,
}
use siedler_sterreich.Relief.Picture.{Pixel, decode}

abbrev pub max_inflight : ℕ
max_inflight = 8

abbrev pub relief_max_tiles : ℕ
relief_max_tiles = 400

abbrev pub is_queued : TileState → Bool
is_queued queued = true
is_queued _ = false

abbrev pub is_loading : TileState → Bool
is_loading loading = true
is_loading _ = false

-- An object changes.
unfoldable pub put : ℕ → Tile → (ℕ → Tile) → ℕ → Tile
put r t tiles i = if r == i then t else tiles i

abbrev pub set_state : ℕ → TileState → (ℕ → Tile) → ℕ → Tile
set_state r state tiles = put r (record (tiles r) { state = state }) tiles

-- `tileNeeded`
abbrev pub tile_needed : TileRange → Tile → Bool
tile_needed range t =
    t.z == range.z && leb range.x0 t.x && leb t.x range.x1 && leb range.y0 t.y && leb t.y range.y1

-- `_relief.get(k)`
abbrev pub is_tile : ℕ → ℕ → ℕ → Tile → Bool
is_tile z x y t = t.z == z && t.x == x && t.y == y

abbrev pub new_tile : ℕ → ℕ → ℕ → Tile
new_tile z x y = record { z = z; x = x; y = y; state = idle; canvas = none; at = 0; retry_at = 0 }

-- The stable sort by the last use.
unfoldable pub insert_by_at : (ℕ → Tile) → ℕ → List ℕ → List ℕ
insert_by_at tiles r [] = r ∷ []
insert_by_at tiles r (q ∷ qs) =
    if ltb (tiles q).at (tiles r).at then q ∷ insert_by_at tiles r qs else r ∷ q ∷ qs

unfoldable pub sort_by_at : (ℕ → Tile) → List ℕ → List ℕ
unfolding insert_by_at
sort_by_at tiles [] = []
sort_by_at tiles (r ∷ rs) = insert_by_at tiles r (sort_by_at tiles rs)

unfoldable pub count : ℕ → List ℕ → ℕ
count r [] = 0
count r (q ∷ qs) = (if q == r then 1 else 0) + count r qs

-- The 50 that were not used for longest, of those that nobody waits for, leave the map.
abbrev pub is_free : Tile → Bool
is_free t = not (is_loading t.state) && not (is_queued t.state)

unfoldable pub evict : (ℕ → Tile) → List ℕ → List ℕ
unfolding sort_by_at count
evict tiles listed =
    let victims = take 50 (sort_by_at tiles (keep_if (λ r. is_free (tiles r)) listed)) in
    keep_if (λ r. count r victims == 0) listed

-- A tile that the map does not have.
unfoldable pub add_tile : ℕ → ℕ → ℕ → Tileq → Tileq
unfolding put evict
add_tile z x y s =
    let tiles = put s.made (new_tile z x y) s.tiles in
    let listed = s.listed ++ s.made ∷ [] in
    record s {
      tiles = tiles;
      made = s.made + 1;
      listed = if ltb relief_max_tiles (length listed) then evict tiles listed else listed;
    }

abbrev pub can_ask : ℕ → Tile → Bool
can_ask now t = elim t.state [ idle ↦ true | error ↦ ltb t.retry_at now | _ ↦ false ]

-- The tile is used now, and queued if it is wanted.
unfoldable pub use_tile : ℕ → Bool → ℕ → Tileq → Tileq
unfolding put
use_tile r want now s =
    let t : Tile = record (s.tiles r) { at = now } in
    if want && can_ask now t
    then record s { tiles = put r (record t { state = queued }) s.tiles; queue = s.queue ++ r ∷ [] }
    else record s { tiles = put r t s.tiles }

-- `reliefTile(z, x, y, want)`
unfoldable pub relief_tile : ℕ → ℕ → ℕ → Bool → ℕ → Tileq → Tileq
unfolding add_tile use_tile
relief_tile z x y want now s = elim (find (λ r. is_tile z x y (s.tiles r)) s.listed) [
  | none ↦ use_tile s.made want now (add_tile z x y s)
  | some r ↦ use_tile r want now s
]

-- The square of the distance to the centre, in 256ths of a tile.
abbrev pub gap : ℕ → ℕ → ℕ
gap a b = max a b - min a b

abbrev pub distance : TileRange → Tile → ℕ
distance range t =
    gap (t.x * 256 + 128) range.cx * gap (t.x * 256 + 128) range.cx
    + gap (t.y * 256 + 128) range.cy * gap (t.y * 256 + 128) range.cy

unfoldable pub insert_by_distance : TileRange → (ℕ → Tile) → ℕ → List ℕ → List ℕ
insert_by_distance range tiles r [] = r ∷ []
insert_by_distance range tiles r (q ∷ qs) =
    if ltb (distance range (tiles q)) (distance range (tiles r))
    then q ∷ insert_by_distance range tiles r qs
    else r ∷ q ∷ qs

unfoldable pub sort_by_distance : TileRange → (ℕ → Tile) → List ℕ → List ℕ
unfolding insert_by_distance
sort_by_distance range tiles [] = []
sort_by_distance range tiles (r ∷ rs) =
    insert_by_distance range tiles r (sort_by_distance range tiles rs)

-- The filter of the queue: what is left, the objects after it, and how many were dropped.
pub record Kept : Type 0 where
  pub queue : List ℕ
  pub tiles : ℕ → Tile
  pub dropped : ℕ

abbrev pub keep_one : ℕ → Kept → Kept
keep_one r k = record k { queue = r ∷ k.queue }

abbrev pub drop_one : Kept → Kept
drop_one k = record k { dropped = k.dropped + 1 }

unfoldable pub drop_far : TileRange → List ℕ → (ℕ → Tile) → Kept
unfolding put
drop_far range [] tiles = record { queue = []; tiles = tiles; dropped = 0 }
drop_far range (r ∷ rs) tiles =
    if tile_needed range (tiles r)
    then keep_one r (drop_far range rs tiles)
    else drop_one (drop_far range rs (set_state r idle tiles))

-- `fetchReliefTile` up to its `await`.
abbrev pub begin_fetch : ℕ → List ℕ → Tileq → Tileq
begin_fetch r rest s = record s {
  tiles = set_state r loading s.tiles;
  inflight = s.inflight + 1;
  flights = s.flights ++ r ∷ [];
  queue = rest;
}

-- The loop of `tilePump`, over the queue.
unfoldable pub launch : List ℕ → Tileq → Tileq
unfolding put
launch [] s = record s { queue = [] }
launch (r ∷ rest) s =
    if ltb s.inflight max_inflight
    then launch rest (begin_fetch r rest s)
    else record s { queue = r ∷ rest }

unfoldable pub fetch_near : TileRange → Tileq → Tileq
unfolding drop_far sort_by_distance launch
fetch_near range s =
    let kept = drop_far range s.queue s.tiles in
    launch (sort_by_distance range kept.tiles kept.queue) (record s {
      tiles = kept.tiles;
      stats = record s.stats { dropped = s.stats.dropped + kept.dropped };
    })

abbrev pub is_waiting : List ℕ → Bool
is_waiting [] = false
is_waiting (_ ∷ _) = true

-- `tilePump`
unfoldable pub tile_pump : TileRange → ℕ → Tileq → Tileq
unfolding fetch_near
tile_pump range now s =
    if ltb now s.pause_until
    then (if is_some s.timer then s else record s { timer = some (s.pause_until - now + 20) })
    else if is_waiting s.queue
    then fetch_near range s
    else s
