-- ===== src/Relief/Fetch.antt =====
-- What `fetchReliefTile` does with its answer.
use siedler_sterreich.Prelude.{
  ℕ, ◌+◌, ◌-◌, ◌*◌, min, max, List, [], ◌∷◌, Option, none, some, or_else, ◌==◌, if◌then◌else◌,
}
use siedler_sterreich.Relief.{Tile, TileRange, Tileq, Stats, idle, with_data, empty, error}
use siedler_sterreich.Relief.Picture.{Pixel, decode}
use siedler_sterreich.Relief.Queue.{put, tile_pump}

-- The answers: a picture, one whose pixels may not be read, a body that is no picture, 204, 429 or 503 with
-- the seconds of `Retry-After`, any other status, and a request that throws.
pub data Answer : Type 0 where
  picture : List Pixel → Answer
  tainted : List Pixel → Answer
  no_picture no_content : Answer
  throttled : Option ℕ → Answer
  refused thrown : Answer

-- The wait, in seconds.
abbrev pub throttle_wait : ℕ → Option ℕ → ℕ
throttle_wait backoff ra =
    min 30 (max (max 1 (if backoff * 2 == 0 then 1 else backoff * 2)) (or_else ra 0))

abbrev pub decoded : Option (List Pixel) → Tile → Tile
decoded none t = record t { state = empty; canvas = none }
decoded (some c) t = record t { state = with_data; canvas = some c }

unfoldable pub answered_tile : ℕ → Answer → Tile → Tile
unfolding decode
answered_tile now (picture ps) t = decoded (decode ps) t
answered_tile now (tainted ps) t = record t { state = with_data; canvas = some ps }
answered_tile now no_picture t = record t { state = empty; canvas = none }
answered_tile now no_content t = record t { state = empty; canvas = none }
answered_tile now (throttled _) t = record t { state = idle }
answered_tile now refused t = record t { state = error; retry_at = now + 60000 }
answered_tile now thrown t = record t { state = error; retry_at = now + 15000 }

unfoldable pub answered_stats : Answer → Stats → Stats
answered_stats no_content st = record st { empty = st.empty + 1 }
answered_stats (throttled _) st = record st { throttled = st.throttled + 1 }
answered_stats refused st = record st { errors = st.errors + 1 }
answered_stats thrown st = record st { errors = st.errors + 1 }
answered_stats _ st = record st { ok = st.ok + 1 }

unfoldable pub answered_backoff : Answer → ℕ → ℕ
answered_backoff (throttled ra) b = throttle_wait b ra
answered_backoff refused b = b
answered_backoff thrown b = b
answered_backoff _ b = 0

unfoldable pub answered_pause : ℕ → Answer → Tileq → ℕ
answered_pause now (throttled ra) s = now + throttle_wait s.backoff ra * 1000
answered_pause now _ s = s.pause_until

unfoldable pub remove_one : ℕ → List ℕ → List ℕ
remove_one r [] = []
remove_one r (q ∷ qs) = let rest = remove_one r qs in if q == r then qs else q ∷ rest

-- The call for the tile `r` ends.
unfoldable pub landed : ℕ → ℕ → Answer → Tileq → Tileq
unfolding put answered_tile answered_stats answered_backoff answered_pause remove_one
landed now r a s = record s {
  tiles = put r (answered_tile now a (s.tiles r)) s.tiles;
  stats = answered_stats a s.stats;
  backoff = answered_backoff a s.backoff;
  pause_until = answered_pause now a s;
  inflight = s.inflight - 1;
  flights = remove_one r s.flights;
}

unfoldable pub fetch_ends : TileRange → ℕ → ℕ → Answer → Tileq → Tileq
unfolding landed tile_pump
fetch_ends range now r a s = tile_pump range now (landed now r a s)
