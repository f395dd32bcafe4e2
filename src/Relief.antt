-- ===== src/Relief.antt =====
-- srv/static/game.js: the hillshade tiles and the queue `TILEQ` that fetches them. `Queue` is the queue, `Fetch` an answer, `Steps` all events,
-- `Picture` the decoding of a tile.
pub mod Picture
pub mod Queue
pub mod Fetch
pub mod Steps
use siedler_sterreich.Prelude.{ℕ, List, Option}
use siedler_sterreich.Relief.Picture.{Pixel}

pub data TileState : Type 0 where
  idle queued loading with_data empty error : TileState

-- A tile of `_relief`; its key is `z/x/y`.
pub record Tile : Type 0 where
  pub z : ℕ
  pub x : ℕ
  pub y : ℕ
  pub state : TileState
  pub canvas : Option (List Pixel)
  pub at : ℕ
  pub retry_at : ℕ

-- What `reliefRange` gives for the view; the centre counts in 256ths of a tile.
pub record TileRange : Type 0 where
  pub z : ℕ
  pub x0 : ℕ
  pub x1 : ℕ
  pub y0 : ℕ
  pub y1 : ℕ
  pub cx : ℕ
  pub cy : ℕ

pub record Stats : Type 0 where
  pub ok : ℕ
  pub empty : ℕ
  pub throttled : ℕ
  pub errors : ℕ
  pub dropped : ℕ

-- `TILEQ` with `_relief`. A tile is an object: it has a number below `made`, `tiles` finds it by that, and
-- `listed` holds the numbers of those in the map. `flights` are the running calls of `fetchReliefTile`, and
-- `timer` the wait that it was set for.
pub record Tileq : Type 0 where
  pub tiles : ℕ → Tile
  pub made : ℕ
  pub listed : List ℕ
  pub inflight : ℕ
  pub flights : List ℕ
  pub queue : List ℕ
  pub pause_until : ℕ
  pub backoff : ℕ
  pub timer : Option ℕ
  pub stats : Stats
