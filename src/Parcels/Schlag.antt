-- ===== src/Parcels/Schlag.antt =====
-- srv/static/game.js: `parcelSchlag`, the crop field that covers a parcel's point, kept by parcel until fields arrive.
pub mod Kept
use siedler_sterreich.Prelude.{
  ℕ, ◌+◌, String, Bool, true, false, ◌&&◌, ◌||◌, List, [], ◌∷◌, ◌++◌, Option, none, some, is_some,
  leb, ltb, ◌==◌, str_eq, lookup, insert, find, if◌then◌else◌,
}
use siedler_sterreich.Geometry.{Pt, Geometry}
use siedler_sterreich.Geometry.EvenOdd.{pip_geom}
use siedler_sterreich.Parcels.{Bounds, in_bounds}

-- A field of `G.schlaege`, with its `bbox`.
pub record Schlag : Type 0 where
  pub bbox : Bounds
  pub geometry : Geometry
  pub crop_group : String
  pub organic : Bool

-- An entry of `G.cropByParcel`.
pub record Cached : Type 0 where
  pub gen : ℕ
  pub f : Option Schlag

pub record Crops : Type 0 where
  pub schlaege : List Schlag
  pub gen : ℕ
  pub by_parcel : List (String × Cached)

unfoldable pub covers : Pt → Schlag → Bool
unfolding pip_geom
covers p f = in_bounds p (some f.bbox) && pip_geom p f.geometry

-- The loop over the fields; a parcel without a position has none.
abbrev pub hit_of : Option Pt → List Schlag → Option Schlag
hit_of none fs = none
hit_of (some p) fs = find (covers p) fs

abbrev pub is_empty : List Schlag → Bool
is_empty [] = true
is_empty (f ∷ fs) = false

-- `c && (c.f || c.gen === G.schlagGen)`
abbrev pub is_fresh : ℕ → Cached → Bool
is_fresh gen c = is_some c.f || c.gen == gen

abbrev pub look : String → Option Pt → Crops → Crops × Option Schlag
look pid spot g =
    let hit = hit_of spot g.schlaege in
    (record g { by_parcel = insert pid (record { gen = g.gen; f = hit }) g.by_parcel }, hit)

abbrev pub look_unless : String → Option Pt → Crops → Option Cached → Crops × Option Schlag
look_unless pid spot g none = look pid spot g
look_unless pid spot g (some c) = if is_fresh g.gen c then (g, c.f) else look pid spot g

-- `parcelSchlag(p)` for a parcel with an id and the position `spot`.
unfoldable pub parcel_schlag : String → Option Pt → Crops → Crops × Option Schlag
unfolding lookup insert covers
parcel_schlag pid spot g =
    if str_eq pid "" || is_empty g.schlaege
    then (g, none)
    else look_unless pid spot g (lookup pid g.by_parcel)

-- A tile's fields arrive, and then the generation is a new one.
unfoldable pub fields_arrive : List Schlag → Crops → Crops
fields_arrive fs g = record g { schlaege = g.schlaege ++ fs; gen = g.gen + 1 }
