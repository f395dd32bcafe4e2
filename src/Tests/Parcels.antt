-- ===== src/Tests/Parcels.antt =====
-- A square parcel, the field on it, and a measured building.
use siedler_sterreich.Prelude.{
  if◌then◌else◌, none, String, false, ◌&&◌, [], ◌∷◌, ◌++◌, Option, some, find, ◌≡◌, refl, true,
  arith,
}
use siedler_sterreich.Geometry.{Geometry, polygon}
use siedler_sterreich.Parcels.{Feature, Grid, add_features, parcel_grid, parcel_at, holds}
use siedler_sterreich.Parcels.Search.{IsGrid, is_indexed, parcel_at-search}
use siedler_sterreich.Parcels.Schlag.{Schlag, Crops, parcel_schlag, fields_arrive, hit_of}
use siedler_sterreich.Parcels.Schlag.Kept.{
  is_kept, seen_at, opened, searched, arrived, Reach-search,
}
use siedler_sterreich.Search.Ranked.{here}
use siedler_sterreich.Lidar.{Building, Buildings, under, add_lidar_building, find_lidar_building}
use siedler_sterreich.Lidar.Nearby.{beats, find_lidar_building-nearest}

abbrev square : Geometry
square = polygon (((0, 0) ∷ (3000000, 0) ∷ (3000000, 3000000) ∷ (0, 3000000) ∷ []) ∷ [])

abbrev parcel : Feature
parcel = record { parcel_id = "12105-68/3"; geometry = square }

abbrev no_grid : Grid
no_grid = record { cells = []; n = 0 }

parcel_at-search_example :
    IsGrid ([] ++ parcel ∷ []) (parcel_grid ([] ++ parcel ∷ []) no_grid)
    × (parcel_at (2500000, 1000000) (parcel_grid ([] ++ parcel ∷ []) no_grid)
        ≡ find (λ f. is_indexed f && holds (2500000, 1000000) f) ([] ++ parcel ∷ []))
unfolding add_features
parcel_at-search_example = parcel_at-search (2500000, 1000000) [] (parcel ∷ []) no_grid (refl, refl)

parcel_at_square : parcel_at (2500000, 1000000) (parcel_grid (parcel ∷ []) no_grid) ≡ some parcel
unfolding parcel_at parcel_grid mathlib.Core.Bool.xor
parcel_at_square = refl

abbrev wheat : Schlag
wheat = record {
  bbox = record { w = 0; e = 3000000; s = 0; n = 3000000 };
  geometry = square;
  crop_group = "getreide";
  organic = false;
}

abbrev no_crops : Crops
no_crops = record { schlaege = []; gen = 0; by_parcel = [] }

abbrev sown : Crops
sown = fields_arrive (wheat ∷ []) no_crops

abbrev looked_once : Crops
looked_once = (parcel_schlag "12105-68/3" (some (2500000, 1000000)) sown).0

-- The parcel has a new position, and the answer is the one for the old one.
Reach-search_example :
    (parcel_schlag "12105-68/3" (some (9000000, 9000000)) looked_once).1
    ≡ hit_of
        (if is_kept "12105-68/3" looked_once
          then seen_at "12105-68/3" (some (2500000, 1000000)) (λ _. none) "12105-68/3"
          else some (9000000, 9000000))
        looked_once.schlaege
unfolding fields_arrive siedler_sterreich.Prelude.lookup
Reach-search_example =
    Reach-search _ looked_once "12105-68/3" (some (9000000, 9000000))
      (searched "12105-68/3" (some (2500000, 1000000)) _ sown refl
        (arrived (wheat ∷ []) _ no_crops opened))
      refl

abbrev no_buildings : Buildings
no_buildings = record { index = []; seen = [] }

abbrev barn : Building
barn = record { lon = 15600300000; lat = 48390200000; max_height_m = 9 }

find_lidar_building-nearest_example :
    beats
      (15600000000, 48390000000)
      barn
      (find_lidar_building
        (15600000000, 48390000000)
        (add_lidar_building (some (15600300000, 48390200000)) 9 no_buildings).index)
    ≡ true
unfolding add_lidar_building under
find_lidar_building-nearest_example =
    find_lidar_building-nearest (15600000000, 48390000000) barn
      (add_lidar_building (some (15600300000, 48390200000)) 9 no_buildings).index here (omega arith)
      (omega arith) (omega arith)
