-- ===== src/Lidar/Nearby.antt =====
-- The grid finds a nearest building, as far as its cells reach.
use siedler_sterreich.Prelude.{
  ℕ, ◌+◌, ◌≤◌, ◌<◌, Bool, true, false, ◌||◌, List, [], ◌∷◌, Option, none, some, ltb, leb, ◌==◌, ◌≡◌,
  inl, inr, refl, subst, arith, if_split, Bool-cases, if◌then◌else◌,
}
use siedler_sterreich.Geometry.{Pt}
use siedler_sterreich.Search.Ranked.{In, here, there}
use siedler_sterreich.Parcels.{Key, same_key}
use siedler_sterreich.Lidar.{
  Building, cell_no, lidar_grid_key, Index, under, distance_2, limit_2, Best, apart, closest,
  closest_under, keys_around, find_lidar_building,
}

closest_below : (p : Pt) (bs : List Building) (best : Best) → (closest p bs best).0 ≤ best.0
unfolding closest
closest_below p [] best = omega arith
closest_below p (b ∷ bs) best = ground (
  arith,
  closest_below p bs (if ltb (distance_2 p b) best.0 then (distance_2 p b, some b) else best),
)

closest-In :
    (p : Pt) (b : Building) (bs : List Building) (best : Best)
    → In b bs
    → (closest p bs best).0 ≤ distance_2 p b
unfolding closest
closest-In p b _ best (here {xs = bs}) = ground (
  arith,
  closest_below p bs (if ltb (distance_2 p b) best.0 then (distance_2 p b, some b) else best),
)
closest-In p b _ best (there {y = c} {xs = bs} i) =
    closest-In p b bs (if ltb (distance_2 p c) best.0 then (distance_2 p c, some c) else best) i

-- What the best square belongs to.
abbrev is_of : Pt → ℕ → Option Building → Bool
is_of p d none = d == limit_2
is_of p d (some b) = d == distance_2 p b

closest-is_of :
    (p : Pt) (bs : List Building) (best : Best)
    → is_of p best.0 best.1 ≡ true
    → is_of p (closest p bs best).0 (closest p bs best).1 ≡ true
unfolding closest
closest-is_of p [] best h = h
closest-is_of p (b ∷ bs) best h =
    closest-is_of p bs (if ltb (distance_2 p b) best.0 then (distance_2 p b, some b) else best) (
      if_split {A = Best} (λ v. is_of p v.0 v.1 ≡ true) (ltb (distance_2 p b) best.0)
        (λ _. ground arith) (λ _. h))

under-same : (k j : Key) (index : Index) → same_key k j ≡ true → under k index ≡ under j index
unfolding under
under-same k j [] h = refl
under-same k j (entry ∷ rest) h = ground (arith, h, under-same k j rest)

cells_below :
    (p : Pt) (index : Index) (keys : List Key) (best : Best)
    → (closest_under p index keys best).0 ≤ best.0
unfolding closest_under
cells_below p index [] best = omega arith
cells_below p index (key ∷ keys) best = omega (
  arith,
  cells_below p index keys (closest p (under key index) best),
  closest_below p (under key index) best,
)

cells-is_of :
    (p : Pt) (index : Index) (keys : List Key) (best : Best)
    → is_of p best.0 best.1 ≡ true
    → is_of p (closest_under p index keys best).0 (closest_under p index keys best).1 ≡ true
unfolding closest_under
cells-is_of p index [] best h = h
cells-is_of p index (key ∷ keys) best h =
    cells-is_of p index keys (closest p (under key index) best)
      (closest-is_of p (under key index) best h)

abbrev has_key : Key → List Key → Bool
has_key k [] = false
has_key k (j ∷ js) = same_key k j || has_key k js

cells-In :
    (p : Pt) (b : Building) (k : Key) (index : Index) (keys : List Key) (best : Best)
    → In b (under k index)
    → has_key k keys ≡ true
    → (closest_under p index keys best).0 ≤ distance_2 p b
unfolding closest_under
cells-In p b k index [] best i h = absurd (ground (arith, h))
cells-In p b k index (j ∷ keys) best i h = elim (Bool-cases (same_key k j)) [
  | inl e ↦ omega (
    arith,
    cells_below p index keys (closest p (under j index) best),
    closest-In p b (under j index) best (subst (In b) (under-same k j index e) i),
  )
  | inr e ↦ cells-In p b k index keys (closest p (under j index) best) i (ground (arith, e, h))
]

keys_around-has :
    (x y u v : ℕ)
    → u ≤ x + 1
    → x ≤ u + 1
    → v ≤ y + 1
    → y ≤ v + 1
    → has_key (u, v) (keys_around x y) ≡ true
keys_around-has x y u v a b c d = ground (arith, a, b, c, d)

-- The building that is found is at most as far.
abbrev pub beats : Pt → Building → Option Building → Bool
beats p b none = false
beats p b (some c) = leb (distance_2 p c) (distance_2 p b)

beaten :
    (p : Pt) (b : Building) (d : ℕ) (o : Option Building)
    → is_of p d o ≡ true
    → d ≤ distance_2 p b
    → distance_2 p b < limit_2
    → beats p b o ≡ true
beaten p b d none h le lt = absurd (ground (arith, h, le, lt))
beaten p b d (some c) h le lt = ground (arith, h, le)

-- findLidarBuilding finds a building at most as far as any that stands in its cell of the grid within 0.0005 degrees of the
-- point in either direction and within the limit of the distance.
pub find_lidar_building-nearest :
    (p : Pt) (b : Building) (index : Index)
    → In b (under (lidar_grid_key b.lon b.lat) index)
    → apart b.lon p.0 ≤ 500000
    → apart b.lat p.1 ≤ 500000
    → distance_2 p b < limit_2
    → beats p b (find_lidar_building p index) ≡ true
unfolding find_lidar_building
find_lidar_building-nearest p b index i x y lt =
    beaten p b (closest_under p index keys (limit_2, none)).0
      (closest_under p index keys (limit_2, none)).1
      (cells-is_of p index keys (limit_2, none) (ground arith))
      (cells-In p b (lidar_grid_key b.lon b.lat) index keys (limit_2, none) i
        (keys_around-has (cell_no p.0) (cell_no p.1) (cell_no b.lon) (cell_no b.lat)
          (omega (arith, x)) (omega (arith, x)) (omega (arith, y)) (omega (arith, y))))
      lt
  where
    keys : List Key
    keys = keys_around (cell_no p.0) (cell_no p.1)
