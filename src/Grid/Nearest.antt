-- ===== src/Grid/Nearest.antt =====
-- The cells of a view: they cover it, and the nearest ones are taken.
use siedler_sterreich.Prelude.{
  ℕ, zero, suc, ◌+◌, ◌-◌, ◌/◌, ◌≤◌, ◌<◌, List, [], ◌∷◌, ◌++◌, ◌≡◌, ◌⊎◌, inl, inr, arith, ltb, ◌==◌,
  refl, length, take, All, if◌then◌else◌, if_split, Bool-cases, subst,
}
use siedler_sterreich.Grid.{
  Cell, Box, Camera, cell_deg, cell_box, cell_of, distance, numbers, column, columns,
  insert_by_distance, sort_by_distance, cells_in, grid_tiles,
}

-- A cell is in a list.
pub data In (c : Cell) : List Cell → Type 0 where
  here : {cs : List Cell} → In c (c ∷ cs)
  there : {d : Cell} {cs : List Cell} → In c cs → In c (d ∷ cs)

cell_of-bounds :
    (lon lat : ℕ)
    → ((cell_of lon lat).w ≤ lon)
      × (lon < (cell_of lon lat).e)
      × ((cell_of lon lat).s ≤ lat)
      × (lat < (cell_of lon lat).n)
unfolding cell_of cell_box
cell_of-bounds lon lat = (omega arith, omega arith, omega arith, omega arith)

In-append_left : (c : Cell) (cs ds : List Cell) → In c cs → In c (cs ++ ds)
In-append_left c _ ds here = here
In-append_left c _ ds (there {cs = cs} i) = there (In-append_left c cs ds i)

In-append_right : (c : Cell) (cs ds : List Cell) → In c ds → In c (cs ++ ds)
In-append_right c [] ds i = i
In-append_right c (d ∷ cs) ds i = there (In-append_right c cs ds i)

column-In : (i n a j : ℕ) → a ≤ j → j < a + n → In (cell_box i j) (column i (numbers n a))
unfolding column numbers
column-In i zero a j le lt = absurd (omega (arith, le, lt))
column-In i (suc n) a j le lt = elim (Bool-cases (a == j)) [
  | inl e ↦
      let same : a ≡ j = ground (arith, e) in
      subst (λ k. In (cell_box i k) (column i (numbers (suc n) a))) same here
  | inr e ↦ there (column-In i n (suc a) j (ground (arith, e, le)) (omega (arith, lt)))
]

columns-In :
    (n a i : ℕ) (js : List ℕ) (c : Cell)
    → a ≤ i
    → i < a + n
    → In c (column i js)
    → In c (columns (numbers n a) js)
unfolding columns numbers
columns-In zero a i js c le lt m = absurd (omega (arith, le, lt))
columns-In (suc n) a i js c le lt m = elim (Bool-cases (a == i)) [
  | inl e ↦
      let same : i ≡ a = ground (arith, e) in
      In-append_left c (column a js) (columns (numbers n (suc a)) js)
        (subst (λ k. In c (column k js)) same m)
  | inr e ↦
      In-append_right c (column a js) (columns (numbers n (suc a)) js)
        (columns-In n (suc a) i js c (ground (arith, e, le)) (omega (arith, lt)) m)
]

cells_in-Covers :
    (b : Box) (lon lat : ℕ)
    → b.w < lon
    → lon < b.e
    → b.s < lat
    → lat < b.n
    → In (cell_of lon lat) (cells_in b)
unfolding cells_in cell_of cell_box
cells_in-Covers b lon lat w e s n =
    let i0 = (b.w + 1) / cell_deg in
    let j0 = (b.s + 1) / cell_deg in
    let i1 = (b.e - 1) / cell_deg in
    let j1 = (b.n - 1) / cell_deg in
    columns-In (i1 + 1 - i0) i0 (lon / cell_deg) (numbers (j1 + 1 - j0) j0)
      (cell_box (lon / cell_deg) (lat / cell_deg)) (omega (arith, w)) (omega (arith, w, e))
      (column-In (lon / cell_deg) (j1 + 1 - j0) j0 (lat / cell_deg) (omega (arith, s))
        (omega (arith, s, n)))

In-behind :
    (d c x : Cell) (xs ys : List Cell)
    → (In d (c ∷ xs) → In d ys)
    → In d (c ∷ x ∷ xs)
    → In d (x ∷ ys)
In-behind d c x xs ys below here = there (below here)
In-behind d c x xs ys below (there here) = here
In-behind d c x xs ys below (there (there m)) = there (below (there m))

insert_by_distance-In :
    (cam : Camera) (c d : Cell) (cs : List Cell)
    → In d (c ∷ cs)
    → In d (insert_by_distance cam c cs)
unfolding insert_by_distance
insert_by_distance-In cam c d [] i = i
insert_by_distance-In cam c d (x ∷ xs) i =
    if_split (In d) (ltb (distance cam x) (distance cam c))
      (λ _.
        In-behind d c x xs (insert_by_distance cam c xs) (λ m. insert_by_distance-In cam c d xs m)
          i)
      (λ _. i)

sort_by_distance-In :
    (cam : Camera) (d : Cell) (cs : List Cell) → In d cs → In d (sort_by_distance cam cs)
unfolding sort_by_distance
sort_by_distance-In cam d _ (here {cs = cs}) =
    insert_by_distance-In cam d d (sort_by_distance cam cs) here
sort_by_distance-In cam d _ (there {d = c} {cs = cs} i) =
    insert_by_distance-In cam c d (sort_by_distance cam cs) (there (sort_by_distance-In cam d cs i))

-- No cell is nearer than one before it.
pub data IsByDistance (cam : Camera) : List Cell → Type 0 where
  nothing : IsByDistance cam []
  first :
      {c : Cell} {cs : List Cell}
      → All (λ d. distance cam c ≤ distance cam d) cs
      → IsByDistance cam cs
      → IsByDistance cam (c ∷ cs)

insert_by_distance-All :
    (cam : Camera) (m : ℕ) (c : Cell) (cs : List Cell)
    → m ≤ distance cam c
    → All (λ d. m ≤ distance cam d) cs
    → All (λ d. m ≤ distance cam d) (insert_by_distance cam c cs)
unfolding insert_by_distance
insert_by_distance-All cam m c [] le a = (le, tt)
insert_by_distance-All cam m c (x ∷ xs) le a =
    if_split (All (λ d. m ≤ distance cam d)) (ltb (distance cam x) (distance cam c))
      (λ _. (a.0, insert_by_distance-All cam m c xs le a.1)) (λ _. (le, a))

All-further :
    (cam : Camera) (m n : ℕ) (cs : List Cell)
    → m ≤ n
    → All (λ d. n ≤ distance cam d) cs
    → All (λ d. m ≤ distance cam d) cs
All-further cam m n [] le a = tt
All-further cam m n (c ∷ cs) le a = (omega (arith, le, a.0), All-further cam m n cs le a.1)

insert_by_distance-IsByDistance :
    (cam : Camera) (c : Cell) (cs : List Cell)
    → IsByDistance cam cs
    → IsByDistance cam (insert_by_distance cam c cs)
unfolding insert_by_distance
insert_by_distance-IsByDistance cam c _ nothing = first tt nothing
insert_by_distance-IsByDistance cam c _ (first {c = x} {cs = xs} a s) =
    if_split (IsByDistance cam) (ltb (distance cam x) (distance cam c))
      (λ nearer.
        first (insert_by_distance-All cam (distance cam x) c xs (ground (arith, nearer)) a)
          (insert_by_distance-IsByDistance cam c xs s))
      (λ far.
        let le : distance cam c ≤ distance cam x = ground (arith, far) in
        first (le, All-further cam (distance cam c) (distance cam x) xs le a) (first a s))

sort_by_distance-IsByDistance :
    (cam : Camera) (cs : List Cell) → IsByDistance cam (sort_by_distance cam cs)
unfolding sort_by_distance
sort_by_distance-IsByDistance cam [] = nothing
sort_by_distance-IsByDistance cam (c ∷ cs) =
    insert_by_distance-IsByDistance cam c (sort_by_distance cam cs)
      (sort_by_distance-IsByDistance cam cs)

All-In :
    (cam : Camera) (m : ℕ) (c : Cell) (cs : List Cell)
    → All (λ d. m ≤ distance cam d) cs
    → In c cs
    → m ≤ distance cam c
All-In cam m c _ a here = a.0
All-In cam m c _ a (there {cs = cs} i) = All-In cam m c cs a.1 i

-- A cell of a sorted list is among the first ones, or as many as are wanted are taken and none of these is
-- farther.
take-IsByDistance :
    (cam : Camera) (n : ℕ) (c : Cell) (cs : List Cell)
    → IsByDistance cam cs
    → In c cs
    → In c (take n cs)
      ⊎ ((length (take n cs) ≡ n) × All (λ d. distance cam d ≤ distance cam c) (take n cs))
take-IsByDistance cam zero c cs s i = inr (refl, tt)
take-IsByDistance cam (suc n) c _ s here = inl here
take-IsByDistance cam (suc n) c _ (first {c = d} {cs = cs} a s) (there i) =
    elim (take-IsByDistance cam n c cs s i) [
      | inl taken ↦ inl (there taken)
      | inr full ↦ inr (omega (arith, full.0), (All-In cam (distance cam d) c cs a i, full.1))
    ]

take-All :
    (cam : Camera) (m n : ℕ) (cs : List Cell)
    → All (λ d. m ≤ distance cam d) cs
    → All (λ d. m ≤ distance cam d) (take n cs)
take-All cam m zero cs a = tt
take-All cam m (suc n) [] a = tt
take-All cam m (suc n) (c ∷ cs) a = (a.0, take-All cam m n cs a.1)

take-ordered :
    (cam : Camera) (n : ℕ) (cs : List Cell) → IsByDistance cam cs → IsByDistance cam (take n cs)
take-ordered cam zero cs s = nothing
take-ordered cam (suc n) _ nothing = nothing
take-ordered cam (suc n) _ (first {c = c} {cs = cs} a s) =
    first (take-All cam (distance cam c) n cs a) (take-ordered cam n cs s)

-- The cells that gridTiles gives for a box are the nearest that it needs, the nearest first: the cell of any point
-- inside the box is one of them, or it was cut off, and then there are as many of them as are allowed (12 where no
-- number is given) and none is farther from the camera than it.
pub grid_tiles-nearest :
    (cam : Camera) (b : Box) (max_tiles lon lat : ℕ)
    → b.w < lon
    → lon < b.e
    → b.s < lat
    → lat < b.n
    → IsByDistance cam (grid_tiles cam b max_tiles)
      × (In (cell_of lon lat) (grid_tiles cam b max_tiles)
          ⊎ ((length (grid_tiles cam b max_tiles) ≡ (if max_tiles == 0 then 12 else max_tiles))
              × All
                  (λ d. distance cam d ≤ distance cam (cell_of lon lat))
                  (grid_tiles cam b max_tiles)))
unfolding grid_tiles
grid_tiles-nearest cam b max_tiles lon lat w e s n =
    let most = if max_tiles == 0 then 12 else max_tiles in
    let sorted = sort_by_distance-IsByDistance cam (cells_in b) in
    (
      take-ordered cam most (sort_by_distance cam (cells_in b)) sorted,
      take-IsByDistance cam most (cell_of lon lat) (sort_by_distance cam (cells_in b)) sorted (
          sort_by_distance-In cam (cell_of lon lat) (cells_in b)
            (cells_in-Covers b lon lat w e s n)),
    )
