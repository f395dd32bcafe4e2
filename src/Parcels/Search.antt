-- ===== src/Parcels/Search.antt =====
-- The grid finds what a search through all parcels finds.
use siedler_sterreich.Prelude.{
  ℕ, zero, suc, ◌+◌, ◌/◌, Bool, true, false, not, ◌&&◌, List, [], ◌∷◌, ◌++◌, Option, none, some,
  leb, ltb, ◌==◌, ◌≡◌, refl, ap, sym, ◌∙◌, arith, find, keep_if, length, if◌then◌else◌,
}
use siedler_sterreich.Geometry.{Pt}
use siedler_sterreich.Parcels.{
  Bounds, Feature, Key, Cells, Grid, pgrid, same_key, cell_at, push_at, column_keys, keys_from,
  push_all, columns_of, rows_of, is_giant, keys_of, add_features, drop, parcel_grid, in_bounds,
  holds, parcel_at, geo_bounds,
}

-- A feature as often as a key is in a list.
abbrev copies : Key → Feature → List Key → List Feature
copies key f [] = []
copies key f (k ∷ ks) = if same_key k key then f ∷ copies key f ks else copies key f ks

append_assoc : (xs ys zs : List Feature) → xs ++ ys ++ zs ≡ xs ++ (ys ++ zs)
append_assoc [] ys zs = refl
append_assoc (x ∷ xs) ys zs = ap (λ l. x ∷ l) (append_assoc xs ys zs)

append_nil : (xs : List Feature) → xs ++ [] ≡ xs
append_nil [] = refl
append_nil (x ∷ xs) = ap (λ l. x ∷ l) (append_nil xs)

cell_at-push_at :
    (key k : Key) (f : Feature) (cells : Cells)
    → cell_at key (push_at f k cells)
      ≡ (if same_key k key then cell_at key cells ++ f ∷ [] else cell_at key cells)
unfolding cell_at push_at
cell_at-push_at key k f [] = ground arith
cell_at-push_at key k f (entry ∷ rest) = ground (arith, cell_at-push_at key k f rest)

cell_at-push_all :
    (key : Key) (f : Feature) (keys : List Key) (cells : Cells)
    → cell_at key (push_all f keys cells) ≡ cell_at key cells ++ copies key f keys
unfolding push_all
cell_at-push_all key f [] cells = sym (append_nil (cell_at key cells))
cell_at-push_all key f (k ∷ keys) cells = ground (
  arith,
  cell_at-push_all key f keys (push_at f k cells),
  cell_at-push_at key k f cells,
  append_assoc (cell_at key cells) (f ∷ []) (copies key f keys),
)

copies-append :
    (key : Key) (f : Feature) (ks js : List Key)
    → copies key f (ks ++ js) ≡ copies key f ks ++ copies key f js
copies-append key f [] js = refl
copies-append key f (k ∷ ks) js = ground (arith, copies-append key f ks js)

-- Whether a number is among `n` from `a` on.
abbrev among : ℕ → ℕ → ℕ → Bool
among a n x = leb a x && ltb x (a + n)

copies-column :
    (key : Key) (f : Feature) (x m y : ℕ)
    → copies key f (column_keys x m y) ≡ (if x == key.0 && among y m key.1 then f ∷ [] else [])
unfolding column_keys
copies-column key f x zero y = ground arith
copies-column key f x (suc m) y = ground (arith, copies-column key f x m (suc y))

copies-keys :
    (key : Key) (f : Feature) (n x m y : ℕ)
    → copies key f (keys_from n x m y) ≡ (if among x n key.0 && among y m key.1 then f ∷ [] else [])
unfolding keys_from
copies-keys key f zero x m y = ground arith
copies-keys key f (suc n) x m y = ground (
  arith,
  copies-append key f (column_keys x m y) (keys_from n (suc x) m y),
  copies-column key f x m y,
  copies-keys key f n (suc x) m y,
)

abbrev within : Key → Option Bounds → Bool
within key none = false
within key (some b) =
    not (is_giant b)
    && among (b.w / pgrid) (columns_of b) key.0
    && among (b.s / pgrid) (rows_of b) key.1

copies-keys_of :
    (key : Key) (f : Feature) (o : Option Bounds)
    → copies key f (keys_of o) ≡ (if within key o then f ∷ [] else [])
copies-keys_of key f none = refl
copies-keys_of key f (some b) =
    ground (arith, copies-keys key f (columns_of b) (b.w / pgrid) (rows_of b) (b.s / pgrid))

abbrev stands_in : Key → Feature → Bool
stands_in key f = within key (geo_bounds f.geometry)

one_or_none :
    (b : Bool) (f : Feature) (fs : List Feature)
    → (if b then f ∷ [] else []) ++ fs ≡ (if b then f ∷ fs else fs)
one_or_none true f fs = refl
one_or_none false f fs = refl

cell_at-add_features :
    (key : Key) (fs : List Feature) (cells : Cells)
    → cell_at key (add_features fs cells) ≡ cell_at key cells ++ keep_if (stands_in key) fs
unfolding add_features
cell_at-add_features key [] cells = sym (append_nil (cell_at key cells))
cell_at-add_features key (f ∷ fs) cells =
    cell_at-add_features key fs (push_all f (keys_of (geo_bounds f.geometry)) cells)
    ∙ ap (λ l. l ++ keep_if (stands_in key) fs)
        (cell_at-push_all key f (keys_of (geo_bounds f.geometry)) cells
          ∙ ap (λ l. cell_at key cells ++ l) (copies-keys_of key f (geo_bounds f.geometry)))
    ∙ append_assoc (cell_at key cells) (if stands_in key f then f ∷ [] else [])
        (keep_if (stands_in key) fs)
    ∙ ap (λ l. cell_at key cells ++ l)
        (one_or_none (stands_in key f) f (keep_if (stands_in key) fs))

-- A parcel that the grid leaves out.
abbrev pub too_large : Option Bounds → Bool
too_large none = false
too_large (some b) = is_giant b

abbrev pub is_indexed : Feature → Bool
is_indexed f = not (too_large (geo_bounds f.geometry))

in_bounds-within :
    (p : Pt) (o : Option Bounds)
    → (within (p.0 / pgrid, p.1 / pgrid) o && in_bounds p o) ≡ (not (too_large o) && in_bounds p o)
in_bounds-within p none = refl
in_bounds-within p (some b) = ground arith

holds-stands_in :
    (p : Pt) (f : Feature)
    → (stands_in (p.0 / pgrid, p.1 / pgrid) f && holds p f) ≡ (is_indexed f && holds p f)
unfolding holds
holds-stands_in p f = ground (arith, in_bounds-within p (geo_bounds f.geometry))

find-keep_if :
    (p : Pt) (fs : List Feature)
    → find (holds p) (keep_if (stands_in (p.0 / pgrid, p.1 / pgrid)) fs)
      ≡ find (λ f. is_indexed f && holds p f) fs
find-keep_if p [] = refl
find-keep_if p (f ∷ fs) = ground (arith, find-keep_if p fs, holds-stands_in p f)

drop-append : (fs more : List Feature) → drop (length fs) (fs ++ more) ≡ more
drop-append [] more = refl
drop-append (f ∷ fs) more = drop-append fs more

add_features-append :
    (fs more : List Feature) (cells : Cells)
    → add_features (fs ++ more) cells ≡ add_features more (add_features fs cells)
unfolding add_features
add_features-append [] more cells = refl
add_features-append (f ∷ fs) more cells =
    add_features-append fs more (push_all f (keys_of (geo_bounds f.geometry)) cells)

-- The grid of some parcels, as `parcelGrid` leaves it.
abbrev pub IsGrid : List Feature → Grid → Type 0
IsGrid polys g = (g.cells ≡ add_features polys []) × (g.n ≡ length polys)

-- When parcels have been added since the grid was made for the earlier ones, parcelGrid makes the grid of all of them, and
-- parcelAt then gives the first of all the parcels that holds the point, those that are too large for the grid excepted.
pub parcel_at-search :
    (p : Pt) (polys more : List Feature) (g : Grid)
    → IsGrid polys g
    → IsGrid (polys ++ more) (parcel_grid (polys ++ more) g)
      × (parcel_at p (parcel_grid (polys ++ more) g)
          ≡ find (λ f. is_indexed f && holds p f) (polys ++ more))
unfolding parcel_grid parcel_at
parcel_at-search p polys more g i = ((grown, refl), found)
  where
    grown : add_features (drop g.n (polys ++ more)) g.cells ≡ add_features (polys ++ more) []
    grown =
        ap (λ n. add_features (drop n (polys ++ more)) g.cells) i.1
        ∙ ap (λ fs. add_features fs g.cells) (drop-append polys more)
        ∙ ap (add_features more) i.0
        ∙ sym (add_features-append polys more [])

    found :
        find
          (holds p)
          (cell_at (p.0 / pgrid, p.1 / pgrid) (add_features (drop g.n (polys ++ more)) g.cells))
        ≡ find (λ f. is_indexed f && holds p f) (polys ++ more)
    found =
        ap (λ c. find (holds p) (cell_at (p.0 / pgrid, p.1 / pgrid) c)) grown
        ∙ ap (find (holds p)) (cell_at-add_features (p.0 / pgrid, p.1 / pgrid) (polys ++ more) [])
        ∙ find-keep_if p (polys ++ more)
