-- ===== src/Folio/Current.antt =====
-- The index is a direct search through the loaded parcels.
use siedler_sterreich.Prelude.{
  String, Bool, true, false, not, ◌&&◌, List, [], ◌∷◌, ◌++◌, none, some, or_else, lookup,
  lookup-insert, ◌==◌, str_eq, eq_iff, ◌≡◌, refl, ap, ◌∙◌, sym, arith, length, length-append,
  option_split, if_split, if◌then◌else◌,
}
use siedler_sterreich.Folio.{
  Parcel, Index, EzIndex, key_of, group, add_poly, add_polys, joined, add_point, add_points,
  build_ez_index,
}

-- A parcel of a folio.
abbrev pub of_folio : String → Parcel → Bool
of_folio key p = not (str_eq p.ez "") && str_eq (key_of p) key

-- The folio by a direct search: the polygons, then the points of other parcels, each in order.
unfoldable pub search_polys : String → List Parcel → List Parcel
search_polys key [] = []
search_polys key (p ∷ ps) =
    let rest = search_polys key ps in if of_folio key p then p ∷ rest else rest

unfoldable pub search_points : String → List Parcel → List Parcel → List Parcel
search_points key found [] = found
search_points key found (p ∷ ps) =
    search_points key (if of_folio key p then joined p found else found) ps

abbrev pub search_folio : String → List Parcel → List Parcel → List Parcel
search_folio key polys parcels = search_points key (search_polys key polys) parcels

append_assoc : (xs ys zs : List Parcel) → xs ++ ys ++ zs ≡ xs ++ (ys ++ zs)
append_assoc [] ys zs = refl
append_assoc (x ∷ xs) ys zs = ap (λ l. x ∷ l) (append_assoc xs ys zs)

append_nil : (xs : List Parcel) → xs ++ [] ≡ xs
append_nil [] = refl
append_nil (x ∷ xs) = ap (λ l. x ∷ l) (append_nil xs)

add_poly-group :
    (key : String) (p : Parcel) (index : Index)
    → group key (add_poly p index) ≡ group key index ++ (if of_folio key p then p ∷ [] else [])
unfolding add_poly
add_poly-group key p index = ground (
  arith,
  lookup-insert (key_of p) key (group (key_of p) index ++ p ∷ []) index,
  eq_iff (key_of p) key,
  append_nil (group key index),
)

one_or_none :
    (b : Bool) (p : Parcel) (ps : List Parcel)
    → (if b then p ∷ [] else []) ++ ps ≡ (if b then p ∷ ps else ps)
one_or_none true p ps = refl
one_or_none false p ps = refl

add_polys-group :
    (key : String) (ps : List Parcel) (index : Index)
    → group key (add_polys ps index) ≡ group key index ++ search_polys key ps
unfolding add_polys search_polys
add_polys-group key [] index = sym (append_nil (group key index))
add_polys-group key (p ∷ ps) index =
    add_polys-group key ps (add_poly p index)
    ∙ ap (λ l. l ++ search_polys key ps) (add_poly-group key p index)
    ∙ append_assoc (group key index) (if of_folio key p then p ∷ [] else []) (search_polys key ps)
    ∙ ap (λ l. group key index ++ l) (one_or_none (of_folio key p) p (search_polys key ps))

add_point-group :
    (key : String) (p : Parcel) (index : Index)
    → group key (add_point p index)
      ≡ (if of_folio key p then joined p (group key index) else group key index)
unfolding add_point
add_point-group key p index = ground (
  arith,
  lookup-insert (key_of p) key (joined p (group (key_of p) index)) index,
  eq_iff (key_of p) key,
)

add_points-group :
    (key : String) (ps : List Parcel) (index : Index)
    → group key (add_points ps index) ≡ search_points key (group key index) ps
unfolding add_points search_points
add_points-group key [] index = refl
add_points-group key (p ∷ ps) index =
    add_points-group key ps (add_point p index)
    ∙ ap (λ l. search_points key l ps) (add_point-group key p index)

built-group :
    (key : String) (polys parcels : List Parcel)
    → group key (add_points parcels (add_polys polys [])) ≡ search_folio key polys parcels
unfolding lookup
built-group key polys parcels =
    add_points-group key parcels (add_polys polys [])
    ∙ ap (λ l. search_points key l parcels) (add_polys-group key polys [])

-- What an earlier call left: no index yet, or the one of the parcels that there were.
pub data IsBuilt (polys parcels : List Parcel) (g : EzIndex) : Type 0 where
  not_yet : g.index ≡ none → IsBuilt polys parcels g
  built_for :
      g.index ≡ some (add_points parcels (add_polys polys []))
      → g.polys_n ≡ length polys
      → g.parcels_n ≡ length parcels
      → IsBuilt polys parcels g

abbrev pub index_of : EzIndex → Index
index_of g = or_else g.index []

length_more : (xs ys : List Parcel) → length (xs ++ ys) ≡ length xs → xs ++ ys ≡ xs
length_more xs [] e = append_nil xs
length_more xs (y ∷ ys) e = absurd (omega (arith, e, length-append xs (y ∷ ys)))

current :
    (key : String) (polys more_polys parcels more_parcels : List Parcel) (g : EzIndex)
    (index : Index)
    → g.index ≡ some index
    → g.polys_n ≡ length (polys ++ more_polys)
    → g.parcels_n ≡ length (parcels ++ more_parcels)
    → IsBuilt polys parcels g
    → group key (index_of g) ≡ search_folio key (polys ++ more_polys) (parcels ++ more_parcels)
current key polys more_polys parcels more_parcels g index e n m (not_yet absent) =
    absurd (cc (e, absent))
current key polys more_polys parcels more_parcels g index e n m (built_for b bn bm) =
    ap (λ o. group key (or_else o [])) b
    ∙ built-group key polys parcels
    ∙ sym (
        same (length_more polys more_polys (sym n ∙ bn))
          (length_more parcels more_parcels (sym m ∙ bm)))
  where
    same :
        polys ++ more_polys ≡ polys
        → parcels ++ more_parcels ≡ parcels
        → search_folio key (polys ++ more_polys) (parcels ++ more_parcels)
          ≡ search_folio key polys parcels
    same p q =
        ap (λ l. search_folio key l (parcels ++ more_parcels)) p ∙ ap (search_folio key polys) q

-- After buildEZIndex the index gives for every folio what a direct search through the loaded parcels gives, also
-- when it keeps an index that was built before, provided that parcels have only been added since.
pub build_ez_index-search :
    (key : String) (polys more_polys parcels more_parcels : List Parcel) (g : EzIndex)
    → IsBuilt polys parcels g
    → group key (index_of (build_ez_index (polys ++ more_polys) (parcels ++ more_parcels) g))
      ≡ search_folio key (polys ++ more_polys) (parcels ++ more_parcels)
unfolding build_ez_index
build_ez_index-search key polys more_polys parcels more_parcels g b =
    option_split {B = EzIndex}
      (λ h. group key (index_of h) ≡ search_folio key all_polys all_parcels) g.index
      (built-group key all_polys all_parcels)
      (λ index e.
        if_split {A = EzIndex}
          (λ h. group key (index_of h) ≡ search_folio key all_polys all_parcels)
          (g.polys_n == length all_polys && g.parcels_n == length all_parcels)
          (λ same.
            current key polys more_polys parcels more_parcels g index e (ground (arith, same))
              (ground (arith, same)) b)
          (λ _. built-group key all_polys all_parcels))
  where
    all_polys : List Parcel
    all_polys = polys ++ more_polys

    all_parcels : List Parcel
    all_parcels = parcels ++ more_parcels
