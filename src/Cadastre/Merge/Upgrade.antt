-- ===== src/Cadastre/Merge/Upgrade.antt =====
-- A copy of a parcel from another cell replaces the one that is loaded only if it is better.
use siedler_sterreich.Prelude.{
  ◌≤◌, String, true, false, List, [], ◌∷◌, ◌++◌, some, or_else, ◌≡◌, refl, ◌∙◌, ap, subst, ◌⊎◌, inl,
  inr, arith, eq_iff, str_eq, if_split, Bool-cases, if◌then◌else◌,
}
use siedler_sterreich.Geometry.{Geometry}
use siedler_sterreich.Cadastre.Rows.{Props, ParcelRow}
use siedler_sterreich.Cadastre.Store.{Feature, poly_by_id, set_poly}
use siedler_sterreich.Cadastre.Merge.{
  Progress, is_true, text_of, better, assign, list_new, merge_known, merge_new, merge_parcel,
  merge_parcels,
}
use siedler_sterreich.Cadastre.Merge.Frame.{merge_parcel-cases, note_kg-Keeps}
use siedler_sterreich.Cadastre.Merge.Unique.{poly_by_id-id}

-- Complete where the old one was not, or as complete and at least as large.
abbrev pub NoWorse : Props → Props → Type 0
NoWorse old new =
    ((is_true old.complete ≡ false) × (is_true new.complete ≡ true))
    ⊎ ((is_true new.complete ≡ is_true old.complete)
        × (or_else old.area_sqm 0 ≤ or_else new.area_sqm 0))

pub NoWorse-refl : (p : Props) → NoWorse p p
NoWorse-refl p = inr (refl, omega arith)

NoWorse-trans : (p q r : Props) → NoWorse p q → NoWorse q r → NoWorse p r
NoWorse-trans p q r a b = ground (arith, a, b)

assign-NoWorse : (old new : Props) → better new old ≡ true → NoWorse old (assign old new)
unfolding better assign
assign-NoWorse old new h = ground (arith, h)

-- The parcel is loaded, and no worse than `old`.
abbrev pub Holds : String → Props → List Feature → Type 0
Holds id old fs = (f : Feature) × (poly_by_id id fs ≡ some f) × NoWorse old f.props

poly_by_id-append :
    (id : String) (fs gs : List Feature) (f : Feature)
    → poly_by_id id fs ≡ some f
    → poly_by_id id (fs ++ gs) ≡ some f
unfolding poly_by_id
poly_by_id-append id [] gs f h = cc
poly_by_id-append id (x ∷ fs) gs f h = ground (arith, h, poly_by_id-append id fs gs f)

poly_by_id-set_poly :
    (id other : String) (new old f : Feature) (fs : List Feature)
    → new.parcel_id ≡ other
    → poly_by_id other fs ≡ some old
    → poly_by_id id fs ≡ some f
    → poly_by_id id (set_poly other new fs) ≡ some (if str_eq other id then new else f)
unfolding poly_by_id set_poly
poly_by_id-set_poly id other new old f [] e h k = cc
poly_by_id-set_poly id other new old f (x ∷ fs) e h k = ground (
  arith,
  eq_iff x.parcel_id other,
  eq_iff x.parcel_id id,
  eq_iff other id,
  eq_iff new.parcel_id id,
  eq_iff new.parcel_id other,
  poly_by_id-set_poly id other new old f fs e,
)

merge_known-Holds :
    (it : ParcelRow) (shape : Geometry) (known : Feature) (s : Progress) (id : String) (old : Props)
    → poly_by_id it.parcel_id s.store.parcel_polys ≡ some known
    → Holds id old s.store.parcel_polys
    → Holds id old (merge_known it shape known s).store.parcel_polys
unfolding merge_known
merge_known-Holds it shape known s id old h (f, k, w) =
    if_split {A = Progress} (λ t. Holds id old t.store.parcel_polys) (better it.props known.props)
      upgraded (λ _. (f, k, w))
  where
    new : Feature
    new = record {
      parcel_id = known.parcel_id;
      props = assign known.props it.props;
      geometry = shape;
    }

    found :
        poly_by_id id (set_poly it.parcel_id new s.store.parcel_polys)
        ≡ some (if str_eq it.parcel_id id then new else f)
    found =
        poly_by_id-set_poly id it.parcel_id new known f s.store.parcel_polys
          (poly_by_id-id it.parcel_id s.store.parcel_polys known h) h k

    same : str_eq it.parcel_id id ≡ true → f ≡ known
    same e = ground (arith, k, h, e, eq_iff it.parcel_id id)

    upgraded :
        better it.props known.props ≡ true
        → Holds id old (set_poly it.parcel_id new s.store.parcel_polys)
    upgraded b = elim (Bool-cases (str_eq it.parcel_id id)) [
      | inl e ↦ (
        new,
        found ∙ rw e refl,
        NoWorse-trans old known.props new.props (subst (λ g. NoWorse old g.props) (same e) w)
            (assign-NoWorse known.props it.props b),
      )
      | inr e ↦ (f, found ∙ rw e refl, w)
    ]

merge_new-Holds :
    (it : ParcelRow) (shape : Geometry) (s : Progress) (id : String) (old : Props)
    → Holds id old s.store.parcel_polys
    → Holds id old (merge_new it shape s).store.parcel_polys
unfolding merge_new list_new
merge_new-Holds it shape s id old (f, k, w) =
    let kept = note_kg-Keeps (text_of it.props.kg_code) (list_new it shape s.store) in
    (f, ap (poly_by_id id) kept.parcel_polys ∙ poly_by_id-append id s.store.parcel_polys _ f k, w)

merge_parcel-Holds :
    (it : ParcelRow) (s : Progress) (id : String) (old : Props)
    → Holds id old s.store.parcel_polys
    → Holds id old (merge_parcel it s).store.parcel_polys
merge_parcel-Holds it s id old h =
    merge_parcel-cases (λ t. Holds id old t.store.parcel_polys) it s h
      (λ shape known e. merge_known-Holds it shape known s id old e h)
      (λ shape _. merge_new-Holds it shape s id old h)

pub merge_parcels-Holds :
    (its : List ParcelRow) (s : Progress) (id : String) (old : Props)
    → Holds id old s.store.parcel_polys
    → Holds id old (merge_parcels its s).store.parcel_polys
unfolding merge_parcels
merge_parcels-Holds [] s id old h = h
merge_parcels-Holds (it ∷ its) s id old h =
    merge_parcels-Holds its (merge_parcel it s) id old (merge_parcel-Holds it s id old h)
