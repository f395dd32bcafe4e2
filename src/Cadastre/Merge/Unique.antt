-- ===== src/Cadastre/Merge/Unique.antt =====
-- The parcels are listed once each: `polyIds` and `parcelPolys` stay in step.
use siedler_sterreich.Prelude.{
  ◌+◌, String, false, List, [], ◌∷◌, ◌++◌, ◌≡◌, refl, ◌∙◌, ap, arith, some, length, length-append,
  has, has-append, add, eq_iff, sym, subst,
}
use siedler_sterreich.Geometry.{Geometry}
use siedler_sterreich.Cadastre.Rows.{ParcelRow}
use siedler_sterreich.Cadastre.Store.{Store, Feature, ids, poly_by_id, set_poly}
use siedler_sterreich.Cadastre.Merge.{
  Progress, text_of, list_new, assign, merge_known, merge_new, merge_parcel, merge_parcels,
}
use siedler_sterreich.Cadastre.Merge.Frame.{merge_parcel-cases, note_kg-Keeps}

abbrev pub Unique : List String → Type 0
Unique [] = Unit
Unique (x ∷ xs) = (has x xs ≡ false) × Unique xs

-- `polyIds` holds the ids of `parcelPolys`, in order and each once.
pub record IsMerged (g : Store) : Type 0 where
  pub in_step : ids g.parcel_polys ≡ g.poly_ids
  pub unique : Unique g.poly_ids

pub IsMerged-same :
    {g h : Store}
    → h.poly_ids ≡ g.poly_ids
    → h.parcel_polys ≡ g.parcel_polys
    → IsMerged g
    → IsMerged h
IsMerged-same p q m = record {
  in_step = ap ids q ∙ m.in_step ∙ sym p;
  unique = subst Unique (sym p) m.unique;
}

pub Unique-snoc :
    (x : String) (xs : List String) → Unique xs → has x xs ≡ false → Unique (xs ++ x ∷ [])
unfolding has
Unique-snoc x [] u h = (refl, tt)
Unique-snoc x (y ∷ ys) u h = (
  ground (arith, u.0, has-append y ys (x ∷ []), eq_iff x y, eq_iff y x),
  Unique-snoc x ys u.1 (ground arith),
)

ids-append : (fs gs : List Feature) → ids (fs ++ gs) ≡ ids fs ++ ids gs
unfolding ids
ids-append [] gs = refl
ids-append (f ∷ fs) gs = rw (ids-append fs gs)

pub poly_by_id-id :
    (id : String) (fs : List Feature) (f : Feature) → poly_by_id id fs ≡ some f → f.parcel_id ≡ id
unfolding poly_by_id
poly_by_id-id id [] f h = cc
poly_by_id-id id (x ∷ fs) f h = ground (arith, eq_iff x.parcel_id id, poly_by_id-id id fs f)

pub ids-set_poly :
    (id : String) (new : Feature) (fs : List Feature)
    → new.parcel_id ≡ id
    → ids (set_poly id new fs) ≡ ids fs
unfolding ids set_poly
ids-set_poly id new [] h = refl
ids-set_poly id new (f ∷ fs) h = ground (arith, eq_iff f.parcel_id id, ids-set_poly id new fs h)

-- What one row does to the list of parcels.
pub merge_known-polys :
    (it : ParcelRow) (shape : Geometry) (old : Feature) (s : Progress)
    → poly_by_id it.parcel_id s.store.parcel_polys ≡ some old
    → (ids (merge_known it shape old s).store.parcel_polys ≡ ids s.store.parcel_polys)
      × ((merge_known it shape old s).store.poly_ids ≡ s.store.poly_ids)
      × ((merge_known it shape old s).added ≡ s.added)
unfolding merge_known
merge_known-polys it shape old s h =
    let e = poly_by_id-id it.parcel_id s.store.parcel_polys old h in
    ground (arith, ids-set_poly it.parcel_id (upgraded e) s.store.parcel_polys e)
  where
    upgraded : old.parcel_id ≡ it.parcel_id → Feature
    upgraded e = record {
      parcel_id = old.parcel_id;
      props = assign old.props it.props;
      geometry = shape;
    }

list_new-polys :
    (it : ParcelRow) (shape : Geometry) (g : Store)
    → has it.parcel_id g.poly_ids ≡ false
    → (ids (list_new it shape g).parcel_polys ≡ ids g.parcel_polys ++ it.parcel_id ∷ [])
      × ((list_new it shape g).poly_ids ≡ g.poly_ids ++ it.parcel_id ∷ [])
unfolding list_new add ids
list_new-polys it shape g h = (ids-append g.parcel_polys _, rw h)

merge_new-polys :
    (it : ParcelRow) (shape : Geometry) (s : Progress)
    → has it.parcel_id s.store.poly_ids ≡ false
    → (ids (merge_new it shape s).store.parcel_polys
        ≡ ids s.store.parcel_polys ++ it.parcel_id ∷ [])
      × ((merge_new it shape s).store.poly_ids ≡ s.store.poly_ids ++ it.parcel_id ∷ [])
unfolding merge_new
merge_new-polys it shape s h =
    let k = note_kg-Keeps (text_of it.props.kg_code) (list_new it shape s.store) in
    let n = list_new-polys it shape s.store h in (ap ids k.parcel_polys ∙ n.0, k.poly_ids ∙ n.1)

-- The parcels are in step, and exactly the parcels that `added` counts are new.
pub record Grows (s t : Progress) : Type 0 where
  pub merged : IsMerged t.store
  pub count : length t.store.poly_ids + s.added ≡ length s.store.poly_ids + t.added

Grows-refl : (s : Progress) → IsMerged s.store → Grows s s
Grows-refl s m = record { merged = m; count = refl }

merge_known-Grows :
    (it : ParcelRow) (shape : Geometry) (old : Feature) (s : Progress)
    → IsMerged s.store
    → poly_by_id it.parcel_id s.store.parcel_polys ≡ some old
    → Grows s (merge_known it shape old s)
merge_known-Grows it shape old s m h =
    let (polys, listed, added) = merge_known-polys it shape old s h in
    record {
      merged = record {
        in_step = polys ∙ m.in_step ∙ sym listed;
        unique = subst Unique (sym listed) m.unique;
      };
      count = rw (listed, added);
    }

merge_new-Grows :
    (it : ParcelRow) (shape : Geometry) (s : Progress)
    → IsMerged s.store
    → has it.parcel_id s.store.poly_ids ≡ false
    → Grows s (merge_new it shape s)
unfolding merge_new
merge_new-Grows it shape s m h =
    let (polys, listed) = merge_new-polys it shape s h in
    record {
      merged = record {
        in_step = polys ∙ ap (λ xs. xs ++ it.parcel_id ∷ []) m.in_step ∙ sym listed;
        unique = subst Unique (sym listed) (Unique-snoc it.parcel_id s.store.poly_ids m.unique h);
      };
      count = ground (arith, listed, length-append s.store.poly_ids (it.parcel_id ∷ []));
    }

merge_parcel-Grows :
    (it : ParcelRow) (s : Progress) → IsMerged s.store → Grows s (merge_parcel it s)
merge_parcel-Grows it s m =
    merge_parcel-cases (Grows s) it s (Grows-refl s m)
      (λ shape old h. merge_known-Grows it shape old s m h)
      (λ shape h. merge_new-Grows it shape s m h)

pub merge_parcels-Grows :
    (its : List ParcelRow) (s : Progress) → IsMerged s.store → Grows s (merge_parcels its s)
unfolding merge_parcels
merge_parcels-Grows [] s m = Grows-refl s m
merge_parcels-Grows (it ∷ its) s m =
    let here = merge_parcel-Grows it s m in
    let later = merge_parcels-Grows its (merge_parcel it s) here.merged in
    record { merged = later.merged; count = omega (arith, here.count, later.count) }

length-ids_lem : (fs : List Feature) → length (ids fs) ≡ length fs
unfolding ids
length-ids_lem [] = refl
length-ids_lem (f ∷ fs) = rw (length-ids_lem fs)

pub length-ids : (g : Store) → IsMerged g → length g.parcel_polys ≡ length g.poly_ids
length-ids g m = omega (arith, length-ids_lem g.parcel_polys, ap length m.in_step)
