-- ===== src/Cadastre/Merge/Frame.antt =====
-- What the loops of a cell leave alone.
use siedler_sterreich.Prelude.{
  ℕ, String, false, has, if_split, option_split, List, [], ◌∷◌, ◌≡◌, refl, ◌∙◌, arith, some,
}
use siedler_sterreich.Claims.{is_text}
use siedler_sterreich.Geometry.{Geometry}
use siedler_sterreich.Cadastre.Rows.{ParcelRow, FootprintRow, LanduseRow, KgRow}
use siedler_sterreich.Cadastre.Store.{Store, Feature, poly_by_id}
use siedler_sterreich.Cadastre.Merge.{
  Progress, merge_known, merge_new, merge_parcel, merge_parcels, note_kg, list_new, text_of,
}
use siedler_sterreich.Cadastre.Surroundings.{
  merge_kg, merge_kgs, merge_footprint, merge_footprints, merge_landuse, merge_landuses,
}

-- The cells taken and the parcels are the same.
pub record Keeps (g h : Store) : Type 0 where
  pub vp_tiles : h.vp_tiles ≡ g.vp_tiles
  pub poly_ids : h.poly_ids ≡ g.poly_ids
  pub parcel_polys : h.parcel_polys ≡ g.parcel_polys

pub Keeps-trans : {g h k : Store} → Keeps g h → Keeps h k → Keeps g k
Keeps-trans p q = record {
  vp_tiles = q.vp_tiles ∙ p.vp_tiles;
  poly_ids = q.poly_ids ∙ p.poly_ids;
  parcel_polys = q.parcel_polys ∙ p.parcel_polys;
}

pub Keeps-refl : (g : Store) → Keeps g g
Keeps-refl g = record { vp_tiles = refl; poly_ids = refl; parcel_polys = refl }

merge_kg-Keeps : (k : KgRow) (g : Store) → Keeps g (merge_kg k g)
unfolding merge_kg
merge_kg-Keeps k g = ground arith

pub merge_kgs-Keeps : (ks : List KgRow) (g : Store) → Keeps g (merge_kgs ks g)
unfolding merge_kgs
merge_kgs-Keeps [] g = Keeps-refl g
merge_kgs-Keeps (k ∷ ks) g = Keeps-trans (merge_kg-Keeps k g) (merge_kgs-Keeps ks (merge_kg k g))

merge_footprint-Keeps : (it : FootprintRow) (g : Store) → Keeps g (merge_footprint it g)
unfolding merge_footprint
merge_footprint-Keeps it g = ground arith

pub merge_footprints-Keeps :
    (its : List FootprintRow) (g : Store) → Keeps g (merge_footprints its g)
unfolding merge_footprints
merge_footprints-Keeps [] g = Keeps-refl g
merge_footprints-Keeps (it ∷ its) g =
    Keeps-trans (merge_footprint-Keeps it g) (merge_footprints-Keeps its (merge_footprint it g))

merge_landuse-Keeps : (it : LanduseRow) (s : Store × ℕ) → Keeps s.0 (merge_landuse it s).0
unfolding merge_landuse
merge_landuse-Keeps it s = ground arith

pub merge_landuses-Keeps :
    (its : List LanduseRow) (s : Store × ℕ) → Keeps s.0 (merge_landuses its s).0
unfolding merge_landuses
merge_landuses-Keeps [] s = Keeps-refl s.0
merge_landuses-Keeps (it ∷ its) s =
    Keeps-trans (merge_landuse-Keeps it s) (merge_landuses-Keeps its (merge_landuse it s))

pub note_kg-Keeps : (kg : String) (g : Store) → Keeps g (note_kg kg g)
unfolding note_kg
note_kg-Keeps kg g = ground arith

merge_new-vp_tiles :
    (it : ParcelRow) (shape : Geometry) (s : Progress)
    → (merge_new it shape s).store.vp_tiles ≡ s.store.vp_tiles
unfolding merge_new list_new
merge_new-vp_tiles it shape s =
    (note_kg-Keeps (text_of it.props.kg_code) (list_new it shape s.store)).vp_tiles

merge_known-vp_tiles :
    (it : ParcelRow) (shape : Geometry) (old : Feature) (s : Progress)
    → (merge_known it shape old s).store.vp_tiles ≡ s.store.vp_tiles
unfolding merge_known
merge_known-vp_tiles it shape old s = ground arith

-- The three things that a row can do.
pub merge_parcel-cases {ℓ} :
    (P : Progress → Type ℓ) (it : ParcelRow) (s : Progress)
    → P s
    → ((shape : Geometry) (old : Feature)
        → poly_by_id it.parcel_id s.store.parcel_polys ≡ some old
        → P (merge_known it shape old s))
    → ((shape : Geometry) → has it.parcel_id s.store.poly_ids ≡ false → P (merge_new it shape s))
    → P (merge_parcel it s)
unfolding merge_parcel
merge_parcel-cases P it s same known fresh =
    if_split P (is_text it.parcel_id)
      (λ _. option_split P it.geometry same (λ shape _.
        if_split P (has it.parcel_id s.store.poly_ids)
          (λ _. option_split P (poly_by_id it.parcel_id s.store.parcel_polys) same (known shape))
          (fresh shape)))
      (λ _. same)

merge_parcel-vp_tiles :
    (it : ParcelRow) (s : Progress) → (merge_parcel it s).store.vp_tiles ≡ s.store.vp_tiles
merge_parcel-vp_tiles it s =
    merge_parcel-cases (λ t. t.store.vp_tiles ≡ s.store.vp_tiles) it s refl
      (λ shape old _. merge_known-vp_tiles it shape old s)
      (λ shape _. merge_new-vp_tiles it shape s)

pub merge_parcels-vp_tiles :
    (its : List ParcelRow) (s : Progress) → (merge_parcels its s).store.vp_tiles ≡ s.store.vp_tiles
unfolding merge_parcels
merge_parcels-vp_tiles [] s = refl
merge_parcels-vp_tiles (it ∷ its) s =
    merge_parcels-vp_tiles its (merge_parcel it s) ∙ merge_parcel-vp_tiles it s
