-- ===== src/Landuse/Code/Wet.antt =====
-- A parcel that is half under water, by the cadastre or as observed, is water.
use siedler_sterreich.Prelude.{
  ℕ, ◌*◌, ◌≤◌, ◌<◌, String, true, false, Option, none, some, ◌≡◌, ◌⊎◌, inl, inr, refl, arith, ltb,
  leb, str_eq, Bool-cases, if◌then◌else◌,
}
use native.Mathlib.Nat.{le_of_mul-le-mul_right, mul-le-mul_left}
use siedler_sterreich.Landuse.Water.{
  total_area, water_area, Frac, frac_max, Observed, Areas, observed_water, declared_water,
  water_fraction,
}
use siedler_sterreich.Landuse.Code.{LuProps, water_code, area_of, extract_lu_code}

abbrev pub Half : Frac → Type 0
Half f = f.den ≤ 2 * f.num

half_through : (bn bd an ad : ℕ) → 0 < bd → bd ≤ 2 * bn → bn * ad ≤ an * bd → ad ≤ 2 * an
half_through bn bd an ad pos h k =
    le_of_mul-le-mul_right {m = ad} {n = 2 * an} {k = bd} (grind (arith, mul-le-mul_left ad h, k))
      pos

-- The larger of two shares is half if one of them is.
frac_max-Half : (a b : Frac) → 0 < a.den → 0 < b.den → Half a ⊎ Half b → Half (frac_max a b)
frac_max-Half a b pa pb h =
    ground
      (arith, half_through b.num b.den a.num a.den pb, half_through a.num a.den b.num b.den pa, h)

-- The two sources of a parcel's water share, where they are known.
abbrev pub Wet : Option Observed → Areas → Type 0
Wet ne areas =
    ((o : Frac) × (observed_water ne ≡ some o) × (0 < o.den) × Half o)
    ⊎ ((observed_water ne ≡ none)
        × (0 < total_area areas)
        × (total_area areas ≤ 2 * water_area areas))

share_Half :
    (ne : Option Observed) (areas : Areas)
    → Wet ne areas
    → (w : Frac) × (water_fraction ne (some areas) ≡ some w) × Half w
unfolding water_fraction declared_water
share_Half ne areas (inl (o, e, pos, h)) = elim (Bool-cases (ltb 0 (total_area areas))) [
  | inl some_area ↦ (
    frac_max (record { num = water_area areas; den = total_area areas }) o,
    rw (e, some_area) refl,
    frac_max-Half (record { num = water_area areas; den = total_area areas }) o
        (ground (arith, some_area)) pos (inr h),
  )
  | inr no_area ↦ (o, rw (e, no_area) refl, h)
]
share_Half ne areas (inr (e, pos, h)) =
    (record { num = water_area areas; den = total_area areas }, rw e (ground arith), h)

water_code-Wet :
    (p : LuProps) (areas : Areas)
    → str_eq p.parcel_id "" ≡ false
    → p.landuse_areas ≡ some areas
    → Wet p.ne areas
    → water_code p
      ≡ some (if leb (area_of "60" (some areas)) (area_of "59" (some areas)) then "59" else "60")
unfolding water_code
water_code-Wet p areas named e h =
    let (w, f, half) = share_Half p.ne areas h in
    let known : water_fraction p.ne p.landuse_areas ≡ some w = rw e f in
    let over : leb w.den (2 * w.num) ≡ true = ground (arith, half) in
    rw (named, known, over, e) refl

-- A parcel with an id and declared areas whose observed water share, or else its declared one, is at
-- least a half has a water code, whatever its symbols say: flowing water unless its standing water is
-- the larger. An observed share counts also where the cadastre declares less.
pub extract_lu_code-Wet :
    (lu : String) (p : LuProps) (areas : Areas)
    → str_eq p.parcel_id "" ≡ false
    → p.landuse_areas ≡ some areas
    → Wet p.ne areas
    → extract_lu_code lu p
      ≡ (if leb (area_of "60" (some areas)) (area_of "59" (some areas)) then "59" else "60")
unfolding extract_lu_code
extract_lu_code-Wet lu p areas named e h = rw (water_code-Wet p areas named e h) refl
