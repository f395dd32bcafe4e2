-- ===== src/Relief/Picture.antt =====
-- `decodeReliefTile`: the shades of a tile, around a neutral grey.
use siedler_sterreich.Prelude.{
  ℕ, ◌+◌, ◌-◌, ◌≤◌, min, max, Bool, false, not, ◌||◌, List, [], ◌∷◌, Option, none, some, ◌==◌, ◌≡◌,
  refl, arith, All, if◌then◌else◌, if_split,
}

pub record Pixel : Type 0 where
  pub r : ℕ
  pub g : ℕ
  pub b : ℕ
  pub a : ℕ

-- Flat ground is 180 in the tile and 128 on the map.
abbrev pub shade : ℕ → ℕ
shade v = max 88 (min 188 (128 + v - 180))

abbrev pub recentre : Pixel → Pixel
recentre p = if p.a == 0 then p else record p { r = shade p.r; g = shade p.r; b = shade p.r }

unfoldable pub recentre_all : List Pixel → List Pixel
recentre_all [] = []
recentre_all (p ∷ ps) = recentre p ∷ recentre_all ps

unfoldable pub any_opaque : List Pixel → Bool
any_opaque [] = false
any_opaque (p ∷ ps) = not (p.a == 0) || any_opaque ps

-- The canvas, if any of its pixels can be seen.
unfoldable pub decode : List Pixel → Option (List Pixel)
unfolding recentre_all any_opaque
decode ps = if any_opaque ps then some (recentre_all ps) else none

-- A pixel that is seen is a grey, neither too dark nor too light.
pub data IsGrey (p : Pixel) : Type 0 where
  clear : p.a ≡ 0 → IsGrey p
  grey : p.r ≡ p.g → p.g ≡ p.b → 88 ≤ p.r → p.r ≤ 188 → IsGrey p

recentre-IsGrey : (p : Pixel) → IsGrey (recentre p)
recentre-IsGrey p =
    if_split IsGrey (p.a == 0) (λ e. clear (ground (arith, e)))
      (λ _. grey refl refl (omega arith) (omega arith))

pub recentre_all-IsGrey : (ps : List Pixel) → All IsGrey (recentre_all ps)
unfolding recentre_all
recentre_all-IsGrey [] = tt
recentre_all-IsGrey (p ∷ ps) = (recentre-IsGrey p, recentre_all-IsGrey ps)
