-- ===== src/Geometry/EvenOdd.antt =====
-- srv/static/game.js: `pip`, `pipRings` and `pipGeom`, the even-odd rule.
use siedler_sterreich.Prelude.{
  ◌+◌, ◌*◌, Bool, false, List, [], ◌∷◌, ◌++◌, ltb, if◌then◌else◌, ◌≡◌, refl, sym, ap, ◌∙◌, arith,
}
use mathlib.Core.List.{append-nil, append_assoc}
use mathlib.Core.Bool.{xor}
use siedler_sterreich.Geometry.{
  Pt, Ring, Edge, edges, edges_from, Geometry, geom_all_rings, multi_polygon, part_rings,
}

-- `(yi > y) !== (yj > y) && x < (xj - xi) * (y - yi) / (yj - yi) + xi`, multiplied out: with
-- `lower` the end of the edge at or below `y` and `upper` the other, the test is
-- `(x - lower.x) * (upper.y - lower.y) < (upper.x - lower.x) * (y - lower.y)`.
left_of : Pt → Pt → Pt → Bool
left_of (x, y) lower upper =
    ltb (x * upper.1 + upper.0 * lower.1 + lower.0 * y)
      (lower.0 * upper.1 + x * lower.1 + upper.0 * y)

unfoldable pub crosses : Pt → Edge → Bool
unfolding left_of
crosses (x, y) (pi, pj) =
    if ltb y pi.1
    then (if ltb y pj.1 then false else left_of (x, y) pj pi)
    else (if ltb y pj.1 then left_of (x, y) pi pj else false)

-- The loop of `pip` toggles `inside` at each crossing.
unfoldable pub parity : Pt → List Edge → Bool
unfolding crosses
parity p [] = false
parity p (e ∷ es) = xor (crosses p e) (parity p es)

unfoldable pub pip : Pt → Ring → Bool
unfolding parity edges
pip p r = parity p (edges r)

unfoldable pub pip_rings : Pt → List Ring → Bool
unfolding pip
pip_rings p [] = false
pip_rings p (r ∷ rs) = xor (pip p r) (pip_rings p rs)

unfoldable pub pip_geom : Pt → Geometry → Bool
unfolding pip_rings geom_all_rings
pip_geom p g = pip_rings p (geom_all_rings g)

-- An edge crosses or not whichever way it is walked.
crosses-flip : (p a b : Pt) → crosses p (a, b) ≡ crosses p (b, a)
unfolding crosses
crosses-flip p a b = ground arith

edges_from-snoc :
    (p start q a : Pt) (r : Ring)
    → parity p (edges_from start q (r ++ a ∷ []))
      ≡ xor (parity p (edges_from a q r)) (crosses p (a, start))
unfolding edges_from parity xor
edges_from-snoc p start q a [] = ground arith
edges_from-snoc p start q a (b ∷ r) = ground (arith, edges_from-snoc p start b a r)

pip-turn : (p a : Pt) (r : Ring) → pip p (r ++ a ∷ []) ≡ pip p (a ∷ r)
unfolding pip edges edges_from parity xor
pip-turn p a [] = refl
pip-turn p a (b ∷ r) = ground (arith, edges_from-snoc p b b a r)

-- A ring may start at any of its points: the even-odd test does not see where it is cut open.
pub pip-rotate : (p : Pt) (r s : Ring) → pip p (r ++ s) ≡ pip p (s ++ r)
pip-rotate p [] s = rw append-nil
pip-rotate p (a ∷ r) s =
    sym (pip-turn p a (r ++ s))
    ∙ ap (pip p) (append_assoc r s (a ∷ []))
    ∙ pip-rotate p r (s ++ a ∷ [])
    ∙ ap (pip p) (append_assoc s (a ∷ []) r)

pip_rings-append :
    (p : Pt) (rs ss : List Ring) → pip_rings p (rs ++ ss) ≡ xor (pip_rings p rs) (pip_rings p ss)
unfolding pip_rings xor
pip_rings-append p [] ss = ground arith
pip_rings-append p (r ∷ rs) ss = ground (arith, pip_rings-append p rs ss)

part_rings-append :
    (ps qs : List (List Ring)) → part_rings (ps ++ qs) ≡ part_rings ps ++ part_rings qs
unfolding part_rings
part_rings-append [] qs = refl
part_rings-append (p ∷ ps) qs =
    rw (part_rings-append ps qs) (sym (append_assoc p (part_rings ps) (part_rings qs)))

-- A point lies in an area with several parts if it lies in one half of the parts and not in the
-- other, however the parts are split in two, and exchanging the halves changes nothing.
pub pip_geom-parts :
    (p : Pt) (ps qs : List (List Ring))
    → (pip_geom p (multi_polygon (ps ++ qs))
        ≡ xor (pip_geom p (multi_polygon ps)) (pip_geom p (multi_polygon qs)))
      × (pip_geom p (multi_polygon (ps ++ qs)) ≡ pip_geom p (multi_polygon (qs ++ ps)))
unfolding pip_geom xor
pip_geom-parts p ps qs = ground (
  arith,
  part_rings-append ps qs,
  part_rings-append qs ps,
  pip_rings-append p (part_rings ps) (part_rings qs),
  pip_rings-append p (part_rings qs) (part_rings ps),
)
