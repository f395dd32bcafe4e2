-- ===== src/Geometry/Biggest.antt =====
-- `biggestRing` picks a largest ring.
use siedler_sterreich.Prelude.{
  ◌≤◌, ◌<◌, List, [], ◌∷◌, Option, none, some, ◌≡◌, refl, ◌⊎◌, inl, inr, arith, ◌∙◌, sym, subst,
  length, All,
}
use siedler_sterreich.Geometry.{
  Ring, Geometry, geom_all_rings, double_area, bigger, biggest_from, biggest_ring,
}

-- A ring of fewer than three points does not count; the others are no larger than the pick.
abbrev pub Covers : Option Ring → Ring → Type 0
Covers none r = length r < 3
Covers (some b) r = (length r < 3) ⊎ (double_area r ≤ double_area b)

-- The pick is one of the rings, and has at least three points.
abbrev pub Among : List Ring → Option Ring → Type 0
Among rs none = Unit
Among [] (some b) = ⊥
Among (r ∷ rs) (some b) = ((r ≡ b) × (3 ≤ length b)) ⊎ Among rs (some b)

-- A later pick covers all that an earlier one covers.
bigger-Covers : (best : Option Ring) (r q : Ring) → Covers best q → Covers (bigger best r) q
unfolding bigger
bigger-Covers none r q h = ground arith
bigger-Covers (some b) r q h = ground arith

bigger-Covers_self : (best : Option Ring) (r : Ring) → Covers (bigger best r) r
unfolding bigger
bigger-Covers_self none r = ground arith
bigger-Covers_self (some b) r = ground arith

biggest_from-Covers :
    (best : Option Ring) (rs : List Ring) (q : Ring)
    → Covers best q
    → Covers (biggest_from best rs) q
unfolding biggest_from
biggest_from-Covers best [] q h = h
biggest_from-Covers best (r ∷ rs) q h =
    biggest_from-Covers (bigger best r) rs q (bigger-Covers best r q h)

biggest_from-Covers-All :
    (best : Option Ring) (rs : List Ring) → All (Covers (biggest_from best rs)) rs
unfolding biggest_from
biggest_from-Covers-All best [] = tt
biggest_from-Covers-All best (r ∷ rs) = (
  biggest_from-Covers (bigger best r) rs r (bigger-Covers_self best r),
  biggest_from-Covers-All (bigger best r) rs,
)

-- The pick is the one before, or among the rings.
bigger-Among :
    (best : Option Ring) (r : Ring)
    → (bigger best r ≡ best) ⊎ ((bigger best r ≡ some r) × (3 ≤ length r))
unfolding bigger
bigger-Among none r = ground arith
bigger-Among (some b) r = ground arith

Among-later : (r : Ring) (rs : List Ring) (o : Option Ring) → Among rs o → Among (r ∷ rs) o
Among-later r rs none h = tt
Among-later r rs (some b) h = inr h

biggest_from-Among :
    (best : Option Ring) (rs : List Ring)
    → (biggest_from best rs ≡ best) ⊎ Among rs (biggest_from best rs)
unfolding biggest_from
biggest_from-Among best [] = inl refl
biggest_from-Among best (r ∷ rs) = elim (biggest_from-Among (bigger best r) rs) [
  | inr later ↦ inr (Among-later r rs (biggest_from (bigger best r) rs) later)
  | inl e ↦ elim (bigger-Among best r) [
    | inl old ↦ inl (e ∙ old)
    | inr new ↦ inr (subst (Among (r ∷ rs)) (sym (e ∙ new.0)) (inl (refl, new.1)))
  ]
]

-- `biggestRing` picks one of the rings of at least three points, and none of these is larger; it picks
-- none only if there is no such ring.
pub biggest_ring-Covers :
    (g : Geometry)
    → All (Covers (biggest_ring g)) (geom_all_rings g) × Among (geom_all_rings g) (biggest_ring g)
unfolding biggest_ring
biggest_ring-Covers g = (
  biggest_from-Covers-All none (geom_all_rings g),
  elim (biggest_from-Among none (geom_all_rings g)) [
    | inr a ↦ a
    | inl e ↦ subst (Among (geom_all_rings g)) (sym e) tt
  ],
)
