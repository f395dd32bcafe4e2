-- ===== src/Search/Local/Order.antt =====
-- The order of `cmp` in words: when one hit is as good as another.
use siedler_sterreich.Prelude.{
  ℕ, ◌≤◌, ◌<◌, Bool, true, false, not, ◌&&◌, ◌||◌, List, [], ◌∷◌, ◌≡◌, ◌⊎◌, arith, ltb, length, All,
  if◌then◌else◌,
}
use siedler_sterreich.Search.Ranked.{IsRanked, nothing, first}
use siedler_sterreich.Search.Local.{Around, Hit, eff, before, mark, ahead}

before-one_way :
    (x y : ℕ) (p q : Bool) → (p && q) ≡ false → before x y p ≡ true → before y x q ≡ false
before-one_way x y p q h e = ground (arith, h, e)

before-not :
    (x y z : ℕ) (p q r : Bool)
    → (p || q || not r) ≡ true
    → (before x y p || before y z q || not (before x z r)) ≡ true
before-not x y z p q r h = ground (arith, h)

before-not_down :
    (x y z : ℕ) (p q r : Bool)
    → (p || q || not r) ≡ true
    → (before y x p || before z y q || not (before z x r)) ≡ true
before-not_down x y z p q r h = ground (arith, h)

pub ahead-one_way : (a : Around) (x y : Hit) → ahead a x y ≡ true → ahead a y x ≡ false
unfolding ahead
ahead-one_way a x y e = ground (arith, e)

ahead-chain : (a : Around) (x y z : Hit) → (ahead a x y || ahead a y z || not (ahead a x z)) ≡ true
unfolding ahead
ahead-chain a x y z =
    before-not_down (eff a.in_game x) (eff a.in_game y) (eff a.in_game z) (marked x y) (marked y z)
      (marked x z)
      (before-not_down (mark x.enh) (mark y.enh) (mark z.enh) (nearer x y) (nearer y z) (nearer x z)
        (before-not (away x) (away y) (away z) (shorter x y) (shorter y z) (shorter x z) (
          before-not (length x.row.name) (length y.row.name) (length z.row.name) (ranked x y)
            (ranked y z) (ranked x z) (ground arith))))
  where
    away : Hit → ℕ
    away h = if a.in_game then h.d else 0

    ranked : Hit → Hit → Bool
    ranked g h = ltb (a.rank g.row.name) (a.rank h.row.name)

    shorter : Hit → Hit → Bool
    shorter g h = before (length g.row.name) (length h.row.name) (ranked g h)

    nearer : Hit → Hit → Bool
    nearer g h = before (away g) (away h) (shorter g h)

    marked : Hit → Hit → Bool
    marked g h = before (mark h.enh) (mark g.enh) (nearer g h)

pub ahead-not :
    (a : Around) (x y z : Hit) → ahead a x y ≡ false → ahead a y z ≡ false → ahead a x z ≡ false
ahead-not a x y z e f = ground (arith, e, f, ahead-chain a x y z)

-- The first hit is as good as the second: it has the higher score with the bonus for what is near; or both have the
-- same and it alone has measured terrain; or else it is nearer, in the game; or else its name is shorter; or else its
-- name comes no later in the alphabet.
abbrev pub IsAsGood : Around → Hit → Hit → Type 0
IsAsGood a y x =
    (eff a.in_game x < eff a.in_game y)
    ⊎ ((eff a.in_game x ≡ eff a.in_game y)
        × (((y.enh ≡ true) × (x.enh ≡ false))
            ⊎ ((y.enh ≡ x.enh)
                × (((a.in_game ≡ true) × (y.d < x.d))
                    ⊎ (((a.in_game ≡ false) ⊎ (y.d ≡ x.d))
                        × ((length y.row.name < length x.row.name)
                            ⊎ ((length y.row.name ≡ length x.row.name)
                                × (a.rank y.row.name ≤ a.rank x.row.name))))))))

ahead-IsAsGood : (a : Around) (x y : Hit) → ahead a x y ≡ false → IsAsGood a y x
unfolding ahead
ahead-IsAsGood a x y e = ground (arith, e)

pub All-IsAsGood :
    (a : Around) (x : Hit) (ys : List Hit)
    → All (λ y. ahead a x y ≡ false) ys
    → All (λ y. IsAsGood a y x) ys
All-IsAsGood a x [] h = tt
All-IsAsGood a x (y ∷ ys) h = (ahead-IsAsGood a x y h.0, All-IsAsGood a x ys h.1)

All-no_better :
    (a : Around) (x : Hit) (ys : List Hit)
    → All (λ y. ahead a y x ≡ false) ys
    → All (λ y. IsAsGood a x y) ys
All-no_better a x [] h = tt
All-no_better a x (y ∷ ys) h = (ahead-IsAsGood a y x h.0, All-no_better a x ys h.1)

-- Every hit is as good as those after it.
abbrev pub BestFirst : Around → List Hit → Type 0
BestFirst a [] = Unit
BestFirst a (x ∷ xs) = All (λ y. IsAsGood a x y) xs × BestFirst a xs

pub IsRanked-BestFirst : (a : Around) (xs : List Hit) → IsRanked (ahead a) xs → BestFirst a xs
IsRanked-BestFirst a _ nothing = tt
IsRanked-BestFirst a _ (first {x = x} {xs = xs} h s) =
    (All-no_better a x xs h, IsRanked-BestFirst a xs s)
