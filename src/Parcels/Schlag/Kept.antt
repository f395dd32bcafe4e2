-- ===== src/Parcels/Schlag/Kept.antt =====
-- What is kept is what a search would find where the parcel was when it was searched for.
use siedler_sterreich.Prelude.{
  ℕ, ◌+◌, ◌≤◌, String, true, false, ◌||◌, List, [], ◌∷◌, ◌++◌, Option, none, some, is_some, ◌==◌,
  str_eq, lookup, lookup-insert, insert, find, ◌≡◌, refl, arith, Bool, if_split, if_split_both,
  if◌then◌else◌, subst, sym, ap,
}
use siedler_sterreich.Geometry.{Pt}
use siedler_sterreich.Parcels.Schlag.{
  Schlag, Cached, Crops, covers, hit_of, is_empty, is_fresh, look, look_unless, parcel_schlag,
  fields_arrive,
}

-- The answer for a parcel comes without a search.
abbrev is_good : ℕ → Option Cached → Bool
is_good gen none = false
is_good gen (some c) = is_fresh gen c

abbrev pub is_kept : String → Crops → Bool
is_kept pid g = str_eq pid "" || is_empty g.schlaege || is_good g.gen (lookup pid g.by_parcel)

-- One parcel has been searched at a position.
abbrev pub seen_at : String → Option Pt → (String → Option Pt) → String → Option Pt
seen_at pid spot seen k = if str_eq pid k then spot else seen k

-- Parcels are looked at, each time at any position, and fields arrive, in any order. `seen` is where each parcel was when
-- it was last searched for.
pub data Reach : (String → Option Pt) → Crops → Type 0 where
  opened : Reach (λ _. none) (record { schlaege = []; gen = 0; by_parcel = [] })
  looked :
      (pid : String) (spot : Option Pt) (seen : String → Option Pt) (g : Crops)
      → is_kept pid g ≡ true
      → Reach seen g
      → Reach seen (parcel_schlag pid spot g).0
  searched :
      (pid : String) (spot : Option Pt) (seen : String → Option Pt) (g : Crops)
      → is_kept pid g ≡ false
      → Reach seen g
      → Reach (seen_at pid spot seen) (parcel_schlag pid spot g).0
  arrived :
      (fs : List Schlag) (seen : String → Option Pt) (g : Crops)
      → Reach seen g
      → Reach seen (fields_arrive fs g)

-- An entry that is still good is what the search would find now.
abbrev Right : Option Schlag → ℕ → Option Cached → Type 0
Right now gen none = Unit
Right now gen (some c) = (c.gen ≤ gen) × (is_fresh gen c ≡ true → c.f ≡ now)

abbrev IsRight : (String → Option Pt) → Crops → Type 0
IsRight seen g =
    (pid : String) → Right (hit_of (seen pid) g.schlaege) g.gen (lookup pid g.by_parcel)

find-append :
    (p : Pt) (s : Schlag) (fs gs : List Schlag)
    → find (covers p) fs ≡ some s
    → find (covers p) (fs ++ gs) ≡ some s
find-append p s [] gs h = absurd (ground (arith, h))
find-append p s (f ∷ fs) gs h = ground (arith, h, find-append p s fs gs)

hit_of-append :
    (spot : Option Pt) (s : Schlag) (fs gs : List Schlag)
    → some s ≡ hit_of spot fs
    → some s ≡ hit_of spot (fs ++ gs)
hit_of-append none s fs gs h = h
hit_of-append (some p) s fs gs h = sym (find-append p s fs gs (sym h))

still_right :
    (spot : Option Pt) (fs gs : List Schlag) (gen g : ℕ) (f : Option Schlag)
    → g ≤ gen
    → ((is_some f || g == gen) ≡ true → f ≡ hit_of spot fs)
    → (is_some f || g == gen + 1) ≡ true
    → f ≡ hit_of spot (fs ++ gs)
still_right spot fs gs gen g none le r e = absurd (ground (arith, le, e))
still_right spot fs gs gen g (some s) le r e = hit_of-append spot s fs gs (r refl)

Right-later :
    (spot : Option Pt) (fs gs : List Schlag) (gen : ℕ) (o : Option Cached)
    → Right (hit_of spot fs) gen o
    → Right (hit_of spot (fs ++ gs)) (gen + 1) o
Right-later spot fs gs gen none r = tt
Right-later spot fs gs gen (some c) r =
    (omega (arith, r.0), still_right spot fs gs gen c.gen c.f r.0 r.1)

Right-insert :
    (seen : String → Option Pt) (pid other : String) (spot : Option Pt) (g : Crops)
    → IsRight seen g
    → Right
        (hit_of (seen_at pid spot seen other) g.schlaege)
        g.gen
        (lookup other (insert pid (record { gen = g.gen; f = hit_of spot g.schlaege }) g.by_parcel))
Right-insert seen pid other spot g r =
    subst (Right (hit_of (seen_at pid spot seen other) g.schlaege) g.gen)
      (sym
        (lookup-insert pid other (record { gen = g.gen; f = hit_of spot g.schlaege }) g.by_parcel))
      (if_split_both {A = Option Pt} {B = Option Cached}
        (λ at o. Right (hit_of at g.schlaege) g.gen o) (str_eq pid other)
        (λ _. (omega arith, λ _. refl)) (λ _. r other))

look_unless-kept :
    (pid : String) (spot : Option Pt) (g : Crops) (o : Option Cached)
    → is_good g.gen o ≡ true
    → (look_unless pid spot g o).0 ≡ g
look_unless-kept pid spot g none h = absurd (ground (arith, h))
look_unless-kept pid spot g (some c) h = rw h refl

look_unless-searched :
    (pid : String) (spot : Option Pt) (g : Crops) (o : Option Cached)
    → is_good g.gen o ≡ false
    → look_unless pid spot g o ≡ look pid spot g
look_unless-searched pid spot g none h = refl
look_unless-searched pid spot g (some c) h = rw h refl

parcel_schlag-kept :
    (pid : String) (spot : Option Pt) (g : Crops)
    → is_kept pid g ≡ true
    → (parcel_schlag pid spot g).0 ≡ g
unfolding parcel_schlag
parcel_schlag-kept pid spot g h =
    if_split {A = Crops × Option Schlag} (λ v. v.0 ≡ g) (str_eq pid "" || is_empty g.schlaege)
      (λ _. refl) (λ e. look_unless-kept pid spot g (lookup pid g.by_parcel) (ground (arith, e, h)))

parcel_schlag-searched :
    (pid : String) (spot : Option Pt) (g : Crops)
    → is_kept pid g ≡ false
    → parcel_schlag pid spot g ≡ look pid spot g
unfolding parcel_schlag
parcel_schlag-searched pid spot g h =
    if_split {A = Crops × Option Schlag} (λ v. v ≡ look pid spot g)
      (str_eq pid "" || is_empty g.schlaege) (λ e. absurd (ground (arith, e, h)))
      (λ e. look_unless-searched pid spot g (lookup pid g.by_parcel) (ground (arith, e, h)))

Reach-IsRight : (seen : String → Option Pt) (g : Crops) → Reach seen g → IsRight seen g
unfolding fields_arrive lookup
Reach-IsRight _ _ opened = λ pid. tt
Reach-IsRight seen _ (looked pid spot _ g h r) =
    subst (IsRight seen) (sym (parcel_schlag-kept pid spot g h)) (Reach-IsRight seen g r)
Reach-IsRight _ _ (searched pid spot seen g h r) =
    subst (λ (v : Crops × Option Schlag). IsRight (seen_at pid spot seen) v.0)
      (sym (parcel_schlag-searched pid spot g h))
      (λ other. Right-insert seen pid other spot g (Reach-IsRight seen g r))
Reach-IsRight seen _ (arrived fs _ g r) = λ pid.
    Right-later (seen pid) g.schlaege fs g.gen (lookup pid g.by_parcel) (Reach-IsRight seen g r pid)

look_unless-hit :
    (pid : String) (spot at : Option Pt) (g : Crops) (o : Option Cached)
    → is_good g.gen o ≡ true
    → Right (hit_of at g.schlaege) g.gen o
    → (look_unless pid spot g o).1 ≡ hit_of at g.schlaege
look_unless-hit pid spot at g none h r = absurd (ground (arith, h))
look_unless-hit pid spot at g (some c) h r = rw h (r.1 h)

no_fields : (spot : Option Pt) (fs : List Schlag) → is_empty fs ≡ true → none ≡ hit_of spot fs
no_fields none fs h = refl
no_fields (some p) [] h = refl
no_fields (some p) (f ∷ fs) h = absurd (ground (arith, h))

parcel_schlag-hit :
    (seen : String → Option Pt) (pid : String) (spot : Option Pt) (g : Crops)
    → IsRight seen g
    → str_eq pid "" ≡ false
    → is_kept pid g ≡ true
    → (parcel_schlag pid spot g).1 ≡ hit_of (seen pid) g.schlaege
unfolding parcel_schlag
parcel_schlag-hit seen pid spot g r named h =
    if_split {A = Crops × Option Schlag} (λ v. v.1 ≡ hit_of (seen pid) g.schlaege)
      (str_eq pid "" || is_empty g.schlaege)
      (λ e. no_fields (seen pid) g.schlaege (ground (arith, e, named)))
      (λ e.
        look_unless-hit pid spot (seen pid) g (lookup pid g.by_parcel) (ground (arith, e, h))
          (r pid))

-- However often parcels have been looked at, wherever they were, and fields have arrived before, parcelSchlag gives for a
-- parcel that has an id what a search through all fields as they are now gives: at the parcel's position if it searches
-- now, or else at the position where it was when it was last searched for.
pub Reach-search :
    (seen : String → Option Pt) (g : Crops) (pid : String) (spot : Option Pt)
    → Reach seen g
    → str_eq pid "" ≡ false
    → (parcel_schlag pid spot g).1 ≡ hit_of (if is_kept pid g then seen pid else spot) g.schlaege
Reach-search seen g pid spot r named =
    if_split {A = Option Pt} (λ at. (parcel_schlag pid spot g).1 ≡ hit_of at g.schlaege)
      (is_kept pid g) (λ e. parcel_schlag-hit seen pid spot g (Reach-IsRight seen g r) named e)
      (λ e. ap (λ (v : Crops × Option Schlag). v.1) (parcel_schlag-searched pid spot g e))
