-- ===== src/Search/Ranked.antt =====
-- `Array.sort` with a comparison, which is stable, and the first rows of what it sorts.
use siedler_sterreich.Prelude.{
  ℕ, zero, suc, ◌≤◌, Bool, true, false, List, [], ◌∷◌, ◌≡◌, ◌⊎◌, inl, inr, refl, arith, length,
  take, All, if_split, if◌then◌else◌,
}

-- A row is in a list.
pub data In {A : Type 0} (x : A) : List A → Type 0 where
  here : {xs : List A} → In x (x ∷ xs)
  there : {y : A} {xs : List A} → In x xs → In x (y ∷ xs)

In-behind :
    {A : Type 0} (z x y : A) (xs ys : List A)
    → (In z (x ∷ xs) → In z ys)
    → In z (x ∷ y ∷ xs)
    → In z (y ∷ ys)
In-behind z x y xs ys below here = there (below here)
In-behind z x y xs ys below (there here) = here
In-behind z x y xs ys below (there (there m)) = there (below (there m))

pub take-length : {A : Type 0} (n : ℕ) (xs : List A) → length (take n xs) ≤ n
take-length zero xs = omega arith
take-length (suc n) [] = omega arith
take-length (suc n) (x ∷ xs) = omega (arith, take-length n xs)

pub All-take : {A : Type 0} (P : A → Type 0) (n : ℕ) (xs : List A) → All P xs → All P (take n xs)
All-take P zero xs p = tt
All-take P (suc n) [] p = tt
All-take P (suc n) (x ∷ xs) p = (p.0, All-take P n xs p.1)

All-In : {A : Type 0} (P : A → Type 0) (x : A) (xs : List A) → All P xs → In x xs → P x
All-In P x _ p here = p.0
All-In P x _ p (there {xs = xs} i) = All-In P x xs p.1 i

module _ {A : Type 0} (ahead : A → A → Bool) where
  -- A new row stands in front of the first one that it is ahead of.
  unfoldable pub insert_row : A → List A → List A
  insert_row x [] = x ∷ []
  insert_row x (y ∷ ys) = let rest = insert_row x ys in if ahead x y then x ∷ y ∷ ys else y ∷ rest

  unfoldable pub sort_onto : List A → List A → List A
  unfolding insert_row
  sort_onto sorted [] = sorted
  sort_onto sorted (x ∷ xs) = sort_onto (insert_row x sorted) xs

  abbrev pub sort_rows : List A → List A
  sort_rows xs = sort_onto [] xs

  insert_row-In : (x z : A) (ys : List A) → In z (x ∷ ys) → In z (insert_row x ys)
  unfolding insert_row
  insert_row-In x z [] i = i
  insert_row-In x z (y ∷ ys) i =
      if_split (In z) (ahead x y) (λ _. i)
        (λ _. In-behind z x y ys (insert_row x ys) (λ m. insert_row-In x z ys m) i)

  sort_onto-In_sorted : (z : A) (xs sorted : List A) → In z sorted → In z (sort_onto sorted xs)
  unfolding sort_onto
  sort_onto-In_sorted z [] sorted i = i
  sort_onto-In_sorted z (x ∷ xs) sorted i =
      sort_onto-In_sorted z xs (insert_row x sorted) (insert_row-In x z sorted (there i))

  pub sort_onto-In : (z : A) (xs sorted : List A) → In z xs → In z (sort_onto sorted xs)
  unfolding sort_onto
  sort_onto-In z _ sorted (here {xs = xs}) =
      sort_onto-In_sorted z xs (insert_row z sorted) (insert_row-In z z sorted here)
  sort_onto-In z _ sorted (there {y = x} {xs = xs} i) = sort_onto-In z xs (insert_row x sorted) i

  pub insert_row-All :
      (P : A → Type 0) (x : A) (ys : List A) → P x → All P ys → All P (insert_row x ys)
  unfolding insert_row
  insert_row-All P x [] p ps = (p, tt)
  insert_row-All P x (y ∷ ys) p ps =
      if_split (All P) (ahead x y) (λ _. (p, ps)) (λ _. (ps.0, insert_row-All P x ys p ps.1))

  pub sort_onto-All :
      (P : A → Type 0) (xs sorted : List A) → All P sorted → All P xs → All P (sort_onto sorted xs)
  unfolding sort_onto
  sort_onto-All P [] sorted ps qs = ps
  sort_onto-All P (x ∷ xs) sorted ps qs =
      sort_onto-All P xs (insert_row x sorted) (insert_row-All P x sorted qs.0 ps) qs.1

  -- No row is ahead of one before it.
  pub data IsRanked : List A → Type 0 where
    nothing : IsRanked []
    first :
        {x : A} {xs : List A} → All (λ y. ahead y x ≡ false) xs → IsRanked xs → IsRanked (x ∷ xs)

  module _ (one_way : (x y : A) → ahead x y ≡ true → ahead y x ≡ false)
      (not_ahead : (x y z : A) → ahead x y ≡ false → ahead y z ≡ false → ahead x z ≡ false) where
    All-not_ahead :
        (x y : A) (zs : List A)
        → ahead y x ≡ false
        → All (λ z. ahead z y ≡ false) zs
        → All (λ z. ahead z x ≡ false) zs
    All-not_ahead x y [] e a = tt
    All-not_ahead x y (z ∷ zs) e a = (not_ahead z y x a.0 e, All-not_ahead x y zs e a.1)

    insert_row-IsRanked : (x : A) (ys : List A) → IsRanked ys → IsRanked (insert_row x ys)
    unfolding insert_row
    insert_row-IsRanked x _ nothing = first tt nothing
    insert_row-IsRanked x _ (first {x = y} {xs = ys} a s) =
        if_split IsRanked (ahead x y)
          (λ e. first (one_way x y e, All-not_ahead x y ys (one_way x y e) a) (first a s))
          (λ e.
            first (insert_row-All (λ z. ahead z y ≡ false) x ys e a) (insert_row-IsRanked x ys s))

    pub sort_onto-IsRanked : (xs sorted : List A) → IsRanked sorted → IsRanked (sort_onto sorted xs)
    unfolding sort_onto
    sort_onto-IsRanked [] sorted s = s
    sort_onto-IsRanked (x ∷ xs) sorted s =
        sort_onto-IsRanked xs (insert_row x sorted) (insert_row-IsRanked x sorted s)

    pub take-IsRanked :
        (n : ℕ) (x : A) (ys : List A)
        → IsRanked ys
        → In x ys
        → In x (take n ys) ⊎ ((length (take n ys) ≡ n) × All (λ y. ahead x y ≡ false) (take n ys))
    take-IsRanked zero x ys s i = inr (refl, tt)
    take-IsRanked (suc n) x _ s here = inl here
    take-IsRanked (suc n) x _ (first {x = y} {xs = ys} a s) (there i) =
        elim (take-IsRanked n x ys s i) [
          | inl taken ↦ inl (there taken)
          | inr full ↦
              inr (omega (arith, full.0), (All-In (λ z. ahead z y ≡ false) x ys a i, full.1))
        ]

    pub kept_in_order : (n : ℕ) (ys : List A) → IsRanked ys → IsRanked (take n ys)
    kept_in_order zero ys s = nothing
    kept_in_order (suc n) _ nothing = nothing
    kept_in_order (suc n) _ (first {x = y} {xs = ys} a s) =
        first (All-take (λ z. ahead z y ≡ false) n ys a) (kept_in_order n ys s)

    -- A row of a list is among the first ones after the sort, or these are as many as are wanted and it is ahead of
    -- none of them.
    pub sort_rows-best :
        (n : ℕ) (x : A) (xs : List A)
        → In x xs
        → In x (take n (sort_rows xs))
          ⊎ ((length (take n (sort_rows xs)) ≡ n)
              × All (λ y. ahead x y ≡ false) (take n (sort_rows xs)))
    sort_rows-best n x xs i =
        take-IsRanked n x (sort_rows xs) (sort_onto-IsRanked xs [] nothing) (sort_onto-In x xs [] i)
