-- ===== src/Prelude/Lists.antt =====
-- Lists measured and searched over the native numbers.
use Prim.Native.Nat.{ℕ, zero, suc, ◌+◌, ◌≤◌}
use mathlib.Core.Path.{◌≡◌}
use mathlib.Core.Logic.{inl, inr}
use mathlib.Core.Bool.{Bool, false, ◌||◌}
use mathlib.Core.Option.{Option, none, some}
use mathlib.Core.List.{List, [], ◌∷◌, ◌++◌}
use native.Mathlib.Omega.{arith}
use package.siedler_sterreich.Prelude.Tests.{if◌then◌else◌, Bool-cases, ltb, if_split}

module _ {ℓ} {A : Type ℓ} where
  abbrev pub length : List A → ℕ
  length [] = 0
  length (x ∷ xs) = suc (length xs)

  abbrev pub take : ℕ → List A → List A
  take zero xs = []
  take (suc n) [] = []
  take (suc n) (x ∷ xs) = x ∷ take n xs

  -- `arr.filter(f)`, `arr.some(f)`, `arr.find(f)`
  abbrev pub keep_if : (A → Bool) → List A → List A
  keep_if f [] = []
  keep_if f (x ∷ xs) = let rest = keep_if f xs in if f x then x ∷ rest else rest

  abbrev pub any : (A → Bool) → List A → Bool
  any f [] = false
  any f (x ∷ xs) = f x || any f xs

  abbrev pub find : (A → Bool) → List A → Option A
  find f [] = none
  find f (x ∷ xs) = let rest = find f xs in if f x then some x else rest

  -- `while (arr.length > n) arr.shift()`, and `arr.slice(-n)`
  unfoldable pub last_of : ℕ → List A → List A
  last_of n [] = []
  last_of n (x ∷ xs) = let rest = last_of n xs in if ltb n (length (x ∷ xs)) then rest else x ∷ xs

  -- A predicate of every element, as nested pairs.
  abbrev pub All {κ} : (A → Type κ) → List A → Type κ
  All P [] = Unit
  All P (x ∷ xs) = P x × All P xs

  pub length-append : (xs ys : List A) → length (xs ++ ys) ≡ length xs + length ys
  length-append [] ys = omega arith
  length-append (x ∷ xs) ys = omega (arith, length-append xs ys)

  pub All-append {κ} : (P : A → Type κ) (xs ys : List A) → All P xs → All P ys → All P (xs ++ ys)
  All-append P [] ys p q = q
  All-append P (x ∷ xs) ys p q = (p.0, All-append P xs ys p.1 q)

  pub All-keep_if {κ} :
      (P : A → Type κ) (f : A → Bool) (xs : List A) → All P xs → All P (keep_if f xs)
  All-keep_if P f [] p = p
  All-keep_if P f (x ∷ xs) p = elim (Bool-cases (f x)) [
    | inl e ↦ rw e (p.0, All-keep_if P f xs p.1)
    | inr e ↦ rw e (All-keep_if P f xs p.1)
  ]

  pub length-keep_if : (f : A → Bool) (xs : List A) → length (keep_if f xs) ≤ length xs
  length-keep_if f [] = omega arith
  length-keep_if f (x ∷ xs) = ground (arith, length-keep_if f xs)

  pub last_of-length : (n : ℕ) (xs : List A) → length (last_of n xs) ≤ n
  unfolding last_of
  last_of-length n [] = omega arith
  last_of-length n (x ∷ xs) =
      if_split {y = x ∷ xs} (λ l. length l ≤ n) (ltb n (length (x ∷ xs))) (λ _. last_of-length n xs)
        (λ e. ground (arith, e))

  pub All-last_of {κ} : (P : A → Type κ) (n : ℕ) (xs : List A) → All P xs → All P (last_of n xs)
  unfolding last_of
  All-last_of P n [] p = tt
  All-last_of P n (x ∷ xs) p =
      if_split {y = x ∷ xs} (All P) (ltb n (length (x ∷ xs))) (λ _. All-last_of P n xs p.1) (λ _. p)
