-- ===== src/Prelude/Dict.antt =====
-- Objects and sets keyed by texts: an association list in insertion order, and a list of keys.
use Prim.Native.String.{String}
use mathlib.Core.Path.{◌≡◌, refl}
use mathlib.Core.Bool.{Bool, true, false, ◌||◌}
use mathlib.Core.Option.{Option, none, some}
use mathlib.Core.List.{List, [], ◌∷◌, ◌++◌}
use native.Mathlib.Omega.{arith}
use text.Mathlib.Text.{◌==◌}
use text.Mathlib.TextEquality.{eq_iff}
use text.Mathlib.TextPositions.{eq_refl}
use package.siedler_sterreich.Prelude.Tests.{if◌then◌else◌}

-- `m[k]`, `delete m[k]` and `m[k] = v`: a key that is there keeps its place, a new one goes last.
unfoldable pub lookup {ℓ} : {V : Type ℓ} → String → List (String × V) → Option V
lookup key [] = none
lookup key (entry ∷ rest) = if entry.0 == key then some entry.1 else lookup key rest

unfoldable pub remove {ℓ} : {V : Type ℓ} → String → List (String × V) → List (String × V)
remove key [] = []
remove key (entry ∷ rest) = if entry.0 == key then remove key rest else entry ∷ remove key rest

unfoldable pub insert {ℓ} : {V : Type ℓ} → String → V → List (String × V) → List (String × V)
insert key value [] = (key, value) ∷ []
insert key value (entry ∷ rest) =
    if entry.0 == key then (key, value) ∷ rest else entry ∷ insert key value rest

pub lookup-remove {ℓ} :
    {V : Type ℓ} (key other : String) (entries : List (String × V))
    → lookup other (remove key entries) ≡ (if key == other then none else lookup other entries)
unfolding lookup remove
lookup-remove key other [] = ground arith
lookup-remove key other (entry ∷ rest) = ground (
  arith,
  lookup-remove key other rest,
  eq_iff key other,
  eq_iff entry.0 key,
  eq_iff entry.0 other,
)

pub lookup-insert {ℓ} :
    {V : Type ℓ} (key other : String) (value : V) (entries : List (String × V))
    → lookup other (insert key value entries)
      ≡ (if key == other then some value else lookup other entries)
unfolding lookup insert
lookup-insert key other value [] = refl
lookup-insert key other value (entry ∷ rest) = ground (
  arith,
  lookup-insert key other value rest,
  eq_iff key other,
  eq_iff entry.0 key,
  eq_iff entry.0 other,
)

-- `set.has(k)`, `set.add(k)`, `set.delete(k)`
unfoldable pub has : String → List String → Bool
has k [] = false
has k (j ∷ s) = j == k || has k s

unfoldable pub add : String → List String → List String
unfolding has
add k s = if has k s then s else s ++ k ∷ []

unfoldable pub delete : String → List String → List String
delete k [] = []
delete k (j ∷ s) = if j == k then delete k s else j ∷ delete k s

pub has-append : (k : String) (s t : List String) → has k (s ++ t) ≡ (has k s || has k t)
unfolding has
has-append k [] t = refl
has-append k (j ∷ s) t = ground (arith, has-append k s t)

pub has-add : (k j : String) (s : List String) → has j (add k s) ≡ (k == j || has j s)
unfolding add has
has-add k j s = ground (arith, has-append j s (k ∷ []), eq_iff k j)

pub has-delete :
    (k j : String) (s : List String) → has j (delete k s) ≡ (if k == j then false else has j s)
unfolding has delete
has-delete k j [] = ground arith
has-delete k j (i ∷ s) = ground (arith, eq_iff k j, eq_iff i k, eq_iff i j, has-delete k j s)

pub str_eq_refl : (k : String) → (k == k) ≡ true
str_eq_refl k = eq_refl k
