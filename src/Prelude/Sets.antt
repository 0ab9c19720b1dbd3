-- ===== src/Prelude/Sets.antt =====
-- Ordered sets of texts, without repetition: `BTreeSet<String>` (and `HashSet<String>`, whose order
-- is not fixed).
use Prim.Native.String.{String}
use mathlib.Core.Path.{◌≡◌, refl}
use mathlib.Core.Bool.{Bool, true, false, not, ◌&&◌}
use mathlib.Core.List.{List, [], ◌∷◌}
use native.Mathlib.Omega.{arith}
use tt_aiops_platform.Prelude.Tests.{if◌then◌else◌}
use tt_aiops_platform.Prelude.Keys.{◌==◌, string_eq, str_lt}
use text.Mathlib.TextEquality.{eq_iff}

unfoldable pub contains : String → List String → Bool
contains x [] = false
contains x (y ∷ ys) = let rest = contains x ys in if y == x then true else rest

-- Puts `x` before the first element that is greater.
unfoldable pub place : String → List String → List String
place x [] = x ∷ []
place x (y ∷ ys) = let rest = place x ys in if str_lt x y then x ∷ y ∷ ys else y ∷ rest

unfoldable pub insert : String → List String → List String
unfolding contains place
insert x s = if contains x s then s else place x s

-- `a.difference(b)`, in the order of `a`.
unfoldable pub difference : List String → List String → List String
difference [] b = []
difference (x ∷ xs) b = let rest = difference xs b in if contains x b then rest else x ∷ rest

-- `a == b` on two such sets.
unfoldable pub same : List String → List String → Bool
same [] [] = true
same [] (y ∷ ys) = false
same (x ∷ xs) [] = false
same (x ∷ xs) (y ∷ ys) = let rest = same xs ys in x == y && rest

contains-place :
    (x y : String) (s : List String)
    → contains y (place x s) ≡ (if x == y then true else contains y s)
unfolding contains place
contains-place x y [] = refl
contains-place x y (z ∷ zs) =
    ground (arith, eq_iff x y, eq_iff z x, eq_iff z y, contains-place x y zs)

pub contains-insert :
    (x y : String) (s : List String)
    → contains y (insert x s) ≡ (if x == y then true else contains y s)
unfolding insert
contains-insert x y s = ground (arith, eq_iff x y, contains-place x y s)

pub contains-difference :
    (x : String) (a b : List String)
    → contains x (difference a b) ≡ (contains x a && not (contains x b))
unfolding contains difference
contains-difference x [] b = refl
contains-difference x (y ∷ ys) b = ground (arith, eq_iff y x, contains-difference x ys b)

pub eq_of_same : (a b : List String) → same a b ≡ true → a ≡ b
unfolding same
eq_of_same [] [] h = refl
eq_of_same [] (y ∷ ys) h = cc
eq_of_same (x ∷ xs) [] h = cc
eq_of_same (x ∷ xs) (y ∷ ys) h = ground (arith, eq_iff x y, eq_of_same xs ys)

-- No text stands twice.
abbrev pub NoDup : List String → Type 0
NoDup [] = Unit
NoDup (x ∷ xs) = (contains x xs ≡ false) × NoDup xs

place-NoDup : (x : String) (s : List String) → contains x s ≡ false → NoDup s → NoDup (place x s)
unfolding place contains
place-NoDup x [] k d = (refl, tt)
place-NoDup x (y ∷ ys) k d =
    ground (arith, eq_iff y x, eq_iff x y, contains-place x y ys, place-NoDup x ys)

pub insert-NoDup : (x : String) (s : List String) → NoDup s → NoDup (insert x s)
unfolding insert
insert-NoDup x s d = ground (arith, place-NoDup x s)

pub difference-NoDup : (a b : List String) → NoDup a → NoDup (difference a b)
unfolding difference
difference-NoDup [] b d = tt
difference-NoDup (x ∷ xs) b d =
    ground (arith, contains-difference x xs b, difference-NoDup xs b d.1)
