-- ===== src/Prelude/Sets.antt =====
-- Hash sets of numbers, as lists: `HashSet::{contains, insert, remove}`.
use Prim.Native.Nat.{ℕ}
use mathlib.Core.Path.{◌≡◌, refl, ap, ◌∙◌}
use mathlib.Core.Bool.{Bool, true, false, ◌||◌}
use mathlib.Core.List.{List, [], ◌∷◌, ◌++◌, reverse, reverse-cons}
use native.Mathlib.Omega.{arith}
use spectrum.Prelude.Tests.{◌==◌, if◌then◌else◌}

unfoldable pub contains : ℕ → List ℕ → Bool
contains k [] = false
contains k (j ∷ s) = j == k || contains k s

unfoldable pub add : ℕ → List ℕ → List ℕ
add k s = if contains k s then s else k ∷ s

unfoldable pub discard : ℕ → List ℕ → List ℕ
discard k [] = []
discard k (j ∷ s) = if j == k then discard k s else j ∷ discard k s

pub contains-add : (k j : ℕ) (s : List ℕ) → contains j (add k s) ≡ (k == j || contains j s)
unfolding add contains
contains-add k j s = ground (arith, contains_eq k j s)
  where
    contains_eq : (a b : ℕ) (l : List ℕ) → contains a l ≡ true → a ≡ b → contains b l ≡ true
    contains_eq a b l h e = rw (← e) h

pub contains-discard :
    (k j : ℕ) (s : List ℕ) → contains j (discard k s) ≡ (if k == j then false else contains j s)
unfolding discard contains
contains-discard k j [] = ground arith
contains-discard k j (i ∷ s) = ground (arith, contains-discard k j s)

pub contains-append :
    (k : ℕ) (xs ys : List ℕ) → contains k (xs ++ ys) ≡ (contains k xs || contains k ys)
unfolding contains
contains-append k [] ys = refl
contains-append k (x ∷ xs) ys = ground (arith, contains-append k xs ys)

pub contains-reverse : (k : ℕ) (xs : List ℕ) → contains k (reverse xs) ≡ contains k xs
unfolding contains
contains-reverse k [] = refl
contains-reverse k (x ∷ xs) =
    ap (contains k) (reverse-cons x xs)
    ∙ contains-append k (reverse xs) (x ∷ [])
    ∙ ground (arith, contains-reverse k xs)
