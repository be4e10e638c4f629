-- ===== src/Prelude/Slices.antt =====
-- Bytes, as lists of numbers below 256, and their slices.
use Prim.Native.Nat.{ℕ, ◌+◌, ◌-◌}
use mathlib.Core.Path.{◌≡◌, refl, ap}
use mathlib.Core.Bool.{Bool, true, false, ◌&&◌}
use mathlib.Core.List.{List, [], ◌∷◌, ◌++◌}
use native.Mathlib.Omega.{arith}
use spectrum.Prelude.Tests.{◌==◌, leb, if◌then◌else◌, ==_refl}
use spectrum.Prelude.Lists.{length, take, drop, length-append}
use spectrum.Prelude.Results.{Outcome, returned, panicked}

-- The equality of two byte slices.
unfoldable pub bytes_eq : List ℕ → List ℕ → Bool
bytes_eq [] [] = true
bytes_eq [] (y ∷ ys) = false
bytes_eq (x ∷ xs) [] = false
bytes_eq (x ∷ xs) (y ∷ ys) = x == y && bytes_eq xs ys

abbrev pub Bytes : Type 0
Bytes = List ℕ

pub bytes_eq_refl : (xs : List ℕ) → bytes_eq xs xs ≡ true
unfolding bytes_eq
bytes_eq_refl [] = refl
bytes_eq_refl (x ∷ xs) = rw (==_refl x) (bytes_eq_refl xs)

pub bytes_eq_sound : (xs ys : Bytes) → bytes_eq xs ys ≡ true → xs ≡ ys
unfolding bytes_eq
bytes_eq_sound [] [] same = refl
bytes_eq_sound [] (y ∷ ys) same = cc
bytes_eq_sound (x ∷ xs) [] same = cc
bytes_eq_sound (x ∷ xs) (y ∷ ys) same = ground (arith, bytes_eq_sound xs ys)

-- `&bytes[from..to]`.
abbrev pub slice : Bytes → ℕ → ℕ → Outcome Bytes
slice bytes from to =
    if leb from to && leb to (length bytes)
    then returned (take (to - from) (drop from bytes))
    else panicked

pub take-append : (xs ys : Bytes) → take (length xs) (xs ++ ys) ≡ xs
take-append [] ys = refl
take-append (x ∷ xs) ys = ap (λ s. x ∷ s) (take-append xs ys)

pub drop-append : (xs ys : Bytes) → drop (length xs) (xs ++ ys) ≡ ys
drop-append [] ys = refl
drop-append (x ∷ xs) ys = drop-append xs ys

-- A slice in the middle.
pub slice-append :
    (front middle back : Bytes) (from to : ℕ)
    → from ≡ length front
    → to ≡ length front + length middle
    → slice (front ++ (middle ++ back)) from to ≡ returned middle
slice-append front middle back from to starts ends =
    let total : length (front ++ (middle ++ back)) ≡ length front + (length middle + length back) =
      omega (arith, length-append front (middle ++ back), length-append middle back) in
    let ordered : leb from to ≡ true = ground (arith, starts, ends) in
    let within : leb to (length (front ++ (middle ++ back))) ≡ true = ground (arith, total, ends) in
    let width : to - from ≡ length middle = omega arith in
    rw ordered (
      rw within (
        rw width (
          rw starts (rw (drop-append front (middle ++ back)) (rw (take-append middle back) refl)))))
