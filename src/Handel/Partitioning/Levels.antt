-- ===== src/Handel/Partitioning/Levels.antt =====
-- What `bin_partition` of spectrum-handel/src/partitioning.rs gives for a power of two of nodes.
use native.Mathlib.Nat.{pow-suc}
use spectrum.Handel.Partitioning.{bin_partition, partition_loop, range}
use spectrum.Prelude.{
  Bool-cases, List, [], ap, append_assoc, arith, false, if◌then◌else◌, inl, inr, leb, length,
  length-append, refl, reverse, reverse-append, reverse-reverse, some, suc, true, zero, ℕ, ◌++◌,
  ◌+◌, ◌-◌, ◌<◌, ◌==◌, ◌^◌, ◌∙◌, ◌∷◌, ◌≡◌,
}

-- The levels from 1 up of the node at offset `i` of the block of 2 ^ d nodes from `base`.
pub levels : ℕ → ℕ → ℕ → List (List ℕ)
levels zero i base = []
levels (suc d) i base = elim (leb (2 ^ d) i) [
  | true ↦ levels d (i - 2 ^ d) (base + 2 ^ d) ++ range base (2 ^ d) ∷ []
  | false ↦ levels d i base ++ range (base + 2 ^ d) (2 ^ d) ∷ []
]

pub length-levels : (d i base : ℕ) → length (levels d i base) ≡ d
unfolding levels
length-levels zero i base = refl
length-levels (suc d) i base = ground (
  arith,
  length-append (levels d (i - 2 ^ d) (base + 2 ^ d)) (range base (2 ^ d) ∷ []),
  length-append (levels d i base) (range (base + 2 ^ d) (2 ^ d) ∷ []),
  length-levels d (i - 2 ^ d) (base + 2 ^ d),
  length-levels d i base,
)

-- One round of the loop, on a block of w + w nodes.
round :
    (fuel own lo w i : ℕ) (acc : List (List ℕ))
    → 0 < w
    → own ≡ lo + i
    → i < w + w
    → partition_loop (suc fuel) own lo (lo + (w + w - 1)) acc ≡ (
        if leb w i
        then (if w == 1
            then some (acc ++ range lo w ∷ [])
            else partition_loop fuel own (lo + w) (lo + w + (w - 1)) (acc ++ range lo w ∷ []))
        else (if w == 1
            then some (acc ++ range (lo + w) w ∷ [])
            else partition_loop fuel own lo (lo + (w - 1)) (acc ++ range (lo + w) w ∷ [])))
unfolding partition_loop
round fuel own lo w i acc p e h = ground arith

pub double : (d : ℕ) → 2 ^ suc d ≡ 2 ^ d + 2 ^ d
double d = omega (arith, pow-suc 2 d)

pub pow_pos : (d : ℕ) → 0 < 2 ^ d
pow_pos zero = omega arith
pow_pos (suc d) = omega (arith, double d, pow_pos d)

pub levels_high :
    (d i base : ℕ)
    → leb (2 ^ d) i ≡ true
    → levels (suc d) i base ≡ levels d (i - 2 ^ d) (base + 2 ^ d) ++ range base (2 ^ d) ∷ []
unfolding levels
levels_high d i base h = rw (h, levels)

pub levels_low :
    (d i base : ℕ)
    → leb (2 ^ d) i ≡ false
    → levels (suc d) i base ≡ levels d i base ++ range (base + 2 ^ d) (2 ^ d) ∷ []
unfolding levels
levels_low d i base h = rw (h, levels)

pub levels_zero : (i base : ℕ) → levels 0 i base ≡ []
unfolding levels
levels_zero i base = refl

-- The list that is pushed to first, and what is pushed later in reverse.
push_reverse {ℓ} :
    {A : Type ℓ} (acc xs : List A) (y : A)
    → (acc ++ y ∷ []) ++ reverse xs ≡ acc ++ reverse (xs ++ y ∷ [])
push_reverse acc xs y = rw (reverse-append xs (y ∷ [])) (append_assoc acc (y ∷ []) (reverse xs))

round_pow :
    (d fuel own lo i : ℕ) (acc : List (List ℕ))
    → own ≡ lo + i
    → i < 2 ^ suc d
    → partition_loop (suc fuel) own lo (lo + (2 ^ suc d - 1)) acc ≡ (
        if leb (2 ^ d) i
        then (if 2 ^ d == 1
            then some (acc ++ range lo (2 ^ d) ∷ [])
            else partition_loop fuel own
                (lo + 2 ^ d)
                (lo + 2 ^ d + (2 ^ d - 1))
                (acc ++ range lo (2 ^ d) ∷ []))
        else (if 2 ^ d == 1
            then some (acc ++ range (lo + 2 ^ d) (2 ^ d) ∷ [])
            else partition_loop fuel own lo
                (lo + (2 ^ d - 1))
                (acc ++ range (lo + 2 ^ d) (2 ^ d) ∷ [])))
round_pow d fuel own lo i acc e h =
    rw (double d) (round fuel own lo (2 ^ d) i acc (pow_pos d) e (omega (arith, double d)))

-- The loop on a block pushes the levels of the block, the largest first.
loop_levels :
    (d fuel own lo i : ℕ) (acc : List (List ℕ))
    → d < fuel
    → own ≡ lo + i
    → i < 2 ^ suc d
    → partition_loop fuel own lo (lo + (2 ^ suc d - 1)) acc
      ≡ some (acc ++ reverse (levels (suc d) i lo))
loop_levels d zero own lo i acc f e h = absurd (omega arith)
loop_levels zero (suc fuel) own lo i acc f e h =
    round fuel own lo 1 i acc (omega arith) e h ∙ elim (Bool-cases (leb 1 i)) [
      | inl high ↦ rw (high, levels_high 0 i lo high, levels_zero (i - 1) (lo + 1))
      | inr low ↦ rw (low, levels_low 0 i lo low, levels_zero i lo)
    ]
loop_levels (suc d) (suc fuel) own lo i acc f e h =
    round_pow (suc d) fuel own lo i acc e h ∙ elim (Bool-cases (leb (2 ^ suc d) i)) [
      | inl high ↦
          rw (high, wide d, levels_high (suc d) i lo high)
            (loop_levels d fuel own (lo + 2 ^ suc d) (i - 2 ^ suc d)
                (acc ++ range lo (2 ^ suc d) ∷ []) (omega arith) (ground arith)
                (ground (arith, double (suc d)))
              ∙ ap some (push_reverse acc (levels (suc d) (i - 2 ^ suc d) (lo + 2 ^ suc d)) _))
      | inr low ↦
          rw (low, wide d, levels_low (suc d) i lo low)
            (loop_levels d fuel own lo i (acc ++ range (lo + 2 ^ suc d) (2 ^ suc d) ∷ [])
                (omega arith) e (ground arith)
              ∙ ap some (push_reverse acc (levels (suc d) i lo) _))
    ]
  where
    wide : (n : ℕ) → (2 ^ suc n == 1) ≡ false
    wide n = ground (arith, double n, pow_pos n)

lt-pow : (d : ℕ) → d < 2 ^ d
lt-pow zero = omega arith
lt-pow (suc d) = omega (arith, lt-pow d, double d)

pub bin_partition_levels :
    (d own : ℕ) → own < 2 ^ suc d → bin_partition own (2 ^ suc d) ≡ some ([] ∷ levels (suc d) own 0)
unfolding bin_partition
bin_partition_levels d own h = rw (pushed) (
    ap some (
      reverse-append (reverse (levels (suc d) own 0)) ([] ∷ [])
      ∙ ap (◌∷◌ []) (reverse-reverse (levels (suc d) own 0))))
  where
    pushed :
        partition_loop (2 ^ suc d) own 0 (2 ^ suc d - 1) [] ≡ some (reverse (levels (suc d) own 0))
    pushed =
        rw
          (ap (λ m. partition_loop (2 ^ suc d) own 0 m []) {x = 2 ^ suc d - 1}
            {y = 0 + (2 ^ suc d - 1)} (omega arith))
          (loop_levels d (2 ^ suc d) own 0 own [] (omega (arith, lt-pow d, double d)) (omega arith)
            h)
