-- ===== src/Handel/Partitioning/Members.antt =====
-- Who stands in which level of `bin_partition` of spectrum-handel/src/partitioning.rs.
use spectrum.Handel.Partitioning.{range}
use spectrum.Handel.Partitioning.Levels.{
  double, length-levels, levels, levels_high, levels_low, levels_zero,
}
use spectrum.Prelude.{
  Bool, Bool-cases, List, [], ap, arith, contains, false, if◌then◌else◌, inl, inr, leb, length, ltb,
  not, refl, suc, zero, ℕ, ◌&&◌, ◌++◌, ◌+◌, ◌-◌, ◌<◌, ◌==◌, ◌^◌, ◌∷◌, ◌≡◌, ◌≤◌,
}

-- An offset within its half of a block of 2 ^ (d + 1).
abbrev half_offset : ℕ → ℕ → ℕ
half_offset d i = if leb (2 ^ d) i then i - 2 ^ d else i

-- Two offsets are in the same half.
abbrev same_half : ℕ → ℕ → ℕ → Bool
same_half d i j = if leb (2 ^ d) i then leb (2 ^ d) j else not (leb (2 ^ d) j)

-- The level at which two nodes of 2 ^ d meet: the size of the least block with both, as a power of
-- two. It is 0 for a node and itself.
unfoldable pub level_of : ℕ → ℕ → ℕ → ℕ
level_of zero i j = 0
level_of (suc d) i j =
    let rest = level_of d (half_offset d i) (half_offset d j) in
    if same_half d i j then rest else suc d

pub level_of_comm : (d i j : ℕ) → level_of d i j ≡ level_of d j i
unfolding level_of
level_of_comm zero i j = refl
level_of_comm (suc d) i j = ground (arith, level_of_comm d (half_offset d i) (half_offset d j))

pub level_of-le : (d i j : ℕ) → level_of d i j ≤ d
unfolding level_of
level_of-le zero i j = omega arith
level_of-le (suc d) i j = ground (arith, level_of-le d (half_offset d i) (half_offset d j))

pub level_of_self : (d i : ℕ) → level_of d i i ≡ 0
unfolding level_of
level_of_self zero i = refl
level_of_self (suc d) i = ground (arith, level_of_self d (half_offset d i))

pub level_of_zero : (d i j : ℕ) → i < 2 ^ d → j < 2 ^ d → level_of d i j ≡ 0 → i ≡ j
unfolding level_of
level_of_zero zero i j p q e = omega arith
level_of_zero (suc d) i j p q e =
    ground (arith, double d, level_of_zero d (half_offset d i) (half_offset d j))

contains-range : (j a n : ℕ) → contains j (range a n) ≡ (leb a j && ltb j (a + n))
unfolding contains range
contains-range j a zero = ground arith
contains-range j a (suc n) = ground (arith, contains-range j (a + 1) n)

abbrev pub level_at : List (List ℕ) → ℕ → List ℕ
level_at [] l = []
level_at (x ∷ xs) zero = x
level_at (x ∷ xs) (suc l) = level_at xs l

level_at-append :
    (xs : List (List ℕ)) (x : List ℕ) (l : ℕ)
    → level_at (xs ++ x ∷ []) l
      ≡ (if ltb l (length xs) then level_at xs l else if l == length xs then x else [])
level_at-append [] x zero = refl
level_at-append [] x (suc l) = ground arith
level_at-append (y ∷ xs) x zero = ground arith
level_at-append (y ∷ xs) x (suc l) = ground (arith, level_at-append xs x l)

-- The levels of a block stay within the block.
pub outside :
    (d i base j l : ℕ)
    → i < 2 ^ d
    → (leb base j && ltb j (base + 2 ^ d)) ≡ false
    → contains j (level_at (levels d i base) l) ≡ false
unfolding contains
outside zero i base j l p o = rw (levels_zero i base) refl
outside (suc d) i base j l p o = elim (Bool-cases (leb (2 ^ d) i)) [
  | inl high ↦
      rw
        (
          levels_high d i base high,
          level_at-append (levels d (i - 2 ^ d) (base + 2 ^ d)) (range base (2 ^ d)) l,
        )
        (ground (
          arith,
          double d,
          contains-range j base (2 ^ d),
          outside d (i - 2 ^ d) (base + 2 ^ d) j l,
        ))
  | inr low ↦
      rw
        (
          levels_low d i base low,
          level_at-append (levels d i base) (range (base + 2 ^ d) (2 ^ d)) l,
        )
        (ground (arith, double d, contains-range j (base + 2 ^ d) (2 ^ d), outside d i base j l))
]

-- A node of the block stands in the level at which the two nodes meet, and in no other.
pub contains-levels :
    (d i j base l : ℕ)
    → i < 2 ^ d
    → j < 2 ^ d
    → contains (base + j) (level_at (levels d i base) l) ≡ (level_of d i j == suc l)
unfolding level_of contains
contains-levels zero i j base l p q = rw (levels_zero i base) (ground arith)
contains-levels (suc d) i j base l p q = elim (Bool-cases (leb (2 ^ d) i)) [
  | inl high ↦
      rw
        (
          levels_high d i base high,
          level_at-append (levels d (i - 2 ^ d) (base + 2 ^ d)) (range base (2 ^ d)) l,
          length-levels d (i - 2 ^ d) (base + 2 ^ d),
        )
        (ground (
          arith,
          double d,
          contains-range (base + j) base (2 ^ d),
          contains-levels d (i - 2 ^ d) (j - 2 ^ d) (base + 2 ^ d) l,
          outside d (i - 2 ^ d) (base + 2 ^ d) (base + j) l,
          level_of-le d (i - 2 ^ d) (j - 2 ^ d),
        ))
  | inr low ↦
      rw
        (
          levels_low d i base low,
          level_at-append (levels d i base) (range (base + 2 ^ d) (2 ^ d)) l,
          length-levels d i base,
        )
        (ground (
          arith,
          double d,
          contains-range (base + j) (base + 2 ^ d) (2 ^ d),
          contains-levels d i j base l,
          outside d i base (base + j) l,
          level_of-le d i j,
        ))
]

pub length-range : (a n : ℕ) → length (range a n) ≡ n
unfolding range
length-range a zero = refl
length-range a (suc n) = ap suc (length-range (a + 1) n)

-- Level `l + 1` has 2 ^ l nodes.
pub length-level : (d i base l : ℕ) → l < d → length (level_at (levels d i base) l) ≡ 2 ^ l
length-level zero i base l h = absurd (omega arith)
length-level (suc d) i base l h = elim (Bool-cases (leb (2 ^ d) i)) [
  | inl high ↦
      rw
        (
          levels_high d i base high,
          level_at-append (levels d (i - 2 ^ d) (base + 2 ^ d)) (range base (2 ^ d)) l,
          length-levels d (i - 2 ^ d) (base + 2 ^ d),
        )
        (ground (
          arith,
          length-range base (2 ^ d),
          length-level d (i - 2 ^ d) (base + 2 ^ d) l,
          ap (λ n. 2 ^ n) {x = l} {y = d},
        ))
  | inr low ↦
      rw
        (
          levels_low d i base low,
          level_at-append (levels d i base) (range (base + 2 ^ d) (2 ^ d)) l,
          length-levels d i base,
        )
        (ground (
          arith,
          length-range (base + 2 ^ d) (2 ^ d),
          length-level d i base l,
          ap (λ n. 2 ^ n) {x = l} {y = d},
        ))
]
