-- ===== src/Handel/Partitioning.antt =====
-- The binomial partitioning of spectrum-handel/src/partitioning.rs: indices, levels and orders.
pub mod Levels
pub mod Members
pub mod Partition
use spectrum.Prelude.{
  List, Option, [], if◌then◌else◌, leb, ltb, max, min, none, reverse, some, suc, zero, ℕ, ◌%◌, ◌++◌,
  ◌+◌, ◌-◌, ◌/◌, ◌==◌, ◌^◌, ◌∷◌,
}

-- An index of a peer within the overlay.
abbrev pub PeerIx : Type 0
PeerIx = ℕ

-- The range `a..a + n`.
unfoldable pub range : ℕ → ℕ → List ℕ
range a zero = []
range a (suc n) = a ∷ range (a + 1) n

-- The loop of `bin_partition`, with fuel: a round halves the interval, so its width is enough.
unfoldable pub partition_loop :
    ℕ → PeerIx → ℕ → ℕ → List (List PeerIx) → Option (List (List PeerIx))
partition_loop zero own min max acc = none
partition_loop (suc fuel) own min max acc =
    let mid = min + (max - min) / 2 in
    let right = ltb mid own in
    let acc' =
      acc ++ (if right then range min (mid + 1 - min) else range (mid + 1) (max - mid)) ∷ [] in
    let min' = if right then mid + 1 else min in
    let max' = if right then max else mid in
    let rest = partition_loop fuel own min' max' acc' in if min' == max' then some acc' else rest

unfoldable pub with_own : Option (List (List PeerIx)) → Option (List (List PeerIx))
with_own none = none
with_own (some levels) = some (reverse (levels ++ [] ∷ []))

-- `bin_partition`, for at least one node: the level of the own index is pushed last.
unfoldable pub bin_partition : PeerIx → ℕ → Option (List (List PeerIx))
unfolding partition_loop with_own
bin_partition own nodes = with_own (partition_loop nodes own 0 (nodes - 1) [])

-- `normalize`: powers of a u32, which wrap; 32 rounds see all that do not wrap.
unfoldable pub normalize_loop : ℕ → ℕ → ℕ → Option ℕ
normalize_loop zero n power = none
normalize_loop (suc fuel) n power =
    let p = 2 ^ power % 2 ^ 32 in
    let rest = normalize_loop fuel n (power + 1) in if leb n p then some p else rest

unfoldable pub normalize : ℕ → Option ℕ
normalize n = normalize_loop 32 n 0
