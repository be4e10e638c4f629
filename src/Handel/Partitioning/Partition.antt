-- ===== src/Handel/Partitioning/Partition.antt =====
-- `bin_partition` and `normalize` of spectrum-handel/src/partitioning.rs: what the levels are.
use native.Mathlib.Nat.{add-zero, add-suc}
use spectrum.Handel.Partitioning.{PeerIx, bin_partition, normalize, normalize_loop}
use spectrum.Handel.Partitioning.Levels.{bin_partition_levels, double, length-levels, levels}
use spectrum.Handel.Partitioning.Members.{
  contains-levels, length-level, level_at, level_of, level_of-le, level_of_comm, level_of_self,
  level_of_zero, outside,
}
use spectrum.Prelude.{
  Bool-cases, List, [], ap, arith, contains, false, inl, inr, leb, length, ltb, not, refl, some,
  suc, true, zero, ℕ, ◌%◌, ◌&&◌, ◌+◌, ◌-◌, ◌<◌, ◌==◌, ◌^◌, ◌∙◌, ◌∷◌, ◌≡◌, ◌≢◌, ◌≤◌, ◌⊎◌,
}

-- The levels of the node `own` among 2 ^ d nodes.
pub record IsBinomial (d own : ℕ) (ps : List (List PeerIx)) : Type 0 where
  pub count : length ps ≡ suc d
  pub sizes : (l : ℕ) → l < d → length (level_at ps (suc l)) ≡ 2 ^ l
  pub others :
      (j : PeerIx)
      → j < 2 ^ d
      → j ≢ own
      → (l : ℕ) × (0 < l)
        × (l ≤ d)
        × (contains j (level_at ps l) ≡ true)
        × ((k : ℕ) → contains j (level_at ps k) ≡ true → k ≡ l)
  pub no_own : (l : ℕ) → contains own (level_at ps l) ≡ false
  pub within : (j l : ℕ) → contains j (level_at ps l) ≡ true → j < 2 ^ d

members :
    (d own j l : ℕ)
    → own < 2 ^ suc d
    → j < 2 ^ suc d
    → contains j (level_at ([] ∷ levels (suc d) own 0) l)
      ≡ (not (l == 0) && (level_of (suc d) own j == l))
unfolding contains
members d own j zero p q = refl
members d own j (suc l) p q =
    rw (ap (λ k. contains k (level_at (levels (suc d) own 0) l)) {x = j} {y = 0 + j} (omega arith))
      (contains-levels (suc d) own j 0 l p q ∙ ground arith)

members_outside :
    (d own j l : ℕ)
    → own < 2 ^ suc d
    → ltb j (2 ^ suc d) ≡ false
    → contains j (level_at ([] ∷ levels (suc d) own 0) l) ≡ false
unfolding contains
members_outside d own j zero p q = refl
members_outside d own j (suc l) p q = outside (suc d) own 0 j l p (ground arith)

-- Among 2 ^ d nodes, d at least 1, the loop of `bin_partition` ends and gives d + 1 levels. Level 0
-- is empty, level l + 1 has 2 ^ l nodes, every node but the own one is in exactly one of the levels
-- 1 to d, and the own one in none.
pub bin_partition-IsBinomial :
    (d own : ℕ)
    → own < 2 ^ suc d
    → (ps : List (List PeerIx)) × (bin_partition own (2 ^ suc d) ≡ some ps)
      × (level_at ps 0 ≡ [])
      × IsBinomial (suc d) own ps
bin_partition-IsBinomial d own p = (
  [] ∷ levels (suc d) own 0,
  bin_partition_levels d own p,
  refl,
  record {
    count = ap suc (length-levels (suc d) own 0);
    sizes = λ l h. length-level (suc d) own 0 l h;
    others = λ j q n. (
      level_of (suc d) own j,
      ground (arith, level_of_zero (suc d) own j),
      level_of-le (suc d) own j,
      ground (arith, members d own j (level_of (suc d) own j) p q, level_of_zero (suc d) own j),
      λ k h. ground (arith, members d own j k p q),
    );
    no_own = λ l. members d own own l p p ∙ ground (arith, level_of_self (suc d) own);
    within = λ j l h. ground (arith, members_outside d own j l p);
  },
)

-- The levels are symmetric: a node is in level l of another exactly if that one is in level l of it.
pub bin_partition_symmetric :
    (d i j l : ℕ) (ps qs : List (List PeerIx))
    → i < 2 ^ suc d
    → j < 2 ^ suc d
    → bin_partition i (2 ^ suc d) ≡ some ps
    → bin_partition j (2 ^ suc d) ≡ some qs
    → contains j (level_at ps l) ≡ contains i (level_at qs l)
bin_partition_symmetric d i j l ps qs p q e f = ground (
  arith,
  bin_partition_levels d i p,
  bin_partition_levels d j q,
  members d i j l p q,
  members d j i l q p,
  level_of_comm (suc d) i j,
)

pow-le : (a c : ℕ) → 2 ^ a ≤ 2 ^ (a + c)
pow-le a zero = ground (arith, add-zero a)
pow-le a (suc c) = rw (add-suc a c) (omega (arith, double (a + c), pow-le a c))

-- A power below 32 does not wrap.
no_wrap : (power : ℕ) → power ≤ 31 → 2 ^ power % 2 ^ 32 ≡ 2 ^ power
no_wrap power h = omega (arith, bound)
  where
    bound : 2 ^ power ≤ 2 ^ 31
    bound =
        rw (ap (λ k. 2 ^ k) {x = power + (31 - power)} {y = 31} (omega arith)) at
          (pow-le power (31 - power))

-- What the loop of `normalize` returns from a power on.
normalize_from :
    (fuel n power : ℕ)
    → n ≤ 2 ^ (power + fuel)
    → power + fuel ≤ 31
    → (k : ℕ) × (normalize_loop (suc fuel) n power ≡ some (2 ^ k))
      × (n ≤ 2 ^ k)
      × ((k ≡ power) ⊎ (2 ^ k < n + n))
unfolding normalize_loop
normalize_from zero n power h b =
    (power, ground (arith, no_wrap power, add-zero power), ground (arith, add-zero power), inl refl)
normalize_from (suc fuel) n power h b = elim (Bool-cases (leb n (2 ^ power))) [
  | inl fits ↦ (power, ground (arith, no_wrap power), ground arith, inl refl)
  | inr over ↦
      let (k, e, m, o) =
        normalize_from fuel n (power + 1)
          (rw (ap (λ m. 2 ^ m) {x = power + 1 + fuel} {y = power + suc fuel} (omega arith)) h)
          (omega arith) in
      (
        k,
        ground (arith, no_wrap power, e),
        m,
        inr (ground (arith, o, double power, ap (λ m. 2 ^ m) {x = k} {y = suc power})),
      )
]

-- Up to 2 ^ 31 the loop of `normalize` ends, and returns the least power of two that is not below
-- the argument.
pub normalize_least :
    (n : ℕ)
    → n ≤ 2 ^ 31
    → (k : ℕ) × (normalize n ≡ some (2 ^ k)) × (n ≤ 2 ^ k) × ((k ≡ 0) ⊎ (2 ^ k < n + n))
unfolding normalize
normalize_least n h = normalize_from 31 n 0 h (omega arith)

pub bin_partition-lt :
    (d own j l : ℕ) (ps : List (List PeerIx))
    → own < 2 ^ suc d
    → bin_partition own (2 ^ suc d) ≡ some ps
    → contains j (level_at ps l) ≡ true
    → j < 2 ^ suc d
bin_partition-lt d own j l ps p e h =
    ground (arith, bin_partition_levels d own p, members_outside d own j l p)
