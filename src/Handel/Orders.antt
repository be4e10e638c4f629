-- ===== src/Handel/Orders.antt =====
-- The verification orders of spectrum-handel/src/partitioning.rs keep the members of each level, and
-- computing them does not panic.
use spectrum.Handel.Overlay.{
  GenPermutation, by_key, cvp_from, host_place, insert_by, ordered_by_cvp, ordered_by_vp, position,
  sort_by_key, sort_by_place, with_keys, without_key,
}
use spectrum.Handel.Partitioning.{bin_partition}
use spectrum.Handel.Partitioning.Members.{level_at}
use spectrum.Handel.Partitioning.Partition.{
  bin_partition-IsBinomial, bin_partition-lt, bin_partition_symmetric,
}
use spectrum.Prelude.{
  Bool-cases, List, Outcome, [], ap, arith, contains, get_elem?, inl, inr, length, ltb, map, refl,
  returned, some, suc, sym, true, zero, ℕ, ◌+◌, ◌<◌, ◌==◌, ◌^◌, ◌||◌, ◌∙◌, ◌∷◌, ◌≡◌,
}

contains-insert_by :
    (key : ℕ → ℕ) (k x : ℕ) (xs : List ℕ)
    → contains k (insert_by key x xs) ≡ (x == k || contains k xs)
unfolding contains insert_by
contains-insert_by key k x [] = refl
contains-insert_by key k x (y ∷ ys) = ground (arith, contains-insert_by key k x ys)

pub contains-sort_by_key :
    (key : ℕ → ℕ) (k : ℕ) (xs : List ℕ) → contains k (sort_by_key key xs) ≡ contains k xs
unfolding sort_by_key contains
contains-sort_by_key key k [] = refl
contains-sort_by_key key k (x ∷ xs) =
    contains-insert_by key k x (sort_by_key key xs)
    ∙ ap (λ b. x == k || b) (contains-sort_by_key key k xs)

position-some : (h : ℕ) (xs : List ℕ) → contains h xs ≡ true → (n : ℕ) × (position h xs ≡ some n)
unfolding position contains
position-some h [] e = cc
position-some h (x ∷ xs) e = elim (Bool-cases (x == h)) [
  | inl hit ↦ (0, rw hit)
  | inr miss ↦ let (n, p) = position-some h xs (ground arith) in (suc n, rw (miss, p))
]

-- Every number of a list stands in a second one.
abbrev pub Within : List ℕ → List ℕ → Type 0
Within [] ys = Unit {0}
Within (x ∷ xs) ys = (contains x ys ≡ true) × Within xs ys

level-get_elem? :
    (ps : List (List ℕ)) (l k : ℕ)
    → contains k (level_at ps l) ≡ true
    → get_elem? ps l ≡ some (level_at ps l)
unfolding contains
level-get_elem? [] l k e = cc
level-get_elem? (p ∷ ps) zero k e = refl
level-get_elem? (p ∷ ps) (suc l) k e = level-get_elem? ps l k e

module _ (rng : GenPermutation) (d host : ℕ) (ps : List (List ℕ)) where
  -- The host stands in the level of each peer of its own level.
  host_place-returns :
      (l pix : ℕ)
      → host < 2 ^ suc d
      → bin_partition host (2 ^ suc d) ≡ some ps
      → contains pix (level_at ps l) ≡ true
      → (n : ℕ) × (host_place rng host (2 ^ suc d) l pix ≡ returned n)
  unfolding host_place
  host_place-returns l pix p e c =
      let q = bin_partition-lt d host pix l ps p e c in
      let (qs, f, _, _) = bin_partition-IsBinomial d pix q in
      let member = sym (bin_partition_symmetric d host pix l ps qs p q e f) ∙ c in
      let (n, at) =
        position-some host (sort_by_key (rng.gen_vp pix) (level_at qs l))
          (contains-sort_by_key (rng.gen_vp pix) host (level_at qs l) ∙ member) in
      (n, rw (f, level-get_elem? qs l host member, at))

  keys-return :
      (l : ℕ) (pt : List ℕ)
      → host < 2 ^ suc d
      → bin_partition host (2 ^ suc d) ≡ some ps
      → Within pt (level_at ps l)
      → (ks : List (ℕ × ℕ)) × (with_keys (host_place rng host (2 ^ suc d) l) pt ≡ returned ks)
        × (map without_key ks ≡ pt)
  unfolding with_keys
  keys-return l [] p e w = ([], refl, refl)
  keys-return l (x ∷ xs) p e w =
      let (n, k) = host_place-returns l x p e w.0 in
      let (ks, h, m) = keys-return l xs p e w.1 in ((n, x) ∷ ks, rw (k, h), ap (◌∷◌ x) m)

contains-insert_pair :
    (k n x : ℕ) (ks : List (ℕ × ℕ))
    → contains k (map without_key (insert_by by_key (n, x) ks))
      ≡ (x == k || contains k (map without_key ks))
unfolding contains insert_by
contains-insert_pair k n x [] = refl
contains-insert_pair k n x ((m, y) ∷ ks) = ground (arith, contains-insert_pair k n x ks)

contains-sort_pairs :
    (k : ℕ) (ks : List (ℕ × ℕ))
    → contains k (map without_key (sort_by_key by_key ks)) ≡ contains k (map without_key ks)
unfolding sort_by_key contains
contains-sort_pairs k [] = refl
contains-sort_pairs k ((n, x) ∷ ks) =
    contains-insert_pair k n x (sort_by_key by_key ks)
    ∙ ap (λ b. x == k || b) (contains-sort_pairs k ks)

-- The levels from `l` on hold only numbers of the levels of `ps`.
abbrev pub Covered : List (List ℕ) → ℕ → List (List ℕ) → Type 0
Covered ps l [] = Unit {0}
Covered ps l (pt ∷ pts) = Within pt (level_at ps l) × Covered ps (l + 1) pts

-- Level by level the same members.
abbrev pub SameMembers : List (List ℕ) → List (List ℕ) → Type 0
SameMembers [] [] = Unit {0}
SameMembers [] (y ∷ ys) = ⊥
SameMembers (x ∷ xs) [] = ⊥
SameMembers (x ∷ xs) (y ∷ ys) = ((k : ℕ) → contains k x ≡ contains k y) × SameMembers xs ys

sort_by_place-returns :
    (key : ℕ → Outcome ℕ) (pt : List ℕ) (ks : List (ℕ × ℕ))
    → with_keys key pt ≡ returned ks
    → map without_key ks ≡ pt
    → (out : List ℕ) × (sort_by_place key pt ≡ returned out)
      × ((k : ℕ) → contains k out ≡ contains k pt)
unfolding sort_by_place
sort_by_place-returns key pt ks e m = elim (Bool-cases (ltb (length pt) 2)) [
  | inl short ↦ (pt, rw short, λ k. refl)
  | inr long ↦ (
    map without_key (sort_by_key by_key ks),
    rw (long, e),
    λ k. contains-sort_pairs k ks ∙ ap (contains k) m,
  )
]

cvp_from-returns :
    (rng : GenPermutation) (d host l : ℕ) (ps pts : List (List ℕ))
    → host < 2 ^ suc d
    → bin_partition host (2 ^ suc d) ≡ some ps
    → Covered ps l pts
    → (out : List (List ℕ)) × (cvp_from rng host (2 ^ suc d) l pts ≡ returned out)
      × SameMembers out (ordered_by_vp rng pts host)
unfolding cvp_from ordered_by_vp
cvp_from-returns rng d host l ps [] p e w = ([], refl, tt)
cvp_from-returns rng d host l ps (pt ∷ pts) p e w =
    let (ks, h, m) = keys-return rng d host ps l pt p e w.0 in
    let (out, r, c) = sort_by_place-returns _ pt ks h m in
    let (rest, f, s) = cvp_from-returns rng d host (l + 1) ps pts p e w.1 in
    (out ∷ rest, rw (r, f), (λ k. c k ∙ sym (contains-sort_by_key (rng.gen_vp host) k pt), s))

-- The order by the peers' own views never panics, whatever the permutation: in the level of a peer
-- of its level the host is always found. On every level the two orders have the same members.
pub ordered_by_cvp-returns :
    (rng : GenPermutation) (d host : ℕ) (ps pts : List (List ℕ))
    → host < 2 ^ suc d
    → bin_partition host (2 ^ suc d) ≡ some ps
    → Covered ps 0 pts
    → (out : List (List ℕ)) × (ordered_by_cvp rng pts host (2 ^ suc d) ≡ returned out)
      × SameMembers out (ordered_by_vp rng pts host)
unfolding ordered_by_cvp
ordered_by_cvp-returns rng d host ps pts p e w = cvp_from-returns rng d host 0 ps pts p e w
