-- ===== src/Kes/Generation.antt =====
-- `kes_gen` of spectrum-kes/src/lib.rs against the tree of keys.
use native.Mathlib.Nat.{one-le-pow}
use spectrum.Kes.Scheme.{
  branch_loop, gen_loop, gen_secret, get_left_merkle_tree_branch, kes_gen, merge_branch,
  pk_gen_within, sum_composition_pk_gen,
}
use spectrum.Kes.Tree.{
  Scalars, TreeFits, key_pair_gen_lem, keys_of, leaf, leaf_low, left, length-pairs_at,
  merge_public_keys_lem, pairs_at, pairs_at_low, pk_at, right, secret_at, seeds_at, seeds_at_low,
}
use spectrum.Kes.Utils.{Crypto, double_the_seed}
use spectrum.Prelude.{
  ==_refl, List, Outcome, [], ap, append-nil, append_assoc, arith, false, length, ltb, lt→ltb, refl,
  returned, reverse, reverse-cons, reverse-reverse, suc, sym, true, u32, zero, ℕ, ◌++◌, ◌+◌, ◌-◌,
  ◌<◌, ◌==◌, ◌^◌, ◌∙◌, ◌∷◌, ◌≡◌, ◌≤◌,
}

module _ {Digest SecretKey Scalar PublicKey Signature : Type 0}
    (c : Crypto Digest SecretKey Scalar PublicKey Signature) (k : Scalars c) where
  leftmost : (h : ℕ) → ltb 0 (2 ^ h) ≡ true
  leftmost h = lt→ltb 0 (2 ^ h) (omega (arith, one-le-pow h 2))

  pub length-seeds_leftmost : (h : ℕ) (seed : Digest) → length (seeds_at c k h seed 0) ≡ h
  length-seeds_leftmost zero seed = unfold seeds_at in refl
  length-seeds_leftmost (suc h) seed =
      rw (seeds_at_low c k h seed 0 (leftmost h)) (ap suc (length-seeds_leftmost h (left c k seed)))

  branch_loop_lem :
      (h rounds : ℕ) (seed : Digest) (above : List Digest)
      → suc h ≤ rounds
      → suc h < 2 ^ 32
      → TreeFits c k (suc h) seed
      → branch_loop c rounds (suc h) seed above
        ≡ returned (
          (leaf c k (suc h) seed 0).0,
          (leaf c k (suc h) seed 0).1,
          above ++ seeds_at c k (suc h) seed 0,
        )
  unfolding branch_loop double_the_seed
  branch_loop_lem h zero seed above fits small g = elim fits [ ]
  branch_loop_lem zero (suc rounds) seed above fits small g =
      rw
        (
          leaf_low c k zero seed 0 refl,
          seeds_at_low c k zero seed 0 refl,
          key_pair_gen_lem c k (left c k seed) g.0,
        )
        (unfold leaf seeds_at in refl)
  branch_loop_lem (suc h) (suc rounds) seed above fits small g =
      let test : (suc (suc h) == 1) ≡ false = ground arith in
      let count : u32 (suc (suc h) + (2 ^ 32 - 1)) ≡ suc h = omega arith in
      rw test (
        rw count (
          rw (leaf_low c k (suc h) seed 0 (leftmost (suc h))) (
            rw (seeds_at_low c k (suc h) seed 0 (leftmost (suc h))) (
              branch_loop_lem h rounds (left c k seed) (above ++ right c k seed ∷ []) (omega arith)
                (omega arith) g.0
              ∙ ap
                  (λ (seeds : List Digest). returned (
                    (leaf c k (suc h) (left c k seed) 0).0,
                    (leaf c k (suc h) (left c k seed) 0).1,
                    seeds,
                  ))
                  (append_assoc above (right c k seed ∷ [])
                    (seeds_at c k (suc h) (left c k seed) 0))))))

  get_left_lem :
      (h : ℕ) (seed : Digest)
      → suc h < 2 ^ 32
      → TreeFits c k (suc h) seed
      → get_left_merkle_tree_branch c (suc h) seed
        ≡ returned
            ((leaf c k (suc h) seed 0).0, (leaf c k (suc h) seed 0).1, seeds_at c k (suc h) seed 0)
  unfolding get_left_merkle_tree_branch
  get_left_lem h seed small g = branch_loop_lem h (2 ^ 32) seed [] (omega arith) small g

  merge_step :
      (sub : ℕ → Digest → Outcome PublicKey) (h : ℕ) (seed : Digest) (rest : List Digest)
      → suc h < 2 ^ 32
      → sub h (right c k seed) ≡ returned (pk_at c k h (right c k seed))
      → TreeFits c k (suc h) seed
      → merge_branch c sub (right c k seed ∷ rest) h (pk_at c k h (left c k seed))
        ≡ merge_branch c sub rest (suc h) (pk_at c k (suc h) seed)
  unfolding merge_branch pk_at
  merge_step sub zero seed rest small sub_lem g = rw (key_pair_gen_lem c k (right c k seed) g.1) (
      rw
        (merge_public_keys_lem c k (keys_of c k (left c k seed)).1 (keys_of c k (right c k seed)).1
          g.2)
        refl)
  merge_step sub (suc h) seed rest small sub_lem g =
      let test : (suc h == 0) ≡ false = ground arith in
      let count : u32 (suc h + 1) ≡ suc (suc h) = omega arith in
      rw test (
        rw sub_lem (
          rw
            (merge_public_keys_lem c k (pk_at c k (suc h) (left c k seed))
              (pk_at c k (suc h) (right c k seed)) g.2)
            (rw count refl)))

  -- The order in which the loops take the seeds.
  upwards :
      (h : ℕ) (seed : Digest) (rest : List Digest)
      → reverse (seeds_at c k (suc h) seed 0) ++ rest
        ≡ reverse (seeds_at c k h (left c k seed) 0) ++ (right c k seed ∷ rest)
  upwards h seed rest = rw (seeds_at_low c k h seed 0 (leftmost h)) (
      rw (reverse-cons (right c k seed) (seeds_at c k h (left c k seed) 0))
        (append_assoc (reverse (seeds_at c k h (left c k seed) 0)) (right c k seed ∷ []) rest))

  -- The leftmost key, merged with the keys of the right halves on the way up.
  merge_branch_lem :
      (sub : ℕ → Digest → Outcome PublicKey) (bound : ℕ)
      → bound < 2 ^ 32
      → ((h : ℕ) (seed : Digest)
          → h < bound
          → TreeFits c k h seed
          → sub h seed ≡ returned (pk_at c k h seed))
      → (h : ℕ) (seed : Digest) (rest : List Digest) → h ≤ bound
      → TreeFits c k h seed
      → merge_branch c sub (reverse (seeds_at c k h seed 0) ++ rest) 0 (leaf c k h seed 0).1
        ≡ merge_branch c sub rest h (pk_at c k h seed)
  merge_branch_lem sub bound small sub_lem zero seed rest fits g =
      unfold leaf seeds_at pk_at in refl
  merge_branch_lem sub bound small sub_lem (suc h) seed rest fits g = rw (upwards h seed rest) (
      rw (leaf_low c k h seed 0 (leftmost h)) (
        merge_branch_lem sub bound small sub_lem h (left c k seed) (right c k seed ∷ rest)
          (omega arith) g.0
        ∙ merge_step sub h seed rest (omega arith) (sub_lem h (right c k seed) (omega arith) g.1)
            g))

  pk_gen_within_lem :
      (depth h : ℕ) (seed : Digest)
      → h < depth
      → h < 2 ^ 32
      → TreeFits c k h seed
      → pk_gen_within c depth h seed ≡ returned (pk_at c k h seed)
  unfolding pk_gen_within
  pk_gen_within_lem zero h seed fits small g = elim fits [ ]
  pk_gen_within_lem (suc depth) zero seed fits small g =
      rw (key_pair_gen_lem c k seed g) (unfold pk_at in refl)
  pk_gen_within_lem (suc depth) (suc h) seed fits small g =
      let test : (suc h == 0) ≡ false = ground arith in
      rw test (
        rw (get_left_lem h seed small g) (
          ap
            (λ (seeds : List Digest).
              merge_branch c (pk_gen_within c depth) seeds 0 (leaf c k (suc h) seed 0).1)
            (sym (append-nil (reverse (seeds_at c k (suc h) seed 0))))
          ∙ merge_branch_lem (pk_gen_within c depth) (suc h) small
              (λ m s below inner. pk_gen_within_lem depth m s (omega arith) (omega arith) inner)
              (suc h) seed [] (omega arith) g
          ∙ unfold merge_branch in refl))

  -- The key of a tree as the source computes it, for heights that a u32 holds.
  pub sum_composition_pk_gen_lem :
      (h : ℕ) (seed : Digest)
      → h < 2 ^ 32
      → TreeFits c k h seed
      → sum_composition_pk_gen c h seed ≡ returned (pk_at c k h seed)
  unfolding sum_composition_pk_gen
  sum_composition_pk_gen_lem h seed small g = pk_gen_within_lem (suc h) h seed (omega arith) small g

  gen_step :
      (h : ℕ) (seed : Digest) (rest : List Digest) (below : List (PublicKey × PublicKey))
      → suc h < 2 ^ 32
      → TreeFits c k (suc h) seed
      → gen_loop c (right c k seed ∷ rest) h (pk_at c k h (left c k seed)) below
        ≡ gen_loop c rest
            (suc h)
            (pk_at c k (suc h) seed)
            (below ++ (pk_at c k h (left c k seed), pk_at c k h (right c k seed)) ∷ [])
  unfolding gen_loop pk_at
  gen_step h seed rest below small g =
      let count : u32 (h + 1) ≡ suc h = omega arith in
      rw (sum_composition_pk_gen_lem h (right c k seed) (omega arith) g.1) (
        rw
          (merge_public_keys_lem c k (pk_at c k h (left c k seed)) (pk_at c k h (right c k seed))
            g.2)
          (rw count refl))

  gen_loop_lem :
      (h : ℕ) (seed : Digest) (rest : List Digest)
      → h < 2 ^ 32
      → TreeFits c k h seed
      → gen_loop c (reverse (seeds_at c k h seed 0) ++ rest) 0 (leaf c k h seed 0).1 []
        ≡ gen_loop c rest h (pk_at c k h seed) (reverse (pairs_at c k h seed 0))
  gen_loop_lem zero seed rest small g = unfold leaf seeds_at pk_at pairs_at in refl
  gen_loop_lem (suc h) seed rest small g = rw (upwards h seed rest) (
      rw (leaf_low c k h seed 0 (leftmost h)) (
        gen_loop_lem h (left c k seed) (right c k seed ∷ rest) (omega arith) g.0
        ∙ gen_step h seed rest (reverse (pairs_at c k h (left c k seed) 0)) small g
        ∙ rw (pairs_at_low c k h seed 0 (leftmost h)) (
            rw
              (reverse-cons (pk_at c k h (left c k seed), pk_at c k h (right c k seed))
                (pairs_at c k h (left c k seed) 0))
              refl)))

  gen_secret_lem :
      (h : ℕ) (seed : Digest)
      → gen_secret c h
          (leaf c k h seed 0).0
          (leaf c k h seed 0).1
          (pk_at c k h seed)
          (seeds_at c k h seed 0)
          (pairs_at c k h seed 0)
        ≡ returned (secret_at c k h seed 0, pk_at c k h seed)
  unfolding gen_secret secret_at
  gen_secret_lem h seed =
      rw (length-pairs_at c k h seed 0) (rw (length-seeds_leftmost h seed) (rw (==_refl h) refl))

  -- For heights that a u32 holds, `kes_gen` returns the secret at slot 0 and the key of the tree.
  pub kes_gen_lem :
      (h : ℕ) (seed : Digest)
      → h < 2 ^ 32
      → TreeFits c k h seed
      → kes_gen c h seed ≡ returned (secret_at c k h seed 0, pk_at c k h seed)
  unfolding kes_gen
  kes_gen_lem zero seed small g =
      rw (key_pair_gen_lem c k seed g)
        (unfold leaf seeds_at pairs_at pk_at in gen_secret_lem zero seed)
  kes_gen_lem (suc h) seed small g =
      let test : (suc h == 0) ≡ false = ground arith in
      let branch = leaf c k (suc h) seed 0 in
      let seeds = seeds_at c k (suc h) seed 0 in
      let looped : gen_loop c (reverse seeds) 0 branch.1 []
          ≡ returned (pk_at c k (suc h) seed, reverse (pairs_at c k (suc h) seed 0)) =
        ap (λ (s : List Digest). gen_loop c s 0 branch.1 []) (sym (append-nil (reverse seeds)))
        ∙ gen_loop_lem (suc h) seed [] small g
        ∙ unfold gen_loop in refl in
      rw test (
        rw (get_left_lem h seed small g) (
          rw looped
            (rw (reverse-reverse (pairs_at c k (suc h) seed 0)) (gen_secret_lem (suc h) seed))))
