-- ===== src/Kes/Evolution.antt =====
-- `kes_update` of spectrum-kes/src/lib.rs against the tree of keys.
use Prim.Native.Nat.{bit_xor}
use mathlib.Core.Path.{subst}
use native.Mathlib.Nat.{pow-le-pow_right}
use spectrum.Kes.Anchor.{Anchor, anchor, length-seeds_at, seeds_last}
use spectrum.Kes.Bits.{ones_trail}
use spectrum.Kes.Copying.{insert_in_vec_lem, insert_whole, length-eq-zero}
use spectrum.Kes.Generation.{kes_gen_lem, length-seeds_leftmost}
use spectrum.Kes.Scheme.{KesSecret, kes_gen}
use spectrum.Kes.Tree.{
  IsSecret, Scalars, TreeFits, key_pair_gen_lem, keys_of, leaf, length-pairs_at, pairs_at, pk_at,
  secret_at, seeds_at,
}
use spectrum.Kes.Update.{
  advanced, count_ones, insert_in_vec, kept_seeds, kes_update, sub_i32, sub_usize, update_branch,
  update_sibling,
}
use spectrum.Kes.Utils.{Crypto}
use spectrum.Prelude.{
  Bool-cases, Outcome, [], ap, append-nil, append_assoc, arith, get_elem?, get_elem?-append_length,
  inl, inr, leb, length, length-append, ltb, lt→ltb, panicked, refl, returned, some, suc, sym, true,
  u32, zero, ℕ, ◌++◌, ◌+◌, ◌-◌, ◌<◌, ◌==◌, ◌>>=◌, ◌^◌, ◌∙◌, ◌∷◌, ◌≡◌, ◌≤◌,
}

module _ {Digest SecretKey Scalar PublicKey Signature : Type 0}
    (c : Crypto Digest SecretKey Scalar PublicKey Signature) where
  -- So many calls of `kes_update`.
  unfoldable pub update_times :
      ℕ → KesSecret Digest SecretKey PublicKey → Outcome (KesSecret Digest SecretKey PublicKey)
  update_times zero secret = returned secret
  update_times (suc n) secret = update_times n secret >>= kes_update c

module _ {Digest SecretKey Scalar PublicKey Signature : Type 0}
    (c : Crypto Digest SecretKey Scalar PublicKey Signature) (k : Scalars c) where
  advanced_lem :
      (h : ℕ) (seed : Digest) (n : ℕ) (a : Anchor c k h seed n)
      → n + 1 < 2 ^ 32
      → advanced c
          (secret_at c k h seed n)
          (leaf c k a.level a.target 0).0
          (leaf c k a.level a.target 0).1
          (a.above ++ seeds_at c k a.level a.target 0)
          (a.front ++ (a.beside, pk_at c k a.level a.target) ∷ pairs_at c k a.level a.target 0)
        ≡ secret_at c k h seed (n + 1)
  unfolding advanced secret_at
  advanced_lem h seed n a small =
      let count : u32 (n + 1) ≡ n + 1 = omega arith in
      rw count (rw a.seeds_next (rw a.pairs_next (rw a.leaf_next refl)))

  anc_num_lem :
      (h : ℕ) (seed : Digest) (n : ℕ) (a : Anchor c k h seed n)
      → count_ones (bit_xor n (n + 1)) ≡ a.level + 1
  unfolding count_ones
  anc_num_lem h seed n a = ones_trail 64 n ∙ a.anchors

  last_seed_lem :
      (h : ℕ) (seed : Digest) (n : ℕ) (a : Anchor c k h seed n)
      → h < 32
      → sub_usize (length (a.above ++ a.target ∷ [])) 1 ≡ length a.above
  unfolding sub_usize
  last_seed_lem h seed n a fits = omega (
    arith,
    length-append a.above (a.target ∷ []),
    length-seeds_at c k h seed n,
    ap length a.seeds_now,
  )

  -- The last seed, and those before it.
  module _ (h : ℕ) (seed : Digest) (n : ℕ) (a : Anchor c k h seed n) (fits : h < 32) where
    last_ind : sub_usize (length (seeds_at c k h seed n)) 1 ≡ length a.above
    last_ind = rw a.seeds_now (last_seed_lem h seed n a fits)

    last_seed : get_elem? (seeds_at c k h seed n) (length a.above) ≡ some a.target
    last_seed = rw a.seeds_now (get_elem?-append_length a.above a.target [])

    earlier_seeds : insert_in_vec [] (seeds_at c k h seed n) (length a.above) ≡ returned a.above
    earlier_seeds =
        rw a.seeds_now (insert_in_vec_lem [] a.above (a.target ∷ []) (length a.above) refl)

    some_seeds : leb 1 (length (seeds_at c k h seed n)) ≡ true
    some_seeds =
        let size : length (a.above ++ a.target ∷ []) ≡ length a.above + 1 =
          length-append a.above (a.target ∷ []) in
        rw a.seeds_now (ground arith)

    asserted_pair :
        get_elem? (pairs_at c k h seed n) (sub_i32 h (a.level + 1))
        ≡ some (a.beside, pk_at c k a.level a.target)
    unfolding sub_i32
    asserted_pair =
        let ind : sub_i32 h (a.level + 1) ≡ length a.front = ground (arith, a.length_front) in
        rw ind (
          rw a.pairs_now
            (get_elem?-append_length a.front (a.beside, pk_at c k a.level a.target) a.below))

    kept_pairs :
        insert_in_vec [] (pairs_at c k h seed n) (sub_usize h a.level)
        ≡ returned (a.front ++ (a.beside, pk_at c k a.level a.target) ∷ [])
    unfolding sub_usize
    kept_pairs =
        let pair : PublicKey × PublicKey = (a.beside, pk_at c k a.level a.target) in
        let size : length (a.front ++ pair ∷ []) ≡ sub_usize h a.level =
          omega (arith, length-append a.front (pair ∷ []), a.length_front) in
        rw a.pairs_now (
          rw (← (append_assoc a.front (pair ∷ []) a.below))
            (insert_in_vec_lem [] (a.front ++ pair ∷ []) a.below (sub_usize h a.level) size))

  update_sibling_lem :
      (h : ℕ) (seed : Digest) (n : ℕ) (a : Anchor c k h seed n)
      → h < 32
      → n + 1 < 2 ^ 32
      → TreeFits c k h seed
      → a.level ≡ 0
      → update_sibling c (secret_at c k h seed n) (length a.above)
        ≡ returned (secret_at c k h seed (n + 1))
  unfolding update_sibling secret_at
  update_sibling_lem h seed n a fits small g sibling =
      let reads : IsSecret c k a.target =
        subst (λ l. TreeFits c k l a.target) sibling (a.covers g) in
      let count : u32 (n + 1) ≡ n + 1 = omega arith in
      let pair : PublicKey × PublicKey = (a.beside, pk_at c k a.level a.target) in
      let nothing : a.below ≡ [] = length-eq-zero a.below (omega (arith, a.length_below)) in
      let same_seeds : seeds_at c k h seed (n + 1) ≡ a.above =
        a.seeds_next
        ∙ ap (λ l. a.above ++ seeds_at c k l a.target 0) sibling
        ∙ unfold seeds_at in append-nil a.above in
      let no_pairs : pairs_at c k a.level a.target 0 ≡ [] =
        ap (λ l. pairs_at c k l a.target 0) sibling ∙ unfold pairs_at in refl in
      let same_pairs : pairs_at c k h seed (n + 1) ≡ pairs_at c k h seed n =
        a.pairs_next ∙ ap (λ s. a.front ++ pair ∷ s) (no_pairs ∙ sym nothing) ∙ sym a.pairs_now in
      let same_leaf : leaf c k h seed (n + 1) ≡ keys_of c k a.target =
        a.leaf_next ∙ ap (λ l. leaf c k l a.target 0) sibling ∙ unfold leaf in refl in
      rw count (
        rw same_seeds (
          rw same_pairs (
            rw same_leaf (
              rw (some_seeds h seed n a fits) (
                rw (earlier_seeds h seed n a fits) (
                  rw (insert_whole [] (pairs_at c k h seed n) h (length-pairs_at c k h seed n)) (
                    rw (last_seed h seed n a fits)
                      (rw (key_pair_gen_lem c k a.target reads) refl))))))))

  kept_seeds_lem :
      (h : ℕ) (seed : Digest) (n : ℕ) (a : Anchor c k h seed n)
      → h < 32
      → 1 ≤ a.level
      → kept_seeds c (secret_at c k h seed n) (a.level + 1) (pk_at c k a.level a.target)
        ≡ returned a.above
  unfolding kept_seeds secret_at
  kept_seeds_lem h seed n a fits branch =
      let several : ltb 1 h ≡ true = lt→ltb 1 h (omega (arith, a.length_front)) in
      rw (length-pairs_at c k h seed n) (
        rw several (
          rw (asserted_pair h seed n a fits) (
            rw (k.pk_eq_lem (pk_at c k a.level a.target))
              (rw (last_ind h seed n a fits) (earlier_seeds h seed n a fits)))))

  update_branch_lem :
      (h : ℕ) (seed : Digest) (n : ℕ) (a : Anchor c k h seed n)
      → h < 32
      → n + 1 < 2 ^ 32
      → TreeFits c k h seed
      → 1 ≤ a.level
      → update_branch c (secret_at c k h seed n) (length a.above) (a.level + 1)
        ≡ returned (secret_at c k h seed (n + 1))
  unfolding update_branch secret_at advanced
  update_branch_lem h seed n a fits small g branch =
      let pair : PublicKey × PublicKey = (a.beside, pk_at c k a.level a.target) in
      let child_pairs = pairs_at c k a.level a.target 0 in
      let height : u32 (a.level + 1 + (2 ^ 32 - 1)) ≡ a.level = omega (arith, a.length_front) in
      let size : length ((a.front ++ pair ∷ []) ++ child_pairs) ≡ h = omega (
        arith,
        length-append (a.front ++ pair ∷ []) child_pairs,
        length-append a.front (pair ∷ []),
        a.length_front,
        length-pairs_at c k a.level a.target 0,
      ) in
      let complete : (u32 (length ((a.front ++ pair ∷ []) ++ child_pairs)) == h) ≡ true =
        ground (arith, size) in
      rw (← advanced_lem h seed n a small) (
        rw (last_seed h seed n a fits, secret_at)
          (rw height (
            rw (kes_gen_lem c k a.level a.target (omega (arith, a.length_front)) (a.covers g)) (
              rw (kept_seeds_lem h seed n a fits branch) (
                unfold secret_at in
                (rw (length-pairs_at c k h seed n) (
                  rw (length-pairs_at c k a.level a.target 0) (
                    rw (kept_pairs h seed n a fits) (
                      rw
                        (insert_whole (a.front ++ pair ∷ []) child_pairs a.level
                          (length-pairs_at c k a.level a.target 0))
                        (rw
                          (insert_whole a.above (seeds_at c k a.level a.target 0) a.level
                            (length-seeds_leftmost c k a.level a.target))
                          (rw complete
                            (rw (append_assoc a.front (pair ∷ []) child_pairs) refl))))))))))))

  -- `kes_update` moves the secret of a slot, but the last, to the next slot.
  kes_update_lem :
      (h : ℕ) (seed : Digest) (n : ℕ)
      → h < 32
      → n + 1 < 2 ^ h
      → TreeFits c k h seed
      → kes_update c (secret_at c k h seed n) ≡ returned (secret_at c k h seed (n + 1))
  unfolding kes_update secret_at
  kes_update_lem h seed n fits inside g =
      let a : Anchor c k h seed n = anchor c k h seed n (omega arith) inside in
      let small : n + 1 < 2 ^ 32 =
        omega (arith, pow-le-pow_right {n = 2} (omega arith) {i = h} {j = 32} (omega arith)) in
      rw (anc_num_lem h seed n a) (
        rw (last_ind h seed n a fits) (elim (Bool-cases (a.level + 1 == 1)) [
          | inl sibling ↦ rw sibling (update_sibling_lem h seed n a fits small g (ground arith))
          | inr branch ↦ rw branch (update_branch_lem h seed n a fits small g (ground arith))
        ]))

  pub update_times_lem :
      (h : ℕ) (seed : Digest) (n : ℕ)
      → h < 32
      → n < 2 ^ h
      → TreeFits c k h seed
      → update_times c n (secret_at c k h seed 0) ≡ returned (secret_at c k h seed n)
  unfolding update_times
  update_times_lem h seed zero fits inside g = refl
  update_times_lem h seed (suc n) fits inside g =
      let next_slot : n + 1 ≡ suc n = omega arith in
      rw (update_times_lem h seed n fits (omega arith) g) (
        kes_update_lem h seed n fits (omega arith) g
        ∙ ap (λ m. returned (secret_at c k h seed m)) next_slot)

  -- Where the curve reads the seeds of the leaves of the tree as secret keys and the digests of the
  -- keys that the tree merges as scalars other than zero, and `pk_eq` holds of a key and itself, a
  -- tree of height below 32 gives a secret for each slot: generation and `n` updates return the secret that the recursion on the tree describes at
  -- slot `n` below 2 ^ height, which no assertion and no index stops, and generation returns the key
  -- of the tree.
  pub kes_evolution :
      (h : ℕ) (seed : Digest) (n : ℕ)
      → h < 32
      → n < 2 ^ h
      → TreeFits c k h seed
      → ((kes_gen c h seed >>= λ made. update_times c n made.0) ≡ returned (secret_at c k h seed n))
        × ((kes_gen c h seed >>= λ made. returned made.1) ≡ returned (pk_at c k h seed))
  kes_evolution h seed n fits inside g =
      let made : kes_gen c h seed ≡ returned (secret_at c k h seed 0, pk_at c k h seed) =
        kes_gen_lem c k h seed (omega arith) g in
      (rw made (update_times_lem h seed n fits inside g), rw made refl)

  -- The secret of the last slot has no seed left, and `kes_update` panics on it.
  kes_update_at_end :
      (h : ℕ) (seed : Digest) → h < 32 → kes_update c (secret_at c k h seed (2 ^ h - 1)) ≡ panicked
  unfolding kes_update update_sibling update_branch secret_at
  kes_update_at_end h seed fits =
      rw (seeds_last c k h seed)
        (elim (Bool-cases (count_ones (bit_xor (2 ^ h - 1) (2 ^ h - 1 + 1)) == 1)) [
          | inl sibling ↦ rw sibling refl
          | inr branch ↦ rw branch refl
        ])
