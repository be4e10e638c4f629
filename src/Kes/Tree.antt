-- ===== src/Kes/Tree.antt =====
-- The tree of keys that spectrum-kes/src walks, by recursion on its height: a leaf for each slot, and
-- what is kept at a slot.
use spectrum.Kes.Scheme.{KesSecret}
use spectrum.Kes.Utils.{
  Crypto, hash, hash_to_public_key, key_pair_gen, merge_public_keys, partial_seed,
}
use spectrum.Prelude.{
  Bool-cases, List, [], ap, false, inl, inr, length, ltb, refl, returned, some, suc, true, zero, ℕ,
  ◌++◌, ◌-◌, ◌^◌, ◌∷◌, ◌≡◌,
}

-- The keys that digests are read as, where the curve reads them: a digest of zero, or not below the
-- order of the curve, is not read.
pub record Scalars {Digest SecretKey Scalar PublicKey Signature : Type 0}
    (c : Crypto Digest SecretKey Scalar PublicKey Signature) : Type 0 where
  pub secret_of : Digest → SecretKey
  pub scalar_of : Digest → Scalar
  pub pk_eq_lem : (pk : PublicKey) → c.pk_eq pk pk ≡ true

module _ {Digest SecretKey Scalar PublicKey Signature : Type 0}
    (c : Crypto Digest SecretKey Scalar PublicKey Signature) (k : Scalars c) where
  abbrev pub keys_of : Digest → SecretKey × PublicKey
  keys_of seed = (k.secret_of seed, c.from_secret_scalar (c.to_nonzero_scalar (k.secret_of seed)))

  abbrev pub left : Digest → Digest
  left seed = partial_seed c seed true

  abbrev pub right : Digest → Digest
  right seed = partial_seed c seed false

  -- The curve reads the digest, as a secret key or as a scalar other than zero.
  abbrev pub IsSecret : Digest → Type 0
  IsSecret d = c.from_slice (c.as_ref d) ≡ some (k.secret_of d)

  abbrev pub IsScalar : Digest → Type 0
  IsScalar d =
      (c.from_bytes (c.as_ref d) ≡ some (k.scalar_of d))
      × (c.non_zero (k.scalar_of d) ≡ some (k.scalar_of d))

  abbrev pub merged_digest : PublicKey → PublicKey → Digest
  merged_digest p q = hash c (c.as_ref (c.finalize (c.to_sec1_bytes p ++ c.to_sec1_bytes q)))

  abbrev pub merged_key : PublicKey → PublicKey → PublicKey
  merged_key p q = c.from_secret_scalar (k.scalar_of (merged_digest p q))

  -- The key of a tree merges those of its halves.
  unfoldable pub pk_at : ℕ → Digest → PublicKey
  pk_at zero seed = (keys_of seed).1
  pk_at (suc h) seed = merged_key (pk_at h (left seed)) (pk_at h (right seed))

  -- The digests of the tree are read: the seeds of its leaves, and the digests of the keys that are
  -- merged.
  abbrev pub TreeFits : ℕ → Digest → Type 0
  TreeFits zero seed = IsSecret seed
  TreeFits (suc h) seed =
      TreeFits h (left seed)
      × TreeFits h (right seed)
      × IsScalar (merged_digest (pk_at h (left seed)) (pk_at h (right seed)))

  -- The keys of the leaf of a slot.
  unfoldable pub leaf : ℕ → Digest → ℕ → SecretKey × PublicKey
  leaf zero seed n = keys_of seed
  leaf (suc h) seed n = elim (ltb n (2 ^ h)) [
    | true ↦ leaf h (left seed) n
    | false ↦ leaf h (right seed) (n - 2 ^ h)
  ]

  -- The seeds of the halves that lie behind the slot, from the largest.
  unfoldable pub seeds_at : ℕ → Digest → ℕ → List Digest
  seeds_at zero seed n = []
  seeds_at (suc h) seed n = elim (ltb n (2 ^ h)) [
    | true ↦ right seed ∷ seeds_at h (left seed) n
    | false ↦ seeds_at h (right seed) (n - 2 ^ h)
  ]

  -- The keys of the halves on the way to the slot.
  unfoldable pub pairs_at : ℕ → Digest → ℕ → List (PublicKey × PublicKey)
  pairs_at zero seed n = []
  pairs_at (suc h) seed n = (pk_at h (left seed), pk_at h (right seed)) ∷ elim (ltb n (2 ^ h)) [
    | true ↦ pairs_at h (left seed) n
    | false ↦ pairs_at h (right seed) (n - 2 ^ h)
  ]

  -- The secret at a slot.
  unfoldable pub secret_at : ℕ → Digest → ℕ → KesSecret Digest SecretKey PublicKey
  secret_at h seed n = record {
    initial_merkle_tree_high = h;
    n_hot_sk_updates = n;
    hot_sk = (leaf h seed n).0;
    hot_pk = (leaf h seed n).1;
    merkle_seeds = seeds_at h seed n;
    merkle_public_keys = pairs_at h seed n;
  }

  pub key_pair_gen_lem :
      (seed : Digest) → IsSecret seed → key_pair_gen c seed ≡ returned (keys_of seed)
  unfolding key_pair_gen
  key_pair_gen_lem seed reads = rw reads

  pub merge_public_keys_lem :
      (p q : PublicKey)
      → IsScalar (merged_digest p q)
      → merge_public_keys c p q ≡ returned (merged_key p q)
  unfolding merge_public_keys hash_to_public_key
  merge_public_keys_lem p q reads = rw reads.0 (rw reads.1)

  pub leaf_low :
      (h : ℕ) (seed : Digest) (n : ℕ)
      → ltb n (2 ^ h) ≡ true
      → leaf (suc h) seed n ≡ leaf h (left seed) n
  unfolding leaf
  leaf_low h seed n side = rw (side, leaf) refl

  pub leaf_high :
      (h : ℕ) (seed : Digest) (n : ℕ)
      → ltb n (2 ^ h) ≡ false
      → leaf (suc h) seed n ≡ leaf h (right seed) (n - 2 ^ h)
  unfolding leaf
  leaf_high h seed n side = rw (side, leaf) refl

  pub seeds_at_low :
      (h : ℕ) (seed : Digest) (n : ℕ)
      → ltb n (2 ^ h) ≡ true
      → seeds_at (suc h) seed n ≡ right seed ∷ seeds_at h (left seed) n
  unfolding seeds_at
  seeds_at_low h seed n side = rw (side, seeds_at) refl

  pub seeds_at_high :
      (h : ℕ) (seed : Digest) (n : ℕ)
      → ltb n (2 ^ h) ≡ false
      → seeds_at (suc h) seed n ≡ seeds_at h (right seed) (n - 2 ^ h)
  unfolding seeds_at
  seeds_at_high h seed n side = rw (side, seeds_at) refl

  pub pairs_at_low :
      (h : ℕ) (seed : Digest) (n : ℕ)
      → ltb n (2 ^ h) ≡ true
      → pairs_at (suc h) seed n
        ≡ (pk_at h (left seed), pk_at h (right seed)) ∷ pairs_at h (left seed) n
  unfolding pairs_at
  pairs_at_low h seed n side = rw (side, pairs_at) refl

  pub pairs_at_high :
      (h : ℕ) (seed : Digest) (n : ℕ)
      → ltb n (2 ^ h) ≡ false
      → pairs_at (suc h) seed n
        ≡ (pk_at h (left seed), pk_at h (right seed)) ∷ pairs_at h (right seed) (n - 2 ^ h)
  unfolding pairs_at
  pairs_at_high h seed n side = rw (side, pairs_at) refl

  pub length-pairs_at : (h : ℕ) (seed : Digest) (n : ℕ) → length (pairs_at h seed n) ≡ h
  length-pairs_at zero seed n = unfold pairs_at in refl
  length-pairs_at (suc h) seed n = elim (Bool-cases (ltb n (2 ^ h))) [
    | inl low ↦ rw (pairs_at_low h seed n low) (ap suc (length-pairs_at h (left seed) n))
    | inr high ↦
        rw (pairs_at_high h seed n high) (ap suc (length-pairs_at h (right seed) (n - 2 ^ h)))
  ]
