-- ===== src/Kes/Scheme.antt =====
-- The keys of a tree: spectrum-kes/src/composition_utils.rs and `kes_gen` of lib.rs.
use spectrum.Kes.Utils.{Crypto, double_the_seed, key_pair_gen, merge_public_keys}
use spectrum.Prelude.{
  List, Outcome, [], if◌then◌else◌, length, panicked, returned, reverse, suc, u32, zero, ℕ, ◌&&◌,
  ◌++◌, ◌+◌, ◌-◌, ◌==◌, ◌>>=◌, ◌^◌, ◌∷◌,
}

pub record KesSecret (Digest SecretKey PublicKey : Type 0) : Type 0 where
  pub initial_merkle_tree_high : ℕ
  pub n_hot_sk_updates : ℕ
  pub hot_sk : SecretKey
  pub hot_pk : PublicKey
  pub merkle_seeds : List Digest
  pub merkle_public_keys : List (PublicKey × PublicKey)

module _ {Digest SecretKey Scalar PublicKey Signature : Type 0}
    (c : Crypto Digest SecretKey Scalar PublicKey Signature) where
  -- The loop of `get_left_merkle_tree_branch`; the first argument bounds its rounds.
  unfoldable pub branch_loop :
      ℕ → ℕ → Digest → List Digest → Outcome (SecretKey × PublicKey × List Digest)
  branch_loop zero h actual_seed branch_seeds = panicked
  branch_loop (suc rounds) h actual_seed branch_seeds =
      let seeds = double_the_seed c actual_seed in
      let pushed = branch_seeds ++ seeds.1 ∷ [] in
      let rest = branch_loop rounds (u32 (h + (2 ^ 32 - 1))) seeds.0 pushed in
      if h == 1
      then (key_pair_gen c seeds.0 >>= λ keys. returned (keys.0, keys.1, pushed))
      else rest

  -- A u32 counts down to 1 in at most 2 ^ 32 rounds.
  unfoldable pub get_left_merkle_tree_branch :
      ℕ → Digest → Outcome (SecretKey × PublicKey × List Digest)
  get_left_merkle_tree_branch merkle_tree_high seed = branch_loop (2 ^ 32) merkle_tree_high seed []

  -- The loop of `sum_composition_pk_gen`; `sub` is the call of the function itself.
  unfoldable pub merge_branch :
      (ℕ → Digest → Outcome PublicKey) → List Digest → ℕ → PublicKey → Outcome PublicKey
  merge_branch sub [] high pk = returned pk
  merge_branch sub (seed ∷ seeds) high pk = do
    pk_right ←
        if high == 0 then (key_pair_gen c seed >>= λ keys. returned keys.1) else sub high seed
    merged ← merge_public_keys c pk pk_right
    merge_branch sub seeds (u32 (high + 1)) merged

  unfoldable pub pk_gen_within : ℕ → ℕ → Digest → Outcome PublicKey
  pk_gen_within zero merkle_tree_high seed = panicked
  pk_gen_within (suc depth) merkle_tree_high seed =
      if merkle_tree_high == 0
      then (key_pair_gen c seed >>= λ keys. returned keys.1)
      else (get_left_merkle_tree_branch merkle_tree_high seed >>= λ branch.
          merge_branch (pk_gen_within depth) (reverse branch.2) 0 branch.1)

  -- The calls go to smaller heights.
  unfoldable pub sum_composition_pk_gen : ℕ → Digest → Outcome PublicKey
  sum_composition_pk_gen merkle_tree_high seed =
      pk_gen_within (suc merkle_tree_high) merkle_tree_high seed

  -- The loop of `kes_gen` over the seeds from the last to the first.
  unfoldable pub gen_loop :
      List Digest
      → ℕ
      → PublicKey
      → List (PublicKey × PublicKey)
      → Outcome (PublicKey × List (PublicKey × PublicKey))
  gen_loop [] high pk_all_scheme pairs = returned (pk_all_scheme, pairs)
  gen_loop (seed ∷ seeds) high pk_all_scheme pairs = do
    pk_right ← sum_composition_pk_gen high seed
    merged ← merge_public_keys c pk_all_scheme pk_right
    gen_loop seeds (u32 (high + 1)) merged (pairs ++ (pk_all_scheme, pk_right) ∷ [])

  -- The two assertions of `kes_gen`, and the secret.
  unfoldable pub gen_secret :
      ℕ
      → SecretKey
      → PublicKey
      → PublicKey
      → List Digest
      → List (PublicKey × PublicKey)
      → Outcome (KesSecret Digest SecretKey PublicKey × PublicKey)
  gen_secret merkle_tree_high sk pk pk_all_scheme seeds pairs =
      if length pairs == merkle_tree_high && length seeds == merkle_tree_high
      then returned (
        record {
          initial_merkle_tree_high = merkle_tree_high;
          n_hot_sk_updates = 0;
          hot_sk = sk;
          hot_pk = pk;
          merkle_seeds = seeds;
          merkle_public_keys = pairs;
        },
        pk_all_scheme,
      )
      else panicked

  unfoldable pub kes_gen : ℕ → Digest → Outcome (KesSecret Digest SecretKey PublicKey × PublicKey)
  kes_gen merkle_tree_high seed =
      if merkle_tree_high == 0
      then (key_pair_gen c seed >>= λ keys. gen_secret merkle_tree_high keys.0 keys.1 keys.1 [] [])
      else (get_left_merkle_tree_branch merkle_tree_high seed >>= λ branch.
          gen_loop (reverse branch.2) 0 branch.1 [] >>= λ out.
          gen_secret merkle_tree_high branch.0 branch.1 out.0 branch.2 (reverse out.1))
