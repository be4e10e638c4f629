-- ===== src/Kes/Update.antt =====
-- `kes_update` of spectrum-kes/src/lib.rs and `insert_in_vec` of composition_utils.rs.
use Prim.Native.Nat.{bit_xor}
use spectrum.Kes.Scheme.{KesSecret, kes_gen}
use spectrum.Kes.Utils.{Crypto, key_pair_gen}
use spectrum.Prelude.{
  List, Outcome, [], get_elem?, if◌then◌else◌, leb, length, ltb, negsuc, panicked, pos, returned,
  sub_ℕ, suc, u32, unwrap, usize, wrap_i32, zero, ℕ, ◌%◌, ◌++◌, ◌+◌, ◌-◌, ◌/◌, ◌==◌, ◌>>=◌, ◌^◌,
  ◌∷◌,
}

-- `usize::count_ones` of 64 digits.
unfoldable pub ones_within : ℕ → ℕ → ℕ
ones_within zero x = 0
ones_within (suc digits) x = x % 2 + ones_within digits (x / 2)

unfoldable pub count_ones : ℕ → ℕ
count_ones x = ones_within 64 x

-- `a - b` on usize.
unfoldable pub sub_usize : ℕ → ℕ → ℕ
sub_usize a b = usize (a + (2 ^ 64 - b))

-- `(a as i32 - b as i32) as usize`.
unfoldable pub sub_i32 : ℕ → ℕ → ℕ
sub_i32 a b = elim (wrap_i32 (sub_ℕ a b)) [ pos n ↦ n | negsuc n ↦ 2 ^ 64 - (n + 1) ]

-- The loop of `insert_in_vec` over the indices from `first` on, as many as the second argument says.
unfoldable pub insert_loop {ℓ} : {A : Type ℓ} → List A → List A → ℕ → ℕ → Outcome (List A)
insert_loop source_vec cloned_vec first zero = returned source_vec
insert_loop source_vec cloned_vec first (suc n) = do
  x ← unwrap (get_elem? cloned_vec first)
  insert_loop (source_vec ++ x ∷ []) cloned_vec (first + 1) n

-- The range is `0..end` in each call.
unfoldable pub insert_in_vec {ℓ} : {A : Type ℓ} → List A → List A → ℕ → Outcome (List A)
insert_in_vec source_vec cloned_vec end = insert_loop source_vec cloned_vec 0 end

module _ {Digest SecretKey Scalar PublicKey Signature : Type 0}
    (c : Crypto Digest SecretKey Scalar PublicKey Signature) where
  unfoldable pub advanced :
      KesSecret Digest SecretKey PublicKey
      → SecretKey
      → PublicKey
      → List Digest
      → List (PublicKey × PublicKey)
      → KesSecret Digest SecretKey PublicKey
  advanced secret sk_new pk_new seeds pairs = record {
    initial_merkle_tree_high = secret.initial_merkle_tree_high;
    n_hot_sk_updates = u32 (secret.n_hot_sk_updates + 1);
    hot_sk = sk_new;
    hot_pk = pk_new;
    merkle_seeds = seeds;
    merkle_public_keys = pairs;
  }

  -- The next leaf is the sibling.
  unfoldable pub update_sibling :
      KesSecret Digest SecretKey PublicKey → ℕ → Outcome (KesSecret Digest SecretKey PublicKey)
  unfolding advanced
  update_sibling secret last_seed_ind = do
    seeds ←
        if leb 1 (length secret.merkle_seeds)
        then insert_in_vec [] secret.merkle_seeds last_seed_ind
        else returned []
    pairs ←
        if leb 1 (length secret.merkle_seeds)
        then insert_in_vec [] secret.merkle_public_keys secret.initial_merkle_tree_high
        else returned []
    seed ← unwrap (get_elem? secret.merkle_seeds last_seed_ind)
    keys ← key_pair_gen c seed
    returned (advanced secret keys.0 keys.1 seeds pairs)

  -- The seeds kept when the next leaf is in another branch, after the assertion on its key.
  unfoldable pub kept_seeds :
      KesSecret Digest SecretKey PublicKey → ℕ → PublicKey → Outcome (List Digest)
  kept_seeds secret anc_num pk_child =
      if ltb 1 (length secret.merkle_public_keys)
      then (unwrap
            (get_elem? secret.merkle_public_keys (sub_i32 secret.initial_merkle_tree_high anc_num))
          >>= λ pair.
              if c.pk_eq pair.1 pk_child
              then insert_in_vec [] secret.merkle_seeds (sub_usize (length secret.merkle_seeds) 1)
              else panicked)
      else returned []

  unfoldable pub update_branch :
      KesSecret Digest SecretKey PublicKey → ℕ → ℕ → Outcome (KesSecret Digest SecretKey PublicKey)
  update_branch secret last_seed_ind anc_num = do
    seed ← unwrap (get_elem? secret.merkle_seeds last_seed_ind)
    child ← kes_gen c (u32 (anc_num + (2 ^ 32 - 1))) seed
    kept ← kept_seeds secret anc_num child.1
    let child_pairs = child.0.merkle_public_keys
    front ←
        insert_in_vec [] secret.merkle_public_keys
          (sub_usize (length secret.merkle_public_keys) (length child_pairs))
    pairs ← insert_in_vec front child_pairs (length child_pairs)
    seeds ← insert_in_vec kept child.0.merkle_seeds (length child_pairs)
    if u32 (length pairs) == secret.initial_merkle_tree_high
        then returned (advanced secret child.0.hot_sk child.0.hot_pk seeds pairs)
        else panicked

  unfoldable pub kes_update :
      KesSecret Digest SecretKey PublicKey → Outcome (KesSecret Digest SecretKey PublicKey)
  kes_update secret =
      let last_seed_ind = sub_usize (length secret.merkle_seeds) 1 in
      let anc_num = count_ones (bit_xor secret.n_hot_sk_updates (secret.n_hot_sk_updates + 1)) in
      if anc_num == 1
      then update_sibling secret last_seed_ind
      else update_branch secret last_seed_ind anc_num
