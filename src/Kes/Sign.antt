-- ===== src/Kes/Sign.antt =====
-- `kes_sign` and `kes_verify` of spectrum-kes/src/lib.rs, with `calculate_scheme_pk_from_signature`
-- of composition_utils.rs.
use Prim.Native.Nat.{bit_and}
use spectrum.Kes.Scheme.{KesSecret}
use spectrum.Kes.Utils.{Crypto, concat, hash, merge_public_keys}
use spectrum.Prelude.{
  Bool, List, Outcome, [], bytes_eq, if◌then◌else◌, leb, returned, reverse, u32, ℕ, ◌%◌, ◌&&◌, ◌++◌,
  ◌+◌, ◌-◌, ◌==◌, ◌>>=◌, ◌^◌, ◌∷◌,
}

pub record KesSignature (PublicKey Signature : Type 0) : Type 0 where
  pub sig : Signature
  pub hot_pk : PublicKey
  pub other_pks : List PublicKey

module _ {Digest SecretKey Scalar PublicKey Signature : Type 0}
    (c : Crypto Digest SecretKey Scalar PublicKey Signature) where
  -- The loop of `kes_sign` over the levels from index `i` on.
  unfoldable pub related_keys :
      ℕ → List (PublicKey × PublicKey) → ℕ → ℕ → List PublicKey → List PublicKey
  related_keys high [] i h keys = keys
  related_keys high (pair ∷ pairs) i h keys =
      let leaf_high = u32 (high + (2 ^ 32 - u32 i)) in
      let actual_high = u32 (2 ^ u32 (leaf_high + (2 ^ 32 - 1))) in
      let on_right = leb actual_high h in
      related_keys high pairs (i + 1) (if on_right then h - actual_high else h)
        (keys ++ (if on_right then pair.0 else pair.1) ∷ [])

  unfoldable pub kes_sign :
      Digest → KesSecret Digest SecretKey PublicKey → ℕ → KesSignature PublicKey Signature
  kes_sign message secret current_slot = record {
    sig = c.sign secret.hot_sk (concat c current_slot message);
    hot_pk = secret.hot_pk;
    other_pks =
        related_keys secret.initial_merkle_tree_high secret.merkle_public_keys 0 current_slot [];
  }

  -- The loop over the keys from the last to the first; `bit` is the distance from the last.
  unfoldable pub scheme_loop : List PublicKey → ℕ → ℕ → PublicKey → Outcome PublicKey
  scheme_loop [] bit signing_period scheme_pk = returned scheme_pk
  scheme_loop (pk ∷ pks) bit signing_period scheme_pk = do
    merged ←
        if bit_and signing_period (2 ^ (bit % 32)) == 0
        then merge_public_keys c scheme_pk pk
        else merge_public_keys c pk scheme_pk
    scheme_loop pks (bit + 1) signing_period merged

  unfoldable pub calculate_scheme_pk_from_signature :
      KesSignature PublicKey Signature → ℕ → Outcome PublicKey
  calculate_scheme_pk_from_signature signature signing_period =
      scheme_loop (reverse signature.other_pks) 0 signing_period signature.hot_pk

  unfoldable pub kes_verify :
      KesSignature PublicKey Signature → Digest → PublicKey → ℕ → Outcome Bool
  kes_verify signature message all_scheme_pk signing_slot =
      let message_is_verified =
        c.verify signature.hot_pk (concat c signing_slot message) signature.sig in
      calculate_scheme_pk_from_signature signature signing_slot >>= λ sig_scheme_pk.
      let pk_is_verified =
        bytes_eq (c.as_ref (hash c (c.to_sec1_bytes sig_scheme_pk)))
          (c.as_ref (hash c (c.to_sec1_bytes all_scheme_pk))) in
      returned (message_is_verified && pk_is_verified)
