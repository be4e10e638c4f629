-- ===== src/Kes/Utils.antt =====
-- Hashing and keys: spectrum-kes/src/utils.rs, with `hash` of spectrum-crypto/src/digest.rs and
-- `key_pair_gen` of spectrum-vrf/src/utils.rs. The hash function and the curve are parameters: a
-- digest, a secret key, a scalar and a public key are types with the calls the source makes.
use spectrum.Prelude.{
  Bool, List, Option, Outcome, [], false, if◌then◌else◌, returned, true, unwrap, ℕ, ◌%◌, ◌++◌, ◌/◌,
  ◌>>=◌, ◌^◌, ◌∷◌,
}

pub record Crypto (Digest SecretKey Scalar PublicKey Signature : Type 0) : Type 0 where
  -- `HF::new`, `update` with the bytes and `finalize`.
  pub finalize : List ℕ → Digest
  pub as_ref : Digest → List ℕ
  -- `SecretKey::from_slice`, `to_nonzero_scalar` and `PublicKey::from_secret_scalar`.
  pub from_slice : List ℕ → Option SecretKey
  pub to_nonzero_scalar : SecretKey → Scalar
  pub from_secret_scalar : Scalar → PublicKey
  -- `ScalarPrimitive::from_bytes` and `NonZeroScalar::new`.
  pub from_bytes : List ℕ → Option Scalar
  pub non_zero : Scalar → Option Scalar
  -- `to_sec1_bytes` and the equality of public keys.
  pub to_sec1_bytes : PublicKey → List ℕ
  pub pk_eq : PublicKey → PublicKey → Bool
  -- `SigningKey::sign` and `VerifyingKey::verify(..).is_ok()`.
  pub sign : SecretKey → List ℕ → Signature
  pub verify : PublicKey → List ℕ → Signature → Bool

module _ {Digest SecretKey Scalar PublicKey Signature : Type 0}
    (c : Crypto Digest SecretKey Scalar PublicKey Signature) where
  unfoldable pub hash : List ℕ → Digest
  hash bytes = c.finalize bytes

  unfoldable pub key_pair_gen : Digest → Outcome (SecretKey × PublicKey)
  key_pair_gen seed = do
    sk ← unwrap (c.from_slice (c.as_ref seed))
    returned (sk, c.from_secret_scalar (c.to_nonzero_scalar sk))

  unfoldable pub hash_to_public_key : Digest → Outcome PublicKey
  hash_to_public_key digest = do
    scalar ← unwrap (c.from_bytes (c.as_ref digest))
    non_zero_scalar ← unwrap (c.non_zero scalar)
    returned (c.from_secret_scalar non_zero_scalar)

  unfoldable pub merge_public_keys : PublicKey → PublicKey → Outcome PublicKey
  unfolding hash hash_to_public_key
  merge_public_keys pk1 pk2 =
      let b = c.finalize (c.to_sec1_bytes pk1 ++ c.to_sec1_bytes pk2) in
      hash_to_public_key (hash (c.as_ref b))

  unfoldable pub partial_seed : Digest → Bool → Digest
  unfolding hash
  partial_seed seed if_left =
      let tag : ℕ = if if_left then 1 else 2 in hash (c.as_ref (c.finalize (tag ∷ c.as_ref seed)))

  unfoldable pub double_the_seed : Digest → Digest × Digest
  unfolding partial_seed
  double_the_seed seed = (partial_seed seed true, partial_seed seed false)

  -- `u32::to_be_bytes`.
  unfoldable pub to_be_bytes : ℕ → List ℕ
  to_be_bytes n = (n / 2 ^ 24 % 256) ∷ (n / 2 ^ 16 % 256) ∷ (n / 2 ^ 8 % 256) ∷ (n % 256) ∷ []

  unfoldable pub concat : ℕ → Digest → List ℕ
  unfolding to_be_bytes
  concat current_slot message = c.as_ref message ++ to_be_bytes current_slot
