-- ===== src/Kes/Signing.antt =====
-- `kes_sign` and `kes_verify` of spectrum-kes/src/lib.rs against the tree of keys.
use mathlib.Core.Bool.{true≢false}
use native.Mathlib.Nat.{mod-eq_of_lt, one-le-pow, pow-le-pow_right, pow-suc}
use spectrum.Kes.Bits.{and_power_test, digits_high, digits_low}
use spectrum.Kes.Evolution.{update_times, update_times_lem}
use spectrum.Kes.Generation.{kes_gen_lem}
use spectrum.Kes.Scheme.{kes_gen}
use spectrum.Kes.Sign.{
  calculate_scheme_pk_from_signature, kes_sign, kes_verify, related_keys, scheme_loop,
}
use spectrum.Kes.Tree.{
  IsScalar, Scalars, TreeFits, keys_of, leaf, leaf_high, leaf_low, left, merge_public_keys_lem,
  merged_digest, merged_key, pairs_at, pairs_at_high, pairs_at_low, pk_at, right, secret_at,
}
use spectrum.Kes.Utils.{Crypto, concat, hash}
use spectrum.Prelude.{
  Bool-cases, List, [], ap, append-nil, append_assoc, arith, bytes_eq_refl, false, if◌then◌else◌,
  inl, inr, leb, ltb, refl, returned, reverse, reverse-cons, suc, sym, true, u32, zero, ℕ, ◌%◌, ◌*◌,
  ◌++◌, ◌+◌, ◌-◌, ◌/◌, ◌<◌, ◌==◌, ◌>>=◌, ◌^◌, ◌∙◌, ◌∷◌, ◌≡◌, ◌≤◌,
}

module _ {Digest SecretKey Scalar PublicKey Signature : Type 0}
    (c : Crypto Digest SecretKey Scalar PublicKey Signature) (k : Scalars c) where
  -- The keys of the halves beside the way to the slot.
  siblings_at : ℕ → Digest → ℕ → List PublicKey
  siblings_at zero seed n = []
  siblings_at (suc h) seed n = elim (ltb n (2 ^ h)) [
    | true ↦ pk_at c k h (right c k seed) ∷ siblings_at h (left c k seed) n
    | false ↦ pk_at c k h (left c k seed) ∷ siblings_at h (right c k seed) (n - 2 ^ h)
  ]

  siblings_low :
      (h : ℕ) (seed : Digest) (n : ℕ)
      → ltb n (2 ^ h) ≡ true
      → siblings_at (suc h) seed n ≡ pk_at c k h (right c k seed) ∷ siblings_at h (left c k seed) n
  unfolding siblings_at
  siblings_low h seed n side = rw (side, siblings_at) refl

  siblings_high :
      (h : ℕ) (seed : Digest) (n : ℕ)
      → ltb n (2 ^ h) ≡ false
      → siblings_at (suc h) seed n
        ≡ pk_at c k h (left c k seed) ∷ siblings_at h (right c k seed) (n - 2 ^ h)
  unfolding siblings_at
  siblings_high h seed n side = rw (side, siblings_at) refl

  related_step :
      (h high i n : ℕ) (pair : PublicKey × PublicKey) (pairs : List (PublicKey × PublicKey))
      (keys : List PublicKey)
      → high ≡ i + suc h
      → high < 32
      → related_keys c high (pair ∷ pairs) i n keys
        ≡ related_keys c high pairs
            (i + 1)
            (if leb (2 ^ h) n then n - 2 ^ h else n)
            (keys ++ (if leb (2 ^ h) n then pair.0 else pair.1) ∷ [])
  unfolding related_keys
  related_step h high i n pair pairs keys level fits =
      let at_level : u32 (high + (2 ^ 32 - u32 i)) ≡ suc h = omega arith in
      let exponent : u32 (suc h + (2 ^ 32 - 1)) ≡ h = omega arith in
      let bound : 2 ^ h ≤ 2 ^ 31 =
        pow-le-pow_right {n = 2} (omega arith) {i = h} {j = 31} (omega arith) in
      let actual_high : u32 (2 ^ h) ≡ 2 ^ h = omega arith in
      rw at_level (rw exponent (rw actual_high refl))

  related_keys_lem :
      (h high i n : ℕ) (seed : Digest) (keys : List PublicKey)
      → high ≡ i + h
      → high < 32
      → related_keys c high (pairs_at c k h seed n) i n keys ≡ keys ++ siblings_at h seed n
  related_keys_lem zero high i n seed keys level fits =
      unfold related_keys pairs_at siblings_at in sym (append-nil keys)
  related_keys_lem (suc h) high i n seed keys level fits =
      let deeper : high ≡ i + 1 + h = omega arith in
      let pk_left = pk_at c k h (left c k seed) in
      let pk_right = pk_at c k h (right c k seed) in
      elim (Bool-cases (ltb n (2 ^ h))) [
        | inl low ↦
            let test : leb (2 ^ h) n ≡ false = ground arith in
            rw (pairs_at_low c k h seed n low) (
              rw (siblings_low h seed n low) (
                related_step h high i n (pk_left, pk_right) (pairs_at c k h (left c k seed) n) keys
                  level fits
                ∙ rw test (
                    related_keys_lem h high (i + 1) n (left c k seed) (keys ++ pk_right ∷ []) deeper
                      fits
                    ∙ append_assoc keys (pk_right ∷ []) (siblings_at h (left c k seed) n))))
        | inr beyond ↦
            let test : leb (2 ^ h) n ≡ true = ground arith in
            rw (pairs_at_high c k h seed n beyond) (
              rw (siblings_high h seed n beyond) (
                related_step h high i n (pk_left, pk_right)
                  (pairs_at c k h (right c k seed) (n - 2 ^ h)) keys level fits
                ∙ rw test (
                    related_keys_lem h high (i + 1) (n - 2 ^ h) (right c k seed)
                      (keys ++ pk_left ∷ []) deeper fits
                    ∙ append_assoc keys (pk_left ∷ [])
                        (siblings_at h (right c k seed) (n - 2 ^ h)))))
      ]

  scheme_step :
      (h m : ℕ) (pk scheme_pk : PublicKey) (rest : List PublicKey)
      → h < 32
      → ((m / 2 ^ h % 2 == 0) ≡ true → IsScalar c k (merged_digest c k scheme_pk pk))
      → ((m / 2 ^ h % 2 == 0) ≡ false → IsScalar c k (merged_digest c k pk scheme_pk))
      → scheme_loop c (pk ∷ rest) h m scheme_pk
        ≡ scheme_loop c rest (suc h) m (
            if m / 2 ^ h % 2 == 0 then merged_key c k scheme_pk pk else merged_key c k pk scheme_pk)
  unfolding scheme_loop
  scheme_step h m pk scheme_pk rest fits on_low on_high =
      let place : h % 32 ≡ h = omega arith in
      let deeper : h + 1 ≡ suc h = omega arith in
      rw place (
        rw (and_power_test h m) (
          rw deeper (elim (Bool-cases (m / 2 ^ h % 2 == 0)) [
            | inl low ↦ rw low (rw (merge_public_keys_lem c k scheme_pk pk (on_low low)) refl)
            | inr high ↦ rw high (rw (merge_public_keys_lem c k pk scheme_pk (on_high high)) refl)
          ])))

  -- A number with the digits of the slot below `2 ^ h` leads the loop to the key of the tree.
  scheme_loop_lem :
      (h n m : ℕ) (seed : Digest) (rest : List PublicKey)
      → h ≤ 32
      → m % 2 ^ h ≡ n
      → TreeFits c k h seed
      → scheme_loop c (reverse (siblings_at h seed n) ++ rest) 0 m (leaf c k h seed n).1
        ≡ scheme_loop c rest h m (pk_at c k h seed)
  scheme_loop_lem zero n m seed rest fits digits g = unfold siblings_at leaf pk_at in refl
  scheme_loop_lem (suc h) n m seed rest fits digits g =
      let doubled : m % (2 ^ h * 2) ≡ n =
        ap (λ (x : ℕ). m % x) (omega (arith, pow-suc 2 h)) ∙ digits in
      elim (Bool-cases (ltb n (2 ^ h))) [
        | inl low ↦
            let parts : (m % 2 ^ h ≡ m % (2 ^ h * 2)) × (m / 2 ^ h % 2 ≡ 0) =
              digits_low (2 ^ h) m (ground (arith, digits, pow-suc 2 h)) in
            let on_left : (m / 2 ^ h % 2 == 0) ≡ true = ground (arith, parts.1) in
            let sibling = pk_at c k h (right c k seed) in
            rw (siblings_low h seed n low) (
              rw (leaf_low c k h seed n low) (
                rw (reverse-cons sibling (siblings_at h (left c k seed) n)) (
                  rw (append_assoc (reverse (siblings_at h (left c k seed) n)) (sibling ∷ []) rest)
                    (scheme_loop_lem h n m (left c k seed) (sibling ∷ rest) (omega arith)
                        (parts.0 ∙ doubled) g.0
                      ∙ scheme_step h m sibling (pk_at c k h (left c k seed)) rest (omega arith)
                          (λ _. g.2) (λ high. absurd (true≢false (sym on_left ∙ high)))
                      ∙ rw on_left (unfold pk_at in refl)))))
        | inr beyond ↦
            let parts : (m % 2 ^ h ≡ m % (2 ^ h * 2) - 2 ^ h) × (m / 2 ^ h % 2 ≡ 1) =
              digits_high (2 ^ h) m (omega (arith, one-le-pow h 2))
                (ground (arith, digits, pow-suc 2 h)) in
            let on_right : (m / 2 ^ h % 2 == 0) ≡ false = ground (arith, parts.1) in
            let sibling = pk_at c k h (left c k seed) in
            rw (siblings_high h seed n beyond) (
              rw (leaf_high c k h seed n beyond) (
                rw (reverse-cons sibling (siblings_at h (right c k seed) (n - 2 ^ h))) (
                  rw
                    (append_assoc (reverse (siblings_at h (right c k seed) (n - 2 ^ h)))
                      (sibling ∷ []) rest)
                    (scheme_loop_lem h (n - 2 ^ h) m (right c k seed) (sibling ∷ rest) (omega arith)
                        (parts.0 ∙ ap (λ (x : ℕ). x - 2 ^ h) doubled) g.1
                      ∙ scheme_step h m sibling (pk_at c k h (right c k seed)) rest (omega arith)
                          (λ low. absurd (true≢false (sym low ∙ on_right))) (λ _. g.2)
                      ∙ rw on_right (unfold pk_at in refl)))))
      ]

  scheme_pk_lem :
      (h n : ℕ) (seed message : Digest)
      → h < 32
      → n < 2 ^ h
      → TreeFits c k h seed
      → calculate_scheme_pk_from_signature c (kes_sign c message (secret_at c k h seed n) n) n
        ≡ returned (pk_at c k h seed)
  unfolding calculate_scheme_pk_from_signature kes_sign secret_at
  scheme_pk_lem h n seed message fits inside g =
      rw (related_keys_lem h h 0 n seed [] (omega arith) fits) (
        ap (λ keys. scheme_loop c keys 0 n (leaf c k h seed n).1)
          (sym (append-nil (reverse (siblings_at h seed n))))
        ∙ scheme_loop_lem h n n seed [] (omega arith) (mod-eq_of_lt inside) g
        ∙ unfold scheme_loop in refl)

  hot_keys : (h : ℕ) (seed : Digest) (n : ℕ) → (d : Digest) × (leaf c k h seed n ≡ keys_of c k d)
  hot_keys zero seed n = (seed, unfold leaf in refl)
  hot_keys (suc h) seed n = elim (Bool-cases (ltb n (2 ^ h))) [
    | inl low ↦ rw (leaf_low c k h seed n low) (hot_keys h (left c k seed) n)
    | inr beyond ↦ rw (leaf_high c k h seed n beyond) (hot_keys h (right c k seed) (n - 2 ^ h))
  ]

  verify_at :
      ((sk : SecretKey) (bytes : List ℕ)
        → c.verify (c.from_secret_scalar (c.to_nonzero_scalar sk)) bytes (c.sign sk bytes) ≡ true)
      → (h : ℕ) (seed : Digest) (n : ℕ) (message : Digest) → h < 32
      → n < 2 ^ h
      → TreeFits c k h seed
      → kes_verify c (kes_sign c message (secret_at c k h seed n) n) message (pk_at c k h seed) n
        ≡ returned true
  unfolding kes_verify
  verify_at signed h seed n message fits inside g =
      let keys = hot_keys h seed n in
      rw (scheme_pk_lem h n seed message fits inside g) (
        rw (bytes_eq_refl (c.as_ref (hash c (c.to_sec1_bytes (pk_at c k h seed))))) (
          unfold kes_sign secret_at in
          rw (keys.1) (rw (signed (k.secret_of keys.0) (concat c n message)) refl)))

  -- Where the curve reads the seeds of the leaves of the tree as secret keys and the digests of the
  -- keys that the tree merges as scalars other than zero, `pk_eq` holds of a key and itself, and a
  -- signature verifies under the key of its secret, for a tree of height below 32 the signature that the secret made by `n` updates gives for slot
  -- `n` verifies under the key of the tree, for every message and every slot of the tree.
  pub kes_verify-kes_sign :
      ((sk : SecretKey) (bytes : List ℕ)
        → c.verify (c.from_secret_scalar (c.to_nonzero_scalar sk)) bytes (c.sign sk bytes) ≡ true)
      → (h : ℕ) (seed : Digest) (n : ℕ) (message : Digest) → h < 32
      → n < 2 ^ h
      → TreeFits c k h seed
      → (kes_gen c h seed >>= λ made. update_times c n made.0 >>= λ secret.
          kes_verify c (kes_sign c message secret n) message made.1 n)
        ≡ returned true
  kes_verify-kes_sign signed h seed n message fits inside g =
      rw (kes_gen_lem c k h seed (omega arith) g) (
        rw (update_times_lem c k h seed n fits inside g)
          (verify_at signed h seed n message fits inside g))
