-- ===== src/Kes/Examples.antt =====
-- The key-evolving signatures of spectrum-kes/src over a small curve: digests, keys and signatures
-- are numbers, and the number zero is not a scalar.
use spectrum.Kes.Evolution.{kes_evolution, update_times}
use spectrum.Kes.Scheme.{
  branch_loop, gen_loop, gen_secret, get_left_merkle_tree_branch, kes_gen, merge_branch,
  pk_gen_within, sum_composition_pk_gen,
}
use spectrum.Kes.Sign.{
  calculate_scheme_pk_from_signature, kes_sign, kes_verify, related_keys, scheme_loop,
}
use spectrum.Kes.Signing.{kes_verify-kes_sign}
use spectrum.Kes.Tree.{Scalars, TreeFits, pk_at, secret_at}
use spectrum.Kes.Utils.{
  Crypto, concat, double_the_seed, hash, hash_to_public_key, key_pair_gen, merge_public_keys,
  partial_seed, to_be_bytes,
}
use spectrum.Prelude.{
  ==_refl, List, Option, [], arith, bytes_eq, false, if◌then◌else◌, none, refl, returned, some,
  true, ℕ, ◌*◌, ◌+◌, ◌==◌, ◌>>=◌, ◌∷◌, ◌≡◌,
}

abbrev total_of : List ℕ → ℕ
total_of [] = 7
total_of (x ∷ xs) = x * 31 + total_of xs

abbrev head_of : List ℕ → Option ℕ
head_of [] = none
head_of (x ∷ xs) = some x

abbrev toy : Crypto ℕ ℕ ℕ ℕ ℕ
toy = record {
  finalize = total_of;
  as_ref = λ d. d ∷ [];
  from_slice = head_of;
  to_nonzero_scalar = λ sk. sk;
  from_secret_scalar = λ s. s * 2 + 1;
  from_bytes = head_of;
  non_zero = λ s. if s == 0 then none else some s;
  to_sec1_bytes = λ pk. pk ∷ [];
  pk_eq = ◌==◌;
  sign = λ sk bytes. sk * 2 + 1 + total_of bytes;
  verify = λ pk bytes sig. pk + total_of bytes == sig;
}

abbrev toy_scalars : Scalars toy
toy_scalars = record { secret_of = λ d. d; scalar_of = λ d. d; pk_eq_lem = λ pk. ==_refl pk }

toy_signed :
    (sk : ℕ) (bytes : List ℕ)
    → toy.verify (toy.from_secret_scalar (toy.to_nonzero_scalar sk)) bytes (toy.sign sk bytes)
      ≡ true
toy_signed sk bytes = ==_refl (sk * 2 + 1 + total_of bytes)

-- The tree of height 3 from the seed 5.
toy_fits : TreeFits toy toy_scalars 3 5
unfolding pk_at partial_seed hash
toy_fits = (
  ((refl, refl, (refl, refl)), (refl, refl, (refl, refl)), (refl, refl)),
  ((refl, refl, (refl, refl)), (refl, refl, (refl, refl)), (refl, refl)),
  (refl, refl),
)

kes_evolution_example :
    ((kes_gen toy 3 5 >>= λ made. update_times toy 6 made.0)
      ≡ returned (secret_at toy toy_scalars 3 5 6))
    × ((kes_gen toy 3 5 >>= λ made. returned made.1) ≡ returned (pk_at toy toy_scalars 3 5))
kes_evolution_example = kes_evolution toy toy_scalars 3 5 6 (omega arith) (omega arith) toy_fits

kes_verify-kes_sign_example :
    (kes_gen toy 3 5 >>= λ made.
    update_times toy 6 made.0 >>= λ secret. kes_verify toy (kes_sign toy 11 secret 6) 11 made.1 6)
    ≡ returned true
kes_verify-kes_sign_example =
    kes_verify-kes_sign toy toy_scalars toy_signed 3 5 6 11 (omega arith) (omega arith) toy_fits

-- A signature for another message does not verify.
other_message :
    (kes_gen toy 2 5 >>= λ made. kes_verify toy (kes_sign toy 11 made.0 0) 12 made.1 0)
    ≡ returned false
unfolding kes_gen get_left_merkle_tree_branch branch_loop double_the_seed key_pair_gen gen_loop
    sum_composition_pk_gen pk_gen_within merge_branch gen_secret merge_public_keys
    hash_to_public_key kes_verify kes_sign related_keys calculate_scheme_pk_from_signature
    scheme_loop concat bytes_eq partial_seed hash to_be_bytes
other_message = refl
