-- ===== src/Kes/Copying.antt =====
-- What `insert_in_vec` of spectrum-kes/src/composition_utils.rs copies.
use spectrum.Kes.Update.{insert_in_vec, insert_loop}
use spectrum.Prelude.{
  List, [], ap, append-nil, append_assoc, arith, get_elem?-append_length, length, length-append,
  refl, returned, sym, ℕ, ◌++◌, ◌+◌, ◌∙◌, ◌∷◌, ◌≡◌,
}

insert_loop_lem {ℓ} :
    {A : Type ℓ} (into before front back : List A)
    → insert_loop into (before ++ (front ++ back)) (length before) (length front)
      ≡ returned (into ++ front)
unfolding insert_loop
insert_loop_lem into before [] back = rw (append-nil into) refl
insert_loop_lem into before (x ∷ front) back =
    let longer : length before + 1 ≡ length (before ++ x ∷ []) =
      omega (arith, length-append before (x ∷ [])) in
    rw (get_elem?-append_length before x (front ++ back)) (
      rw longer (
        rw (← (append_assoc before (x ∷ []) (front ++ back))) (
          insert_loop_lem (into ++ x ∷ []) (before ++ x ∷ []) front back
          ∙ ap returned (append_assoc into (x ∷ []) front))))

pub length-eq-zero {ℓ} : {A : Type ℓ} (xs : List A) → length xs ≡ 0 → xs ≡ []
length-eq-zero [] none_left = refl
length-eq-zero (x ∷ xs) none_left = absurd (omega arith)

-- A range that ends within the vector copies its front.
pub insert_in_vec_lem {ℓ} :
    {A : Type ℓ} (into front back : List A) (end : ℕ)
    → length front ≡ end
    → insert_in_vec into (front ++ back) end ≡ returned (into ++ front)
unfolding insert_in_vec
insert_in_vec_lem into front back end size = rw (← size) (insert_loop_lem into [] front back)

pub insert_whole {ℓ} :
    {A : Type ℓ} (into whole : List A) (end : ℕ)
    → length whole ≡ end
    → insert_in_vec into whole end ≡ returned (into ++ whole)
insert_whole into whole end size =
    ap (λ xs. insert_in_vec into xs end) (sym (append-nil whole))
    ∙ insert_in_vec_lem into whole [] end size
