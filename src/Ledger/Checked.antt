-- ===== src/Ledger/Checked.antt =====
-- The inputs of a linked transaction in the evaluation of spectrum-view/src/state/eval.rs.
use spectrum.Ledger.Cells.{
  ActiveCell, CellMeta, Owner, ProgressPoint, Signature, owned_by_script, prove_dlog,
}
use spectrum.Ledger.Evaluation.{
  Evaluating, EvaluationError, Verifying, check_inputs, check_signed, converge,
}
use spectrum.Ledger.Linked.{IsLinked, LinkedInput, SigFits}
use spectrum.Prelude.{
  All, Bool, Bool-cases, List, Option, Outcome, Result, [], ap, append-nil, append_assoc, err,
  false, if◌then◌else◌, inl, inr, keep, map, none, not, ok, refl, returned, some, sym, true, ℕ,
  ◌++◌, ◌+◌, ◌>>=◌, ◌∙◌, ◌∷◌, ◌≡◌,
}

module _ (keys : Verifying) where
  -- Whether the signature of an input is refused.
  abbrev is_rejected : ℕ → Owner → Option Signature → Bool
  is_rejected hash (prove_dlog pk) (some sig) = elim (keys.try_key pk) [
    | none ↦ true
    | some vk ↦ not (keys.verify vk hash sig)
  ]
  is_rejected hash (prove_dlog pk) none = false
  is_rejected hash (owned_by_script sh) sig = false

  -- The first input whose signature is refused, from an index on.
  unfoldable pub first_rejected : ℕ → ℕ → List LinkedInput → Option ℕ
  first_rejected hash ix [] = none
  first_rejected hash ix (input ∷ inputs) =
      let rest = first_rejected hash (ix + 1) inputs in
      if is_rejected hash input.0.cell.owner input.1 then some ix else rest

abbrev key_owned : Owner → Bool
key_owned (prove_dlog pk) = true
key_owned (owned_by_script sh) = false

-- The cells that a key owns, and the points that all inputs wait for.
unfoldable pub signed_cells : List LinkedInput → List ActiveCell
signed_cells inputs =
    keep (λ (cell : ActiveCell). key_owned cell.owner)
      (map (λ (input : LinkedInput). input.0.cell) inputs)

unfoldable pub awaited : List LinkedInput → List ProgressPoint
awaited [] = []
awaited (input ∷ inputs) = input.0.ancors ++ awaited inputs

converge-append :
    (xs ys : List ProgressPoint) (ancors : List (ℕ × ℕ))
    → converge (xs ++ ys) ancors ≡ converge ys (converge xs ancors)
unfolding converge
converge-append [] ys ancors = refl
converge-append (x ∷ xs) ys ancors = converge-append xs ys _

-- A key that owns a cell converts to one that verifies.
abbrev pub Converts : Verifying → Owner → Type 0
Converts keys (prove_dlog pk) = (vk : ℕ) × (keys.try_key pk ≡ some vk)
Converts keys (owned_by_script sh) = Unit {0}

abbrev pub OwnersConvert : Verifying → List LinkedInput → Type 0
OwnersConvert keys inputs = All (λ (input : LinkedInput). Converts keys input.0.cell.owner) inputs

module _ (keys : Verifying) (hash : ℕ) where
  abbrev Checked : Type 0
  Checked = Result Evaluating EvaluationError

  abbrev rejected_at : Option ℕ → Evaluating → Checked
  rejected_at none state = ok state
  rejected_at (some ix) state = err (record { at_input = ix; gas_consumed = 0 })

  abbrev after_inputs : List LinkedInput → Evaluating → Evaluating
  after_inputs inputs state = record state {
    verified_inputs = state.verified_inputs ++ signed_cells inputs;
    converged_ancors = converge (awaited inputs) state.converged_ancors;
  }

  signed_keep :
      (meta : CellMeta ActiveCell) (sig : Option Signature) (inputs : List LinkedInput)
      (state : Evaluating)
      → key_owned meta.cell.owner ≡ true
      → after_inputs inputs (record state {
        verified_inputs = state.verified_inputs ++ meta.cell ∷ [];
        converged_ancors = converge meta.ancors state.converged_ancors;
      })
        ≡ after_inputs ((meta, sig) ∷ inputs) state
  unfolding signed_cells awaited
  signed_keep meta sig inputs state owned = rw owned (
      rw (append_assoc state.verified_inputs (meta.cell ∷ []) (signed_cells inputs))
        (rw (converge-append meta.ancors (awaited inputs) state.converged_ancors) refl))

  signed_skip :
      (meta : CellMeta ActiveCell) (sig : Option Signature) (inputs : List LinkedInput)
      (state : Evaluating)
      → key_owned meta.cell.owner ≡ false
      → after_inputs inputs
          (record state { converged_ancors = converge meta.ancors state.converged_ancors })
        ≡ after_inputs ((meta, sig) ∷ inputs) state
  unfolding signed_cells awaited
  signed_skip meta sig inputs state owned =
      rw owned (rw (converge-append meta.ancors (awaited inputs) state.converged_ancors) refl)

  check_step :
      (meta : CellMeta ActiveCell) (owner : Owner) (sig : Option Signature)
      (inputs : List LinkedInput) (ix : ℕ) (state : Evaluating)
      → SigFits owner sig
      → Converts keys owner
      → key_owned meta.cell.owner ≡ key_owned owner
      → ((next : Evaluating)
          → check_inputs keys hash (ix + 1) inputs next
            ≡ returned
                (rejected_at (first_rejected keys hash (ix + 1) inputs) (after_inputs inputs next)))
      → ((elim sig [
        | none ↦
            returned
              (ok (record state { converged_ancors = converge meta.ancors state.converged_ancors }))
        | some s ↦
            check_signed keys hash ix meta.cell owner s
              (record state { converged_ancors = converge meta.ancors state.converged_ancors })
      ])
          >>= λ (checked : Checked). elim checked as (λ x. Outcome Checked) [
            | ok next ↦ check_inputs keys hash (ix + 1) inputs next
            | err e ↦ returned (err e)
          ])
        ≡ returned (
            rejected_at
              (if is_rejected keys hash owner sig
                then some ix
                else first_rejected keys hash (ix + 1) inputs)
              (after_inputs ((meta, sig) ∷ inputs) state))
  unfolding check_signed
  check_step meta (prove_dlog pk) (some sig) inputs ix state fits vk owned ih =
      rw (vk.1, check_signed)
        (elim (Bool-cases (keys.verify vk.0 hash sig)) [
          | inl good ↦
              let accepted : is_rejected keys hash (prove_dlog pk) (some sig) ≡ false =
                rw (vk.1, is_rejected) (rw good refl) in
              rw good (
                rw accepted (
                  ih _
                  ∙ ap (λ s. returned (rejected_at (first_rejected keys hash (ix + 1) inputs) s))
                      (signed_keep meta (some sig) inputs state owned)))
          | inr bad ↦
              let refused : is_rejected keys hash (prove_dlog pk) (some sig) ≡ true =
                rw (vk.1, is_rejected) (rw bad refl) in
              rw bad (rw refused refl)
        ])
  check_step meta (prove_dlog pk) none inputs ix state fits converts owned ih = absurd fits
  check_step meta (owned_by_script sh) (some sig) inputs ix state fits converts owned ih =
      absurd fits
  check_step meta (owned_by_script sh) none inputs ix state fits converts owned ih =
      ih _
      ∙ ap (λ s. returned (rejected_at (first_rejected keys hash (ix + 1) inputs) s))
          (signed_skip meta none inputs state owned)

  pub check_inputs_lem :
      (inputs : List LinkedInput) (ix : ℕ) (state : Evaluating)
      → All IsLinked inputs
      → OwnersConvert keys inputs
      → check_inputs keys hash ix inputs state
        ≡ returned (rejected_at (first_rejected keys hash ix inputs) (after_inputs inputs state))
  unfolding check_inputs first_rejected
  check_inputs_lem [] ix state linked convert =
      unfold signed_cells awaited converge in
      ap (λ v. returned (ok (record state { verified_inputs = v })))
        (sym (append-nil state.verified_inputs))
  check_inputs_lem ((meta, sig) ∷ inputs) ix state linked convert =
      check_step meta meta.cell.owner sig inputs ix state linked.0 convert.0 refl
        (λ after. check_inputs_lem inputs (ix + 1) after linked.1 convert.1)
