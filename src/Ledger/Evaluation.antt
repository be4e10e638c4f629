-- ===== src/Ledger/Evaluation.antt =====
-- `evaluate_transaction` of spectrum-view/src/state/eval.rs. A hash map is an association list. The
-- hash of a script, and the keys with the check of a signature, are parameters.
use spectrum.Ledger.Cells.{
  ActiveCell, AnyCell, CellMeta, EvaluatedTransaction, LinkedScriptInv, LinkedTransaction, Owner,
  Pool, ProgressPoint, Script, ScriptHash, Signature, owned_by_script, prove_dlog,
}
use spectrum.Prelude.{
  Bool, List, Option, Outcome, Result, [], err, if◌then◌else◌, insert, keep, leb, lookup, ltb, map,
  none, ok, returned, some, unwrap, ℕ, ◌++◌, ◌+◌, ◌>>=◌, ◌∷◌,
}

pub record Verifying : Type 0 where
  -- `ScriptHash::from`.
  pub hash_of : Script → ScriptHash
  -- `VerifyingKey::try_from` and `verify(..).is_ok()`.
  pub try_key : ℕ → Option ℕ
  pub verify : ℕ → ℕ → Signature → Bool

pub record EvaluationError : Type 0 where
  pub at_input : ℕ
  pub gas_consumed : ℕ

pub record InvokationScope : Type 0 where
  pub script : Script
  pub owned_inputs : List ActiveCell

-- The variables of the loop over the inputs.
pub record Evaluating : Type 0 where
  pub verified_inputs : List ActiveCell
  pub invokation_scopes : List (ScriptHash × InvokationScope)
  pub converged_ancors : List (ℕ × ℕ)

unfoldable pub scopes_of :
    Verifying
    → List LinkedScriptInv
    → List (ScriptHash × InvokationScope)
    → List (ScriptHash × InvokationScope)
unfolding insert
scopes_of keys [] scopes = scopes
scopes_of keys (inv ∷ invs) scopes =
    let scope : InvokationScope = record { script = inv.script; owned_inputs = [] } in
    scopes_of keys invs (insert (keys.hash_of inv.script) scope scopes)

-- The farthest point of each chain.
unfoldable pub converge : List ProgressPoint → List (ℕ × ℕ) → List (ℕ × ℕ)
unfolding insert lookup
converge [] ancors = ancors
converge (p ∷ ps) ancors =
    let advanced : List (ℕ × ℕ) = elim (lookup p.chain_id ancors) [
      | some max_point ↦ if leb p.point max_point then ancors else insert p.chain_id p.point ancors
      | none ↦ insert p.chain_id p.point ancors
    ] in
    converge ps advanced

-- `add_owned_input` on the scope of a script, if it is invoked.
unfoldable pub own_input :
    ScriptHash
    → ActiveCell
    → List (ScriptHash × InvokationScope)
    → List (ScriptHash × InvokationScope)
unfolding insert lookup
own_input sh cell scopes = elim (lookup sh scopes) [
  | some scope ↦ insert sh (record scope { owned_inputs = scope.owned_inputs ++ cell ∷ [] }) scopes
  | none ↦ scopes
]

-- An input with a signature, by its owner.
unfoldable pub check_signed :
    Verifying
    → ℕ
    → ℕ
    → ActiveCell
    → Owner
    → Signature
    → Evaluating
    → Outcome (Result Evaluating EvaluationError)
unfolding own_input
check_signed keys hash ix cell (prove_dlog pk) sig state = do
  vk ← unwrap (keys.try_key pk)
  if keys.verify vk hash sig
      then returned (ok (record state { verified_inputs = state.verified_inputs ++ cell ∷ [] }))
      else returned (err (record { at_input = ix; gas_consumed = 0 }))
check_signed keys hash ix cell (owned_by_script sh) sig state =
    returned (ok (record state { invokation_scopes = own_input sh cell state.invokation_scopes }))

unfoldable pub check_inputs :
    Verifying
    → ℕ
    → ℕ
    → List (CellMeta ActiveCell × Option Signature)
    → Evaluating
    → Outcome (Result Evaluating EvaluationError)
unfolding converge
check_inputs keys hash ix [] state = returned (ok state)
check_inputs keys hash ix ((meta, maybe_sig) ∷ inputs) state =
    let converged : Evaluating = record state {
      converged_ancors = converge meta.ancors state.converged_ancors;
    } in
    (elim maybe_sig [
      | none ↦ returned (ok converged)
      | some sig ↦ check_signed keys hash ix meta.cell meta.cell.owner sig converged
    ])
    >>= λ checked. elim checked [
      | ok next_state ↦ check_inputs keys hash (ix + 1) inputs next_state
      | err e ↦ returned (err e)
    ]

abbrev point_of : ℕ × ℕ → ProgressPoint
point_of (chain, point) = record { chain_id = chain; point = point }

-- The points that their chains have not reached.
unfoldable pub remaining_ancors : Pool → List (ℕ × ℕ) → List ProgressPoint
remaining_ancors pool ancors = map point_of (keep (λ a. ltb (pool.progress_of a.0) a.1) ancors)

abbrev pub with_ancors : List ProgressPoint → AnyCell → CellMeta AnyCell
with_ancors ancors cell = record { cell = cell; ancors = ancors }

unfoldable pub evaluate_transaction :
    Verifying → Pool → LinkedTransaction → Outcome (Result EvaluatedTransaction EvaluationError)
unfolding scopes_of check_inputs remaining_ancors
evaluate_transaction keys pool tx =
    check_inputs keys tx.hash 0 tx.inputs (record {
      verified_inputs = [];
      invokation_scopes = scopes_of keys tx.invokations [];
      converged_ancors = [];
    })
    >>= λ checked. elim checked [
      | err e ↦ returned (err e)
      | ok state ↦
          let ancors = remaining_ancors pool state.converged_ancors in
          returned (
            ok (record {
              inputs = state.verified_inputs;
              outputs = map (with_ancors ancors) tx.evaluated_outputs;
            }))
    ]
