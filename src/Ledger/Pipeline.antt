-- ===== src/Ledger/Pipeline.antt =====
-- What linking gives to evaluation, in spectrum-view/src/state.
use spectrum.Ledger.Cells.{EvaluatedTransaction, ProgressPoint}
use spectrum.Ledger.Evaluation.{EvaluationError}
use spectrum.Prelude.{
  List, Option, Result, [], err, if◌then◌else◌, insert, leb, lookup, max, none, ok, some, ℕ, ◌==◌,
  ◌∷◌,
}

-- The result of an evaluation by the first input whose signature is refused.
abbrev best_of : Option ℕ → Option ℕ → Option ℕ
best_of none other = other
best_of (some x) none = some x
best_of (some x) (some y) = some (max x y)

abbrev evaluated_at : Option ℕ → EvaluatedTransaction → Result EvaluatedTransaction EvaluationError
evaluated_at none evaluated = ok evaluated
evaluated_at (some ix) evaluated = err (record { at_input = ix; gas_consumed = 0 })

-- The greatest point of a chain among those that are awaited.
unfoldable pub farthest : ℕ → List ProgressPoint → Option ℕ
farthest chain [] = none
farthest chain (p ∷ ps) =
    let rest = farthest chain ps in
    if p.chain_id == chain then best_of (some p.point) rest else rest

-- The table after a point.
abbrev advanced : ProgressPoint → List (ℕ × ℕ) → List (ℕ × ℕ)
advanced p table = elim (lookup p.chain_id table) [
  | some max_point ↦ if leb p.point max_point then table else insert p.chain_id p.point table
  | none ↦ insert p.chain_id p.point table
]
