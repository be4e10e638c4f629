-- ===== src/Ledger/Examples.antt =====
-- A transaction of spectrum-ledger/src with an input of a key and one of a script.
use spectrum.Ledger.Cells.{
  ActiveCell, AnyCell, CellMeta, CellPtr, LinkedTransaction, Owner, Pool, ProgressPoint, SValue,
  Transaction, TransactionBody, by_id, by_ref, datum_itself, mut_cell, owned_by_script, prove_dlog,
  script_itself,
}
use spectrum.Ledger.Evaluation.{Verifying}
use spectrum.Prelude.{Option, [], if◌then◌else◌, none, some, ℕ, ℕ, ◌*◌, ◌==◌, ◌∷◌}

abbrev nothing : SValue
nothing = record { native = 5; assets = [] }

abbrev cell_of : Owner → ℕ → ActiveCell
cell_of owner tx_id = record {
  value = nothing;
  owner = owner;
  datum = none;
  reference_script = none;
  reference_datum = none;
  tx_id = tx_id;
  index = 0;
  ver = 0;
}

abbrev waiting_for : ℕ → ProgressPoint
waiting_for point = record { chain_id = 1; point = point }

abbrev stored : CellPtr → Option (CellMeta AnyCell)
stored (by_ref r) =
    some (record { cell = mut_cell (cell_of (prove_dlog 3) 1); ancors = waiting_for 9 ∷ [] })
stored (by_id id) =
    some (record { cell = mut_cell (cell_of (owned_by_script 4) 2); ancors = waiting_for 20 ∷ [] })

abbrev a_pool : Pool
a_pool = record {
  get_cell = stored;
  progress_of = λ chain. 10;
  get_ref_script = λ r. none;
  get_ref_datum = λ r. none;
}

abbrev a_body : TransactionBody
a_body = record {
  inputs = record { head = (record { id = 1; serial = 0 }, some 0); tail = (by_id 2, none) ∷ [] };
  reference_inputs = [];
  invocations =
      record { script = 0; datum = some 0; call = record { function = 1; args = []; targs = [] } }
      ∷ [];
  evaluated_outputs = mut_cell (cell_of (prove_dlog 3) 7) ∷ [];
}

abbrev a_transaction : Transaction
a_transaction = record {
  body = a_body;
  witness = record {
    scripts = script_itself 4 ∷ [];
    witness_data = datum_itself 6 ∷ [];
    signatures = 33 ∷ [];
  };
}

-- The datum that stands in the witness is lost.
abbrev a_linked : LinkedTransaction
a_linked = record {
  inputs =
      (record { cell = cell_of (prove_dlog 3) 1; ancors = waiting_for 9 ∷ [] }, some 33)
      ∷ (record { cell = cell_of (owned_by_script 4) 2; ancors = waiting_for 20 ∷ [] }, none)
      ∷ [];
  reference_inputs = [];
  invokations =
      record { script = 4; datum = none; call = record { function = 1; args = []; targs = [] } }
      ∷ [];
  evaluated_outputs = mut_cell (cell_of (prove_dlog 3) 7) ∷ [];
  hash = 2;
}

abbrev small_keys : Verifying
small_keys = record {
  hash_of = λ script. script;
  try_key = λ pk. if pk == 3 then some pk else none;
  verify = λ vk hash sig. sig == vk * 11;
}
