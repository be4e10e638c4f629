-- ===== src/Ledger/Cells.antt =====
-- Cells and transactions: spectrum-ledger/src/{cell,transaction,interop}.rs, and the trait of the
-- pool in spectrum-view/src/state.rs. Digests, keys, signatures, scripts and data are numbers here,
-- of which only equality is used.
use spectrum.Prelude.{List, Option, ℕ, ◌∷◌}

abbrev pub ScriptHash : Type 0
ScriptHash = ℕ

-- A serialised script, and a serialised value.
abbrev pub Script : Type 0
Script = ℕ

abbrev pub Datum : Type 0
Datum = ℕ

abbrev pub Signature : Type 0
Signature = ℕ

pub record CellRef : Type 0 where
  pub id : ℕ
  pub serial : ℕ

pub data CellPtr : Type 0 where
  by_id : ℕ → CellPtr
  by_ref : CellRef → CellPtr

pub data Owner : Type 0 where
  prove_dlog : ℕ → Owner
  owned_by_script : ScriptHash → Owner

pub record ProgressPoint : Type 0 where
  pub chain_id : ℕ
  pub point : ℕ

pub record SValue : Type 0 where
  pub native : ℕ
  pub assets : List (ℕ × List (ℕ × ℕ))

pub record ActiveCell : Type 0 where
  pub value : SValue
  pub owner : Owner
  pub datum : Option ℕ
  pub reference_script : Option Script
  pub reference_datum : Option Datum
  pub tx_id : ℕ
  pub index : ℕ
  pub ver : ℕ

pub data ScriptWitness : Type 0 where
  script_by_ref : CellRef → ScriptWitness
  script_itself : Script → ScriptWitness

pub data DatumWitness : Type 0 where
  datum_by_ref : CellRef → DatumWitness
  datum_itself : Datum → DatumWitness

pub record Witness : Type 0 where
  pub scripts : List ScriptWitness
  pub witness_data : List DatumWitness
  pub signatures : List Signature

abbrev BridgeInputs : Type 0
BridgeInputs = Witness

pub record BoxDestination : Type 0 where
  pub target : ℕ
  pub address : Datum
  pub inputs : Option BridgeInputs

pub record TermCell : Type 0 where
  pub value : SValue
  pub tx_id : ℕ
  pub index : ℕ
  pub dst : BoxDestination

pub data AnyCell : Type 0 where
  mut_cell : ActiveCell → AnyCell
  term_cell : TermCell → AnyCell

pub record CellMeta (C : Type 0) : Type 0 where
  pub cell : C
  pub ancors : List ProgressPoint

-- The first input is fully qualified; with each stands the index of its signature, if it has one.
pub record TxInputs : Type 0 where
  pub head : CellRef × Option ℕ
  pub tail : List (CellPtr × Option ℕ)

-- `TxInputs::into_iter`.
unfoldable pub inputs_of : TxInputs → List (CellPtr × Option ℕ)
inputs_of inputs = (by_ref inputs.head.0, inputs.head.1) ∷ inputs.tail

-- The function, its arguments and its type arguments are passed on as they are.
pub record Call : Type 0 where
  pub function : ℕ
  pub args : List Datum
  pub targs : List ℕ

pub record ScriptInv : Type 0 where
  pub script : ℕ
  pub datum : Option ℕ
  pub call : Call

pub record LinkedScriptInv : Type 0 where
  pub script : Script
  pub datum : Option Datum
  pub call : Call

pub record TransactionBody : Type 0 where
  pub inputs : TxInputs
  pub reference_inputs : List CellPtr
  pub invocations : List ScriptInv
  pub evaluated_outputs : List AnyCell

pub record Transaction : Type 0 where
  pub body : TransactionBody
  pub witness : Witness

pub record LinkedTransaction : Type 0 where
  pub inputs : List (CellMeta ActiveCell × Option Signature)
  pub reference_inputs : List AnyCell
  pub invokations : List LinkedScriptInv
  pub evaluated_outputs : List AnyCell
  pub hash : ℕ

pub record EvaluatedTransaction : Type 0 where
  pub inputs : List ActiveCell
  pub outputs : List (CellMeta AnyCell)

-- The trait `Cells`.
pub record Pool : Type 0 where
  pub get_cell : CellPtr → Option (CellMeta AnyCell)
  pub progress_of : ℕ → ℕ
  pub get_ref_script : CellRef → Option Script
  pub get_ref_datum : CellRef → Option Datum
