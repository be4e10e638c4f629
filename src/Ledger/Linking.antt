-- ===== src/Ledger/Linking.antt =====
-- `link_transaction` of spectrum-view/src/state/linking.rs. The digest of a transaction body is a
-- parameter.
use spectrum.Ledger.Cells.{
  ActiveCell, AnyCell, CellMeta, CellPtr, CellRef, Datum, DatumWitness, LinkedScriptInv,
  LinkedTransaction, Owner, Pool, Script, ScriptInv, ScriptWitness, Signature, Transaction,
  TransactionBody, Witness, datum_by_ref, datum_itself, inputs_of, mut_cell, owned_by_script,
  prove_dlog, script_by_ref, script_itself, term_cell,
}
use spectrum.Prelude.{List, Option, Result, [], err, get_elem?, none, ok, some, ℕ, ◌+◌, ◌∷◌}

pub data LinkingError : Type 0 where
  missing_input : CellPtr → LinkingError
  non_consumable_input : CellPtr → LinkingError
  missing_ref_input : CellPtr → LinkingError
  missing_script : LinkingError
  missing_signature : ℕ → LinkingError
  malformed_input : ℕ → LinkingError
  unresolved_script_ref : CellRef → LinkingError

infixl 5 ◌>>-◌
abbrev pub ◌>>-◌ {ℓ κ μ} :
    {A : Type ℓ} {B : Type κ} {E : Type μ} → Result A E → (A → Result B E) → Result B E
ok a >>- f = f a
err e >>- f = err e

-- An active cell with its owner and the index of the signature.
unfoldable pub link_owned :
    List Signature
    → ℕ
    → CellMeta ActiveCell
    → Owner
    → Option ℕ
    → Result (CellMeta ActiveCell × Option Signature) LinkingError
link_owned signatures ix cell (prove_dlog pk) (some sig_ix) = elim (get_elem? signatures sig_ix) [
  | some sig ↦ ok (cell, some sig)
  | none ↦ err (missing_signature ix)
]
link_owned signatures ix cell (prove_dlog pk) none = err (malformed_input ix)
link_owned signatures ix cell (owned_by_script sh) none = ok (cell, none)
link_owned signatures ix cell (owned_by_script sh) (some sig_ix) = err (malformed_input ix)

unfoldable pub link_cell :
    List Signature
    → ℕ
    → CellPtr
    → Option ℕ
    → CellMeta AnyCell
    → AnyCell
    → Result (CellMeta ActiveCell × Option Signature) LinkingError
unfolding link_owned
link_cell signatures ix pt maybe_sig_ix found (mut_cell active_cell) =
    link_owned signatures ix (record { cell = active_cell; ancors = found.ancors })
      active_cell.owner maybe_sig_ix
link_cell signatures ix pt maybe_sig_ix found (term_cell terminal) = err (non_consumable_input pt)

unfoldable pub link_input :
    Pool
    → List Signature
    → ℕ
    → CellPtr
    → Option ℕ
    → Result (CellMeta ActiveCell × Option Signature) LinkingError
unfolding link_cell
link_input pool signatures ix pt maybe_sig_ix = elim (pool.get_cell pt) [
  | some found ↦ link_cell signatures ix pt maybe_sig_ix found found.cell
  | none ↦ err (missing_input pt)
]

unfoldable pub link_inputs :
    Pool
    → List Signature
    → ℕ
    → List (CellPtr × Option ℕ)
    → Result (List (CellMeta ActiveCell × Option Signature)) LinkingError
unfolding link_input
link_inputs pool signatures ix [] = ok []
link_inputs pool signatures ix ((pt, maybe_sig_ix) ∷ inputs) =
    link_input pool signatures ix pt maybe_sig_ix >>- λ input.
    link_inputs pool signatures (ix + 1) inputs >>- λ linked. ok (input ∷ linked)

unfoldable pub link_ref_inputs : Pool → List CellPtr → Result (List AnyCell) LinkingError
link_ref_inputs pool [] = ok []
link_ref_inputs pool (pt ∷ pts) = elim (pool.get_cell pt) [
  | some found ↦ link_ref_inputs pool pts >>- λ linked. ok (found.cell ∷ linked)
  | none ↦ err (missing_ref_input pt)
]

-- The datum of an invocation. One that stands in the witness itself is not used.
unfoldable pub link_datum : Pool → List DatumWitness → Option ℕ → Option Datum
link_datum pool witness_data none = none
link_datum pool witness_data (some datum_ix) = elim (get_elem? witness_data datum_ix) [
  | none ↦ none
  | some (datum_by_ref datum_ref) ↦ pool.get_ref_datum datum_ref
  | some (datum_itself datum) ↦ none
]

unfoldable pub link_script : Pool → ScriptWitness → Result Script LinkingError
link_script pool (script_by_ref sc_ref) = elim (pool.get_ref_script sc_ref) [
  | some script ↦ ok script
  | none ↦ err (unresolved_script_ref sc_ref)
]
link_script pool (script_itself script) = ok script

unfoldable pub link_invocations :
    Pool → Witness → List ScriptInv → Result (List LinkedScriptInv) LinkingError
unfolding link_datum link_script
link_invocations pool witness [] = ok []
link_invocations pool witness (inv ∷ invs) = elim (get_elem? witness.scripts inv.script) [
  | none ↦ err missing_script
  | some script_wit ↦
      let maybe_datum = link_datum pool witness.witness_data inv.datum in
      link_script pool script_wit >>- λ script. link_invocations pool witness invs >>- λ linked.
      let invocation : LinkedScriptInv = record {
        script = script;
        datum = maybe_datum;
        call = inv.call;
      } in
      ok (invocation ∷ linked)
]

unfoldable pub link_transaction :
    Pool → (TransactionBody → ℕ) → Transaction → Result LinkedTransaction LinkingError
unfolding link_inputs link_ref_inputs link_invocations inputs_of
link_transaction pool digest tx =
    link_inputs pool tx.witness.signatures 0 (inputs_of tx.body.inputs) >>- λ linked_inputs.
    link_ref_inputs pool tx.body.reference_inputs >>- λ linked_ref_inputs.
    link_invocations pool tx.witness tx.body.invocations >>- λ linked_invokations. ok (record {
      inputs = linked_inputs;
      reference_inputs = linked_ref_inputs;
      invokations = linked_invokations;
      evaluated_outputs = tx.body.evaluated_outputs;
      hash = digest tx.body;
    })
