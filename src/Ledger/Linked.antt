-- ===== src/Ledger/Linked.antt =====
-- What linking leaves in the inputs of a transaction, in spectrum-view/src/state/linking.rs.
use spectrum.Ledger.Cells.{
  ActiveCell, AnyCell, CellMeta, CellPtr, LinkedTransaction, Owner, Pool, Signature, Transaction,
  TransactionBody, inputs_of, mut_cell, owned_by_script, prove_dlog, term_cell,
}
use spectrum.Ledger.Linking.{
  link_cell, link_input, link_inputs, link_invocations, link_owned, link_ref_inputs,
  link_transaction, ◌>>-◌,
}
use spectrum.Prelude.{
  All, List, Option, Option-cases, Result, [], err, get_elem?, inl, inr, none, ok, refl, some, ℕ,
  ◌+◌, ◌∷◌, ◌≡◌,
}

-- A signature stands with an input exactly if a key owns its cell.
abbrev pub SigFits : Owner → Option Signature → Type 0
SigFits (prove_dlog pk) (some sig) = Unit {0}
SigFits (prove_dlog pk) none = ⊥
SigFits (owned_by_script sh) (some sig) = ⊥
SigFits (owned_by_script sh) none = Unit {0}

abbrev pub LinkedInput : Type 0
LinkedInput = CellMeta ActiveCell × Option Signature

abbrev pub IsLinked : LinkedInput → Type 0
IsLinked input = SigFits input.0.cell.owner input.1

-- The predicate holds of the value if the result is one.
abbrev pub OkWith {ℓ κ} : {A : Type ℓ} {E : Type κ} → (A → Type 0) → Result A E → Type 0
OkWith P (ok a) = P a
OkWith P (err e) = Unit {0}

OkWith-bind {ℓ κ μ} :
    {A : Type ℓ} {B : Type κ} {E : Type μ} (P : A → Type 0) (Q : B → Type 0) (r : Result A E)
    (f : A → Result B E)
    → OkWith P r
    → ((a : A) → P a → OkWith Q (f a))
    → OkWith Q (r >>- f)
OkWith-bind P Q (ok a) f p rest = rest a p
OkWith-bind P Q (err e) f p rest = tt

OkWith-any {ℓ κ} : {A : Type ℓ} {E : Type κ} (r : Result A E) → OkWith (λ a. Unit {0}) r
OkWith-any (ok a) = tt
OkWith-any (err e) = tt

link_owned-IsLinked :
    (signatures : List Signature) (ix : ℕ) (cell : CellMeta ActiveCell) (owner : Owner)
    (sig_ix : Option ℕ)
    → owner ≡ cell.cell.owner
    → OkWith IsLinked (link_owned signatures ix cell owner sig_ix)
unfolding link_owned
link_owned-IsLinked signatures ix cell (prove_dlog pk) (some sig_ix) is_owner =
    elim (Option-cases (get_elem? signatures sig_ix)) [
      | inl missing ↦ rw (missing, link_owned) tt
      | inr sig ↦ rw (sig.1, link_owned) (rw (← is_owner) tt)
    ]
link_owned-IsLinked signatures ix cell (prove_dlog pk) none is_owner = tt
link_owned-IsLinked signatures ix cell (owned_by_script sh) none is_owner = rw (← is_owner) tt
link_owned-IsLinked signatures ix cell (owned_by_script sh) (some sig_ix) is_owner = tt

link_input-IsLinked :
    (pool : Pool) (signatures : List Signature) (ix : ℕ) (pt : CellPtr) (sig_ix : Option ℕ)
    → OkWith IsLinked (link_input pool signatures ix pt sig_ix)
unfolding link_input link_cell
link_input-IsLinked pool signatures ix pt sig_ix = elim (Option-cases (pool.get_cell pt)) [
  | inl missing ↦ rw (missing, link_input) tt
  | inr found ↦ rw (found.1, link_input) (go found.0 found.0.cell)
]
  where
    go :
        (found : CellMeta AnyCell) (cell : AnyCell)
        → OkWith IsLinked (link_cell signatures ix pt sig_ix found cell)
    go found (mut_cell active) =
        link_owned-IsLinked signatures ix (record { cell = active; ancors = found.ancors })
          active.owner sig_ix refl
    go found (term_cell terminal) = tt

link_inputs-IsLinked :
    (pool : Pool) (signatures : List Signature) (ix : ℕ) (inputs : List (CellPtr × Option ℕ))
    → OkWith (All IsLinked) (link_inputs pool signatures ix inputs)
unfolding link_inputs
link_inputs-IsLinked pool signatures ix [] = tt
link_inputs-IsLinked pool signatures ix ((pt, sig_ix) ∷ inputs) =
    OkWith-bind IsLinked (All IsLinked) (link_input pool signatures ix pt sig_ix) _
      (link_input-IsLinked pool signatures ix pt sig_ix)
      (λ input linked.
        OkWith-bind (All IsLinked) (All IsLinked) (link_inputs pool signatures (ix + 1) inputs) _
          (link_inputs-IsLinked pool signatures (ix + 1) inputs)
          (λ rest all_linked. (linked, all_linked)))

pub link_transaction-IsLinked :
    (pool : Pool) (digest : TransactionBody → ℕ) (tx : Transaction)
    → OkWith
        (λ (linked : LinkedTransaction). All IsLinked linked.inputs)
        (link_transaction pool digest tx)
unfolding link_transaction
link_transaction-IsLinked pool digest tx =
    OkWith-bind (All IsLinked) _
      (link_inputs pool tx.witness.signatures 0 (inputs_of tx.body.inputs)) _
      (link_inputs-IsLinked pool tx.witness.signatures 0 (inputs_of tx.body.inputs))
      (λ inputs linked.
        OkWith-bind (λ refs. Unit {0}) _ (link_ref_inputs pool tx.body.reference_inputs) _
          (OkWith-any (link_ref_inputs pool tx.body.reference_inputs))
          (λ refs any.
            OkWith-bind (λ invs. Unit {0}) _ (link_invocations pool tx.witness tx.body.invocations)
              _ (OkWith-any (link_invocations pool tx.witness tx.body.invocations))
              (λ invs any_too. linked)))
