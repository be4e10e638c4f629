-- ===== src/VersionedStore/Latest.antt =====
-- `rollback_to` of spectrum-view/src/versioned_avl_storage/versioned_storage.rs at the latest version.
use mathlib.Core.Path.{subst}
use spectrum.Prelude.{
  All, Bool-cases, Bytes, List, Option-cases, Outcome, [], arith, false, get_elem?,
  get_elem?-append_length, inl, inr, leb, length, panicked, refl, returned, some, sym, true, u32, ℕ,
  ◌++◌, ◌+◌, ◌<◌, ◌==◌, ◌>>=◌, ◌^◌, ◌∙◌, ◌∷◌, ◌≡◌, ◌≤◌,
}
use spectrum.VersionedStore.Entries.{Below}
use spectrum.VersionedStore.Rollback.{last_boundary-last}
use spectrum.VersionedStore.Store.{
  Boundary, Tx, VersionedStore, delete_entry, get_last_lsn, last_boundary, position_of, put,
  rollback_loop, rollback_to, seek_back,
}
use spectrum.VersionedStore.Undo.{VersionOps, decode_undo}

seek_back-Below :
    (bound lsn : ℕ) (passed entries found : List (ℕ × Bytes))
    → Below bound passed
    → Below bound entries
    → seek_back lsn passed entries ≡ some found
    → Below bound found
unfolding seek_back
seek_back-Below bound lsn passed [] found p e at = cc
seek_back-Below bound lsn passed (entry ∷ entries) found p e at =
    elim (Bool-cases (leb lsn entry.0)) [
      | inl reached ↦
          let here_at : entry ∷ passed ≡ found = from_here reached in
          subst (Below bound) here_at (e.0, p)
      | inr earlier ↦
          seek_back-Below bound lsn (entry ∷ passed) entries found (e.0, p) e.1 (from_later earlier)
    ]
  where
    from_here : leb lsn entry.0 ≡ true → entry ∷ passed ≡ found
    from_here reached =
        let same : some (entry ∷ passed) ≡ some found = sym (rw (reached, seek_back) refl) ∙ at in
        cc

    from_later : leb lsn entry.0 ≡ false → seek_back lsn (entry ∷ passed) entries ≡ some found
    from_later earlier = sym (rw (earlier, seek_back) refl) ∙ at

bind_panics {ℓ κ} :
    {A : Type ℓ} {B : Type κ} (m : Outcome A) (f : A → Outcome B)
    → ((a : A) → f a ≡ panicked)
    → (m >>= f) ≡ panicked
bind_panics (returned a) f h = h a
bind_panics panicked f h = refl

module _ {T : Type 0} (ops : VersionOps T) where
  rollback_loop-panics :
      (bound : ℕ) (entries : List (ℕ × Bytes)) (tx : Tx)
      → Below bound entries
      → rollback_loop ops (bound + 1) entries tx ≡ panicked
  unfolding rollback_loop
  rollback_loop-panics bound [] tx below = refl
  rollback_loop-panics bound (entry ∷ entries) tx below =
      let other : (entry.0 == bound + 1) ≡ false = ground (arith, below.0) in
      bind_panics (decode_undo ops entry.1) _ (λ undo. rw other (
        rollback_loop-panics bound entries
          (record tx {
            written = put undo.key (some undo.value) tx.written;
            entries = delete_entry entry.0 tx.entries;
          })
          below.1))

  -- A store whose latest version stands at no earlier boundary, whose latest boundary ends at the
  -- number of the last undo entry (0 if there is none), below 2 ^ 32 - 1, with no entry of a greater
  -- number: the rollback to its latest version, which would change nothing, panics. The store may be
  -- full, and keys and values may have any size.
  pub rollback_to-latest :
      (store : VersionedStore T) (older : List (Boundary T)) (latest : Boundary T)
      → store.boundaries ≡ older ++ latest ∷ []
      → position_of ops latest.version_id store.boundaries ≡ some (length older)
      → latest.last_lsn ≡ get_last_lsn store
      → All (λ (entry : ℕ × Bytes). entry.0 ≤ get_last_lsn store) store.undos
      → get_last_lsn store + 1 < 2 ^ 32
      → rollback_to ops latest.version_id store ≡ panicked
  unfolding rollback_to
  rollback_to-latest store older latest boundaries_now first_position latest_now numbers fits =
      let newest : last_boundary store.boundaries ≡ some latest =
        rw boundaries_now (last_boundary-last older latest) in
      let target : get_elem? store.boundaries (length older) ≡ some latest =
        rw boundaries_now (get_elem?-append_length older latest []) in
      let first : u32 (latest.last_lsn + 1) ≡ get_last_lsn store + 1 = omega (arith, latest_now) in
      rw first_position (
        rw newest (
          rw target (elim (Option-cases (seek_back latest.last_lsn [] store.undos)) [
            | inl nothing ↦ rw nothing refl
            | inr backwards ↦
                let low : Below (get_last_lsn store) backwards.0 =
                  seek_back-Below (get_last_lsn store) latest.last_lsn [] store.undos backwards.0 tt
                    numbers backwards.1 in
                rw backwards.1 (
                  rw first (
                    rw
                      (rollback_loop-panics (get_last_lsn store) backwards.0
                        (record {
                          written = store.db;
                          entries = store.undos;
                          last = latest.last_lsn;
                        })
                        low)
                      refl))
          ])))
