-- ===== src/VersionedStore/RoundTrip.antt =====
-- An update and the rollback to the version before it, in
-- spectrum-view/src/versioned_avl_storage/versioned_storage.rs.
use mathlib.Core.Path.{subst}
use spectrum.Prelude.{
  All, Bytes, List, List-cases, Option, Outcome, Returns, [], ap, append_assoc, arith, false,
  get_elem?, get_elem?-append_length, if◌then◌else◌, inl, inr, length, length-append, map, none,
  panicked, refl, returned, reverse, some, suc, u32, ℕ, ◌&&◌, ◌++◌, ◌+◌, ◌<◌, ◌==◌, ◌>>=◌, ◌^◌, ◌∙◌,
  ◌∷◌, ◌≡◌, ◌≤◌,
}
use spectrum.VersionedStore.Entries.{Noted, entries_down, seek_back_lem}
use spectrum.VersionedStore.Keys.{Agrees, Keeps, KeysFit, set_keys, touched, touched-le}
use spectrum.VersionedStore.Rollback.{
  last_boundary-last, position_of-append, restore_new, restore_old, rollback_loop_lem,
  take-append_length,
}
use spectrum.VersionedStore.Store.{
  Boundary, Tx, VersionedStore, get_last_lsn, position_of, prune_versions, remove_keys, rollback_to,
  seek_back, update_keys, update_store, update_within,
}
use spectrum.VersionedStore.Undo.{VersionOps}
use spectrum.VersionedStore.Updates.{Numbered, transaction_lem}

bind_returned {ℓ κ μ} :
    {A : Type ℓ} {B : Type κ} {C : Type μ} (m : Outcome A) (f : A → Outcome B) (g : B → Outcome C)
    (b : B)
    → (m >>= f) ≡ returned b
    → (m >>= λ a. f a >>= g) ≡ g b
bind_returned (returned a) f g b e = ap (λ n. n >>= g) e
bind_returned panicked f g b e = cc

-- A store with a latest version after older ones, and room for another one: the latest boundary ends at
-- the number of the last undo entry, no entry has a greater number, the identifier of the latest
-- version stands at no earlier boundary, and the stored keys and values have sizes that an undo entry takes.
pub record IsReady {T : Type 0} (ops : VersionOps T) (store : VersionedStore T)
    (older : List (Boundary T)) (latest : Boundary T) : Type 0 where
  pub boundaries_now : store.boundaries ≡ older ++ latest ∷ []
  pub latest_now : latest.last_lsn ≡ get_last_lsn store
  pub numbers : All (λ (entry : ℕ × Bytes). entry.0 ≤ get_last_lsn store) store.undos
  pub first_of : position_of ops latest.version_id store.boundaries ≡ some (length older)
  pub room : (length store.boundaries == store.num_versions_to_store + 1) ≡ false
  pub keys_fit : KeysFit store.db

abbrev keys_of_pairs : List (Bytes × Bytes) → List Bytes
keys_of_pairs pairs = map (λ (pair : Bytes × Bytes). pair.0) pairs

second_last {ℓ} :
    {A : Type ℓ} (xs front : List A) (x y : A)
    → xs ≡ front ++ x ∷ []
    → get_elem? (xs ++ y ∷ []) (length front) ≡ some x
second_last xs front x y split =
    rw split (rw (append_assoc front (x ∷ []) (y ∷ [])) (get_elem?-append_length front x (y ∷ [])))

length-keys : (pairs : List (Bytes × Bytes)) → length (keys_of_pairs pairs) ≡ length pairs
length-keys [] = refl
length-keys (pair ∷ pairs) = ap suc (length-keys pairs)

module _ {T : Type 0} (ops : VersionOps T) (version_id : T)
    (version_fits : length (ops.into version_id) ≤ 255)
    (version_back : ops.try_from_bytes (ops.into version_id) ≡ some version_id)
    (store : VersionedStore T) (older : List (Boundary T)) (latest : Boundary T)
    (ready : IsReady ops store older latest) where
  new_boundary : ℕ → Boundary T
  new_boundary last = record {
    version_id = version_id;
    first_lsn = if last == get_last_lsn store then last else u32 (get_last_lsn store + 1);
    last_lsn = last;
  }

  after_update : Tx → VersionedStore T
  after_update tx = record store {
    db = tx.written;
    undos = tx.entries;
    boundaries = store.boundaries ++ new_boundary tx.last ∷ [];
  }

  update_store_lem :
      (to_remove : List Bytes) (to_update : List (Bytes × Bytes)) (tx : Tx)
      → 0 < length to_remove + length to_update
      → (remove_keys ops store.db version_id to_remove
            (record { written = store.db; entries = store.undos; last = get_last_lsn store })
          >>= update_keys ops store.db version_id to_update)
        ≡ returned tx
      → update_store ops version_id to_remove to_update store ≡ returned (after_update tx)
  unfolding update_store update_within prune_versions after_update new_boundary
  update_store_lem to_remove to_update tx something call =
      let some_keys : (length to_remove == 0 && length to_update == 0) ≡ false = ground arith in
      rw some_keys (
        bind_returned
          (remove_keys ops store.db version_id to_remove
            (record { written = store.db; entries = store.undos; last = get_last_lsn store }))
          (update_keys ops store.db version_id to_update) _ tx call
        ∙ rw ready.room refl)

  abbrev Restored : List (Bytes × Bytes) → VersionedStore T → Type 0
  Restored to_update back =
      (back.boundaries ≡ store.boundaries)
      × ((key value : Bytes) → store.db key ≡ some value → back.db key ≡ some value)
      × ((key : Bytes) → store.db key ≡ none → back.db key ≡ set_keys to_update store.db key)

  rollback_lem :
      (to_update : List (Bytes × Bytes)) (tx : Tx) (e : Bytes × Bytes) (es : Noted)
      → get_last_lsn store + 1 < 2 ^ 32
      → Numbered ops version_id version_fits store.db ready.keys_fit
          (get_last_lsn store)
          store.undos
          ready.numbers
          tx
          (e ∷ es)
      → Keeps store.db tx.written (e ∷ es)
      → Agrees store.db tx.written (set_keys to_update store.db)
      → Returns (Restored to_update) (rollback_to ops latest.version_id (after_update tx))
  unfolding rollback_to after_update new_boundary
  rollback_lem to_update tx e es fits numbered keeps agrees =
      let position : position_of ops latest.version_id
            (store.boundaries ++ new_boundary tx.last ∷ [])
          ≡ some (length older) =
        position_of-append ops latest.version_id store.boundaries (new_boundary tx.last ∷ [])
          (length older) ready.first_of in
      let target : get_elem? (store.boundaries ++ new_boundary tx.last ∷ []) (length older)
          ≡ some latest =
        second_last store.boundaries older latest (new_boundary tx.last) ready.boundaries_now in
      let first : u32 (latest.last_lsn + 1) ≡ get_last_lsn store + 1 =
        omega (arith, ready.latest_now) in
      let found : seek_back tx.last [] tx.entries
          ≡ some
              (entries_down ops version_id (get_last_lsn store) (e ∷ es) ++ reverse store.undos) =
        rw numbered.entries_now (
          rw numbered.last_now
            (seek_back_lem ops version_id (get_last_lsn store) e es store.undos ready.numbers)) in
      let undone =
        rollback_loop_lem ops version_id version_fits version_back store.db (get_last_lsn store) e
          es (reverse store.undos)
          (record { written = tx.written; entries = tx.entries; last = tx.last }) ready.keys_fit
          numbered.old in
      let kept : length older + 1 ≡ length store.boundaries =
        rw ready.boundaries_now (omega (arith, length-append older (latest ∷ []))) in
      rw (position) (
        rw (last_boundary-last store.boundaries (new_boundary tx.last)) (
          rw target (
            rw found (
              rw first (
                rw undone.1 (
                  take-append_length store.boundaries (new_boundary tx.last ∷ []) (length older + 1)
                      kept,
                  (λ key value has.
                      ap (λ (f : Bytes → Option Bytes). f key) undone.2
                      ∙ restore_old store.db (e ∷ es) tx.written key value numbered.old has
                          (keeps key value has)),
                  (λ key lacks.
                      ap (λ (f : Bytes → Option Bytes). f key) undone.2
                      ∙ restore_new store.db (e ∷ es) tx.written key numbered.old lacks
                      ∙ agrees key lacks),
                ))))))

  -- The conditions on the store: it has a latest version, whose identifier stands at no earlier
  -- boundary; that boundary ends at the number of the last undo entry (0 if there is none), and no
  -- entry has a greater number; the boundaries are not one more than the versions to store, so that
  -- nothing is pruned; and stored keys have at most 255 bytes and stored values from 1 to 2 ^ 62 - 1.
  -- Those on the update: its version takes at most 255 bytes and is read back from them, the number of
  -- the last entry and the keys of the update add up to less than 2 ^ 32, and it removes or overwrites
  -- some stored key. Then the update, followed by the rollback to the version before, returns, has the
  -- boundaries from before, and every key that had a value has it again; a key that had none keeps
  -- what the update wrote to it.
  pub rollback_to-update_store :
      (to_remove : List Bytes) (to_update : List (Bytes × Bytes))
      → get_last_lsn store + length to_remove + length to_update < 2 ^ 32
      → 0 < touched store.db to_remove + touched store.db (keys_of_pairs to_update)
      → Returns
          (λ back.
            (back.boundaries ≡ store.boundaries)
            × ((key value : Bytes) → store.db key ≡ some value → back.db key ≡ some value)
            × ((key : Bytes) → store.db key ≡ none → back.db key ≡ set_keys to_update store.db key))
          (update_store ops version_id to_remove to_update store
            >>= rollback_to ops latest.version_id)
  rollback_to-update_store to_remove to_update fits some_touched =
      let p =
        transaction_lem ops version_id version_fits store.db ready.keys_fit (get_last_lsn store)
          store.undos ready.numbers to_remove to_update fits in
      let something : 0 < length to_remove + length to_update = omega (
        arith,
        some_touched,
        touched-le store.db to_remove,
        touched-le store.db (keys_of_pairs to_update),
        length-keys to_update,
      ) in
      rw (update_store_lem to_remove to_update p.tx something p.returns) (elim (List-cases p.es) [
        | inl empty ↦ absurd (omega (arith, p.size, some_touched, ap length empty))
        | inr more ↦
            rollback_lem to_update p.tx more.0 more.1 (omega arith)
              (subst
                (Numbered ops version_id version_fits store.db ready.keys_fit (get_last_lsn store)
                  store.undos ready.numbers p.tx)
                more.2 p.numbered)
              (subst (Keeps store.db p.tx.written) more.2 p.keeps) p.agrees
      ])
