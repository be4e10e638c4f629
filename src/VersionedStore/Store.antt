-- ===== src/VersionedStore/Store.antt =====
-- The store of spectrum-view/src/versioned_avl_storage/versioned_storage.rs. The database is three
-- maps, one for each prefix: the values by their key, the undo entries by their number in its order,
-- and the boundaries. Keys and values are the bytes they are stored as. A transaction reads what was
-- there before it, and its writes show at once when it is committed.
use mathlib.Core.Option
use spectrum.Prelude.{
  Bytes, List, Option, Outcome, [], bytes_eq, false, get_elem?, if◌then◌else◌, leb, length, ltb,
  none, panicked, returned, some, suc, take, true, u32, unwrap, zero, ℕ, ◌&&◌, ◌++◌, ◌+◌, ◌-◌, ◌==◌,
  ◌>>=◌, ◌∷◌,
}
use spectrum.VersionedStore.Undo.{VersionOps, decode_undo, encode_undo}

pub record Boundary (T : Type 0) : Type 0 where
  pub version_id : T
  pub first_lsn : ℕ
  pub last_lsn : ℕ

pub record VersionedStore (T : Type 0) : Type 0 where
  pub db : Bytes → Option Bytes
  pub undos : List (ℕ × Bytes)
  pub boundaries : List (Boundary T)
  pub num_versions_to_store : ℕ

-- The writes of a transaction so far, and the last number.
pub record Tx : Type 0 where
  pub written : Bytes → Option Bytes
  pub entries : List (ℕ × Bytes)
  pub last : ℕ

unfoldable pub put : Bytes → Option Bytes → (Bytes → Option Bytes) → Bytes → Option Bytes
unfolding bytes_eq
put key value db = λ other. if bytes_eq key other then value else db other

unfoldable pub put_entry : ℕ → Bytes → List (ℕ × Bytes) → List (ℕ × Bytes)
put_entry lsn bytes [] = (lsn, bytes) ∷ []
put_entry lsn bytes (entry ∷ entries) =
    if entry.0 == lsn
    then (lsn, bytes) ∷ entries
    else if ltb lsn entry.0
    then (lsn, bytes) ∷ entry ∷ entries
    else entry ∷ put_entry lsn bytes entries

unfoldable pub delete_entry : ℕ → List (ℕ × Bytes) → List (ℕ × Bytes)
delete_entry lsn [] = []
delete_entry lsn (entry ∷ entries) =
    if entry.0 == lsn then entries else entry ∷ delete_entry lsn entries

-- The loop over `first..=last`, for its number of rounds.
unfoldable pub delete_entries : ℕ → ℕ → List (ℕ × Bytes) → List (ℕ × Bytes)
unfolding delete_entry
delete_entries first zero entries = entries
delete_entries first (suc n) entries = delete_entries (first + 1) n (delete_entry first entries)

-- The entries up to the first whose number is not below, from that one backwards; the ones before
-- are in front of the accumulated.
unfoldable pub seek_back : ℕ → List (ℕ × Bytes) → List (ℕ × Bytes) → Option (List (ℕ × Bytes))
seek_back lsn passed [] = none
seek_back lsn passed (entry ∷ entries) = elim (leb lsn entry.0) [
  | true ↦ some (entry ∷ passed)
  | false ↦ seek_back lsn (entry ∷ passed) entries
]

unfoldable pub last_lsn_of : ℕ → List (ℕ × Bytes) → ℕ
last_lsn_of last_read [] = last_read
last_lsn_of last_read (entry ∷ entries) = last_lsn_of entry.0 entries

module _ {T : Type 0} where
  unfoldable pub new_store : ℕ → VersionedStore T
  new_store num_versions_to_store = record {
    db = λ key. none;
    undos = [];
    boundaries = [];
    num_versions_to_store = num_versions_to_store;
  }

  unfoldable pub get_last_lsn : VersionedStore T → ℕ
  get_last_lsn store = last_lsn_of 0 store.undos

  unfoldable pub get_keys : VersionedStore T → List Bytes → List (Bytes × Option Bytes)
  get_keys store [] = []
  get_keys store (key ∷ keys) = (key, store.db key) ∷ get_keys store keys

  -- The last of the boundaries.
  unfoldable pub last_boundary : List (Boundary T) → Option (Boundary T)
  last_boundary [] = none
  last_boundary (b ∷ []) = some b
  last_boundary (b ∷ newer ∷ rest) = last_boundary (newer ∷ rest)

  module _ (ops : VersionOps T) where
    -- The number and the undo entry of a key that has a value.
    unfoldable pub record_undo : T → Bytes → Bytes → Tx → Outcome Tx
    record_undo version_id key old_value tx = do
      bytes ← encode_undo ops (record { version_id = version_id; key = key; value = old_value })
      let last = u32 (tx.last + 1)
      returned (record tx { entries = put_entry last bytes tx.entries; last = last })

    unfoldable pub remove_keys : (Bytes → Option Bytes) → T → List Bytes → Tx → Outcome Tx
    remove_keys db version_id [] tx = returned tx
    remove_keys db version_id (key ∷ keys) tx = elim (db key) [
      | none ↦ remove_keys db version_id keys tx
      | some old_value ↦
          record_undo version_id key old_value (record tx { written = put key none tx.written })
          >>= remove_keys db version_id keys
    ]

    unfoldable pub update_keys : (Bytes → Option Bytes) → T → List (Bytes × Bytes) → Tx → Outcome Tx
    update_keys db version_id [] tx = returned tx
    update_keys db version_id ((key, value) ∷ rest) tx =
        (elim (db key) [
          | none ↦ returned tx
          | some old_value ↦ record_undo version_id key old_value tx
        ])
        >>= λ noted.
            update_keys db version_id rest
              (record noted { written = put key (some value) noted.written })

    -- The oldest version goes when there are too many.
    unfoldable pub prune_versions :
        ℕ → List (Boundary T) → List (ℕ × Bytes) → List (Boundary T) × List (ℕ × Bytes)
    prune_versions num_versions_to_store boundaries entries =
        if length boundaries == num_versions_to_store + 1
        then elim boundaries [
          | [] ↦ ([], entries)
          | oldest ∷ rest ↦ (
            rest,
            delete_entries oldest.first_lsn (oldest.last_lsn + 1 - oldest.first_lsn) entries,
          )
        ]
        else (boundaries, entries)

    -- The transaction of `update`.
    unfoldable pub update_within :
        T → List Bytes → List (Bytes × Bytes) → VersionedStore T → Outcome (VersionedStore T)
    update_within version_id to_remove to_update store = do
      let old_last_lsn = get_last_lsn store
      removed ←
          remove_keys store.db version_id to_remove
            (record { written = store.db; entries = store.undos; last = old_last_lsn })
      tx ← update_keys store.db version_id to_update removed
      let pruned = prune_versions store.num_versions_to_store store.boundaries tx.entries
      let first = if tx.last == old_last_lsn then tx.last else u32 (old_last_lsn + 1)
      let boundary : Boundary T = record {
        version_id = version_id;
        first_lsn = first;
        last_lsn = tx.last;
      }
      returned (record store {
        db = tx.written;
        undos = pruned.1;
        boundaries = pruned.0 ++ boundary ∷ [];
      })

    unfoldable pub update_store :
        T → List Bytes → List (Bytes × Bytes) → VersionedStore T → Outcome (VersionedStore T)
    update_store version_id to_remove to_update store =
        if length to_remove == 0 && length to_update == 0
        then returned store
        else update_within version_id to_remove to_update store

    unfoldable pub position_of : T → List (Boundary T) → Option ℕ
    position_of version_id [] = none
    position_of version_id (b ∷ bs) =
        if ops.same_version b.version_id version_id
        then some 0
        else Option.map suc (position_of version_id bs)

    -- The loop of `rollback_to` over the entries backwards. Before the first one it panics.
    unfoldable pub rollback_loop : ℕ → List (ℕ × Bytes) → Tx → Outcome Tx
    rollback_loop first [] tx = panicked
    rollback_loop first (entry ∷ entries) tx = do
      undo ← decode_undo ops entry.1
      let undone : Tx = record tx {
        written = put undo.key (some undo.value) tx.written;
        entries = delete_entry entry.0 tx.entries;
      }
      let rest = rollback_loop first entries undone
      if entry.0 == first then returned undone else rest

    unfoldable pub rollback_to : T → VersionedStore T → Outcome (VersionedStore T)
    rollback_to version_id store = do
      ix ← unwrap (position_of version_id store.boundaries)
      newest ← unwrap (last_boundary store.boundaries)
      target ← unwrap (get_elem? store.boundaries ix)
      backwards ← unwrap (seek_back newest.last_lsn [] store.undos)
      tx ←
          rollback_loop (u32 (target.last_lsn + 1)) backwards
            (record { written = store.db; entries = store.undos; last = newest.last_lsn })
      returned (record store {
        db = tx.written;
        undos = tx.entries;
        boundaries = take (ix + 1) store.boundaries;
      })
