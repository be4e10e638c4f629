-- ===== src/VersionedStore/Updates.antt =====
-- What a transaction of `update` of spectrum-view/src/versioned_avl_storage/versioned_storage.rs notes
-- and writes.
use spectrum.Prelude.{
  All, Bytes, List, Option, Option-cases, Outcome, [], append-nil, arith, inl, inr, length, map,
  none, refl, returned, reverse, some, suc, sym, u32, ℕ, ◌++◌, ◌+◌, ◌<◌, ◌>>=◌, ◌^◌, ◌∷◌, ◌≡◌, ◌≤◌,
}
use spectrum.VersionedStore.Entries.{Noted, bytes_of, entries_down, put_entry_lem}
use spectrum.VersionedStore.Keys.{
  Agrees, Agrees-put, Agrees-put_old, Keeps, Keeps-put, Keeps-put_new, KeysFit, set_keys, touched,
  touched-le,
}
use spectrum.VersionedStore.Store.{Tx, put, record_undo, remove_keys, update_keys}
use spectrum.VersionedStore.Undo.{VersionOps, encode_undo, encode_undo_lem}

module _ {T : Type 0} (ops : VersionOps T) (version_id : T)
    (version_fits : length (ops.into version_id) ≤ 255) (db : Bytes → Option Bytes)
    (keys_fit : KeysFit db) (start_lsn : ℕ) (undos : List (ℕ × Bytes))
    (below : All (λ (entry : ℕ × Bytes). entry.0 ≤ start_lsn) undos) where
  -- The old values that were noted, with their numbers.
  pub record Numbered (tx : Tx) (es : Noted) : Type 0 where
    pub old : All (λ (e : Bytes × Bytes). db e.0 ≡ some e.1) es
    pub entries_now : tx.entries ≡ undos ++ reverse (entries_down ops version_id start_lsn es)
    pub last_now : tx.last ≡ start_lsn + length es

  -- What follows a key with an old value.
  noted_tx : Bytes → Bytes → Noted → Tx → Tx
  noted_tx key value es tx = record tx {
    entries = undos ++ reverse (entries_down ops version_id start_lsn ((key, value) ∷ es));
    last = start_lsn + length es + 1;
  }

  record_undo_lem :
      (key value : Bytes) (tx : Tx) (es : Noted)
      → db key ≡ some value
      → Numbered tx es
      → start_lsn + length es + 1 < 2 ^ 32
      → (record_undo ops version_id key value tx ≡ returned (noted_tx key value es tx))
        × Numbered (noted_tx key value es tx) ((key, value) ∷ es)
  unfolding record_undo noted_tx
  record_undo_lem key value tx es has p fits =
      let sizes = keys_fit key value has in
      let encoded : encode_undo ops (record { version_id = version_id; key = key; value = value })
          ≡ returned (bytes_of ops version_id (key, value)) =
        encode_undo_lem ops (record { version_id = version_id; key = key; value = value })
          (record {
            version_fits = version_fits;
            key_fits = sizes.0;
            has_value = sizes.1;
            value_fits = sizes.2;
          }) in
      let number : u32 (tx.last + 1) ≡ start_lsn + length es + 1 = omega (arith, p.last_now) in
      (
        rw encoded (
            rw number (
              rw p.entries_now
                (rw (put_entry_lem ops version_id start_lsn (key, value) es undos below) refl))),
        record { old = (has, p.old); entries_now = refl; last_now = omega arith },
      )

  -- A transaction so far, with what it has noted.
  pub record Progress (call : Outcome Tx) (plain : Bytes → Option Bytes) (count : ℕ) : Type 0 where
    pub tx : Tx
    pub es : Noted
    pub returns : call ≡ returned tx
    pub numbered : Numbered tx es
    pub keeps : Keeps db tx.written es
    pub agrees : Agrees db tx.written plain
    pub size : length es ≡ count

  remove_keys_lem :
      (keys : List Bytes) (tx : Tx) (es : Noted) (plain : Bytes → Option Bytes) (count : ℕ)
      → Numbered tx es
      → Keeps db tx.written es
      → Agrees db tx.written plain
      → length es + touched db keys ≡ count
      → start_lsn + length es + length keys < 2 ^ 32
      → Progress (remove_keys ops db version_id keys tx) plain count
  unfolding remove_keys
  remove_keys_lem [] tx es plain count numbered keeps agrees total fits = record {
    tx = tx;
    es = es;
    returns = refl;
    numbered = numbered;
    keeps = keeps;
    agrees = agrees;
    size = omega arith;
  }
  remove_keys_lem (key ∷ keys) tx es plain count numbered keeps agrees total fits =
      elim (Option-cases (db key)) [
        | inl lacks ↦
            let fewer : length es + touched db keys ≡ count = ground (arith, total, lacks) in
            rw (lacks, remove_keys)
              (remove_keys_lem keys tx es plain count numbered keeps agrees fewer (omega arith))
        | inr old_value ↦
            let cleared : Tx = record tx { written = put key none tx.written } in
            let step =
              record_undo_lem key old_value.0 cleared es old_value.1
                (record {
                  old = numbered.old;
                  entries_now = numbered.entries_now;
                  last_now = numbered.last_now;
                })
                (omega arith) in
            let more : suc (length es) + touched db keys ≡ count =
              ground (arith, total, old_value.1) in
            rw (old_value.1, remove_keys)
              (rw step.0 (
                remove_keys_lem keys (noted_tx key old_value.0 es cleared) ((key, old_value.0) ∷ es)
                  plain count step.1
                  (unfold noted_tx in Keeps-put db tx.written es key old_value.0 none keeps)
                  (unfold noted_tx in
                    Agrees-put_old db tx.written plain key old_value.0 none old_value.1 agrees)
                  more (omega arith)))
      ]

  update_keys_lem :
      (pairs : List (Bytes × Bytes)) (tx : Tx) (es : Noted) (plain : Bytes → Option Bytes)
      (count : ℕ)
      → Numbered tx es
      → Keeps db tx.written es
      → Agrees db tx.written plain
      → length es + touched db (map (λ (pair : Bytes × Bytes). pair.0) pairs) ≡ count
      → start_lsn + length es + length pairs < 2 ^ 32
      → Progress (update_keys ops db version_id pairs tx) (set_keys pairs plain) count
  unfolding update_keys set_keys
  update_keys_lem [] tx es plain count numbered keeps agrees total fits = record {
    tx = tx;
    es = es;
    returns = refl;
    numbered = numbered;
    keeps = keeps;
    agrees = agrees;
    size = omega arith;
  }
  update_keys_lem ((key, value) ∷ pairs) tx es plain count numbered keeps agrees total fits =
      elim (Option-cases (db key)) [
        | inl lacks ↦
            let fewer : length es + touched db (map (λ (pair : Bytes × Bytes). pair.0) pairs)
                ≡ count =
              ground (arith, total, lacks) in
            let next_tx : Tx = record tx { written = put key (some value) tx.written } in
            rw (lacks, update_keys)
              (update_keys_lem pairs next_tx es (put key (some value) plain) count
                (record {
                  old = numbered.old;
                  entries_now = numbered.entries_now;
                  last_now = numbered.last_now;
                })
                (Keeps-put_new db tx.written es key (some value) lacks keeps)
                (Agrees-put db tx.written plain key (some value) agrees) fewer (omega arith))
        | inr old_value ↦
            let step = record_undo_lem key old_value.0 tx es old_value.1 numbered (omega arith) in
            let noted : Tx = noted_tx key old_value.0 es tx in
            let next_tx : Tx = record noted { written = put key (some value) noted.written } in
            let more : suc (length es) + touched db (map (λ (pair : Bytes × Bytes). pair.0) pairs)
                ≡ count =
              ground (arith, total, old_value.1) in
            rw (old_value.1, update_keys)
              (rw step.0 (
                update_keys_lem pairs next_tx ((key, old_value.0) ∷ es) (put key (some value) plain)
                  count
                  (record {
                    old = step.1.old;
                    entries_now = step.1.entries_now;
                    last_now = step.1.last_now;
                  })
                  (unfold noted_tx in Keeps-put db tx.written es key old_value.0 (some value) keeps)
                  (unfold noted_tx in Agrees-put db tx.written plain key (some value) agrees) more
                  (omega arith)))
      ]

  -- The two loops of an update.
  pub transaction_lem :
      (to_remove : List Bytes) (to_update : List (Bytes × Bytes))
      → start_lsn + length to_remove + length to_update < 2 ^ 32
      → Progress
          (remove_keys ops db version_id to_remove
              (record { written = db; entries = undos; last = start_lsn })
            >>= update_keys ops db version_id to_update)
          (set_keys to_update db)
          (touched db to_remove + touched db (map (λ (pair : Bytes × Bytes). pair.0) to_update))
  transaction_lem to_remove to_update fits =
      let removed : Progress
          (remove_keys ops db version_id to_remove
            (record { written = db; entries = undos; last = start_lsn }))
          db (touched db to_remove) =
        remove_keys_lem to_remove (record { written = db; entries = undos; last = start_lsn }) [] db
          (touched db to_remove)
          (record {
            old = tt;
            entries_now = unfold entries_down in sym (append-nil undos);
            last_now = omega arith;
          })
          (λ key value has. inr has) (λ key lacks. refl) (omega arith) (omega arith) in
      rw removed.returns (
        update_keys_lem to_update removed.tx removed.es db _ removed.numbered removed.keeps
          removed.agrees (omega (arith, removed.size))
          (omega (arith, removed.size, touched-le db to_remove)))
