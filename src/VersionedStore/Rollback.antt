-- ===== src/VersionedStore/Rollback.antt =====
-- `rollback_to` of spectrum-view/src/versioned_avl_storage/versioned_storage.rs after an update.
use spectrum.Prelude.{
  All, Bool-cases, Bytes, List, List-cases, Option, Option-cases, [], ap, arith, bytes_eq,
  bytes_eq_sound, false, inl, inr, length, none, refl, returned, some, suc, sym, take, true, zero,
  ℕ, ◌++◌, ◌+◌, ◌<◌, ◌==◌, ◌>>=◌, ◌^◌, ◌∙◌, ◌∷◌, ◌≡◌, ◌≤◌, ◌⊎◌,
}
use spectrum.VersionedStore.Entries.{Noted, bytes_of, entries_down}
use spectrum.VersionedStore.Keys.{KeysFit, different, key_in, put_other, put_same}
use spectrum.VersionedStore.Store.{
  Boundary, Tx, delete_entry, last_boundary, position_of, put, rollback_loop,
}
use spectrum.VersionedStore.Undo.{
  Fits, Undo, VersionOps, decode_undo, decode_undo-encode_undo, encode_undo_lem,
}

-- The writes of a rollback, from the newest entry.
unfoldable pub restore : Noted → (Bytes → Option Bytes) → Bytes → Option Bytes
restore [] written = written
restore (e ∷ es) written = restore es (put e.0 (some e.1) written)

module _ (db : Bytes → Option Bytes) where
  pub restore_old :
      (es : Noted) (written : Bytes → Option Bytes) (key value : Bytes)
      → All (λ (e : Bytes × Bytes). db e.0 ≡ some e.1) es
      → db key ≡ some value
      → (key_in key es ≡ true) ⊎ (written key ≡ some value)
      → restore es written key ≡ some value
  unfolding restore
  restore_old [] written key value old has (inl absent) = cc
  restore_old [] written key value old has (inr there_still) = there_still
  restore_old (e ∷ es) written key value old has before = elim (Bool-cases (bytes_eq e.0 key)) [
    | inl same ↦
        let k : e.0 ≡ key = bytes_eq_sound e.0 key same in
        let v : some e.1 ≡ some value = sym old.0 ∙ ap db k ∙ has in
        restore_old es (put e.0 (some e.1) written) key value old.1 has
          (inr (put_same e.0 key (some e.1) written same ∙ v))
    | inr differ ↦ restore_old es (put e.0 (some e.1) written) key value old.1 has (elim before [
      | inl in_es ↦ inl (ground (arith, in_es, differ))
      | inr there_still ↦ inr (put_other e.0 key (some e.1) written differ ∙ there_still)
    ])
  ]

  pub restore_new :
      (es : Noted) (written : Bytes → Option Bytes) (key : Bytes)
      → All (λ (e : Bytes × Bytes). db e.0 ≡ some e.1) es
      → db key ≡ none
      → restore es written key ≡ written key
  unfolding restore
  restore_new [] written key old lacks = refl
  restore_new (e ∷ es) written key old lacks =
      restore_new es (put e.0 (some e.1) written) key old.1 lacks
      ∙ put_other e.0 key (some e.1) written (different db e.0 key e.1 old.0 lacks)

pub position_of-append :
    {T : Type 0} (ops : VersionOps T) (version_id : T) (xs ys : List (Boundary T)) (ix : ℕ)
    → position_of ops version_id xs ≡ some ix
    → position_of ops version_id (xs ++ ys) ≡ some ix
unfolding position_of
position_of-append ops version_id [] ys ix found = cc
position_of-append ops version_id (b ∷ xs) ys ix found =
    elim (Bool-cases (ops.same_version b.version_id version_id)) [
      | inl same ↦ ground (arith, found, same)
      | inr differ ↦ elim (Option-cases (position_of ops version_id xs)) [
        | inl missing ↦ ground (arith, found, differ, missing)
        | inr later ↦
            ground (
              arith,
              found,
              differ,
              later.1,
              position_of-append ops version_id xs ys later.0 later.1,
            )
      ]
    ]

pub last_boundary-last :
    {T : Type 0} (xs : List (Boundary T)) (b : Boundary T) → last_boundary (xs ++ b ∷ []) ≡ some b
unfolding last_boundary
last_boundary-last [] b = refl
last_boundary-last (x ∷ []) b = refl
last_boundary-last (x ∷ y ∷ xs) b = last_boundary-last (y ∷ xs) b

pub take-append_length {ℓ} :
    {A : Type ℓ} (xs ys : List A) (n : ℕ) → n ≡ length xs → take n (xs ++ ys) ≡ xs
take-append_length xs ys zero at = elim (List-cases xs) [
  | inl empty ↦ rw empty refl
  | inr more ↦ absurd (omega (arith, at, ap length more.2))
]
take-append_length [] ys (suc n) at = absurd (omega arith)
take-append_length (x ∷ xs) ys (suc n) at =
    ap (λ s. x ∷ s) (take-append_length xs ys n (omega arith))

module _ {T : Type 0} (ops : VersionOps T) (version_id : T)
    (version_fits : length (ops.into version_id) ≤ 255)
    (version_back : ops.try_from_bytes (ops.into version_id) ≡ some version_id) where
  decode_lem :
      (e : Bytes × Bytes)
      → (length e.0 ≤ 255) × (0 < length e.1) × (length e.1 < 2 ^ 62)
      → decode_undo ops (bytes_of ops version_id e)
        ≡ returned (record { version_id = version_id; key = e.0; value = e.1 })
  decode_lem e sizes =
      let undo : Undo T = record { version_id = version_id; key = e.0; value = e.1 } in
      let fits : Fits ops undo = record {
        version_fits = version_fits;
        key_fits = sizes.0;
        has_value = sizes.1;
        value_fits = sizes.2;
      } in
      ap (λ m. m >>= decode_undo ops) (sym (encode_undo_lem ops undo fits))
      ∙ decode_undo-encode_undo ops undo fits version_back

  pub rollback_loop_lem :
      (db : Bytes → Option Bytes) (start_lsn : ℕ) (e : Bytes × Bytes) (es : Noted)
      (older : List (ℕ × Bytes)) (tx : Tx)
      → KeysFit db
      → All (λ (e : Bytes × Bytes). db e.0 ≡ some e.1) (e ∷ es)
      → (after : Tx) × (rollback_loop ops
            (start_lsn + 1)
            (entries_down ops version_id start_lsn (e ∷ es) ++ older)
            tx
          ≡ returned after)
        × (after.written ≡ restore (e ∷ es) tx.written)
  unfolding rollback_loop entries_down restore
  rollback_loop_lem db start_lsn e [] older tx keys_fit old =
      let first : (start_lsn + 0 + 1 == start_lsn + 1) ≡ true = ground arith in
      (
        record tx {
          written = put e.0 (some e.1) tx.written;
          entries = delete_entry (start_lsn + 0 + 1) tx.entries;
        },
        rw (decode_lem e (keys_fit e.0 e.1 old.0)) (rw first refl),
        refl,
      )
  rollback_loop_lem db start_lsn e (e' ∷ es) older tx keys_fit old =
      let later : (start_lsn + suc (length es) + 1 == start_lsn + 1) ≡ false = ground arith in
      let undone : Tx = record tx {
        written = put e.0 (some e.1) tx.written;
        entries = delete_entry (start_lsn + suc (length es) + 1) tx.entries;
      } in
      let rest = rollback_loop_lem db start_lsn e' es older undone keys_fit old.1 in
      (rest.0, rw (decode_lem e (keys_fit e.0 e.1 old.0)) (rw later rest.1), rest.2)
