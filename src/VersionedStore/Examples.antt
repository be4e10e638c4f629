-- ===== src/VersionedStore/Examples.antt =====
-- The versioned storage of spectrum-view/src/versioned_avl_storage/versioned_storage.rs on small
-- keys; a version is one byte.
use spectrum.Prelude.{
  Bool-cases, Bytes, Option, Returns, [], arith, bytes_eq, bytes_eq_sound, if◌then◌else◌, inl, inr,
  none, panicked, refl, returned, some, sym, ℕ, ◌==◌, ◌>>=◌, ◌∙◌, ◌∷◌, ◌≡◌,
}
use spectrum.VersionedStore.Keys.{KeysFit, set_keys}
use spectrum.VersionedStore.Latest.{rollback_to-latest}
use spectrum.VersionedStore.RoundTrip.{IsReady, rollback_to-update_store}
use spectrum.VersionedStore.Store.{
  Boundary, VersionedStore, get_last_lsn, last_lsn_of, position_of, rollback_to, update_store,
}
use spectrum.VersionedStore.Undo.{
  Undo, VersionOps, decode_undo, decode_undo-encode_undo, encode_undo,
}

abbrev head_byte : Bytes → Option ℕ
head_byte [] = none
head_byte (x ∷ xs) = some x

abbrev byte_versions : VersionOps ℕ
byte_versions = record { into = λ v. v ∷ []; try_from_bytes = head_byte; same_version = ◌==◌ }

abbrev an_undo : Undo ℕ
an_undo = record { version_id = 4; key = 7 ∷ 8 ∷ []; value = 1 ∷ 2 ∷ 3 ∷ [] }

undo_read_back :
    (encode_undo byte_versions an_undo >>= decode_undo byte_versions) ≡ returned an_undo
undo_read_back = decode_undo-encode_undo byte_versions an_undo (omega arith) refl

-- One key, with a value, and one version without undo entries.
abbrev only_seven : Bytes → Option Bytes
only_seven key = if bytes_eq (7 ∷ []) key then some (9 ∷ []) else none

abbrev first_version : Boundary ℕ
first_version = record { version_id = 1; first_lsn = 0; last_lsn = 0 }

abbrev a_store : VersionedStore ℕ
a_store = record {
  db = only_seven;
  undos = [];
  boundaries = first_version ∷ [];
  num_versions_to_store = 5;
}

small_keys : KeysFit only_seven
small_keys key value has = elim (Bool-cases (bytes_eq (7 ∷ []) key)) [
  | inl same ↦
      let k : 7 ∷ [] ≡ key = bytes_eq_sound (7 ∷ []) key same in
      let is_nine : some (9 ∷ []) ≡ some value = sym (rw same refl) ∙ has in
      let v : 9 ∷ [] ≡ value = cc in rw (← k) (rw (← v) (omega arith))
  | inr differ ↦ let nothing : none ≡ some value = sym (rw differ refl) ∙ has in cc
]

a_store-IsReady : IsReady byte_versions a_store [] first_version
unfolding get_last_lsn last_lsn_of position_of
a_store-IsReady = record {
  boundaries_now = refl;
  latest_now = refl;
  numbers = tt;
  first_of = refl;
  room = refl;
  keys_fit = small_keys;
}

rollback_to-update_store_example :
    Returns
      (λ back.
        (back.boundaries ≡ first_version ∷ [])
        × ((key value : Bytes) → only_seven key ≡ some value → back.db key ≡ some value)
        × ((key : Bytes)
            → only_seven key ≡ none
            → back.db key ≡ set_keys ((7 ∷ [], 5 ∷ []) ∷ (6 ∷ [], 4 ∷ []) ∷ []) only_seven key))
      (update_store byte_versions 2 [] ((7 ∷ [], 5 ∷ []) ∷ (6 ∷ [], 4 ∷ []) ∷ []) a_store
        >>= rollback_to byte_versions 1)
unfolding get_last_lsn last_lsn_of bytes_eq
rollback_to-update_store_example =
    rollback_to-update_store byte_versions 2 (omega arith) refl a_store [] first_version
      a_store-IsReady [] ((7 ∷ [], 5 ∷ []) ∷ (6 ∷ [], 4 ∷ []) ∷ []) (omega arith) (omega arith)

-- The store has all versions that it may have.
abbrev full_store : VersionedStore ℕ
full_store = record a_store { num_versions_to_store = 0 }

rollback_to-latest_example : rollback_to byte_versions 1 full_store ≡ panicked
unfolding get_last_lsn last_lsn_of position_of
rollback_to-latest_example =
    rollback_to-latest byte_versions full_store [] first_version refl refl refl tt (omega arith)
