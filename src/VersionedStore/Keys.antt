-- ===== src/VersionedStore/Keys.antt =====
-- The keys and values that a transaction of the versioned storage in
-- spectrum-view/src/versioned_avl_storage/versioned_storage.rs writes, against what was there before.
use spectrum.Prelude.{
  Bool, Bool-cases, Bytes, List, Option, [], ap, arith, bytes_eq, bytes_eq_sound, false,
  if◌then◌else◌, inl, inr, is_some, length, none, refl, some, sym, true, ℕ, ◌+◌, ◌<◌, ◌^◌, ◌||◌,
  ◌∙◌, ◌∷◌, ◌≡◌, ◌≤◌, ◌⊎◌,
}
use spectrum.VersionedStore.Entries.{Noted}
use spectrum.VersionedStore.Store.{put}

pub put_same :
    (key other : Bytes) (value : Option Bytes) (db : Bytes → Option Bytes)
    → bytes_eq key other ≡ true
    → put key value db other ≡ value
unfolding put
put_same key other value db same = rw same refl

pub put_other :
    (key other : Bytes) (value : Option Bytes) (db : Bytes → Option Bytes)
    → bytes_eq key other ≡ false
    → put key value db other ≡ db other
unfolding put
put_other key other value db differ = rw differ refl

-- The writes of the updated pairs, in their order.
unfoldable pub set_keys : List (Bytes × Bytes) → (Bytes → Option Bytes) → Bytes → Option Bytes
set_keys [] db = db
set_keys (pair ∷ rest) db = set_keys rest (put pair.0 (some pair.1) db)

-- How many of the keys have a value.
abbrev pub touched : (Bytes → Option Bytes) → List Bytes → ℕ
touched db [] = 0
touched db (key ∷ keys) = (if is_some (db key) then 1 else 0) + touched db keys

pub touched-le : (db : Bytes → Option Bytes) (keys : List Bytes) → touched db keys ≤ length keys
touched-le db [] = omega arith
touched-le db (key ∷ keys) = ground (arith, touched-le db keys)

abbrev pub key_in : Bytes → Noted → Bool
key_in key [] = false
key_in key (e ∷ es) = bytes_eq e.0 key || key_in key es

-- The sizes that an undo entry has room for.
abbrev pub KeysFit : (Bytes → Option Bytes) → Type 0
KeysFit db =
    (key value : Bytes)
    → db key ≡ some value
    → (length key ≤ 255) × (0 < length value) × (length value < 2 ^ 62)

module _ (db : Bytes → Option Bytes) where
  -- An old value is noted or still there.
  abbrev pub Keeps : (Bytes → Option Bytes) → Noted → Type 0
  Keeps written es =
      (key value : Bytes)
      → db key ≡ some value
      → (key_in key es ≡ true) ⊎ (written key ≡ some value)

  -- Keys without an old value are as in the other map.
  abbrev pub Agrees : (Bytes → Option Bytes) → (Bytes → Option Bytes) → Type 0
  Agrees written plain = (key : Bytes) → db key ≡ none → written key ≡ plain key

  pub different :
      (key other value : Bytes) → db key ≡ some value → db other ≡ none → bytes_eq key other ≡ false
  different key other value has lacks = elim (Bool-cases (bytes_eq key other)) [
    | inr differ ↦ differ
    | inl same ↦
        let e : key ≡ other = bytes_eq_sound key other same in
        let both : some value ≡ none = sym has ∙ ap db e ∙ lacks in cc both
  ]

  different' :
      (key other value : Bytes) → db key ≡ none → db other ≡ some value → bytes_eq key other ≡ false
  different' key other value lacks has = elim (Bool-cases (bytes_eq key other)) [
    | inr differ ↦ differ
    | inl same ↦
        let e : key ≡ other = bytes_eq_sound key other same in
        let both : some value ≡ none = sym has ∙ ap db (sym e) ∙ lacks in cc both
  ]

  pub Keeps-put :
      (written : Bytes → Option Bytes) (es : Noted) (key old_value : Bytes) (value : Option Bytes)
      → Keeps written es
      → Keeps (put key value written) ((key, old_value) ∷ es)
  Keeps-put written es key old_value value keeps other w has =
      elim (Bool-cases (bytes_eq key other)) [
        | inl same ↦ inl (rw same refl)
        | inr differ ↦ elim (keeps other w has) [
          | inl in_es ↦ inl (rw differ in_es)
          | inr there_still ↦ inr (put_other key other value written differ ∙ there_still)
        ]
      ]

  pub Keeps-put_new :
      (written : Bytes → Option Bytes) (es : Noted) (key : Bytes) (value : Option Bytes)
      → db key ≡ none
      → Keeps written es
      → Keeps (put key value written) es
  Keeps-put_new written es key value lacks keeps other w has = elim (keeps other w has) [
    | inl in_es ↦ inl in_es
    | inr there_still ↦
        inr (put_other key other value written (different' key other w lacks has) ∙ there_still)
  ]

  pub Agrees-put :
      (written plain : Bytes → Option Bytes) (key : Bytes) (value : Option Bytes)
      → Agrees written plain
      → Agrees (put key value written) (put key value plain)
  Agrees-put written plain key value agrees other lacks = elim (Bool-cases (bytes_eq key other)) [
    | inl same ↦ put_same key other value written same ∙ sym (put_same key other value plain same)
    | inr differ ↦
        put_other key other value written differ
        ∙ agrees other lacks
        ∙ sym (put_other key other value plain differ)
  ]

  pub Agrees-put_old :
      (written plain : Bytes → Option Bytes) (key old_value : Bytes) (value : Option Bytes)
      → db key ≡ some old_value
      → Agrees written plain
      → Agrees (put key value written) plain
  Agrees-put_old written plain key old_value value has agrees other lacks =
      put_other key other value written (different key other old_value has lacks)
      ∙ agrees other lacks
