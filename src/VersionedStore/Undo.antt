-- ===== src/VersionedStore/Undo.antt =====
-- The undo entries of spectrum-view/src/versioned_avl_storage/versioned_storage.rs as bytes.
use spectrum.Prelude.{
  Bool, Bytes, Option, Outcome, [], ap, append-nil, append_assoc, arith, get_elem?, if◌then◌else◌,
  leb, length, length-append, ltb, lt→ltb, panicked, refl, returned, slice, slice-append, some, sym,
  true, unwrap, usize, ◌&&◌, ◌++◌, ◌+◌, ◌-◌, ◌<◌, ◌>>=◌, ◌^◌, ◌∙◌, ◌∷◌, ◌≡◌, ◌≤◌,
}

-- The bounds of the type of versions: `Into<Vec<u8>>`, `TryFrom<Vec<u8>>` and `PartialEq`.
pub record VersionOps (T : Type 0) : Type 0 where
  pub into : T → Bytes
  pub try_from_bytes : Bytes → Option T
  pub same_version : T → T → Bool

pub record Undo (T : Type 0) : Type 0 where
  pub version_id : T
  pub key : Bytes
  pub value : Bytes

module _ {T : Type 0} (ops : VersionOps T) where
  -- `Vec::<u8>::from(undo)`, with its three assertions.
  unfoldable pub encode_undo : Undo T → Outcome Bytes
  encode_undo undo =
      let version_bytes = ops.into undo.version_id in
      let version_size = length version_bytes in
      let key_size = length undo.key in
      if leb version_size 255 && leb key_size 255 && ltb 0 (length undo.value)
      then returned (version_size ∷ key_size ∷ (version_bytes ++ (undo.key ++ undo.value)))
      else panicked

  -- `Undo::from(bytes)`.
  unfoldable pub decode_undo : Bytes → Outcome (Undo T)
  decode_undo bytes = do
    version_size ← unwrap (get_elem? bytes 0)
    key_size ← unwrap (get_elem? bytes 1)
    let value_size =
        usize (length bytes + (2 ^ 64 - version_size) + (2 ^ 64 - key_size) + (2 ^ 64 - 2))
    version_id_bytes ← if ltb 0 value_size then slice bytes 2 (2 + version_size) else panicked
    version_id ← unwrap (ops.try_from_bytes version_id_bytes)
    key ← slice bytes (2 + version_size) (2 + version_size + key_size)
    value ← slice bytes (2 + version_size + key_size) (length bytes)
    returned (record { version_id = version_id; key = key; value = value })

  -- The sizes that the entry has room for.
  pub record Fits (undo : Undo T) : Type 0 where
    pub version_fits : length (ops.into undo.version_id) ≤ 255
    pub key_fits : length undo.key ≤ 255
    pub has_value : 0 < length undo.value
    pub value_fits : length undo.value < 2 ^ 62

  pub encode_undo_lem :
      (undo : Undo T)
      → Fits undo
      → encode_undo undo
        ≡ returned (
            length (ops.into undo.version_id)
            ∷ length undo.key
            ∷ (ops.into undo.version_id ++ (undo.key ++ undo.value)))
  unfolding encode_undo
  encode_undo_lem undo fits = ground (arith, fits.version_fits, fits.key_fits, fits.has_value)

  -- An undo entry whose version and key have at most 255 bytes and whose value has some, and fewer
  -- than 2 ^ 62, is read back from its bytes, if the version is read back from its own.
  pub decode_undo-encode_undo :
      (undo : Undo T)
      → Fits undo
      → ops.try_from_bytes (ops.into undo.version_id) ≡ some undo.version_id
      → (encode_undo undo >>= decode_undo) ≡ returned undo
  unfolding decode_undo
  decode_undo-encode_undo undo fits version_back =
      let v = ops.into undo.version_id in
      let k = undo.key in
      let w = undo.value in
      let total : length (v ++ (k ++ w)) ≡ length v + (length k + length w) =
        omega (arith, length-append v (k ++ w), length-append k w) in
      let bytes : Bytes = length v ∷ length k ∷ (v ++ (k ++ w)) in
      let size : usize (length bytes + (2 ^ 64 - length v) + (2 ^ 64 - length k) + (2 ^ 64 - 2))
          ≡ length w =
        omega (arith, total, fits.version_fits, fits.key_fits, fits.value_fits) in
      let some_value : ltb 0 (length w) ≡ true = lt→ltb _ _ fits.has_value in
      let version_slice : slice bytes 2 (2 + length v) ≡ returned v =
        slice-append (length v ∷ length k ∷ []) v (k ++ w) 2 (2 + length v) refl refl in
      let key_slice : slice bytes (2 + length v) (2 + length v + length k) ≡ returned k =
        slice-append (length v ∷ length k ∷ v) k w (2 + length v) (2 + length v + length k)
          (omega arith) (omega arith) in
      let whole : v ++ (k ++ w) ≡ (v ++ k) ++ (w ++ []) =
        sym (append_assoc v k w) ∙ ap (λ (s : Bytes). (v ++ k) ++ s) (sym (append-nil w)) in
      let front : 2 + length v + length k ≡ length (length v ∷ length k ∷ (v ++ k)) =
        omega (arith, length-append v k) in
      let value_slice : slice bytes (2 + length v + length k) (length bytes) ≡ returned w =
        ap (λ (s : Bytes). slice (length v ∷ length k ∷ s) (2 + length v + length k) (length bytes))
          whole
        ∙ slice-append (length v ∷ length k ∷ (v ++ k)) w [] (2 + length v + length k)
            (length bytes) front (omega (arith, total, front)) in
      rw (encode_undo_lem undo fits) (
        rw size
          (rw some_value (rw version_slice (rw version_back (rw key_slice (rw value_slice refl))))))
