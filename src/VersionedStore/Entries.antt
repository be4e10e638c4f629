-- ===== src/VersionedStore/Entries.antt =====
-- The undo entries that an update of spectrum-view/src/versioned_avl_storage/versioned_storage.rs
-- writes, and how `rollback_to` finds them.
use spectrum.Prelude.{
  All, All-append, Bytes, List, [], ap, append-nil, append_assoc, arith, false, leb, length, ltb,
  refl, reverse, reverse-append, reverse-cons, reverse-reverse, some, suc, sym, true, ℕ, ◌++◌, ◌+◌,
  ◌<◌, ◌==◌, ◌∙◌, ◌∷◌, ◌≡◌, ◌≤◌,
}
use spectrum.VersionedStore.Store.{put_entry, seek_back}
use spectrum.VersionedStore.Undo.{VersionOps}

-- The keys and old values that an update noted, the newest first.
abbrev pub Noted : Type 0
Noted = List (Bytes × Bytes)

abbrev pub Below : ℕ → List (ℕ × Bytes) → Type 0
Below bound entries = All (λ (entry : ℕ × Bytes). entry.0 ≤ bound) entries

Below-mono : (a b : ℕ) (entries : List (ℕ × Bytes)) → a ≤ b → Below a entries → Below b entries
Below-mono a b [] le below = tt
Below-mono a b (entry ∷ entries) le below =
    (omega (arith, below.0), Below-mono a b entries le below.1)

put_entry-last :
    (lsn : ℕ) (bytes : Bytes) (entries : List (ℕ × Bytes)) (bound : ℕ)
    → bound < lsn
    → Below bound entries
    → put_entry lsn bytes entries ≡ entries ++ (lsn, bytes) ∷ []
unfolding put_entry
put_entry-last lsn bytes [] bound high below = refl
put_entry-last lsn bytes (entry ∷ entries) bound high below =
    let other : (entry.0 == lsn) ≡ false = ground (arith, below.0) in
    let later : ltb lsn entry.0 ≡ false = ground (arith, below.0) in
    rw other (rw later (ap (λ s. entry ∷ s) (put_entry-last lsn bytes entries bound high below.1)))

seek_back-last :
    (lsn : ℕ) (entries passed : List (ℕ × Bytes)) (newest : ℕ × Bytes) (bound : ℕ)
    → bound < lsn
    → Below bound entries
    → newest.0 ≡ lsn
    → seek_back lsn passed (entries ++ newest ∷ []) ≡ some (newest ∷ (reverse entries ++ passed))
unfolding seek_back
seek_back-last lsn [] passed newest bound high below at =
    let reached : leb lsn newest.0 ≡ true = ground (arith, at) in rw (reached, seek_back) refl
seek_back-last lsn (entry ∷ entries) passed newest bound high below at =
    let earlier : leb lsn entry.0 ≡ false = ground (arith, below.0) in
    rw (earlier, seek_back)
      (seek_back-last lsn entries (entry ∷ passed) newest bound high below.1 at
        ∙ ap (λ s. some (newest ∷ s))
            (rw (reverse-cons entry entries)
              (sym (append_assoc (reverse entries) (entry ∷ []) passed))))

module _ {T : Type 0} (ops : VersionOps T) (version_id : T) where
  abbrev pub bytes_of : Bytes × Bytes → Bytes
  bytes_of e = length (ops.into version_id) ∷ length e.0 ∷ (ops.into version_id ++ (e.0 ++ e.1))

  -- The entries of what was noted after the number `start_lsn`, the newest first.
  unfoldable pub entries_down : ℕ → Noted → List (ℕ × Bytes)
  entries_down start_lsn [] = []
  entries_down start_lsn (e ∷ es) =
      (start_lsn + length es + 1, bytes_of e) ∷ entries_down start_lsn es

  entries_down-Below :
      (start_lsn : ℕ) (es : Noted) → Below (start_lsn + length es) (entries_down start_lsn es)
  unfolding entries_down
  entries_down-Below start_lsn [] = tt
  entries_down-Below start_lsn (e ∷ es) = (
    omega arith,
    Below-mono (start_lsn + length es) (start_lsn + suc (length es)) (entries_down start_lsn es)
        (omega arith) (entries_down-Below start_lsn es),
  )

  Below-reverse :
      (bound : ℕ) (entries : List (ℕ × Bytes)) → Below bound entries → Below bound (reverse entries)
  Below-reverse bound [] below = tt
  Below-reverse bound (entry ∷ entries) below = rw (reverse-cons entry entries) (
      All-append _ (reverse entries) (entry ∷ []) (Below-reverse bound entries below.1)
        (below.0, tt))

  pub all-Below :
      (start_lsn : ℕ) (es : Noted) (undos : List (ℕ × Bytes))
      → Below start_lsn undos
      → Below (start_lsn + length es) (undos ++ reverse (entries_down start_lsn es))
  all-Below start_lsn es undos below =
      All-append _ undos (reverse (entries_down start_lsn es))
        (Below-mono start_lsn (start_lsn + length es) undos (omega arith) below)
        (Below-reverse (start_lsn + length es) (entries_down start_lsn es)
          (entries_down-Below start_lsn es))

  -- One more entry.
  pub put_entry_lem :
      (start_lsn : ℕ) (e : Bytes × Bytes) (es : Noted) (undos : List (ℕ × Bytes))
      → Below start_lsn undos
      → put_entry
          (start_lsn + length es + 1)
          (bytes_of e)
          (undos ++ reverse (entries_down start_lsn es))
        ≡ undos ++ reverse (entries_down start_lsn (e ∷ es))
  unfolding entries_down
  put_entry_lem start_lsn e es undos below =
      put_entry-last (start_lsn + length es + 1) (bytes_of e)
        (undos ++ reverse (entries_down start_lsn es)) (start_lsn + length es) (omega arith)
        (all-Below start_lsn es undos below)
      ∙ append_assoc undos (reverse (entries_down start_lsn es))
          ((start_lsn + length es + 1, bytes_of e) ∷ [])
      ∙ ap (λ s. undos ++ s)
          (sym (reverse-cons (start_lsn + length es + 1, bytes_of e) (entries_down start_lsn es)))

  -- From the newest entry, all are found backwards.
  pub seek_back_lem :
      (start_lsn : ℕ) (e : Bytes × Bytes) (es : Noted) (undos : List (ℕ × Bytes))
      → Below start_lsn undos
      → seek_back
          (start_lsn + length (e ∷ es))
          []
          (undos ++ reverse (entries_down start_lsn (e ∷ es)))
        ≡ some (entries_down start_lsn (e ∷ es) ++ reverse undos)
  seek_back_lem start_lsn e es undos below =
      let down = entries_down start_lsn es in
      let x : ℕ × Bytes = (start_lsn + length es + 1, bytes_of e) in
      let spread : undos ++ reverse (entries_down start_lsn (e ∷ es))
          ≡ (undos ++ reverse down) ++ x ∷ [] =
        unfold entries_down in
        ap (λ s. undos ++ s) (reverse-cons x down)
        ∙ sym (append_assoc undos (reverse down) (x ∷ [])) in
      let back : reverse (undos ++ reverse down) ++ [] ≡ down ++ reverse undos =
        append-nil (reverse (undos ++ reverse down))
        ∙ reverse-append undos (reverse down)
        ∙ ap (λ s. s ++ reverse undos) (reverse-reverse down) in
      rw spread (
        seek_back-last (start_lsn + length (e ∷ es)) (undos ++ reverse down) [] x
          (start_lsn + length es) (omega arith) (all-Below start_lsn es undos below) (omega arith)
        ∙ ap (λ s. some (x ∷ s)) back
        ∙ unfold entries_down in refl)
