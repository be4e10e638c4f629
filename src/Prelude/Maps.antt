-- ===== src/Prelude/Maps.antt =====
-- Hash maps keyed by numbers, as association lists: `HashMap::{get, insert, remove}`.
use Prim.Native.Nat.{ℕ}
use mathlib.Core.Path.{◌≡◌, refl, sym, subst, ◌∙◌}
use mathlib.Core.Logic.{inl, inr}
use spectrum.Prelude.Lists.{All}
use mathlib.Core.List.{List, [], ◌∷◌}
use mathlib.Core.Option.{Option, none, some, none-ne-some, some-injective}
use native.Mathlib.Omega.{arith}
use spectrum.Prelude.Tests.{◌==◌, if◌then◌else◌, ==_refl, ==_iff, Bool-cases}

module _ {ℓ} {V : Type ℓ} where
  unfoldable pub lookup : ℕ → List (ℕ × V) → Option V
  lookup key [] = none
  lookup key (entry ∷ rest) = if entry.0 == key then some entry.1 else lookup key rest

  unfoldable pub insert : ℕ → V → List (ℕ × V) → List (ℕ × V)
  insert key new [] = (key, new) ∷ []
  insert key new (entry ∷ rest) =
      if entry.0 == key then (key, new) ∷ rest else entry ∷ insert key new rest

  unfoldable pub remove : ℕ → List (ℕ × V) → List (ℕ × V)
  remove key [] = []
  remove key (entry ∷ rest) = if entry.0 == key then remove key rest else entry ∷ remove key rest

  pub lookup-insert :
      (key other : ℕ) (new : V) (table : List (ℕ × V))
      → lookup other (insert key new table)
        ≡ (if key == other then some new else lookup other table)
  unfolding lookup insert
  lookup-insert key other new [] = refl
  lookup-insert key other new (entry ∷ rest) = ground (arith, lookup-insert key other new rest)

  pub lookup-remove :
      (key other : ℕ) (table : List (ℕ × V))
      → lookup other (remove key table) ≡ (if key == other then none else lookup other table)
  unfolding lookup remove
  lookup-remove key other [] = ground arith
  lookup-remove key other (entry ∷ rest) = ground (arith, lookup-remove key other rest)

  pub lookup-insert_self :
      (key : ℕ) (new : V) (table : List (ℕ × V)) → lookup key (insert key new table) ≡ some new
  lookup-insert_self key new table = rw (lookup-insert, ==_refl)

  pub lookup-remove_self : (key : ℕ) (table : List (ℕ × V)) → lookup key (remove key table) ≡ none
  lookup-remove_self key table = rw (lookup-remove, ==_refl)

  -- A predicate of the entries.
  pub All-lookup {κ} :
      (Q : ℕ × V → Type κ) (key : ℕ) (table : List (ℕ × V)) (v : V)
      → All Q table
      → lookup key table ≡ some v
      → Q (key, v)
  unfolding lookup
  All-lookup Q key [] v held found = absurd (none-ne-some v found)
  All-lookup Q key (entry ∷ rest) v held found = elim (Bool-cases (entry.0 == key)) [
    | inl same ↦
        subst (λ k. Q (k, v)) ((==_iff entry.0 key).0 same)
          (subst (λ u. Q (entry.0, u)) (some-injective entry.1 v (sym (rw same refl) ∙ found))
            held.0)
    | inr other ↦ All-lookup Q key rest v held.1 (sym (rw other refl) ∙ found)
  ]

  pub All-insert {κ} :
      (Q : ℕ × V → Type κ) (key : ℕ) (new : V) (table : List (ℕ × V))
      → All Q table
      → Q (key, new)
      → All Q (insert key new table)
  unfolding insert
  All-insert Q key new [] held fits = (fits, tt)
  All-insert Q key new (entry ∷ rest) held fits = elim (Bool-cases (entry.0 == key)) [
    | inl same ↦ rw same (fits, held.1)
    | inr other ↦ rw other (held.0, All-insert Q key new rest held.1 fits)
  ]

  pub All-remove {κ} :
      (Q : ℕ × V → Type κ) (key : ℕ) (table : List (ℕ × V)) → All Q table → All Q (remove key table)
  unfolding remove
  All-remove Q key [] held = tt
  All-remove Q key (entry ∷ rest) held = elim (Bool-cases (entry.0 == key)) [
    | inl same ↦ rw same (All-remove Q key rest held.1)
    | inr other ↦ rw other (held.0, All-remove Q key rest held.1)
  ]
