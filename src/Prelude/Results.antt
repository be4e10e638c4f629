-- ===== src/Prelude/Results.antt =====
-- Results, and calls that may panic.
use mathlib.Core.Path.{◌≡◌, refl}
use mathlib.Core.Bool.{Bool, true, false}
use mathlib.Core.Option.{Option, none, some}
use mathlib.Core.List.{List, [], ◌∷◌}
use spectrum.Prelude.Tests.{if◌then◌else◌}

pub data Result {ℓ κ} (A : Type ℓ) (E : Type κ) : Type (ℓ ⊔ κ) where
  ok : A → Result A E
  err : E → Result A E

-- A call returns, or it panics: an index out of range, a division by zero, a failed assertion.
pub data Outcome {ℓ} (A : Type ℓ) : Type ℓ where
  returned : A → Outcome A
  panicked : Outcome A

infixl 5 ◌>>=◌
abbrev pub ◌>>=◌ {ℓ κ} : {A : Type ℓ} {B : Type κ} → Outcome A → (A → Outcome B) → Outcome B
returned a >>= f = f a
panicked >>= f = panicked

-- The call returns, and the predicate holds of the value.
abbrev pub Returns {ℓ} : {A : Type ℓ} → (A → Type 0) → Outcome A → Type 0
Returns P (returned a) = P a
Returns P panicked = ⊥

-- The predicate holds of the value if the call returns.
abbrev pub Yields {ℓ} : {A : Type ℓ} → (A → Type 0) → Outcome A → Type 0
Yields P (returned a) = P a
Yields P panicked = Unit

pub Yields-bind {ℓ κ} :
    {A : Type ℓ} {B : Type κ} (Mid : A → Type 0) (End : B → Type 0) (call : Outcome A)
    (rest : A → Outcome B)
    → Yields Mid call
    → ((a : A) → Mid a → Yields End (rest a))
    → Yields End (call >>= rest)
Yields-bind Mid End (returned a) rest mid after = after a mid
Yields-bind Mid End panicked rest mid after = tt

pub Yields-trivial {ℓ} : {A : Type ℓ} (m : Outcome A) → Yields (λ a. Unit {0}) m
Yields-trivial (returned a) = tt
Yields-trivial panicked = tt

pub Yields-if {ℓ} :
    {A : Type ℓ} (P : A → Type 0) (b : Bool) (m n : Outcome A)
    → Yields P m
    → Yields P n
    → Yields P (if b then m else n)
Yields-if P true m n h k = h
Yields-if P false m n h k = k

pub Yields-option {ℓ κ} :
    {A : Type ℓ} {B : Type κ} (P : B → Type 0) (o : Option A) (m : Outcome B) (f : A → Outcome B)
    → Yields P m
    → ((a : A) → o ≡ some a → Yields P (f a))
    → Yields P (elim o [ none ↦ m | some a ↦ f a ])
Yields-option P none m f h k = h
Yields-option P (some a) m f h k = k a refl

pub Yields-list {ℓ κ} :
    {A : Type ℓ} {B : Type κ} (P : B → Type 0) (xs : List A) (m : Outcome B)
    (f : A → List A → Outcome B)
    → Yields P m
    → ((x : A) (ys : List A) → xs ≡ x ∷ ys → Yields P (f x ys))
    → Yields P (elim xs [ [] ↦ m | x ∷ ys ↦ f x ys ])
Yields-list P [] m f h k = h
Yields-list P (x ∷ ys) m f h k = k x ys refl

-- Nothing is known of the first call.
pub Yields-after {ℓ κ} :
    {A : Type ℓ} {B : Type κ} (P : B → Type 0) (m : Outcome A) (f : A → Outcome B)
    → ((a : A) → Yields P (f a))
    → Yields P (m >>= f)
Yields-after P (returned a) f k = k a
Yields-after P panicked f k = tt

pub Yields-map {ℓ} :
    {A : Type ℓ} (P Q : A → Type 0) (m : Outcome A)
    → ((a : A) → P a → Q a)
    → Yields P m
    → Yields Q m
Yields-map P Q (returned a) k h = k a h
Yields-map P Q panicked k h = tt

pub Returns-bind {ℓ κ} :
    {A : Type ℓ} {B : Type κ} (Mid : A → Type 0) (End : B → Type 0) (call : Outcome A)
    (rest : A → Outcome B)
    → Returns Mid call
    → ((a : A) → Mid a → Returns End (rest a))
    → Returns End (call >>= rest)
Returns-bind Mid End (returned a) rest mid after = after a mid
Returns-bind Mid End panicked rest mid after = mid

-- `unwrap`, `expect` and an index.
abbrev pub unwrap {ℓ} : {A : Type ℓ} → Option A → Outcome A
unwrap none = panicked
unwrap (some a) = returned a
