-- ===== src/Algebra.antt =====
-- The combinator of algebra-core/src/combinators.rs. In each use of `collect` both types are one.
use spectrum.Prelude.{List, Option, [], none, some, ◌∷◌}

pub data EitherOrBoth {ℓ} (A B : Type ℓ) : Type ℓ where
  only_left : A → EitherOrBoth A B
  only_right : B → EitherOrBoth A B
  both_of : A → B → EitherOrBoth A B

module _ {ℓ} {A B : Type ℓ} where
  unfoldable pub swap : EitherOrBoth A B → EitherOrBoth B A
  swap (only_left a) = only_right a
  swap (only_right b) = only_left b
  swap (both_of a b) = both_of b a

  unfoldable pub left_of : EitherOrBoth A B → Option A
  left_of (only_left a) = some a
  left_of (only_right b) = none
  left_of (both_of a b) = some a

  unfoldable pub right_of : EitherOrBoth A B → Option B
  right_of (only_left a) = none
  right_of (only_right b) = some b
  right_of (both_of a b) = some b

  unfoldable pub both : EitherOrBoth A B → Option (A × B)
  both (only_left a) = none
  both (only_right b) = none
  both (both_of a b) = some (a, b)

  -- The error carries nothing.
  unfoldable pub try_from : Option A → Option B → Option (EitherOrBoth A B)
  try_from none none = none
  try_from none (some b) = some (only_right b)
  try_from (some a) none = some (only_left a)
  try_from (some a) (some b) = some (both_of a b)

unfoldable pub collect {ℓ} : {A : Type ℓ} → EitherOrBoth A A → List A
collect (only_left a) = a ∷ []
collect (only_right b) = b ∷ []
collect (both_of a b) = a ∷ b ∷ []
