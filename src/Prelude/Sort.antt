-- ===== src/Prelude/Sort.antt =====
-- Python's `sorted` with a key: a stable sort, here by insertion, over a Boolean order on keys.
use mathlib.Core.List.{List, [], ◌∷◌}
use mathlib.Core.Bool.{Bool}
use validation_node.Prelude.Tests.{if◌then◌else◌}

module _ {ℓ κ} {A : Type ℓ} {K : Type κ} (le : K → K → Bool) (key : A → K) where
  -- Before the first element with a key that is not smaller, so that equal keys keep their order.
  unfoldable pub insert_by : A → List A → List A
  insert_by x [] = x ∷ []
  insert_by x (y ∷ ys) = if le (key x) (key y) then x ∷ y ∷ ys else y ∷ insert_by x ys

  unfoldable pub sorted : List A → List A
  unfolding insert_by
  sorted [] = []
  sorted (x ∷ xs) = insert_by x (sorted xs)
