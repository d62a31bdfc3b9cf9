-- ===== src/Prelude/Dict/Keys.antt =====
-- The keys of a dictionary: they are distinct, and the operations keep them so.
use mathlib.Core.Path.{◌≡◌, refl}
use mathlib.Core.Bool.{true, false, ◌||◌}
use mathlib.Core.Option.{none, some}
use mathlib.Core.List.{[], ◌∷◌}
use mathlib.Core.Logic.{◌≢◌, inl, inr}
use validation_node.Prelude.Tests.{Bool-cases}
use native.Mathlib.Omega.{arith}
use validation_node.Prelude.Eq.{Eq, ◌==◌, contains, ==_iff, HasNoRepeats}
use validation_node.Prelude.Dict.{Dict, keys, lookup, insert, erase}

module _ {ℓ} {K V : Type ℓ} ⦃e : Eq K⦄ where
  pub contains-keys-insert :
      (k : K) (v : V) (d : Dict K V) (a : K)
      → contains (keys (insert k v d)) a ≡ (a == k || contains (keys d) a)
  contains-keys-insert k v [] a = refl
  contains-keys-insert k v ((j, w) ∷ d) a =
      ground (arith, contains-keys-insert k v d a, ==_iff k j, ==_iff a k, ==_iff a j)

  pub insert-HasNoRepeats :
      (k : K) (v : V) (d : Dict K V) → HasNoRepeats (keys d) → HasNoRepeats (keys (insert k v d))
  insert-HasNoRepeats k v [] h = (refl, tt)
  insert-HasNoRepeats k v ((j, w) ∷ d) h =
      ground
        (arith, insert-HasNoRepeats k v d h.1, contains-keys-insert k v d j, ==_iff k j, ==_iff j k)

  pub contains-keys-erase_of :
      (k : K) (d : Dict K V) (a : K)
      → contains (keys d) a ≡ false
      → contains (keys (erase k d)) a ≡ false
  contains-keys-erase_of k [] a h = h
  contains-keys-erase_of k ((j, w) ∷ d) a h = ground (arith, contains-keys-erase_of k d a)

  pub erase-HasNoRepeats :
      (k : K) (d : Dict K V) → HasNoRepeats (keys d) → HasNoRepeats (keys (erase k d))
  erase-HasNoRepeats k [] h = tt
  erase-HasNoRepeats k ((j, w) ∷ d) h =
      ground (arith, erase-HasNoRepeats k d h.1, contains-keys-erase_of k d j h.0)

  pub contains_of_lookup :
      (k : K) (v : V) (d : Dict K V) → lookup k d ≡ some v → contains (keys d) k ≡ true
  contains_of_lookup k v [] h = cc
  contains_of_lookup k v ((j, w) ∷ d) h = ground (arith, contains_of_lookup k v d)

  pub lookup_of_contains :
      (k : K) (d : Dict K V) → contains (keys d) k ≡ true → (v : V) × (lookup k d ≡ some v)
  lookup_of_contains k [] h = cc
  lookup_of_contains k ((j, w) ∷ d) h = elim (Bool-cases (k == j)) [
    | inl here ↦ (w, ground arith)
    | inr there ↦ let (v, found) = lookup_of_contains k d (ground arith) in (v, ground arith)
  ]

  pub lookup_absent : (k : K) (d : Dict K V) → contains (keys d) k ≡ false → lookup k d ≡ none
  lookup_absent k [] h = refl
  lookup_absent k ((j, w) ∷ d) h = ground (arith, lookup_absent k d)

  pub lookup-erase_self :
      (k : K) (d : Dict K V) → HasNoRepeats (keys d) → lookup k (erase k d) ≡ none
  lookup-erase_self k [] h = refl
  lookup-erase_self k ((j, w) ∷ d) h =
      ground (arith, lookup-erase_self k d h.1, ==_iff k j, lookup_absent k d)

  pub lookup-erase_ne : (i k : K) (d : Dict K V) → i ≢ k → lookup i (erase k d) ≡ lookup i d
  lookup-erase_ne i k [] h = refl
  lookup-erase_ne i k ((j, w) ∷ d) h =
      ground (arith, lookup-erase_ne i k d h, ==_iff k j, ==_iff i j)
