-- ===== src/Prelude/Dict.antt =====
-- A Python `dict`: an association list in insertion order, with the program's uses of it. Also the
-- tables of the database, which are never enumerated, as functions.
pub mod Keys
use mathlib.Core.Path.{◌≡◌}
use mathlib.Core.Logic.{◌≢◌}
use mathlib.Core.Bool.{Bool}
use mathlib.Core.Option.{Option, none, some}
use mathlib.Core.List.{List, [], ◌∷◌}
use native.Mathlib.Omega.{arith}
use validation_node.Prelude.Tests.{if◌then◌else◌}
use validation_node.Prelude.Eq.{Eq, ◌==◌, contains, ==_iff, ==_refl}

abbrev pub Dict {ℓ} : Type ℓ → Type ℓ → Type ℓ
Dict K V = List (K × V)

module _ {ℓ} {K V : Type ℓ} where
  abbrev pub keys : Dict K V → List K
  keys [] = []
  keys ((k, v) ∷ d) = k ∷ keys d

  abbrev pub values : Dict K V → List V
  values [] = []
  values ((k, v) ∷ d) = v ∷ values d

module _ {ℓ} {K V : Type ℓ} ⦃e : Eq K⦄ where
  abbrev pub lookup : K → Dict K V → Option V
  lookup k [] = none
  lookup k ((j, v) ∷ d) = if k == j then some v else lookup k d

  -- `k in d`
  abbrev pub has_key : K → Dict K V → Bool
  has_key k d = contains (keys d) k

  -- `d[k] = v`: a new key goes to the end, an old one keeps its place
  abbrev pub insert : K → V → Dict K V → Dict K V
  insert k v [] = (k, v) ∷ []
  insert k v ((j, w) ∷ d) = if k == j then (j, v) ∷ d else (j, w) ∷ insert k v d

  -- `del d[k]`
  abbrev pub erase : K → Dict K V → Dict K V
  erase k [] = []
  erase k ((j, w) ∷ d) = if k == j then d else (j, w) ∷ erase k d

  pub lookup-insert_self : (k : K) (v : V) (d : Dict K V) → lookup k (insert k v d) ≡ some v
  lookup-insert_self k v [] = ground (arith, ==_refl k)
  lookup-insert_self k v ((j, w) ∷ d) = ground (arith, lookup-insert_self k v d)

  pub lookup-insert_ne :
      (i k : K) (v : V) (d : Dict K V) → i ≢ k → lookup i (insert k v d) ≡ lookup i d
  lookup-insert_ne i k v [] h = ground (arith, ==_iff i k)
  lookup-insert_ne i k v ((j, w) ∷ d) h =
      ground (arith, lookup-insert_ne i k v d h, ==_iff i k, ==_iff i j, ==_iff k j)

-- A table of the database, by key; nothing is stored at a key that was never set.
abbrev pub Table {ℓ} : Type ℓ → Type ℓ → Type ℓ
Table K V = K → V

module _ {ℓ} {K V : Type ℓ} ⦃e : Eq K⦄ where
  abbrev pub update : K → V → Table K V → Table K V
  update k v t j = if j == k then v else t j

  pub update_self : (k : K) (v : V) (t : Table K V) → update k v t k ≡ v
  update_self k v t = ground (arith, ==_refl k)

  pub update_ne : (j k : K) (v : V) (t : Table K V) → j ≢ k → update k v t j ≡ t j
  update_ne j k v t h = ground (arith, ==_iff j k)
