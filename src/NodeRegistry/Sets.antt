-- ===== src/NodeRegistry/Sets.antt =====
-- `set(xs) == set(ys)` in app/events/node_registry.py, and what is renewed.
use validation_node.Prelude.{true, List, [], ◌∷◌, ◌≡◌, ◌↔◌, refl, arith}
use validation_node.Prelude.Eq.{contains, ==_iff, ==_refl, nat_eq, list_eq}
use validation_node.Database.Schema.{Text}
use validation_node.NodeRegistry.{is_subset, same_set}

is_subset-contains :
    (xs ys : List Text) (a : Text)
    → is_subset xs ys ≡ true
    → contains xs a ≡ true
    → contains ys a ≡ true
unfolding is_subset
is_subset-contains [] ys a h m = ground arith
is_subset-contains (x ∷ xs) ys a h m = ground (arith, is_subset-contains xs ys a, ==_iff a x)

is_subset_of :
    (xs ys : List Text)
    → ((a : Text) → contains xs a ≡ true → contains ys a ≡ true)
    → is_subset xs ys ≡ true
unfolding is_subset
is_subset_of [] ys h = refl
is_subset_of (x ∷ xs) ys h =
    ground (arith, h x, ==_refl x, is_subset_of xs ys (λ a m. h a (ground (arith, m))))

-- The addresses are the same set, by the source's test, just when the same texts are in both lists:
-- order and repetitions are ignored.
pub same_set_iff :
    (xs ys : List Text) → (same_set xs ys ≡ true) ↔ ((a : Text) → contains xs a ≡ contains ys a)
unfolding same_set
same_set_iff xs ys = (forth, back)
  where
    forth : same_set xs ys ≡ true → (a : Text) → contains xs a ≡ contains ys a
    forth h a = ground (arith, h, is_subset-contains xs ys a, is_subset-contains ys xs a)

    back : ((a : Text) → contains xs a ≡ contains ys a) → same_set xs ys ≡ true
    back h = ground (
      arith,
      is_subset_of xs ys (λ a m. ground (arith, h a)),
      is_subset_of ys xs (λ a m. ground (arith, h a)),
    )
