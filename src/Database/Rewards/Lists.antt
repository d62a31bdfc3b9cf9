-- ===== src/Database/Rewards/Lists.antt =====
-- The lists that the contract takes hold what the dictionary of rewards holds.
use validation_node.Prelude.{
  false, some, List, [], ◌∷◌, ◌++◌, ◌≡◌, refl, arith, map, All, append-nil, ◌∙◌, ap, sym,
}
use mathlib.Core.List.{append_assoc}
use validation_node.Prelude.Eq.{contains, nat_eq, HasNoRepeats, ==_refl, ==_iff}
use validation_node.Prelude.Dict.{Dict, keys, values, lookup, insert}
use validation_node.Prelude.Dict.Keys.{contains-keys-insert}
use validation_node.Prelude.Int.{ℤ}
use validation_node.Database.Schema.{Ident, Reward, ok}
use validation_node.Database.Rewards.{
  look_up_all, transform_dict_to_lists, zip_onto, transform_lists_to_dict, reward_dict,
}

abbrev Rewards : Type 0
Rewards = Dict Ident Reward

abbrev pub eth_of : Reward → ℤ
eth_of r = r.eth

abbrev pub token_of : Reward → ℤ
token_of r = r.token

-- The entries of `s` are found in `d`.
abbrev pub IsFound : Rewards → Rewards → Type 0
IsFound d s = All (λ e. lookup e.0 d ≡ some e.1) s

IsFound-later :
    (u : Ident) (r : Reward) (d s : Rewards)
    → contains (keys s) u ≡ false
    → IsFound d s
    → IsFound ((u, r) ∷ d) s
IsFound-later u r d [] h f = tt
IsFound-later u r d ((v, q) ∷ s) h f =
    (ground (arith, f.0, ==_iff v u, ==_iff u v), IsFound-later u r d s (ground arith) f.1)

pub IsFound-itself : (d : Rewards) → HasNoRepeats (keys d) → IsFound d d
IsFound-itself [] h = tt
IsFound-itself ((u, r) ∷ d) h =
    (ground (arith, ==_refl u), IsFound-later u r d d h.0 (IsFound-itself d h.1))

look_up_found :
    (d s : Rewards)
    → IsFound d s
    → look_up_all d (keys s) ≡ ok (map eth_of (values s), map token_of (values s))
unfolding look_up_all
look_up_found d [] f = refl
look_up_found d ((u, r) ∷ s) f = ground (arith, f.0, look_up_found d s f.1)

-- No user of `s` has an entry in `acc`.
abbrev IsFresh : Rewards → Rewards → Type 0
IsFresh acc s = All (λ e. contains (keys acc) e.0 ≡ false) s

IsFresh-after :
    (u : Ident) (r : Reward) (acc s : Rewards)
    → contains (keys s) u ≡ false
    → IsFresh acc s
    → IsFresh (insert u r acc) s
IsFresh-after u r acc [] h f = tt
IsFresh-after u r acc ((v, q) ∷ s) h f = (
  ground (arith, f.0, contains-keys-insert u r acc v, ==_iff v u, ==_iff u v),
  IsFresh-after u r acc s (ground arith) f.1,
)

insert-fresh :
    (u : Ident) (r : Reward) (acc : Rewards)
    → contains (keys acc) u ≡ false
    → insert u r acc ≡ acc ++ (u, r) ∷ []
insert-fresh u r [] h = refl
insert-fresh u r ((v, q) ∷ acc) h = ground (arith, insert-fresh u r acc)

zip_onto-eq-append :
    (acc s : Rewards)
    → HasNoRepeats (keys s)
    → IsFresh acc s
    → zip_onto acc (keys s) (map eth_of (values s)) (map token_of (values s)) ≡ acc ++ s
unfolding zip_onto reward_dict
zip_onto-eq-append acc [] h f = sym (append-nil acc)
zip_onto-eq-append acc ((u, r) ∷ s) h f =
    zip_onto-eq-append (insert u r acc) s h.1 (IsFresh-after u r acc s h.0 f.1)
    ∙ ap (λ a. a ++ s) (insert-fresh u r acc f.0)
    ∙ append_assoc acc ((u, r) ∷ []) s

IsFresh-start : (s : Rewards) → IsFresh [] s
IsFresh-start [] = tt
IsFresh-start (e ∷ s) = (refl, IsFresh-start s)

pub transform_lists-eq :
    (d : Rewards)
    → HasNoRepeats (keys d)
    → transform_lists_to_dict (keys d) (map eth_of (values d)) (map token_of (values d)) ≡ d
unfolding transform_lists_to_dict
transform_lists-eq d h = zip_onto-eq-append [] d h (IsFresh-start d)

pub transform_dict-eq :
    (d : Dict Ident Reward)
    → HasNoRepeats (keys d)
    → transform_dict_to_lists (some d) ≡ ok (keys d, map eth_of (values d), map token_of (values d))
unfolding transform_dict_to_lists
transform_dict-eq d h = rw (look_up_found d d (IsFound-itself d h)) refl

-- A dictionary without repeated users becomes lists without an error, and `transform_lists_to_dict`
-- makes the same dictionary of them, in the same order.
pub transform_lists-transform_dict :
    (d : Dict Ident Reward)
    → HasNoRepeats (keys d)
    → (us : List Ident) × (es : List ℤ) × (ts : List ℤ) × (transform_dict_to_lists (some d)
        ≡ ok (us, es, ts))
      × (us ≡ keys d)
      × (transform_lists_to_dict us es ts ≡ d)
transform_lists-transform_dict d h = (
  keys d,
  map eth_of (values d),
  map token_of (values d),
  transform_dict-eq d h,
  refl,
  transform_lists-eq d h,
)
