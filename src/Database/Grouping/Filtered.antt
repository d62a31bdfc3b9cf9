-- ===== src/Database/Grouping/Filtered.antt =====
-- `filter_votes_by_users` keeps the users that pass its tests, and the groups stay well formed.
use validation_node.Prelude.{
  ℕ, ◌≤◌, Bool, true, false, not, ◌&&◌, ◌||◌, Option, none, some, List, [], ◌∷◌, ◌≡◌, refl, arith,
  length, map, head?, leb, eqb, if◌then◌else◌, length-append,
}
use validation_node.Prelude.Eq.{
  Eq, ◌==◌, option_eq, nat_eq, list_eq, pair_eq, contains, HasNoRepeats,
}
use validation_node.Prelude.Dict.{Dict, keys, erase}
use validation_node.Database.Schema.{Ident, Vote, sadd, distinct, distinct_onto}
use validation_node.Database.Votes.{answers_representation}
use validation_node.Database.Grouping.{is_filtered_out, filter_loop, filter_votes_by_users}

-- The specification: the votes of a user pass if there are neither too few nor too many, if they are all for the
-- same answers where that is asked, and if the first is for the given answers where some are given.
abbrev pub all_are : {A : Type 0} ⦃e : Eq A⦄ → A → List A → Bool
all_are x [] = true
all_are x (y ∷ ys) = y == x && all_are x ys

abbrev pub all_same : {A : Type 0} ⦃e : Eq A⦄ → List A → Bool
all_same [] = false
all_same (x ∷ xs) = all_are x xs

abbrev pub first_is_for : Option Vote → List Vote → Bool
first_is_for none vs = true
first_is_for (some v) [] = false
first_is_for (some v) (w ∷ vs) = answers_representation w == answers_representation v

abbrev pub passes : ℕ → ℕ → Bool → Option Vote → List Vote → Bool
passes lo hi unique by vs =
    (leb lo (length vs) && leb (length vs) hi)
    && ((not unique || all_same (map answers_representation vs)) && first_is_for by vs)

-- The entries that pass, in order.
abbrev pub kept : ℕ → ℕ → Bool → Option Vote → Dict Ident (List Vote) → Dict Ident (List Vote)
kept lo hi unique by [] = []
kept lo hi unique by ((u, vs) ∷ d) =
    if passes lo hi unique by vs then (u, vs) ∷ kept lo hi unique by d else kept lo hi unique by d

module _ {A : Type 0} ⦃e : Eq A⦄ where
  length-distinct_onto : (acc xs : List A) → length acc ≤ length (distinct_onto acc xs)
  length-distinct_onto acc [] = omega arith
  length-distinct_onto acc (x ∷ xs) =
      ground (arith, length-distinct_onto (sadd x acc) xs, length-append acc (x ∷ []))

  one-distinct_onto :
      (x : A) (xs : List A) → eqb (length (distinct_onto (x ∷ []) xs)) 1 ≡ all_are x xs
  one-distinct_onto x [] = refl
  one-distinct_onto x (y ∷ ys) =
      ground (arith, one-distinct_onto x ys, length-distinct_onto (x ∷ y ∷ []) ys)

  -- There is one representation exactly if all are the same.
  one-distinct : (xs : List A) → eqb (length (distinct xs)) 1 ≡ all_same xs
  one-distinct [] = refl
  one-distinct (x ∷ xs) = one-distinct_onto x xs

first-is_for :
    (by : Vote) (vs : List Vote)
    → (head? (map answers_representation vs) == some (answers_representation by))
      ≡ first_is_for (some by) vs
first-is_for by [] = refl
first-is_for by (v ∷ vs) = refl

is_filtered_out-passes :
    (lo hi : ℕ) (unique : Bool) (by : Option Vote) (vs : List Vote)
    → is_filtered_out lo hi unique by vs ≡ not (passes lo hi unique by vs)
unfolding is_filtered_out
is_filtered_out-passes lo hi unique none vs =
    ground (arith, one-distinct (map answers_representation vs))
is_filtered_out-passes lo hi unique (some v) vs =
    ground (arith, one-distinct (map answers_representation vs), first-is_for v vs)

module _ (lo hi : ℕ) (unique : Bool) (by : Option Vote) where
  -- The loop leaves entries alone whose users it does not visit.
  filter_loop-cons :
      (us : List Ident) (u : Ident) (vs : List Vote) (d : Dict Ident (List Vote))
      → contains us u ≡ false
      → filter_loop lo hi unique by us ((u, vs) ∷ d) ≡ (u, vs) ∷ filter_loop lo hi unique by us d
  unfolding filter_loop
  filter_loop-cons [] u vs d h = refl
  filter_loop-cons (x ∷ us) u vs d h =
      ground (arith, filter_loop-cons us u vs d, filter_loop-cons us u vs (erase x d))

  -- Of a dictionary without repeated users, the loop over the keys with its deletions keeps exactly the users
  -- whose votes pass, with all their votes and in their order.
  pub filter_votes-eq-kept :
      (d : Dict Ident (List Vote))
      → HasNoRepeats (keys d)
      → filter_votes_by_users d lo hi unique by ≡ kept lo hi unique by d
  unfolding filter_votes_by_users filter_loop
  filter_votes-eq-kept [] h = refl
  filter_votes-eq-kept ((u, vs) ∷ d) h = ground (
    arith,
    filter_votes-eq-kept d h.1,
    filter_loop-cons (keys d) u vs d h.0,
    is_filtered_out-passes lo hi unique by vs,
  )
