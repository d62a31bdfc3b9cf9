-- ===== src/Consensus/Choice/Users.antt =====
-- The users in consensus are those whose vote has the winning representation.
use validation_node.Prelude.{
  true, false, some, List, [], ◌∷◌, ◌≡◌, refl, ap, ◌∙◌, arith, map, ◌&&◌, ◌||◌, if◌then◌else◌,
  Bool-cases, inl, inr, All,
}
use mathlib.Core.List.{map-append}
use validation_node.Prelude.Eq.{◌==◌, nat_eq, list_eq, pair_eq, contains, ==_iff}
use validation_node.Prelude.Dict.{Dict, keys, lookup}
use validation_node.Database.Schema.{Ident, Vote, distinct}
use validation_node.Database.Sets.{contains-append, contains-distinct}
use validation_node.Database.Votes.{Repr, answers_representation}
use validation_node.Database.Grouping.Groups.{votes_with}
use validation_node.Database.Grouping.WellFormed.{IsOwn, IsEntry, IsGrouped}
use validation_node.Consensus.Choice.{user_of, restrict}

-- The entries whose first vote has the representation `r`.
abbrev pub with_repr : Repr → Dict Ident (List Vote) → Dict Ident (List Vote)
with_repr r [] = []
with_repr r ((u, []) ∷ d) = with_repr r d
with_repr r ((u, v ∷ vs) ∷ d) =
    if r == answers_representation v then (u, v ∷ vs) ∷ with_repr r d else with_repr r d

abbrev users_with : Repr → Dict Ident (List Vote) → List Ident
users_with r d = map user_of (votes_with r d)

own_users :
    (w u : Ident) (v : Vote) (vs : List Vote)
    → All (IsOwn w) (v ∷ vs)
    → contains (map user_of (v ∷ vs)) u ≡ (u == w)
own_users w u v [] h = ground arith
own_users w u v (x ∷ vs) h = ground (arith, own_users w u x vs h.1)

contains_users-cons :
    (r : Repr) (w u : Ident) (v : Vote) (vs : List Vote) (d : Dict Ident (List Vote))
    → All (IsOwn w) (v ∷ vs)
    → contains (users_with r ((w, v ∷ vs) ∷ d)) u
      ≡ (((r == answers_representation v) && (u == w)) || contains (users_with r d) u)
contains_users-cons r w u v vs d h = elim (Bool-cases (r == answers_representation v)) [
  | inl same ↦ rw same (
      ap (λ (us : List Ident). contains us u) (map-append user_of (v ∷ vs) (votes_with r d))
      ∙ contains-append (map user_of (v ∷ vs)) (users_with r d) u
      ∙ ap (λ b. b || contains (users_with r d) u) (own_users w u v vs h))
  | inr other ↦ rw other
]

-- Only a user that is a key has a vote in the groups.
users_are_keys :
    (r : Repr) (d : Dict Ident (List Vote)) (u : Ident)
    → All IsEntry d
    → contains (keys d) u ≡ false
    → contains (users_with r d) u ≡ false
users_are_keys r [] u h k = refl
users_are_keys r ((w, []) ∷ d) u h k = absurd (omega arith)
users_are_keys r ((w, v ∷ vs) ∷ d) u h k =
    contains_users-cons r w u v vs d h.0.1 ∙ ground (arith, users_are_keys r d u h.1)

agree_later :
    (r : Repr) (w : Ident) (v : Vote) (vs : List Vote) (d : Dict Ident (List Vote))
    (us : List Ident)
    → IsGrouped ((w, v ∷ vs) ∷ d)
    → ((u : Ident)
        → contains (keys ((w, v ∷ vs) ∷ d)) u ≡ true
        → contains us u ≡ contains (users_with r ((w, v ∷ vs) ∷ d)) u)
    → (u : Ident) → contains (keys d) u ≡ true
    → contains us u ≡ contains (users_with r d) u
agree_later r w v vs d us h agree u k = elim (Bool-cases (u == w)) [
  | inl same ↦ absurd (cc (ap (contains (keys d)) ((==_iff u w).0 same)))
  | inr other ↦ ground (arith, agree u, contains_users-cons r w u v vs d h.1.0.1)
]

-- To restrict to users who agree with those of the winning votes is to keep the winning entries.
restrict-eq-with_repr :
    (us : List Ident) (r : Repr) (d : Dict Ident (List Vote))
    → IsGrouped d
    → ((u : Ident) → contains (keys d) u ≡ true → contains us u ≡ contains (users_with r d) u)
    → restrict us d ≡ with_repr r d
unfolding restrict
restrict-eq-with_repr us r [] h agree = refl
restrict-eq-with_repr us r ((w, []) ∷ d) h agree = absurd (omega arith)
restrict-eq-with_repr us r ((w, v ∷ vs) ∷ d) h agree = ground (
  arith,
  agree w,
  contains_users-cons r w w v vs d h.1.0.1,
  users_are_keys r d w h.1.1 h.0.0,
  restrict-eq-with_repr us r d (h.0.1, h.1.1) (agree_later r w v vs d us h agree),
)

-- The entries of the users whose votes form the winning group.
pub restrict-users :
    (r : Repr) (d : Dict Ident (List Vote))
    → IsGrouped d
    → restrict (distinct (map user_of (votes_with r d))) d ≡ with_repr r d
restrict-users r d h =
    restrict-eq-with_repr (distinct (users_with r d)) r d h
      (λ u _. contains-distinct (users_with r d) u)

-- The first vote of a user in the winning group has its representation.
pub first_vote_wins :
    (r : Repr) (d : Dict Ident (List Vote)) (u : Ident) (x : Vote) (xs : List Vote)
    → IsGrouped d
    → contains (map user_of (votes_with r d)) u ≡ true
    → lookup u d ≡ some (x ∷ xs)
    → answers_representation x ≡ r
first_vote_wins r [] u x xs h m e = cc
first_vote_wins r ((w, []) ∷ d) u x xs h m e = absurd (omega arith)
first_vote_wins r ((w, v ∷ vs) ∷ d) u x xs h m e = elim (Bool-cases (u == w)) [
  | inl same ↦ ground (
    arith,
    ==_iff u w,
    ==_iff r (answers_representation v),
    contains_users-cons r w u v vs d h.1.0.1,
    users_are_keys r d u h.1.1 (ap (contains (keys d)) ((==_iff u w).0 same) ∙ h.0.0),
  )
  | inr other ↦
      first_vote_wins r d u x xs (h.0.1, h.1.1)
        (ground (arith, contains_users-cons r w u v vs d h.1.0.1)) (ground arith)
]

-- Such a user is a key, with a vote or more.
pub winner-lookup :
    (r : Repr) (d : Dict Ident (List Vote)) (u : Ident)
    → IsGrouped d
    → contains (map user_of (votes_with r d)) u ≡ true
    → (x : Vote) × (xs : List Vote) × (lookup u d ≡ some (x ∷ xs))
winner-lookup r [] u h m = absurd (cc)
winner-lookup r ((w, []) ∷ d) u h m = absurd (omega arith)
winner-lookup r ((w, v ∷ vs) ∷ d) u h m = elim (Bool-cases (u == w)) [
  | inl same ↦ (v, vs, ground arith)
  | inr other ↦
      let (x, xs, found) =
        winner-lookup r d u (h.0.1, h.1.1)
          (ground (arith, contains_users-cons r w u v vs d h.1.0.1)) in
      (x, xs, ground arith)
]
