-- ===== src/Database/Grouping/Groups.antt =====
-- The votes that `group_votes_by_representation` collects for each representation.
use mathlib.Core.List.{append_assoc}
use validation_node.Prelude.{
  List, [], ◌∷◌, ◌++◌, ◌≡◌, sym, ◌∙◌, arith, append-nil, if◌then◌else◌, Bool-cases, inl, inr,
}
use validation_node.Prelude.Eq.{Eq, ◌==◌, nat_eq, list_eq, pair_eq, HasNoRepeats, ==_iff}
use validation_node.Prelude.Dict.{Dict, keys, lookup-insert_self, lookup-insert_ne}
use validation_node.Prelude.Dict.Keys.{insert-HasNoRepeats}
use validation_node.Database.Schema.{Ident, Vote}
use validation_node.Database.Votes.{Repr, answers_representation}
use validation_node.Database.Grouping.{
  get_list_at, extend_at, add_groups, group_votes_by_representation,
}

-- The votes of the users whose first vote has the representation `r`, in order.
abbrev pub votes_with : Repr → Dict Ident (List Vote) → List Vote
votes_with r [] = []
votes_with r ((u, []) ∷ d) = votes_with r d
votes_with r ((u, v ∷ votes) ∷ d) =
    if r == answers_representation v then (v ∷ votes) ++ votes_with r d else votes_with r d

module _ {K A : Type 0} ⦃e : Eq K⦄ where
  pub get_list_at-extend_at :
      (k j : K) (xs : List A) (d : Dict K (List A))
      → get_list_at j (extend_at k xs d)
        ≡ (if j == k then get_list_at j d ++ xs else get_list_at j d)
  get_list_at-extend_at k j xs d = ground (
    arith,
    ==_iff j k,
    lookup-insert_self k (get_list_at k d ++ xs) d,
    lookup-insert_ne j k (get_list_at k d ++ xs) d,
  )

get_list_at-add_groups :
    (r : Repr) (groups : Dict Ident (List Vote)) (d : Dict Repr (List Vote))
    → get_list_at r (add_groups groups d) ≡ get_list_at r d ++ votes_with r groups
unfolding add_groups
get_list_at-add_groups r [] d = sym (append-nil (get_list_at r d))
get_list_at-add_groups r ((u, []) ∷ groups) d = get_list_at-add_groups r groups d
get_list_at-add_groups r ((u, v ∷ votes) ∷ groups) d =
    let key = answers_representation v in
    get_list_at-add_groups r groups (extend_at key (v ∷ votes) d) ∙ elim (Bool-cases (r == key)) [
      | inl same ↦
          rw (get_list_at-extend_at key r (v ∷ votes) d, same)
            (append_assoc (get_list_at r d) (v ∷ votes) (votes_with r groups))
      | inr other ↦ rw (get_list_at-extend_at key r (v ∷ votes) d, other)
    ]

add_groups-HasNoRepeats :
    (groups : Dict Ident (List Vote)) (d : Dict Repr (List Vote))
    → HasNoRepeats (keys d)
    → HasNoRepeats (keys (add_groups groups d))
unfolding add_groups
add_groups-HasNoRepeats [] d h = h
add_groups-HasNoRepeats ((u, []) ∷ groups) d h = add_groups-HasNoRepeats groups d h
add_groups-HasNoRepeats ((u, v ∷ votes) ∷ groups) d h =
    add_groups-HasNoRepeats groups _ (insert-HasNoRepeats (answers_representation v) _ d h)

pub group_votes-HasNoRepeats :
    (d : Dict Ident (List Vote)) → HasNoRepeats (keys (group_votes_by_representation d))
unfolding group_votes_by_representation
group_votes-HasNoRepeats d = add_groups-HasNoRepeats d [] tt

-- The group of a representation holds the votes of the users whose first vote has it.
pub get_list_at-group_votes :
    (r : Repr) (d : Dict Ident (List Vote))
    → get_list_at r (group_votes_by_representation d) ≡ votes_with r d
unfolding group_votes_by_representation
get_list_at-group_votes r d = get_list_at-add_groups r d []
