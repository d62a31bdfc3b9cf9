-- ===== src/Database/Grouping.antt =====
-- Votes grouped by user and by representation, and the filters on the groups (`class Vote` and
-- `VerityEvent.votes` of app/database/database.py).
pub mod Filtered
pub mod Groups
pub mod WellFormed
use validation_node.Prelude.{
  ℕ, Bool, true, false, not, Option, none, some, List, [], ◌∷◌, ◌++◌, map, length, head?, ltb, eqb,
  ◌&&◌, ◌||◌, if◌then◌else◌,
}
use validation_node.Prelude.Eq.{Eq, ◌==◌, nat_eq, list_eq, pair_eq, option_eq}
use validation_node.Prelude.Dict.{Dict, keys, has_key, lookup, insert, erase}
use validation_node.Database.Schema.{Ident, Vote, VerityEvent, Db, distinct}
use validation_node.Database.Votes.{Repr, answers_representation, get_list, get_consensus_vote}

abbrev pub or_empty : {A : Type 0} → Option (List A) → List A
or_empty none = []
or_empty (some xs) = xs

-- `d[k]` of a `defaultdict(list)`
module _ {K A : Type 0} ⦃e : Eq K⦄ where
  abbrev pub get_list_at : K → Dict K (List A) → List A
  get_list_at k d = or_empty (lookup k d)

  -- `d[k].extend(xs)`
  abbrev pub extend_at : K → List A → Dict K (List A) → Dict K (List A)
  extend_at k xs d = insert k (get_list_at k d ++ xs) d

add_votes : List Vote → Dict Ident (List Vote) → Dict Ident (List Vote)
add_votes [] d = d
add_votes (v ∷ votes) d = add_votes votes (extend_at v.user_id (v ∷ []) d)

add_nodes : Ident → List Ident → Db → Dict Ident (List Vote) → Dict Ident (List Vote)
unfolding add_votes get_list
add_nodes event_id [] db d = d
add_nodes event_id (n ∷ node_ids) db d =
    add_nodes event_id node_ids db (add_votes (get_list event_id n db) d)

unfoldable pub group_votes_by_users : Ident → List Ident → Db → Dict Ident (List Vote)
unfolding add_nodes
group_votes_by_users event_id node_ids db = add_nodes event_id node_ids db []

-- The tests by which `filter_votes_by_users` deletes a user with these votes.
unfoldable pub is_filtered_out : ℕ → ℕ → Bool → Option Vote → List Vote → Bool
is_filtered_out min_votes max_votes check_uniqueness filter_by_vote votes =
    if ltb (length votes) min_votes || ltb max_votes (length votes)
    then true
    else if check_uniqueness && not (eqb (length (distinct (map answers_representation votes))) 1)
    then true
    else elim filter_by_vote [
      | none ↦ false
      | some v ↦ not (head? (map answers_representation votes) == some (answers_representation v))
    ]

-- The loop over the keys, which deletes from the dictionary.
filter_loop :
    ℕ → ℕ → Bool → Option Vote → List Ident → Dict Ident (List Vote) → Dict Ident (List Vote)
filter_loop lo hi unique by [] d = d
filter_loop lo hi unique by (u ∷ user_ids) d =
    filter_loop lo hi unique by user_ids
      (if is_filtered_out lo hi unique by (get_list_at u d) then erase u d else d)

unfoldable pub filter_votes_by_users :
    Dict Ident (List Vote) → ℕ → ℕ → Bool → Option Vote → Dict Ident (List Vote)
unfolding filter_loop
filter_votes_by_users votes_by_users min_votes max_votes check_uniqueness filter_by_vote =
    filter_loop min_votes max_votes check_uniqueness filter_by_vote (keys votes_by_users)
      votes_by_users

add_groups : Dict Ident (List Vote) → Dict Repr (List Vote) → Dict Repr (List Vote)
add_groups [] d = d
add_groups ((u, []) ∷ groups) d = add_groups groups d
add_groups ((u, v ∷ votes) ∷ groups) d =
    add_groups groups (extend_at (answers_representation v) (v ∷ votes) d)

unfoldable pub group_votes_by_representation : Dict Ident (List Vote) → Dict Repr (List Vote)
unfolding add_groups
group_votes_by_representation votes_by_users = add_groups votes_by_users []

-- `n or default`
abbrev pub or_default : Option ℕ → ℕ → ℕ
or_default none d = d
or_default (some n) d = if eqb n 0 then d else n

-- `VerityEvent.votes`
unfoldable pub votes :
    VerityEvent → Option ℕ → Option ℕ → Option Vote → Bool → Db → Dict Ident (List Vote)
unfolding group_votes_by_users filter_votes_by_users
votes event min_votes max_votes filter_by_vote check_uniqueness db =
    filter_votes_by_users (group_votes_by_users event.event_id event.node_addresses db)
      (or_default min_votes 2) (or_default max_votes (length event.node_addresses)) check_uniqueness
      filter_by_vote

unfoldable pub votes_consensus : VerityEvent → Option Vote → Db → Dict Ident (List Vote)
unfolding votes
votes_consensus event filter_by_vote db =
    votes event (some 2) (some (length event.node_addresses)) filter_by_vote true db

unfoldable pub consensus_vote_user_ids : VerityEvent → Db → List Ident
unfolding votes get_consensus_vote
consensus_vote_user_ids event db = elim (get_consensus_vote event.event_id db) [
  | none ↦ []
  | some v ↦ keys (votes event (some 1) none (some v) true db)
]

-- `sys.maxsize`
abbrev pub max_size : ℕ
max_size = 9223372036854775807

mark : Bool → List Vote → List Vote
mark b [] = []
mark b (v ∷ vs) = record v { in_consensus = b } ∷ mark b vs

mark_users : Dict Ident (List Vote) → Dict Ident (List Vote) → Dict Ident (List Vote)
unfolding mark
mark_users consensus [] = []
mark_users consensus ((u, vs) ∷ d) = (u, mark (has_key u consensus) vs) ∷ mark_users consensus d

unfoldable pub votes_for_explorer : VerityEvent → Db → Dict Ident (List Vote)
unfolding votes votes_consensus mark_users get_consensus_vote
votes_for_explorer event db =
    let all = votes event (some 1) (some max_size) none false db in
    elim (get_consensus_vote event.event_id db) [
      | none ↦ mark_users [] all
      | some v ↦ mark_users (votes_consensus event (some v) db) all
    ]
