-- ===== src/Consensus/Choice.antt =====
-- `calculate_consensus`: the representation with the most votes, and the tests on its users.
pub mod Plurality
pub mod Users
pub mod Soundness
pub mod Completeness
use validation_node.Prelude.{
  ℕ, ◌+◌, Bool, true, false, Option, none, some, List, [], ◌∷◌, length, map, ltb, if◌then◌else◌,
}
use validation_node.Prelude.Eq.{contains, nat_eq, list_eq, pair_eq}
use validation_node.Prelude.Dict.{Dict, lookup}
use validation_node.Float.{of_int}
use validation_node.Database.Schema.{
  Ident, Vote, VerityEvent, Db, Result, ok, raise, value_error, index_error, key_error, distinct,
  ◌>>=◌,
}
use validation_node.Database.Votes.{Repr, set_consensus_vote}
use validation_node.Database.Grouping.{group_votes_by_representation, get_list_at}
use validation_node.Database.Events.{participants}
use validation_node.Consensus.Rules.{calculate_consensus_rules, percentage}

-- `max(d, key=lambda x: len(d[x]))`: the first key with the most votes.
max_from : Repr → ℕ → Dict Repr (List Vote) → Repr
max_from best n [] = best
max_from best n ((r, votes) ∷ d) =
    max_from (if ltb n (length votes) then r else best)
      (if ltb n (length votes) then length votes else n) d

unfoldable pub max_by_votes : Dict Repr (List Vote) → Result Repr
unfolding max_from
max_by_votes [] = raise value_error
max_by_votes ((r, votes) ∷ d) = ok (max_from r (length votes) d)

abbrev user_of : Vote → Ident
user_of v = v.user_id

-- The entries of the users in a set.
unfoldable pub restrict : List Ident → Dict Ident (List Vote) → Dict Ident (List Vote)
restrict user_ids [] = []
restrict user_ids ((u, votes) ∷ d) =
    if contains user_ids u then (u, votes) ∷ restrict user_ids d else restrict user_ids d

-- `votes_by_users[next(iter(consensus_user_ids))][0]`
unfoldable pub pick_vote : Option Ident → Dict Ident (List Vote) → Result Vote
pick_vote none d = raise value_error
pick_vote (some u) d = elim (lookup u d) [
  | none ↦ raise key_error
  | some [] ↦ raise index_error
  | some (v ∷ votes) ↦ ok v
]

-- The order in which Python enumerates a set is not specified: `first_of` picks the element that
-- comes first, out of a list of the elements.
module _ (first_of : List Ident → Option Ident) where
  -- The winning representation, and the users with it.
  unfoldable pub winners : Dict Ident (List Vote) → Result (Repr × List Ident)
  winners votes_by_users =
      let votes_by_repr = group_votes_by_representation votes_by_users in
      max_by_votes votes_by_repr >>= λ vote_repr.
      ok (vote_repr, distinct (map user_of (get_list_at vote_repr votes_by_repr)))

  -- The tests on the consensus votes; the new state has the consensus vote.
  unfoldable pub settle :
      VerityEvent → Dict Ident (List Vote) → List Ident → Db → Result (Dict Ident (List Vote)) × Db
  settle event votes_by_users consensus_user_ids db =
      let consensus_votes_by_users = restrict consensus_user_ids votes_by_users in
      let consensus_votes_count = length consensus_votes_by_users in
      if ltb consensus_votes_count event.min_consensus_votes
      then (ok [], db)
      else if ltb (percentage consensus_votes_count (length votes_by_users))
          (of_int event.min_consensus_ratio)
      then (ok [], db)
      else elim (pick_vote (first_of consensus_user_ids) votes_by_users) [
        | raise e ↦ (raise e, db)
        | ok consensus_vote ↦ (ok consensus_votes_by_users, set_consensus_vote consensus_vote db)
      ]

  unfoldable pub calculate_consensus :
      VerityEvent → Dict Ident (List Vote) → Db → Result (Dict Ident (List Vote)) × Db
  calculate_consensus event votes_by_users db =
      if calculate_consensus_rules event.min_total_votes event.min_participant_ratio
        (length votes_by_users) (length (participants event db))
      then (elim (winners votes_by_users) [
        | raise e ↦ (raise e, db)
        | ok (vote_repr, consensus_user_ids) ↦ settle event votes_by_users consensus_user_ids db
      ])
      else (ok [], db)
