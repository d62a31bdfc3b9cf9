-- ===== src/Tests/ConsensusTests.antt =====
-- Tests of the consensus modules and of the grouping of votes.
use validation_node.Prelude.{
  ◌<◌, ◌≤◌, length, true, false, none, some, List, [], ◌∷◌, ◌≡◌, ◌≢◌, ◌⊎◌, refl, arith, head?,
}
use validation_node.Prelude.Eq.{nat_eq, list_eq, pair_eq, contains, ==_refl, ==_ne}
use validation_node.Float
use validation_node.Database.Schema.{Ident, Vote, ok}
use validation_node.Database.Votes.{
  Repr, ordered_answers, answers_representation, set_consensus_vote, text_leb,
}
use validation_node.Database.Events.{participants}
use validation_node.Database.Grouping.{
  get_list_at, group_votes_by_representation, filter_votes_by_users, votes,
}
use validation_node.Database.Grouping.Filtered.{kept, filter_votes-eq-kept}
use validation_node.Database.Grouping.Groups.{votes_with, get_list_at-group_votes}
use validation_node.Database.Grouping.WellFormed.{IsGrouped, votes-IsGrouped}
use validation_node.Consensus.Rules.{calculate_consensus_rules, percentage}
use validation_node.Consensus.Rules.Bounds.{consensus_rules-pass, consensus_rules-fail}
use validation_node.Consensus.Choice.{
  max_by_votes, restrict, pick_vote, winners, settle, calculate_consensus,
}
use validation_node.Consensus.Choice.Soundness.{
  PicksMember, IsConsensus, calculate_consensus-IsConsensus,
}
use validation_node.Consensus.Choice.Completeness.{calculate_consensus-reaches}
use validation_node.Consensus.Choice.Users.{with_repr}
use validation_node.Consensus.Steps.{Surroundings, check_consensus}
use validation_node.Consensus.Steps.Once.{IsUnsettled, run_checks, check_consensus-once}
use validation_node.Tests.{
  sample_event, sample_metadata, sample_node, sample_votes, voted_db, vote_of,
}

abbrev sample_repr : Repr
sample_repr =
    (((102 ∷ 105 ∷ 101 ∷ 108 ∷ 100 ∷ 95 ∷ 110 ∷ 97 ∷ 109 ∷ 101 ∷ []), 97 ∷ [])
      ∷ ((102 ∷ 105 ∷ 101 ∷ 108 ∷ 100 ∷ 95 ∷ 118 ∷ 97 ∷ 108 ∷ 117 ∷ 101 ∷ []), 49 ∷ [])
      ∷ [])
    ∷ []

head-PicksMember : PicksMember head?
head-PicksMember = record { member = member; total = total }
  where
    member : (us : List Ident) (u : Ident) → head? us ≡ some u → contains us u ≡ true
    member [] u h = absurd (ground arith)
    member (x ∷ us) u h = ground (arith, ==_refl u)

    total : (us : List Ident) → us ≢ [] → (u : Ident) × (head? us ≡ some u)
    total [] h = absurd (h refl)
    total (x ∷ us) h = (x, refl)

grouped : IsGrouped sample_votes
grouped = (
  (refl, (refl, tt)),
  ((omega arith, (refl, (refl, tt))), ((omega arith, (refl, (refl, tt))), tt)),
)

most_votes : max_by_votes (group_votes_by_representation sample_votes) ≡ ok sample_repr
unfolding max_by_votes group_votes_by_representation answers_representation ordered_answers text_leb
most_votes = refl

reached :
    calculate_consensus head? sample_event sample_votes voted_db
    ≡ (ok sample_votes, set_consensus_vote (vote_of 7 10) voted_db)
unfolding calculate_consensus calculate_consensus_rules percentage Float.mul Float.int_div
    Float.of_int participants winners max_by_votes group_votes_by_representation
    answers_representation ordered_answers text_leb settle restrict pick_vote
reached = refl

not_empty : sample_votes ≢ []
not_empty h = absurd (ground arith)

most :
    (s : Repr)
    → s ≢ sample_repr
    → length (votes_with s sample_votes) < length (votes_with sample_repr sample_votes)
unfolding answers_representation ordered_answers text_leb
most s other = rw (==_ne s sample_repr other) (omega arith)

rules_met :
    calculate_consensus_rules sample_event.min_total_votes sample_event.min_participant_ratio
      (length sample_votes)
      (length (participants sample_event voted_db))
    ≡ true
unfolding calculate_consensus_rules percentage Float.mul Float.int_div Float.of_int participants
rules_met = refl

enough : sample_event.min_consensus_votes ≤ length (with_repr sample_repr sample_votes)
unfolding answers_representation ordered_answers text_leb
enough = omega arith

share :
    Float.of_int sample_event.min_consensus_ratio
    ≤ percentage (length (with_repr sample_repr sample_votes)) (length sample_votes)
unfolding answers_representation ordered_answers text_leb percentage Float.mul Float.int_div
    Float.of_int
share = omega arith

abbrev sample_surroundings : Surroundings
sample_surroundings = record {
  node_id = 10;
  now = 210;
  ether_balance = 100;
  token_balance = 200;
  node_rewards_balance = 10;
  respond = λ i. some 200;
  first_of = head?;
}

calculate_consensus-IsConsensus_example :
    (r : Repr) × (v : Vote) × IsConsensus sample_event voted_db sample_votes sample_votes r v
      (set_consensus_vote (vote_of 7 10) voted_db)
calculate_consensus-IsConsensus_example =
    calculate_consensus-IsConsensus head? head-PicksMember sample_event sample_votes sample_votes
      voted_db (set_consensus_vote (vote_of 7 10) voted_db) grouped reached not_empty

calculate_consensus-reaches_example :
    (v : Vote) × (answers_representation v ≡ sample_repr)
    × (calculate_consensus head? sample_event sample_votes voted_db
        ≡ (ok (with_repr sample_repr sample_votes), set_consensus_vote v voted_db))
calculate_consensus-reaches_example =
    calculate_consensus-reaches head? head-PicksMember sample_event sample_votes sample_repr
      voted_db grouped not_empty most rules_met enough share

check_consensus-once_example :
    IsUnsettled
      (record sample_node { db = voted_db })
      (check_consensus sample_surroundings sample_event sample_metadata
        (record sample_node { db = voted_db })).1
    ⊎ IsUnsettled
        (check_consensus sample_surroundings sample_event sample_metadata
          (record sample_node { db = voted_db })).1
        (run_checks sample_event
          ((sample_surroundings, sample_metadata) ∷ [])
          (check_consensus sample_surroundings sample_event sample_metadata
            (record sample_node { db = voted_db })).1)
check_consensus-once_example =
    check_consensus-once sample_surroundings sample_event sample_metadata
      ((sample_surroundings, sample_metadata) ∷ []) (record sample_node { db = voted_db }) refl

consensus_rules-pass_example : calculate_consensus_rules 1 50 8 10 ≡ true
consensus_rules-pass_example =
    consensus_rules-pass 1 50 8 10 (omega arith) (omega arith) (omega arith) (omega arith)
      (omega arith)

consensus_rules-fail_example : calculate_consensus_rules 1 50 3 10 ≡ false
consensus_rules-fail_example =
    consensus_rules-fail 1 50 3 10 (omega arith) (omega arith) (omega arith)

filter_votes-eq-kept_example :
    filter_votes_by_users sample_votes 2 2 true none ≡ kept 2 2 true none sample_votes
filter_votes-eq-kept_example = filter_votes-eq-kept 2 2 true none sample_votes (refl, (refl, tt))

get_list_at-group_votes_example :
    get_list_at sample_repr (group_votes_by_representation sample_votes)
    ≡ votes_with sample_repr sample_votes
get_list_at-group_votes_example = get_list_at-group_votes sample_repr sample_votes

votes-IsGrouped_example : IsGrouped (votes sample_event none none none true voted_db)
votes-IsGrouped_example = votes-IsGrouped sample_event none none none true voted_db
