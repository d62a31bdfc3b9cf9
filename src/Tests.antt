-- ===== src/Tests.antt =====
-- A small event with two nodes and two participants, on which the tests run the program.
pub mod VotingTests
pub mod ConsensusTests
pub mod RewardsTests
pub mod WatchTests
pub mod QueueTests
pub mod SocketTests
pub mod SystemTests
pub mod DisputeTests
use validation_node.Prelude.{ℕ, Bool, false, true, Option, none, some, List, [], ◌∷◌}
use validation_node.Prelude.Dict.{Dict, update}
use validation_node.Prelude.Eq.{nat_eq, pair_eq}
use validation_node.Database.Schema.{
  Ident, Text, Answer, Vote, VerityEvent, VerityEventMetadata, Db,
}
use validation_node.Database.Votes
use validation_node.Database.Votes.{answers_sort_key, answers_value_key}
use validation_node.Database.Events
use validation_node.Database.Events.{new_metadata}
use validation_node.Node.{VoteData, VoteJson, Node}
use validation_node.Voting.Payload.{VoteFields}

abbrev pub sample_event : VerityEvent
sample_event = record {
  event_id = 1;
  owner = 2;
  token_address = 3;
  node_addresses = 10 ∷ 11 ∷ [];
  leftovers_recoverable_after = 1000;
  application_start_time = 10;
  application_end_time = 20;
  event_start_time = 100;
  event_end_time = 200;
  event_name = 65 ∷ [];
  data_feed_hash = [];
  state = 1;
  is_master_node = true;
  min_total_votes = 1;
  min_consensus_votes = 1;
  min_consensus_ratio = 50;
  min_participant_ratio = 50;
  max_participants = 10;
  rewards_distribution_function = 0;
  rewards_validation_round = 1;
  dispute_amount = 30;
  dispute_timeout = 60;
  dispute_multiplier = 2;
  dispute_round = 1;
  disputer = 7;
  staking_amount = 5;
}

abbrev pub empty_db : Db
empty_db = record {
  last_run = none;
  event_ids = [];
  events = λ i. none;
  metadata = λ i. none;
  participants = λ i. [];
  filters = λ i. [];
  rewards = λ i. none;
  rewards_user_ids = λ i. [];
  votes = λ k. [];
  votes_common = λ i. [];
  votes_exists = λ i. [];
  votes_consensus = λ i. none;
  event_registry = none;
  node_registry = none;
}

abbrev pub sample_metadata : VerityEventMetadata
sample_metadata = record {
  event_id = 1;
  is_consensus_reached = false;
  node_ips = [];
  node_websocket_ips = [];
  contract_block_number = 0;
  previous_consensus_answers = none;
  processing_end_time = none;
  should_run_filters = true;
  filters_exception_reported = false;
}

abbrev pub sample_db : Db
sample_db = record empty_db {
  event_ids = 1 ∷ [];
  events = update 1 (some sample_event) (λ i. none);
  metadata = update 1 (some sample_metadata) (λ i. none);
  participants = update 1 (7 ∷ 8 ∷ []) (λ i. []);
}

abbrev pub sample_node : Node
sample_node = record { db = sample_db; jobs = []; outbox = []; submitted = []; posted = [] }

abbrev pub sample_answer : Answer
sample_answer = (answers_value_key, 49 ∷ []) ∷ (answers_sort_key, 97 ∷ []) ∷ []

abbrev pub vote_data : Ident → VoteData
vote_data u = record { user_id = some u; task_id = some 1; answers = some (sample_answer ∷ []) }

-- The sample signatures are their signer.
abbrev pub vote_json : Ident → VoteJson
vote_json u = record { vote_data = some (vote_data u); signed_data = some u }

abbrev pub vote_fields : Ident → VoteFields
vote_fields u = record {
  event_id = 1;
  user_id = u;
  vote_data = vote_data u;
  signature = u;
  answers = sample_answer ∷ [];
}

abbrev pub sample_recover : VoteData → Ident → Option Ident
sample_recover d signature = some signature

-- The vote of a user that a node received.
abbrev pub vote_of : Ident → Ident → Vote
vote_of u node_id = record {
  user_id = u;
  event_id = 1;
  node_id = node_id;
  timestamp = 150;
  answers = sample_answer ∷ [];
  signature = u;
  in_consensus = false;
}

-- Both users voted, and both nodes have both votes.
abbrev pub voted_db : Db
voted_db = record sample_db {
  votes =
      update (1, 10) (vote_of 7 10 ∷ vote_of 8 10 ∷ [])
        (update (1, 11) (vote_of 7 11 ∷ vote_of 8 11 ∷ []) (λ k. []));
  votes_common = update 1 (7 ∷ 8 ∷ []) (λ i. []);
}

abbrev pub sample_votes : Dict Ident (List Vote)
sample_votes = (7, vote_of 7 10 ∷ vote_of 7 11 ∷ []) ∷ (8, vote_of 8 10 ∷ vote_of 8 11 ∷ []) ∷ []
