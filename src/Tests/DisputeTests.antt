-- ===== src/Tests/DisputeTests.antt =====
-- A dispute on an event on which a user has voted.
use validation_node.Prelude.{false, [], ◌∷◌, ◌≡◌, refl, arith, eqb_iff, true}
use validation_node.Database.Schema.{Vote, ok}
use validation_node.Database.Events.Voters.{HasVoters, vote-HasVoters}
use validation_node.Database.Votes
use validation_node.Database.Filters
use validation_node.Effects.{World, ◌>>=◌}
use validation_node.Client.{disputed}
use validation_node.Watch.Recovery.{process_dispute_triggered}
use validation_node.Watch.Recovery.Discarded.{Discarded, process_dispute_triggered-Discarded}
use validation_node.Tests.{sample_event, sample_db, sample_node}
use validation_node.Tests.WatchTests.{sample_client, sample_world}

sample-HasVoters : HasVoters sample_db
sample-HasVoters = record {
  index = record { once = (refl, tt); entry = λ id. ground (arith, eqb_iff id 1) };
  absent = λ id. ground arith;
  once = λ id. tt;
  takes_part = λ id u. refl;
  counted = λ id n u. refl;
  stored = λ id n u. refl;
}

abbrev cast_vote : Vote
cast_vote = record {
  user_id = 7;
  event_id = 1;
  node_id = 10;
  timestamp = 150;
  answers = [];
  signature = 7;
  in_consensus = false;
}

abbrev disputed_world : World
disputed_world = record sample_world {
  node = record sample_node { db = Votes.create cast_vote sample_db };
}

disputed-HasVoters : HasVoters disputed_world.node.db
disputed-HasVoters = vote-HasVoters cast_vote sample_event sample_db refl refl sample-HasVoters

disputed_to_end :
    (process_dispute_triggered true sample_client 1 (disputed 7 ∷ []) disputed_world).0 ≡ ok tt
unfolding process_dispute_triggered ◌>>=◌ validation_node.Watch.Handlers.get_event
    validation_node.Database.Events.get validation_node.Watch.Handlers.delete_event
    validation_node.Watch.Discovery.init_event
    validation_node.Watch.Discovery.is_node_registered_on_event
    validation_node.Watch.Discovery.add_event validation_node.Database.Events.delete_all_event_data
    validation_node.Database.Events.metadata validation_node.Watch.Handlers.node_claim_reward
    validation_node.Watch.Discovery.call_event_contract_for_metadata
    validation_node.Watch.Discovery.call_event_contract validation_node.Client.current_time
    validation_node.Watch.Discovery.read_event validation_node.Watch.Discovery.set_up_event
    validation_node.Watch.Answers.consensus_answers_from_contract
    validation_node.Watch.Discovery.init_event_filters validation_node.Client.send_transaction
    validation_node.Database.Events.create validation_node.Database.Events.create_metadata
    validation_node.Database.Events.create_participants
    validation_node.Database.Events.get_or_create validation_node.Database.Events.update_event
    validation_node.Database.Events.update_metadata Filters.create
    validation_node.Watch.Discovery.init_event_filter
    validation_node.Watch.Discovery.schedule_consensus_not_reached_job
    validation_node.Watch.Discovery.schedule_post_application_end_time_job
    validation_node.Watch.Handlers.process_entries
    validation_node.Watch.Handlers.process_join_events Votes.create
disputed_to_end = refl

process_dispute_triggered-Discarded_example :
    Discarded 1
      (process_dispute_triggered true sample_client 1 (disputed 7 ∷ []) disputed_world).1.node.db
process_dispute_triggered-Discarded_example =
    process_dispute_triggered-Discarded true sample_client 1 (disputed 7 ∷ []) disputed_world
      disputed-HasVoters disputed_to_end
