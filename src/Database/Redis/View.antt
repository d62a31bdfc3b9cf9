-- ===== src/Database/Redis/View.antt =====
-- The database that the cells of Redis stand for, and the call of each method on it.
use validation_node.Prelude.Dict.{Table}
use validation_node.Database.Schema.{Ident, Db}
use validation_node.Database.Events
use validation_node.Database.Events.{create_metadata}
use validation_node.Database.Filters
use validation_node.Database.Rewards
use validation_node.Database.Votes
use validation_node.Database.Keys.{
  Place, event, metadata, participants, filters, rewards, rewards_user_ids, voters, votes_exists,
  votes_consensus, votes, event_ids, last_run, event_registry, node_registry,
}
use validation_node.Database.Redis.Cells.{
  Cell, as_event, as_metadata, as_rewards, as_vote, as_number, as_ids, as_pairs, as_entries,
  as_votes,
}
use validation_node.Database.Redis.Calls.{
  Call, create_event, update_event, set_metadata, create_participants, create_filter, delete_filter,
  delete_filters, create_rewards, create_vote, set_consensus_vote, delete_all_event_data,
  set_last_run_timestamp, set_event_registry, set_node_registry,
}

unfoldable pub view : Table (Place Ident) Cell → Db
view c = record {
  last_run = as_number (c last_run);
  event_ids = as_ids (c event_ids);
  events = λ id. as_event (c (event id));
  metadata = λ id. as_metadata (c (metadata id));
  participants = λ id. as_ids (c (participants id));
  filters = λ id. as_entries (c (filters id));
  rewards = λ id. as_rewards (c (rewards id));
  rewards_user_ids = λ id. as_ids (c (rewards_user_ids id));
  votes = λ key. as_votes (c (votes key.0 key.1));
  votes_common = λ id. as_ids (c (voters id));
  votes_exists = λ id. as_pairs (c (votes_exists id));
  votes_consensus = λ id. as_vote (c (votes_consensus id));
  event_registry = as_number (c event_registry);
  node_registry = as_number (c node_registry);
}

unfoldable pub apply : Call → Db → Db
apply (create_event e) db = Events.create e db
apply (update_event e) db = Events.update_event e db
apply (set_metadata m) db = create_metadata m db
apply (create_participants id user_ids) db = Events.create_participants id user_ids db
apply (create_filter id filter_id name) db = Filters.create id filter_id name db
apply (delete_filter id filter_id name) db = (Filters.delete_filter id filter_id name db).1
apply (delete_filters id) db = Filters.delete id db
apply (create_rewards id user_ids d) db = Rewards.create id user_ids d db
apply (create_vote v) db = Votes.create v db
apply (set_consensus_vote v) db = Votes.set_consensus_vote v db
apply (delete_all_event_data id) db = (Events.delete_all_event_data id db).0
apply (set_last_run_timestamp t) db = Events.set_last_run_timestamp t db
apply (set_event_registry address) db = Events.set_event_registry address db
apply (set_node_registry address) db = Events.set_node_registry address db
