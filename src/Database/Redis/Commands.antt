-- ===== src/Database/Redis/Commands.antt =====
-- The commands that the methods of app/database/database.py send, in order. What a method reads first is an
-- argument.
use validation_node.Prelude.{ℕ, Option, none, some, List, [], ◌∷◌, ◌++◌}
use validation_node.Prelude.Eq.{nat_eq, pair_eq}
use validation_node.Prelude.Dict.{Dict}
use validation_node.Database.Schema.{
  Ident, Vote, VerityEvent, VerityEventMetadata, FilterName, Reward, sadd, lrem,
}
use validation_node.Database.Filters.{filter_dict, lrem_entry}
use validation_node.Database.Keys.{
  event, metadata, participants, filters, rewards, rewards_user_ids, voters, votes_exists,
  votes_consensus, votes, event_ids, last_run, event_registry, node_registry,
}
use validation_node.Database.Redis.Cells.{
  Command, of_event, of_metadata, of_rewards, of_vote, of_number, of_ids, of_pairs, of_entries,
  of_votes, as_ids, as_pairs, as_entries, as_votes, set_to, del, rpush_ids, sadd_ids,
}

abbrev pub create_event : VerityEvent → List Command
create_event e = rpush_ids event_ids (e.event_id ∷ []) ∷ set_to (event e.event_id) (of_event e) ∷ []

abbrev pub update_event : VerityEvent → List Command
update_event e = set_to (event e.event_id) (of_event e) ∷ []

abbrev pub create_metadata : VerityEventMetadata → List Command
create_metadata m = set_to (metadata m.event_id) (of_metadata m) ∷ []

abbrev pub create_participants : Ident → List Ident → List Command
create_participants id user_ids = sadd_ids (participants id) user_ids ∷ []

unfoldable pub create_filter : Ident → Ident → FilterName → List Command
unfolding filter_dict
create_filter id filter_id name =
    (filters id, λ old. of_entries (as_entries old ++ filter_dict filter_id name ∷ [])) ∷ []

unfoldable pub delete_filter : Ident → Ident → FilterName → List Command
unfolding filter_dict lrem_entry
delete_filter id filter_id name =
    (filters id, λ old. of_entries (lrem_entry (filter_dict filter_id name) (as_entries old)).1)
    ∷ []

-- `BaseEvent.delete`
abbrev pub delete_filters : Ident → List Command
delete_filters id = del (filters id) ∷ []

abbrev pub create_rewards : Ident → List Ident → Dict Ident Reward → List Command
create_rewards id user_ids d =
    set_to (rewards id) (of_rewards d) ∷ rpush_ids (rewards_user_ids id) user_ids ∷ []

abbrev pub create_vote : Vote → List Command
create_vote v =
    (votes v.event_id v.node_id, λ old. of_votes (as_votes old ++ v ∷ []))
    ∷ sadd_ids (voters v.event_id) (v.user_id ∷ [])
    ∷ (votes_exists v.event_id, λ old. of_pairs (sadd (v.node_id, v.user_id) (as_pairs old)))
    ∷ []

abbrev pub set_consensus_vote : Vote → List Command
set_consensus_vote v = set_to (votes_consensus v.event_id) (of_vote v) ∷ []

unfoldable pub delete_votes : Ident → List Ident → List Command
delete_votes event_id [] = []
delete_votes event_id (node_id ∷ node_ids) =
    del (votes event_id node_id) ∷ delete_votes event_id node_ids

-- `Vote.delete_all`, if the event is there.
unfoldable pub delete_all_votes : Ident → Option VerityEvent → List Command
unfolding delete_votes
delete_all_votes event_id none = []
delete_all_votes event_id (some e) =
    delete_votes event_id e.node_addresses
    ++ (del (voters event_id) ∷ del (votes_consensus event_id) ∷ del (votes_exists event_id) ∷ [])

-- The event that is stored decides which votes go.
unfoldable pub delete_all_event_data : Ident → Option VerityEvent → List Command
unfolding delete_all_votes
delete_all_event_data id found =
    (event_ids, λ old. of_ids (lrem id (as_ids old)))
    ∷ del (event id)
    ∷ del (metadata id)
    ∷ del (participants id)
    ∷ del (filters id)
    ∷ (delete_all_votes id found ++ (del (rewards id) ∷ []))

abbrev pub set_last_run_timestamp : ℕ → List Command
set_last_run_timestamp t = set_to last_run (of_number t) ∷ []

abbrev pub set_event_registry : Ident → List Command
set_event_registry address = set_to event_registry (of_number address) ∷ []

abbrev pub set_node_registry : Ident → List Command
set_node_registry address = set_to node_registry (of_number address) ∷ []
