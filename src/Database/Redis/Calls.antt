-- ===== src/Database/Redis/Calls.antt =====
-- The methods of app/database/database.py that write to Redis.
use validation_node.Prelude.{ℕ, List}
use validation_node.Prelude.Dict.{Dict, Table}
use validation_node.Database.Schema.{
  Ident, Vote, VerityEvent, VerityEventMetadata, FilterName, Reward,
}
use validation_node.Database.Keys.{Place, event}
use validation_node.Database.Redis.Cells.{Cell, Command, as_event}
use validation_node.Database.Redis.Commands

pub data Call : Type 0 where
  create_event update_event : VerityEvent → Call
  set_metadata : VerityEventMetadata → Call
  create_participants : Ident → List Ident → Call
  create_filter delete_filter : Ident → Ident → FilterName → Call
  delete_filters : Ident → Call
  create_rewards : Ident → List Ident → Dict Ident Reward → Call
  create_vote set_consensus_vote : Vote → Call
  delete_all_event_data : Ident → Call
  set_last_run_timestamp set_event_registry set_node_registry : ℕ → Call

-- The commands of a call, given what is stored.
unfoldable pub commands : Call → Table (Place Ident) Cell → List Command
unfolding Commands.create_filter Commands.delete_filter Commands.delete_all_event_data
commands (create_event e) c = Commands.create_event e
commands (update_event e) c = Commands.update_event e
commands (set_metadata m) c = Commands.create_metadata m
commands (create_participants id user_ids) c = Commands.create_participants id user_ids
commands (create_filter id filter_id name) c = Commands.create_filter id filter_id name
commands (delete_filter id filter_id name) c = Commands.delete_filter id filter_id name
commands (delete_filters id) c = Commands.delete_filters id
commands (create_rewards id user_ids d) c = Commands.create_rewards id user_ids d
commands (create_vote v) c = Commands.create_vote v
commands (set_consensus_vote v) c = Commands.set_consensus_vote v
commands (delete_all_event_data id) c = Commands.delete_all_event_data id (as_event (c (event id)))
commands (set_last_run_timestamp t) c = Commands.set_last_run_timestamp t
commands (set_event_registry address) c = Commands.set_event_registry address
commands (set_node_registry address) c = Commands.set_node_registry address
