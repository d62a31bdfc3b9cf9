-- ===== src/Database/Events.antt =====
-- `class VerityEvent`, `class VerityEventMetadata`, `class Participants`, `class EventRegistry` and
-- `class ContractAddress` of app/database/database.py.
pub mod Deletion
pub mod Index
pub mod Voters
use validation_node.Prelude.{ℕ, Bool, true, false, Option, none, some, List, [], ◌∷◌, ◌++◌}
use validation_node.Prelude.Eq.{contains, nat_eq}
use validation_node.Prelude.Dict.{update}
use validation_node.Database.Schema.{
  Ident, VerityEvent, VerityEventMetadata, FilterEntry, Db, sadd, lrem, difference,
}
use validation_node.Database.Votes
use validation_node.Database.Votes.{user_ids_with_vote}

-- `BaseEvent.get`
unfoldable pub get : Ident → Db → Option VerityEvent
get event_id db = db.events event_id

unfoldable pub update_event : VerityEvent → Db → Db
update_event event db = record db { events = update event.event_id (some event) db.events }

-- `VerityEvent.create`: one pipeline of `RPUSH` and `SET`.
unfoldable pub create : VerityEvent → Db → Db
create event db = record db {
  event_ids = db.event_ids ++ event.event_id ∷ [];
  events = update event.event_id (some event) db.events;
}

unfoldable pub get_ids_list : Db → List Ident
get_ids_list db = db.event_ids

unfoldable pub create_metadata : VerityEventMetadata → Db → Db
create_metadata m db = record db { metadata = update m.event_id (some m) db.metadata }

-- `VerityEventMetadata.update`
unfoldable pub update_metadata : VerityEventMetadata → Db → Db
unfolding create_metadata
update_metadata m db = create_metadata m db

unfoldable pub new_metadata : Ident → VerityEventMetadata
new_metadata id = record {
  event_id = id;
  is_consensus_reached = false;
  node_ips = [];
  node_websocket_ips = [];
  contract_block_number = 0;
  previous_consensus_answers = none;
  processing_end_time = none;
  should_run_filters = true;
  filters_exception_reported = false;
}

-- `VerityEventMetadata.get_or_create`, which writes when there was nothing.
unfoldable pub get_or_create : Ident → Db → VerityEventMetadata × Db
unfolding new_metadata create_metadata
get_or_create event_id db = elim (db.metadata event_id) [
  | none ↦ (new_metadata event_id, create_metadata (new_metadata event_id) db)
  | some m ↦ (m, db)
]

-- `event.metadata()`
unfoldable pub metadata : VerityEvent → Db → VerityEventMetadata × Db
unfolding get_or_create
metadata event db = get_or_create event.event_id db

unfoldable pub add_participants : List Ident → List Ident → List Ident
add_participants members [] = members
add_participants members (u ∷ user_ids) = add_participants (sadd u members) user_ids

-- `Participants.create`
unfoldable pub create_participants : Ident → List Ident → Db → Db
unfolding add_participants
create_participants event_id user_ids db = record db {
  participants =
      update event_id (add_participants (db.participants event_id) user_ids) db.participants;
}

-- `event.participants()`
unfoldable pub participants : VerityEvent → Db → List Ident
participants event db = db.participants event.event_id

-- `Participants.exists`
unfoldable pub participant_exists : Ident → Ident → Db → Bool
participant_exists event_id user_id db = contains (db.participants event_id) user_id

unfoldable pub user_ids_without_vote : VerityEvent → Db → List Ident
unfolding participants user_ids_with_vote
user_ids_without_vote event db =
    difference (participants event db) (user_ids_with_vote event.event_id db)

-- `EventRegistry`
unfoldable pub set_last_run_timestamp : ℕ → Db → Db
set_last_run_timestamp t db = record db { last_run = some t }

unfoldable pub last_run_timestamp : Db → Option ℕ
last_run_timestamp db = db.last_run

-- `ContractAddress`; the environment variable, if it is set, comes first.
unfoldable pub set_event_registry : Ident → Db → Db
set_event_registry address db = record db { event_registry = some address }

unfoldable pub set_node_registry : Ident → Db → Db
set_node_registry address db = record db { node_registry = some address }

unfoldable pub event_registry : Option Ident → Db → Option Ident
event_registry (some address) db = some address
event_registry none db = db.event_registry

unfoldable pub node_registry : Option Ident → Db → Option Ident
node_registry (some address) db = some address
node_registry none db = db.node_registry

-- The pipeline of `delete_all_event_data`. The event is read before the pipeline runs, so its nodes
-- are still known.
unfoldable pub delete_votes_of : Option VerityEvent → Ident → Db → Db
unfolding Votes.delete_all
delete_votes_of none event_id db = db
delete_votes_of (some event) event_id db = Votes.delete_all event_id event.node_addresses db

-- The new state, and what `Filters.uninstall` hands to `uninstallFilter`, whose failures it ignores.
unfoldable pub delete_all_event_data : Ident → Db → Db × List FilterEntry
unfolding delete_votes_of get
delete_all_event_data event_id db =
    let filter_ids = db.filters event_id in
    let event = get event_id db in
    let db' = record db {
      event_ids = lrem event_id db.event_ids;
      events = update event_id none db.events;
      metadata = update event_id none db.metadata;
      participants = update event_id [] db.participants;
      filters = update event_id [] db.filters;
    } in
    let db'' = delete_votes_of event event_id db' in
    (record db'' { rewards = update event_id none db''.rewards }, filter_ids)
