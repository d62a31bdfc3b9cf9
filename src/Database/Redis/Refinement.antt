-- ===== src/Database/Redis/Refinement.antt =====
-- The commands to Redis of every method of app/database/database.py that writes, against the method on
-- the database.
use validation_node.Prelude.{true, ◌≡◌, ◌∙◌, ap}
use validation_node.Prelude.Dict.{Table}
use validation_node.Prelude.Texts.{is_word}
use validation_node.Database.Schema.{Ident, Text}
use validation_node.Database.Keys.{Place}
use validation_node.Database.Redis.Cells.{Cell, Redis, cells, send}
use validation_node.Database.Redis.Calls.{
  Call, create_event, update_event, set_metadata, create_participants, create_filter, delete_filter,
  delete_filters, create_rewards, create_vote, set_consensus_vote, delete_all_event_data,
  set_last_run_timestamp, set_event_registry, set_node_registry, commands,
}
use validation_node.Database.Redis.Places.{store, cells-send}
use validation_node.Database.Redis.View.{view, apply}
use validation_node.Database.Redis.Writes.{refines-one, refines-create_vote, refines-create_rewards}
use validation_node.Database.Redis.Deletion.{refines-delete}

refines :
    (call : Call) (c : Table (Place Ident) Cell)
    → view (store (commands call c) c) ≡ apply call (view c)
refines (create_event e) c = refines-one c (create_event e) tt
refines (update_event e) c = refines-one c (update_event e) tt
refines (set_metadata m) c = refines-one c (set_metadata m) tt
refines (create_participants id user_ids) c = refines-one c (create_participants id user_ids) tt
refines (create_filter id filter_id name) c = refines-one c (create_filter id filter_id name) tt
refines (delete_filter id filter_id name) c = refines-one c (delete_filter id filter_id name) tt
refines (delete_filters id) c = refines-one c (delete_filters id) tt
refines (create_rewards id user_ids d) c = refines-create_rewards c id user_ids d
refines (create_vote v) c = refines-create_vote c v
refines (set_consensus_vote v) c = refines-one c (set_consensus_vote v) tt
refines (delete_all_event_data id) c = refines-delete id c
refines (set_last_run_timestamp t) c = refines-one c (set_last_run_timestamp t) tt
refines (set_event_registry address) c = refines-one c (set_event_registry address) tt
refines (set_node_registry address) c = refines-one c (set_node_registry address) tt

module _ (hex : Ident → Text) (unhex : Text → Ident)
    (digits : (id : Ident) → is_word (hex id) ≡ true)
    (reads : (id : Ident) → unhex (hex id) ≡ id) where
  -- Addresses are rendered without '_', and differently. Then the commands that a method sends to Redis, under
  -- the keys of the source, make of what is stored what the method makes of the database, whatever is stored.
  pub view-send :
      (call : Call) (r : Redis)
      → view (cells hex (send hex (commands call (cells hex r)) r))
        ≡ apply call (view (cells hex r))
  view-send call r =
      ap view (cells-send hex unhex digits reads (commands call (cells hex r)) r)
      ∙ refines call (cells hex r)
