-- ===== src/Watch/Registry.antt =====
-- The filter on the event registry, by which new events are found
-- (app/events/event_registry_filter.py). The pauses after an exception are left out.
use validation_node.Prelude.{Bool, Option, none, some, List, [], ◌∷◌}
use validation_node.Database.Schema.{Ident, FilterEntry, new_verity_event, Result, ok, raise}
use validation_node.Database.Events.{set_last_run_timestamp}
use validation_node.Database.Filters
use validation_node.Effects.{
  M, by_id, return, yield, ◌>>=◌, ◌>>◌, attempt, ask, read_db, change_db, uninstall,
}
use validation_node.Client.{Client, Entry, event_address, current_time}
use validation_node.Watch.Discovery.{init_event}

module _ (scheduler : Bool) (client : Client) where
  unfoldable pub process_new_verity_events : List Entry → M (Unit {0})
  process_new_verity_events [] = return tt
  process_new_verity_events (e ∷ entries) = yield (event_address e) >>= λ (block, event_id).
      init_event scheduler client event_id block >> process_new_verity_events entries

  unfoldable pub init_event_registry_filter : Ident → M (Unit {0})
  init_event_registry_filter event_registry_address = do
    from_block ← ask (client.creation_block event_registry_address)
    filter_id ← ask (client.create_filter event_registry_address new_verity_event from_block)
    change_db (Filters.create event_registry_address filter_id new_verity_event)
    entries ← ask (client.get_all_entries filter_id)
    process_new_verity_events entries

  -- `Filters.delete_and_uninstall_filters`, of one filter or none
  unfoldable pub delete_and_uninstall_filters : Ident → Option Ident → M (Unit {0})
  delete_and_uninstall_filters event_id none = change_db (Filters.delete event_id)
  delete_and_uninstall_filters event_id (some filter_id) =
      change_db (Filters.delete event_id) >> uninstall (by_id filter_id ∷ [])

  -- Exceptions are logged.
  unfoldable pub recover_registry_filter : Ident → Option Ident → M (Unit {0})
  recover_registry_filter event_registry_address filter_id =
      attempt (
        delete_and_uninstall_filters event_registry_address filter_id
        >> init_event_registry_filter event_registry_address)
      >>= λ r. return tt

  unfoldable pub process_registry_answer : Result (List Entry) → Ident → Ident → M (Unit {0})
  process_registry_answer (raise e) event_registry_address filter_id =
      recover_registry_filter event_registry_address (some filter_id)
  process_registry_answer (ok entries) event_registry_address filter_id = do
    now ← current_time client
    change_db (set_last_run_timestamp now)
    process_new_verity_events entries

  unfoldable pub read_registry : List FilterEntry → Ident → M (Unit {0})
  read_registry [] event_registry_address = recover_registry_filter event_registry_address none
  read_registry (e ∷ entries) event_registry_address =
      attempt (ask (client.get_new_entries e.filter_id)) >>= λ answer.
      process_registry_answer answer event_registry_address e.filter_id

  unfoldable pub filter_event_registry : Ident → M (Unit {0})
  filter_event_registry event_registry_address =
      read_db (Filters.get_list event_registry_address) >>= λ filter_list.
      read_registry filter_list event_registry_address
