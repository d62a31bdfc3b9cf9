-- ===== src/Watch/Recovery.antt =====
-- Disputes, and the recovery of filters (app/events/verity_event_filters.py).
pub mod Entries
pub mod Reads
pub mod Restored
pub mod Discarded
use validation_node.Prelude.{
  ℕ, Bool, true, false, not, Option, none, some, List, [], ◌∷◌, map, if◌then◌else◌,
}
use validation_node.Database.Schema.{
  Ident, FilterEntry, FilterName, dispute_triggered, Db, Result, ok, raise,
}
use validation_node.Database.Events.{metadata}
use validation_node.Database.Filters
use validation_node.Database.Filters.{delete_filter}
use validation_node.Effects.{
  M, Uninstalled, by_id, return, yield, ◌>>=◌, ◌>>◌, attempt, change_db, access_db, uninstall,
}
use validation_node.Client.{Client, Entry, by_address}
use validation_node.Watch.Handlers.{
  is_final, last_entry, when_some, get_event, delete_event, process_entries,
}
use validation_node.Watch.Discovery.{event_filters, init_event_filter, init_event}

abbrev entry_id : FilterEntry → Uninstalled
entry_id e = by_id e.filter_id

-- `if filter_list: ...uninstall`
abbrev pub uninstall_list : Option (List FilterEntry) → M (Unit {0})
uninstall_list none = return tt
uninstall_list (some entries) = uninstall (map entry_id entries)

-- `if filter_id is not None: ...delete_filter`
abbrev pub forget_filter : Option Ident → Ident → FilterName → Db → Db
forget_filter none event_id filter_name db = db
forget_filter (some filter_id) event_id filter_name db =
    (delete_filter event_id filter_id filter_name db).1

abbrev pub is_success : Result Bool → Bool
is_success (ok b) = b
is_success (raise e) = false

module _ (scheduler : Bool) (client : Client) where
  unfoldable pub process_dispute_triggered : Ident → List Entry → M (Unit {0})
  process_dispute_triggered event_id entries = do
    entry ← yield (last_entry entries)
    dispute_started_by ← yield (by_address entry)
    found ← get_event event_id
    when_some found λ event. do
      m ← access_db (metadata event)
      delete_event event_id
      init_event scheduler client event_id m.contract_block_number

  -- `EVENT_FILTERS[filter_name]`
  unfoldable pub process : FilterName → Ident → List Entry → M (Unit {0})
  process dispute_triggered event_id entries = process_dispute_triggered event_id entries
  process name event_id entries = process_entries scheduler client name event_id entries

  unfoldable pub reinstall_filter : Ident → FilterName → Option Ident → M Bool
  reinstall_filter event_id filter_name filter_id = do
    change_db (forget_filter filter_id event_id filter_name)
    init_event_filter scheduler client filter_name event_id
    return true

  -- Whether it succeeds; it does, without a change, when the event is finished.
  unfoldable pub recover_filter : Ident → FilterName → Option Ident → M Bool
  recover_filter event_id filter_name filter_id =
      attempt (
        get_event event_id >>= λ found. elim found [
          | none ↦ return true
          | some event ↦
              if is_final event.state
              then return true
              else reinstall_filter event_id filter_name filter_id
        ])
      >>= λ r. return (is_success r)

  unfoldable pub recover_each : List FilterName → Ident → M Bool
  recover_each [] event_id = return true
  recover_each (name ∷ names) event_id = recover_filter event_id name none >>= λ success.
      if not success then return false else recover_each names event_id

  unfoldable pub recover_all_filters : Ident → Option (List FilterEntry) → M Bool
  unfolding recover_each
  recover_all_filters event_id filter_list = do
    uninstall_list filter_list
    change_db (Filters.delete event_id)
    recover_each event_filters event_id
