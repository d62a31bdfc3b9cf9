-- ===== src/Watch/Rounds.antt =====
-- The jobs that read the filters of events (app/events/verity_event_filters.py). The pauses after a
-- lost connection are left out.
use validation_node.Prelude.{
  ℕ, ◌+◌, Bool, true, false, not, ◌&&◌, Option, none, some, List, [], ◌∷◌, length, leb, eqb,
  if◌then◌else◌,
}
use validation_node.Database.Schema.{
  Ident, VerityEvent, VerityEventMetadata, FilterEntry, FilterName, join_event, state_transition,
  error_event, validation_started, validation_restart, dispute_triggered, event_failed,
  new_verity_event, Error, value_error, padding_error, connection_error, key_error, attribute_error,
  Result, ok, raise,
}
use validation_node.Database.Events.{metadata, update_metadata, get_ids_list}
use validation_node.Database.Filters
use validation_node.Database.Filters.{same_name}
use validation_node.Node.{Job, add_job, trigger_state_change}
use validation_node.Effects.{
  M, return, throw, ◌>>=◌, ◌>>◌, attempt, ask, read_db, change_db, access_db, change_node,
}
use validation_node.Client.{Client, Entry, current_time, send_transaction}
use validation_node.Watch.Handlers.{when_some, get_event}
use validation_node.Watch.Discovery.{event_filters}
use validation_node.Watch.Recovery.{process, recover_filter, recover_all_filters}

-- What an event's filter may be read for at a time.
unfoldable pub is_due : FilterName → VerityEvent → ℕ → Bool
is_due join_event event now = leb event.application_start_time now && leb now event.event_end_time
is_due validation_started event now = leb event.event_start_time now
is_due validation_restart event now = leb event.event_start_time now
is_due dispute_triggered event now = leb event.event_start_time now
is_due _ event now = false

abbrev pub is_always_due : FilterName → Bool
is_always_due error_event = true
is_always_due state_transition = true
is_always_due event_failed = true
is_always_due _ = false

abbrev pub is_due_if_stored : FilterName → ℕ → Option VerityEvent → Bool
is_due_if_stored name now none = false
is_due_if_stored name now (some event) = is_due name event now

abbrev pub is_known : FilterName → Bool
is_known new_verity_event = false
is_known _ = true

-- What the loop does after an exception of `get_new_entries`.
pub data Failure : Type 0 where
  lost_filter lost_connection unexpected : Failure

abbrev pub failure_of : Error → Failure
failure_of value_error = lost_filter
failure_of padding_error = lost_filter
failure_of connection_error = lost_connection
failure_of _ = unexpected

module _ (scheduler : Bool) (client : Client) where
  unfoldable pub should_apply_filter : FilterName → Ident → M Bool
  unfolding is_due
  should_apply_filter filter_name event_id = if is_always_due filter_name then return true else (do
    now ← current_time client
    found ← get_event event_id
    return (is_due_if_stored filter_name now found))

  unfoldable pub schedule_post_unexpected_exception_job :
      Ident → VerityEventMetadata → Option (List FilterEntry) → M (Unit {0})
  schedule_post_unexpected_exception_job event_id m filter_list = do
    change_db (update_metadata (record m { should_run_filters = false }))
    now ← current_time client
    if scheduler
        then change_node (add_job (Job.post_unexpected_exception event_id filter_list (now + 300)))
        else throw attribute_error

  -- An exception that was not reported yet is marked as reported, then the filters are stopped.
  unfoldable pub report : Ident → VerityEventMetadata → List FilterEntry → M (Unit {0})
  report event_id m filter_list =
      if m.filters_exception_reported
      then schedule_post_unexpected_exception_job event_id m (some filter_list)
      else change_db (update_metadata (record m { filters_exception_reported = true }))
        >> schedule_post_unexpected_exception_job event_id
            (record m { filters_exception_reported = true }) (some filter_list)

  -- `rest` is the loop over the filters that follow.
  unfoldable pub process_failure :
      Failure
      → Ident
      → FilterEntry
      → List FilterEntry
      → VerityEventMetadata
      → M (Unit {0})
      → M (Unit {0})
  process_failure lost_filter event_id e filter_list m rest =
      recover_filter scheduler client event_id e.filter_name (some e.filter_id) >> rest
  process_failure lost_connection event_id e filter_list m rest =
      recover_all_filters scheduler client event_id (some filter_list) >> return tt
  process_failure unexpected event_id e filter_list m rest = report event_id m filter_list

  unfoldable pub process_answer :
      Result (List Entry)
      → Ident
      → FilterEntry
      → List FilterEntry
      → VerityEventMetadata
      → M (Unit {0})
      → M (Unit {0})
  process_answer (raise x) event_id e filter_list m rest =
      process_failure (failure_of x) event_id e filter_list m rest
  process_answer (ok []) event_id e filter_list m rest = rest
  process_answer (ok (x ∷ entries)) event_id e filter_list m rest =
      process scheduler client e.filter_name event_id (x ∷ entries) >> rest

  unfoldable pub process_filters :
      List FilterEntry → Ident → List FilterEntry → VerityEventMetadata → M (Unit {0})
  process_filters [] event_id filter_list m = return tt
  process_filters (e ∷ entries) event_id filter_list m =
      if not (is_known e.filter_name) then throw key_error else (do
        due ← should_apply_filter e.filter_name event_id
        if not due
            then process_filters entries event_id filter_list m
            else (attempt (ask (client.get_new_entries e.filter_id)) >>= λ answer.
                process_answer answer event_id e filter_list m
                  (process_filters entries event_id filter_list m)))

  unfoldable pub process_filters_for_event :
      Ident → List FilterEntry → VerityEventMetadata → M (Unit {0})
  unfolding process_filters
  process_filters_for_event event_id filter_list m =
      process_filters filter_list event_id filter_list m

  -- The part of `filter_events` for one event.
  unfoldable pub filter_event : Ident → M (Unit {0})
  filter_event event_id = do
    filter_list ← read_db (Filters.get_list event_id)
    found ← get_event event_id
    when_some found λ event. do
      m ← access_db (metadata event)
      if not m.should_run_filters
          then return tt
          else if not (eqb (length filter_list) (length event_filters))
          then (recover_all_filters scheduler client event_id (some filter_list) >>= λ success.
              if not success
              then schedule_post_unexpected_exception_job event_id m none
              else return tt)
          else process_filters_for_event event_id filter_list m

  unfoldable pub filter_each : List Ident → M (Unit {0})
  filter_each [] = return tt
  filter_each (event_id ∷ event_ids) = filter_event event_id >> filter_each event_ids

  unfoldable pub filter_events : M (Unit {0})
  unfolding filter_each
  filter_events = read_db get_ids_list >>= filter_each

  unfoldable pub post_unexpected_exception_job : Ident → Option (List FilterEntry) → M (Unit {0})
  post_unexpected_exception_job event_id filter_list = do
    found ← get_event event_id
    when_some found λ event. do
      success ← recover_all_filters scheduler client event_id filter_list
      m ← access_db (metadata event)
      change_db (update_metadata (record m { should_run_filters = true }))

  -- The first filter for `JoinEvent` is installed again.
  unfoldable pub recover_join_filter : List FilterEntry → Ident → M (Unit {0})
  recover_join_filter [] event_id = return tt
  recover_join_filter (e ∷ entries) event_id =
      if not (same_name e.filter_name join_event)
      then recover_join_filter entries event_id
      else recover_filter scheduler client event_id e.filter_name (some e.filter_id) >> return tt

  unfoldable pub post_application_end_time_job : Ident → M (Unit {0})
  unfolding recover_join_filter
  post_application_end_time_job event_id = do
    found ← get_event event_id
    when_some found λ event. do
      m ← access_db (metadata event)
      if event.is_master_node && not m.is_consensus_reached
          then send_transaction client event_id trigger_state_change >> return tt
          else return tt
      filter_list ← read_db (Filters.get_list event_id)
      recover_join_filter filter_list event_id
