-- ===== src/Watch/Handlers.antt =====
-- The handlers of entries in app/events/verity_event_filters.py, but for that of a dispute, which
-- discovers the event again; and `node_claim_reward` of app/events/event_registry_filter.py.
use validation_node.Prelude.{
  ℕ, Bool, true, false, not, ◌||◌, Option, none, some, List, [], ◌∷◌, map, eqb, if◌then◌else◌,
}
use validation_node.Database.Schema.{
  Ident, VerityEvent, FilterEntry, FilterName, join_event, state_transition, error_event,
  validation_started, validation_restart, dispute_triggered, event_failed, new_verity_event, Db,
  Result, ok, raise, index_error, attribute_error, key_error,
}
use validation_node.Database.Events
use validation_node.Database.Events.{update_event, create_participants, delete_all_event_data}
use validation_node.Node.{Job, add_job, node_claim_reward as claim_transaction}
use validation_node.Effects.{
  M, return, yield, throw, ◌>>=◌, ◌>>◌, attempt, ask, read_db, change_db, access_db, change_node,
  uninstall, by_entry,
}
use validation_node.Client.{
  Client, Entry, send_transaction, wallet, new_state, description, validation_round, new_master,
}

-- `FINAL_STATES`
abbrev pub is_final : ℕ → Bool
is_final state = eqb state 4 || eqb state 5

-- `entries[-1]`
abbrev pub last_entry : List Entry → Result Entry
last_entry [] = raise index_error
last_entry (e ∷ []) = ok e
last_entry (e ∷ x ∷ entries) = last_entry (x ∷ entries)

abbrev pub wallets : List Entry → Result (List Ident)
wallets [] = ok []
wallets (e ∷ entries) = elim (wallet e) [
  | raise x ↦ raise x
  | ok u ↦ elim (wallets entries) [ raise x ↦ raise x | ok us ↦ ok (u ∷ us) ]
]

-- `if x is None: return`
abbrev pub when_some : {A : Type 0} → Option A → (A → M (Unit {0})) → M (Unit {0})
when_some none f = return tt
when_some (some a) f = f a

unfoldable pub get_event : Ident → M (Option VerityEvent)
get_event event_id = read_db (Events.get event_id)

abbrev swap_results : Db × List FilterEntry → List FilterEntry × Db
swap_results (db, entries) = (entries, db)

-- `VerityEvent.delete_all_event_data`, which hands the entries of the filters to `uninstallFilter`.
unfoldable pub delete_event : Ident → M (Unit {0})
delete_event event_id =
    access_db (λ db. swap_results (delete_all_event_data event_id db)) >>= λ entries.
    uninstall (map by_entry entries)

module _ (client : Client) where
  unfoldable pub claim_if : Ident → Result Bool → M (Unit {0})
  claim_if event_id (ok true) = send_transaction client event_id claim_transaction >> return tt
  claim_if event_id (ok false) = return tt
  claim_if event_id (raise e) = return tt

  unfoldable pub node_claim_reward : Ident → M (Unit {0})
  unfolding claim_if
  node_claim_reward event_id =
      attempt (ask (client.node_can_claim_reward event_id)) >>= claim_if event_id

unfoldable pub process_join_events : Ident → List Entry → M (Unit {0})
process_join_events event_id entries = yield (wallets entries) >>= λ participants.
    change_db (create_participants event_id participants)

-- `scheduler` is whether there is a scheduler.
module _ (scheduler : Bool) (client : Client) where
  unfoldable pub process_state_transition : Ident → List Entry → M (Unit {0})
  process_state_transition event_id entries = get_event event_id >>= λ found.
      when_some found λ event. do
        entry ← yield (last_entry entries)
        state ← yield (new_state entry)
        change_db (update_event (record event { state = state }))
        if is_final state
            then node_claim_reward client event_id >> delete_event event_id
            else return tt

  unfoldable pub process_event_failed : Ident → List Entry → M (Unit {0})
  process_event_failed event_id entries = do
    entry ← yield (last_entry entries)
    reason ← yield (description entry)
    delete_event event_id

  unfoldable pub schedule : Job → M (Unit {0})
  schedule j = if scheduler then change_node (add_job j) else throw attribute_error

  unfoldable pub process_validation_start : Ident → List Entry → M (Unit {0})
  process_validation_start event_id entries = do
    entry ← yield (last_entry entries)
    found ← get_event event_id
    when_some found λ event. do
      state ← ask (client.validation_state event_id)
      if not (eqb state 1) then return tt else (do
        round ← yield (validation_round entry)
        change_db (update_event (record event { rewards_validation_round = round }))
        if not scheduler
            then return tt
            else if not event.is_master_node
            then schedule (Job.validate_event_data_on_blockchain event_id round)
            else return tt)

  unfoldable pub process_validation_restart : Ident → List Entry → M (Unit {0})
  process_validation_restart event_id entries = do
    entry ← yield (last_entry entries)
    found ← get_event event_id
    when_some found λ event. do
      round ← yield (validation_round entry)
      master ← yield (new_master entry)
      let is_master = eqb client.default_account master
      change_db (
          update_event
            (record event { rewards_validation_round = round; is_master_node = is_master }))
      if not scheduler
          then return tt
          else if is_master
          then schedule (Job.event_data_to_blockchain event_id)
          else return tt

  -- `EVENT_FILTERS[filter_name]`. The handler of a dispute stands elsewhere: where this is called it
  -- is left out by the code.
  unfoldable pub process_entries : FilterName → Ident → List Entry → M (Unit {0})
  process_entries join_event event_id entries = process_join_events event_id entries
  process_entries state_transition event_id entries = process_state_transition event_id entries
  process_entries error_event event_id entries = return tt
  process_entries validation_started event_id entries = process_validation_start event_id entries
  process_entries validation_restart event_id entries = process_validation_restart event_id entries
  process_entries event_failed event_id entries = process_event_failed event_id entries
  process_entries dispute_triggered event_id entries = return tt
  process_entries new_verity_event event_id entries = throw key_error
