-- ===== src/Watch/Discovery.antt =====
-- A new event: `init_event` of app/events/event_registry_filter.py, and the filters that it installs
-- (`init_event_filters` of app/events/verity_event_filters.py).
pub mod Stored
use validation_node.Prelude.{
  ℕ, ◌+◌, Bool, true, false, not, Option, none, some, List, [], ◌∷◌, ltb, eqb, if◌then◌else◌,
}
use validation_node.Prelude.Eq.{contains, nat_eq}
use validation_node.Database.Schema.{
  Ident, VerityEvent, FilterName, join_event, state_transition, error_event, validation_started,
  validation_restart, dispute_triggered, event_failed, new_verity_event, Db, Result, ok, raise,
  attribute_error,
}
use validation_node.Database.Events
use validation_node.Database.Events.{metadata, update_metadata}
use validation_node.Database.Filters
use validation_node.Node.{put_not_reached_job, put_application_job}
use validation_node.Effects.{
  M, return, throw, ◌>>=◌, ◌>>◌, attempt, ask, change_db, access_db, change_node,
}
use validation_node.Client.{Client, Entry, EventTimes, ConsensusRules, DisputeData, current_time}
use validation_node.Watch.Handlers.{when_some, get_event, node_claim_reward, process_entries}
use validation_node.Watch.Answers.{consensus_answers_from_contract}

-- `EVENT_FILTERS`, in order
abbrev pub event_filters : List FilterName
event_filters =
    join_event ∷ state_transition ∷ error_event ∷ validation_started ∷ validation_restart
    ∷ dispute_triggered ∷ event_failed ∷ []

-- The filters whose old entries are not processed.
abbrev pub is_skipped : FilterName → Bool
is_skipped validation_restart = true
is_skipped dispute_triggered = true
is_skipped _ = false

abbrev pub is_empty : List Entry → Bool
is_empty [] = true
is_empty (e ∷ entries) = false

abbrev pub option_of : Result (Option VerityEvent) → Option VerityEvent
option_of (ok event) = event
option_of (raise e) = none

module _ (scheduler : Bool) (client : Client) where
  unfoldable pub init_event_filter : FilterName → Ident → M (Unit {0})
  init_event_filter filter_name event_id = get_event event_id >>= λ found. when_some found λ event.
      do
        m ← access_db (metadata event)
        filter_id ← ask (client.create_filter event_id filter_name m.contract_block_number)
        change_db (Filters.create event_id filter_id filter_name)
        entries ← ask (client.get_all_entries filter_id)
        if is_skipped filter_name
            then return tt
            else if is_empty entries
            then return tt
            else process_entries scheduler client filter_name event_id entries

  unfoldable pub init_filters : List FilterName → Ident → M (Unit {0})
  init_filters [] event_id = return tt
  init_filters (name ∷ names) event_id =
      init_event_filter name event_id >> init_filters names event_id

  unfoldable pub init_event_filters : Ident → M (Unit {0})
  unfolding init_filters
  init_event_filters event_id = init_filters event_filters event_id

  -- The new event, with what the contract was asked for before.
  abbrev event_of :
      Ident
      → ℕ
      → EventTimes
      → Ident
      → Ident
      → List Ident
      → List ℕ
      → List ℕ
      → Bool
      → ConsensusRules
      → ℕ
      → DisputeData
      → ℕ
      → VerityEvent
  event_of id state times owner token nodes name hash master rules round dispute staking = record {
    event_id = id;
    owner = owner;
    token_address = token;
    node_addresses = nodes;
    leftovers_recoverable_after = times.leftovers_recoverable_after;
    application_start_time = times.application_start_time;
    application_end_time = times.application_end_time;
    event_start_time = times.event_start_time;
    event_end_time = times.event_end_time;
    event_name = name;
    data_feed_hash = hash;
    state = state;
    is_master_node = master;
    min_total_votes = rules.min_total_votes;
    min_consensus_votes = rules.min_consensus_votes;
    min_consensus_ratio = rules.min_consensus_ratio;
    min_participant_ratio = rules.min_participant_ratio;
    max_participants = rules.max_participants;
    rewards_distribution_function = rules.rewards_distribution_function;
    rewards_validation_round = round;
    dispute_amount = dispute.dispute_amount;
    dispute_timeout = dispute.dispute_timeout;
    dispute_multiplier = dispute.dispute_multiplier;
    dispute_round = dispute.dispute_round;
    disputer = dispute.disputer;
    staking_amount = staking;
  }

  -- The calls after the test of the times.
  unfoldable pub read_event : Ident → ℕ → EventTimes → M (Option VerityEvent)
  read_event id state times = do
    owner ← ask (client.owner id)
    token ← ask (client.token_address id)
    nodes ← ask (client.get_event_resolvers id)
    name ← ask (client.event_name id)
    hash ← ask (client.data_feed_hash id)
    master ← ask (client.is_master_node id)
    rules ← ask (client.get_consensus_rules id)
    round ← ask (client.rewards_validation_round id)
    dispute ← ask (client.get_dispute_data id)
    staking ← ask (client.staking_amount id)
    return (
        some
          (event_of id state times owner token nodes name hash master rules round dispute staking))

  unfoldable pub call_event_contract : Ident → M (Option VerityEvent)
  call_event_contract id = do
    state ← ask (client.get_state id)
    if ltb 2 state then return none else (do
      times ← ask (client.get_event_times id)
      now ← current_time client
      if ltb times.event_end_time now then return none else read_event id state times)

  -- An exception makes it `None`.
  unfoldable pub call_event_contract_for_metadata : Ident → M (Option VerityEvent)
  call_event_contract_for_metadata id =
      attempt (call_event_contract id) >>= λ r. return (option_of r)

  unfoldable pub is_node_registered_on_event : Ident → M Bool
  is_node_registered_on_event event_id = ask (client.get_event_resolvers event_id) >>= λ node_ids.
      return (contains node_ids client.node_id)

  -- Times are in seconds; a job without a scheduler raises.
  unfoldable pub schedule_consensus_not_reached_job : Ident → ℕ → M (Unit {0})
  schedule_consensus_not_reached_job event_id event_end_time =
      if scheduler
      then change_node (put_not_reached_job event_id (event_end_time + 60))
      else throw attribute_error

  unfoldable pub schedule_post_application_end_time_job : Ident → ℕ → M (Unit {0})
  schedule_post_application_end_time_job event_id application_end_time = do
    now ← current_time client
    if ltb (application_end_time + 60) now
        then return tt
        else if scheduler
        then change_node (put_application_job event_id (application_end_time + 60))
        else throw attribute_error

  -- From the stored event on.
  unfoldable pub set_up_event : VerityEvent → Ident → ℕ → M (Unit {0})
  set_up_event event event_id contract_block_number = do
    change_db (Events.create event)
    m ← access_db (metadata event)
    answers ← consensus_answers_from_contract client event_id
    change_db (
        update_metadata (record m {
          contract_block_number = contract_block_number;
          previous_consensus_answers = answers;
        }))
    init_event_filters event.event_id
    schedule_post_application_end_time_job event_id event.application_end_time
    schedule_consensus_not_reached_job event_id event.event_end_time

  unfoldable pub add_event : Option VerityEvent → Ident → ℕ → M (Unit {0})
  add_event (some stored) event_id contract_block_number = return tt
  add_event none event_id contract_block_number = do
    node_claim_reward client event_id
    found ← call_event_contract_for_metadata event_id
    when_some found λ event. set_up_event event event_id contract_block_number

  unfoldable pub init_event : Ident → ℕ → M (Unit {0})
  init_event event_id contract_block_number = do
    registered ← is_node_registered_on_event event_id
    if not registered
        then return tt
        else (get_event event_id >>= λ stored. add_event stored event_id contract_block_number)
