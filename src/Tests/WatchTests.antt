-- ===== src/Tests/WatchTests.antt =====
-- Tests of the filters and of the node as a whole, with a client of one event.
use validation_node.Prelude.{true, false, none, some, List, [], ◌∷◌, eqb, if◌then◌else◌, ◌≡◌, refl}
use validation_node.Prelude.Eq.{nat_eq, list_eq}
use validation_node.Database.Schema.{
  Ident, FilterName, join_event, new_verity_event, ok, raise, connection_error,
}
use validation_node.Database.Events.{get, metadata, get_or_create, create_participants}
use validation_node.Database.Events.Index.{IsIndexed}
use validation_node.Database.Filters
use validation_node.Effects.{World, ◌>>=◌}
use validation_node.Client.{Client, Entry, joined, new_event}
use validation_node.Watch.Handlers.{get_event, process_entries, process_join_events}
use validation_node.Watch.Discovery.{event_filters, init_event_filter}
use validation_node.Watch.Recovery.{reinstall_filter, recover_filter, recover_all_filters}
use validation_node.Watch.Recovery.Entries.{Restored}
use validation_node.Watch.Recovery.Restored.{recover_all_filters-Restored}
use validation_node.Watch.Rounds.{filter_events}
use validation_node.Watch.Answers.{rstrip_zero, strip_bytes32}
use validation_node.Watch.Answers.Strip.{strip_bytes32-eq-rstrip_zero}
use validation_node.NodeRegistry.{update_event_ips}
use validation_node.NodeRegistry.Update.{HasAddresses, update_event_ips-HasAddresses}
use validation_node.NodeRegistry.Answers.{given}
use validation_node.System.{init, starts, continues, reads_events}
use validation_node.System.Index.Invariant.{Reachable-IsIndexed}
use validation_node.Tests.{sample_event, sample_metadata, sample_node}

-- The filter of a contract event is numbered by the contract.
abbrev filter_of : Ident → FilterName → Ident
filter_of address new_verity_event = 50
filter_of address join_event = 60
filter_of address _ = 70

abbrev entries_of : Ident → List Entry
entries_of filter_id =
    if eqb filter_id 50
    then new_event 3 1 ∷ []
    else if eqb filter_id 60
    then joined 7 ∷ joined 8 ∷ []
    else []

abbrev pub sample_client : Client
sample_client = record {
  node_id = 10;
  default_account = 10;
  now = λ i. 5;
  get_event_resolvers = λ a i. ok (10 ∷ 11 ∷ []);
  node_can_claim_reward = λ a i. ok false;
  get_state = λ a i. ok 1;
  get_event_times = λ a i. ok (record {
    application_start_time = 10;
    application_end_time = 20;
    event_start_time = 100;
    event_end_time = 200;
    leftovers_recoverable_after = 1000;
  });
  owner = λ a i. ok 2;
  token_address = λ a i. ok 3;
  event_name = λ a i. ok (65 ∷ []);
  data_feed_hash = λ a i. ok [];
  is_master_node = λ a i. ok true;
  get_consensus_rules = λ a i. ok (record {
    min_total_votes = 1;
    min_consensus_votes = 1;
    min_consensus_ratio = 50;
    min_participant_ratio = 50;
    max_participants = 10;
    rewards_distribution_function = 0;
  });
  rewards_validation_round = λ a i. ok 1;
  get_dispute_data = λ a i. ok (record {
    dispute_amount = 30;
    dispute_timeout = 60;
    dispute_multiplier = 2;
    dispute_round = 1;
    disputer = 7;
  });
  staking_amount = λ a i. ok 5;
  get_results = λ a i. ok none;
  validation_state = λ a i. ok 2;
  node_registry = λ i. ok 4;
  event_registry = λ i. ok 5;
  creation_block = λ a i. ok 1;
  create_filter = λ a name block i. ok (filter_of a name);
  get_all_entries = λ filter_id i. ok (entries_of filter_id);
  get_new_entries = λ filter_id i. raise connection_error;
  node_ip = λ a i. ok (49 ∷ []);
  node_ws = λ a i. ok (50 ∷ []);
  execute = λ a t i. some 99;
  transaction_count = λ i. ok 4;
  generate_gas_price = λ i. ok 1000;
  estimate_gas = λ a t i. ok 100;
  sign_transaction = λ raw. ok 88;
  send_raw_transaction = λ signed i. ok 89;
  wait_for_receipt = λ hash i. raise connection_error;
  decode_utf8 = λ bytes. ok bytes;
}

abbrev pub sample_world : World
sample_world = record { node = sample_node; calls = 0; uninstalled = []; sent = [] }

-- The node starts, finds an event, and loses the connection when it reads the event's filters.
Reachable-IsIndexed_example :
    IsIndexed
      (filter_events true sample_client
        (init sample_client none (49 ∷ []) (50 ∷ []) sample_world).1).1.node.db
Reachable-IsIndexed_example = Reachable-IsIndexed _ (
    continues _ _ (starts sample_client none (49 ∷ []) (50 ∷ []) sample_world)
      (reads_events sample_client (init sample_client none (49 ∷ []) (50 ∷ []) sample_world).1))

recovered : (recover_all_filters true sample_client 1 none sample_world).0 ≡ ok true
unfolding recover_all_filters recover_filter reinstall_filter init_event_filter process_entries
    process_join_events get_event get metadata get_or_create Filters.delete Filters.create
    create_participants ◌>>=◌
recovered = refl

recover_all_filters-Restored_example :
    Restored 1 event_filters (recover_all_filters true sample_client 1 none sample_world).1.node.db
recover_all_filters-Restored_example =
    recover_all_filters-Restored true sample_client 1 none sample_world recovered

stored : get 1 sample_world.node.db ≡ some sample_event
unfolding get
stored = refl

strip_bytes32-eq-rstrip_zero_example :
    strip_bytes32 (48 ∷ 80 ∷ 0 ∷ []) ≡ rstrip_zero (48 ∷ 80 ∷ 0 ∷ [])
strip_bytes32-eq-rstrip_zero_example = strip_bytes32-eq-rstrip_zero (48 ∷ 80 ∷ 0 ∷ [])

update_event_ips-HasAddresses_example :
    ((update_event_ips sample_client 1 sample_world).0 ≡ ok tt)
    × HasAddresses 1
        (given (λ n. some (49 ∷ [])) sample_event.node_addresses)
        (given (λ n. some (50 ∷ [])) sample_event.node_addresses)
        (update_event_ips sample_client 1 sample_world).1.node.db
update_event_ips-HasAddresses_example =
    update_event_ips-HasAddresses sample_client 1 sample_event sample_metadata (λ n. some (49 ∷ []))
      (λ n. some (50 ∷ [])) sample_world refl (λ n i. refl) (λ n i. refl) refl refl
