-- ===== src/System.antt =====
-- The node as a whole: how it starts (`init` of app/application.py, app/contract_registry_filter.py),
-- and the steps that it takes from then on. A step is a request, a message, a run of one of the
-- intervals that app/scheduler.py sets up, or a job of the scheduler. Each step meets a client, a
-- clock and an explorer of its own.
pub mod Kept
pub mod Index
pub mod Voters
use validation_node.Prelude.{ℕ, Bool, true, false, Option, none, some, List, [], ◌∷◌, ◌++◌, ◌≡◌}
use validation_node.Prelude.Int.{ℤ}
use validation_node.Database.Schema.{Ident, Text, flushed, Result, ok, raise, other_error}
use validation_node.Database.Events.{set_event_registry, set_node_registry, event_registry}
use validation_node.Node.{
  VoteData, VoteJson, Node, Job, check_consensus as check_job,
  event_data_to_blockchain as rewards_job, validate_event_data_on_blockchain as validation_job,
  process_consensus_not_reached as not_reached_job, post_application_end_time,
  post_unexpected_exception,
}
use validation_node.Effects.{World, M, throw, ◌>>=◌, ◌>>◌, ask, read_db, change_db}
use validation_node.Client.{Client}
use validation_node.Watch.Rounds.{
  filter_events, post_unexpected_exception_job, post_application_end_time_job,
}
use validation_node.Watch.Registry.{init_event_registry_filter, filter_event_registry}
use validation_node.NodeRegistry.{AddressType, ip, websocket, register_node_ip, update_node_ips}
use validation_node.Consensus.Steps.{Surroundings, check_consensus, process_consensus_not_reached}
use validation_node.Rewards.Chain.{
  Contract, event_data_to_blockchain, validate_event_data_on_blockchain,
}
use validation_node.Voting.Api.{vote}
use validation_node.Voting.Consumer.{consumer}

unfoldable pub read_contract_addresses : Client → M (Ident × Ident)
read_contract_addresses client = ask client.node_registry >>= λ node_registry_address.
    ask client.event_registry >>= λ event_registry_address.
    validation_node.Effects.return (node_registry_address, event_registry_address)

unfoldable pub store_addresses : Ident → Ident → M (Unit {0})
store_addresses node_registry_address event_registry_address =
    change_db (set_node_registry node_registry_address)
    >> change_db (set_event_registry event_registry_address)

unfoldable pub init_contract_registry : Client → M (Unit {0})
init_contract_registry client = read_contract_addresses client >>= λ (node_address, event_address).
    store_addresses node_address event_address

-- The environment can name the event registry. The other parameters are the two addresses of the node.
module _ (client : Client) (environment : Option Ident) where
  abbrev pub watch_registry : Option Ident → M (Unit {0})
  watch_registry none = throw other_error
  watch_registry (some address) = init_event_registry_filter true client address

  unfoldable pub init : Text → Text → M (Unit {0})
  init node_ip_port node_websocket_ip_port = do
    change_db (λ db. flushed)
    init_contract_registry client
    address ← read_db (event_registry environment)
    register_node_ip client node_ip_port ip
    register_node_ip client node_websocket_ip_port websocket
    watch_registry address

-- What a job of the scheduler meets outside.
pub record Outside : Type 0 where
  pub surroundings : Surroundings
  pub client : Client
  pub contract : Contract
  pub to_bytes : Text → Text
  pub hash : List Ident → List ℤ → List ℤ → Text

abbrev pub set_node : World → Node → World
set_node w n = record w { node = n }

-- A job that raises is logged by the scheduler.
abbrev pub kept : Result Node → Node → Node
kept (ok n) old = n
kept (raise e) old = old

unfoldable pub run_job : Outside → Job → World → World
run_job o (check_job event m) w = set_node w (check_consensus o.surroundings event m w.node).1
run_job o (rewards_job event_id) w =
    set_node w (kept (event_data_to_blockchain o.to_bytes o.hash event_id w.node) w.node)
run_job o (validation_job event_id round) w =
    set_node w
      (kept (validate_event_data_on_blockchain o.hash o.contract event_id round w.node) w.node)
run_job o (not_reached_job event_id date) w =
    set_node w (process_consensus_not_reached o.surroundings event_id w.node).1
run_job o (post_application_end_time event_id date) w =
    (post_application_end_time_job true o.client event_id w).1
run_job o (post_unexpected_exception event_id entries date) w =
    (post_unexpected_exception_job true o.client event_id entries w).1

-- The scheduler takes a job from its list when it runs it.
abbrev pub set_jobs : World → List Job → World
set_jobs w jobs = record w { node = record (w.node) { jobs = jobs } }

pub data Step : World → World → Type 0 where
  votes :
      (recover : VoteData → Ident → Option Ident) (node_id : Ident) (now : ℕ) (j : Option VoteJson)
      (w : World)
      → Step w (set_node w (vote recover node_id now j w.node).1)
  receives :
      (recover : VoteData → Ident → Option Ident) (node_id : Ident) (timestamp : ℕ)
      (j : Option VoteJson) (w : World)
      → Step w (set_node w (consumer recover node_id timestamp j w.node))
  reads_events : (client : Client) (w : World) → Step w (filter_events true client w).1
  reads_registry :
      (client : Client) (address : Ident) (w : World)
      → Step w (filter_event_registry true client address w).1
  updates_ips : (client : Client) (w : World) → Step w (update_node_ips client w).1
  runs :
      (o : Outside) (j : Job) (earlier later : List Job) (w : World)
      → w.node.jobs ≡ earlier ++ j ∷ later
      → Step w (run_job o j (set_jobs w (earlier ++ later)))

-- The worlds that a node can reach after it has started.
pub data Reachable : World → Type 0 where
  starts :
      (client : Client) (environment : Option Ident) (node_ip_port node_websocket_ip_port : Text)
      (w : World)
      → Reachable (init client environment node_ip_port node_websocket_ip_port w).1
  continues : (v w : World) → Reachable v → Step v w → Reachable w
