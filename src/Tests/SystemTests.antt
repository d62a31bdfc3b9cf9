-- ===== src/Tests/SystemTests.antt =====
-- Tests of the node as a whole, of the keys of Redis, and of the setup.
use validation_node.Prelude.{
  zero, suc, true, false, Option, none, some, [], ◌∷◌, ◌≡◌, ◌≤◌, ◌↔◌, refl, length,
  length-replicate, replicate, if◌then◌else◌,
}
use validation_node.Prelude.Eq.{◌==◌, nat_eq, list_eq, contains}
use validation_node.Prelude.Dict.{Dict}
use validation_node.Prelude.Texts.{codes, is_word}
use validation_node.Database.Schema.{Ident, Text, ok}
use validation_node.Database.Events.{participants}
use validation_node.Database.Events.Voters.{HasVoters}
use validation_node.Database.Votes
use validation_node.Database.Redis.Cells.{nothing, Redis, cells, send}
use validation_node.Database.Redis.Calls.{create_event, delete_all_event_data, commands}
use validation_node.Database.Redis.View.{view, apply}
use validation_node.Database.Redis.Refinement.{view-send}
use validation_node.Effects.{World}
use validation_node.Node.{
  post_application_end_time, process_consensus_not_reached, Node, is_not_reached_job,
  remove_consensus_not_reached_job,
}
use validation_node.Watch.Rounds.{filter_events}
use validation_node.Voting.Api
use validation_node.System.{init, starts, continues, reads_events, Step, Reachable, set_node}
use validation_node.System.Voters.{Reachable-HasVoters, Reachable-count}
use validation_node.Scheduler.{remove_job}
use validation_node.Scheduler.Ids.{any, not_reached_id, remove_job-not_reached}
use validation_node.Setup.{Environment, Keys, NodeKeyStore, node_address_and_key}
use validation_node.Setup.KeyStore.{Origin, node_address_and_key-Origin}
use validation_node.Setup.Requests.{blacklist, request_vote}
use validation_node.Setup.Requests.Senders.{is_listed, request_vote-accepted_iff}
use validation_node.Tests.{sample_event, sample_node, vote_json, sample_recover}
use validation_node.Tests.WatchTests.{sample_client, sample_world}

-- The node starts, finds an event, and is asked to take a vote on it.
abbrev started : World
started =
    (filter_events true sample_client
      (init sample_client none (49 ∷ []) (50 ∷ []) sample_world).1).1

abbrev voted : World
voted = set_node started (Api.vote sample_recover 10 150 (some (vote_json 7)) started.node).1

voted-Reachable : Reachable voted
voted-Reachable =
    continues started voted
      (continues _ started (starts sample_client none (49 ∷ []) (50 ∷ []) sample_world)
        (reads_events sample_client (init sample_client none (49 ∷ []) (50 ∷ []) sample_world).1))
      (Step.votes sample_recover 10 150 (some (vote_json 7)) started)

Reachable-HasVoters_example : HasVoters voted.node.db
Reachable-HasVoters_example = Reachable-HasVoters voted voted-Reachable

Reachable-count_example :
    Votes.count sample_event.event_id voted.node.db
    ≤ length (participants sample_event voted.node.db)
Reachable-count_example = Reachable-count voted voted-Reachable sample_event

-- Addresses with as many digits '1' as their number.
abbrev ones : Ident → Text
ones id = replicate id b'1'

abbrev count_ones : Text → Ident
count_ones t = length t

ones-word : (id : Ident) → is_word (ones id) ≡ true
ones-word zero = refl
ones-word (suc n) = ones-word n

ones-read : (id : Ident) → count_ones (ones id) ≡ id
ones-read id = length-replicate id b'1'

-- Redis with an event, which is deleted.
abbrev sample_redis : Redis
sample_redis = send ones (commands (create_event sample_event) (λ p. nothing)) (λ k. nothing)

view-send_example :
    view (
      cells ones
        (send ones (commands (delete_all_event_data 1) (cells ones sample_redis)) sample_redis))
    ≡ apply (delete_all_event_data 1) (view (cells ones sample_redis))
view-send_example =
    view-send ones count_ones ones-word ones-read (delete_all_event_data 1) sample_redis

abbrev with_jobs : Node
with_jobs = record sample_node {
  jobs =
      post_application_end_time 1 9
      ∷ process_consensus_not_reached 1 8
      ∷ process_consensus_not_reached 2 8
      ∷ [];
}

remove_job-not_reached_example :
    remove_job ones (not_reached_id ones count_ones ones-word ones-read 1) with_jobs
    ≡ (any (is_not_reached_job 1) with_jobs.jobs, remove_consensus_not_reached_job 1 with_jobs)
remove_job-not_reached_example =
    remove_job-not_reached ones count_ones ones-word ones-read 1 with_jobs

abbrev environ : Dict Text Text
environ = (codes "REMOTE_ADDR", codes "10.0.0.1") ∷ []

request_vote-accepted_iff_example :
    ((request_vote sample_recover 10 150 environ (some (vote_json 7)) sample_node).0 ≡ ok 200) ↔ (
      (address : Text) × (◌≡◌ {A = Option Text} (some (codes "10.0.0.1")) (some address))
      × (contains blacklist address ≡ false)
      × (is_listed none ≡ false)
      × ((Api.vote sample_recover 10 150 (some (vote_json 7)) sample_node).0.status ≡ 200))
request_vote-accepted_iff_example =
    request_vote-accepted_iff sample_recover 10 150 environ (some (vote_json 7)) sample_node

-- A key file is named, and the environment has another address.
abbrev sample_environment : Environment
sample_environment name =
    if name == codes "KEY_FILENAME"
    then some (codes "key.json")
    else if name == codes "NODE_ADDRESS"
    then some (codes "0x2")
    else none

abbrev sample_keys : Keys
sample_keys = record {
  read_key_file = λ name. ok (codes "encrypted");
  password = ok (codes "secret");
  decrypt = λ encrypted_key password. ok (codes "key");
  address_of = λ key. ok (codes "0x1");
  checksum = λ address. ok address;
}

abbrev file_identity : NodeKeyStore
file_identity = record { address = codes "0x1"; private_key = some (codes "key") }

opened : node_address_and_key sample_keys sample_environment ≡ ok file_identity
unfolding node_address_and_key
opened = refl

node_address_and_key-Origin_example :
    Origin sample_keys sample_environment (some (codes "key.json")) file_identity
node_address_and_key-Origin_example =
    node_address_and_key-Origin sample_keys sample_environment file_identity opened
