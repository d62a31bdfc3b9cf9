-- ===== src/Tests/SocketTests.antt =====
-- Tests of the connections to other nodes.
use validation_node.Prelude.{ℕ, suc, some, [], ◌∷◌, ◌≡◌, refl, eqb}
use validation_node.Prelude.Eq.{nat_eq, list_eq}
use validation_node.Prelude.Dict.{update}
use validation_node.Database.Schema.{Text}
use validation_node.Database.Events.{get, metadata, new_metadata}
use validation_node.Node.{Message, Node}
use validation_node.Voting.Sockets.{Socket, Connections, Network, stored_event, producer}
use validation_node.Voting.Sockets.Returns.{IsWellKeyed}
use validation_node.Voting.Sockets.Producer.{IsSent, producer-IsSent}
use validation_node.Tests.{sample_event, sample_node, vote_json}

abbrev here : Text
here = 49 ∷ []

abbrev there : Text
there = 50 ∷ []

abbrev socket_to : Text → ℕ → Socket
socket_to a i = record { id = i; address = a }

-- A connection is open at the call after it was made, and not later.
abbrev sample_network : Network
sample_network = record { connect = λ a i. some (socket_to a i); is_open = λ s i. eqb i (suc s.id) }

-- The connection was lost.
abbrev sample_connections : Connections
sample_connections = record { sockets = (there, socket_to there 0) ∷ []; calls = 7; sent = [] }

keyed : IsWellKeyed sample_connections.sockets
keyed = record { once = (refl, tt); own = (refl, tt) }

abbrev sample_message : Message
sample_message = record {
  event_id = some 1;
  node_id = some 10;
  current_timestamp = some 150;
  json_data = some (vote_json 7);
}

abbrev listed_node : Node
listed_node = record sample_node {
  db = record (sample_node.db) {
    metadata =
        update 1 (some (record (new_metadata 1) { node_websocket_ips = here ∷ there ∷ [] }))
          sample_node.db.metadata;
  };
}

stored_here : stored_event sample_network sample_message.event_id listed_node.db ≡ some sample_event
unfolding get
stored_here = refl

producer-IsSent_example :
    IsSent sample_network
      (metadata sample_event listed_node.db).0.node_websocket_ips
      here
      sample_message
      sample_connections
      (producer sample_network 2 sample_message here listed_node sample_connections).2
producer-IsSent_example =
    producer-IsSent sample_network 2 sample_message here listed_node sample_connections sample_event
      stored_here keyed
