-- ===== src/Voting/Sockets/Delivery.antt =====
-- A vote goes to every other node that can be reached (`Producer.producer` of app/websocket.py).
use validation_node.Prelude.{ℕ, some, List, [], ◌∷◌, ◌++◌, map, ◌≡◌, if◌then◌else◌}
use validation_node.Prelude.Eq.{◌==◌, nat_eq, list_eq}
use validation_node.Database.Schema.{Text, Result, ok}
use validation_node.Node.{Message, Node}
use validation_node.Voting.Sockets.{Socket, Connections, Network}
use validation_node.Voting.Sockets.Returns.{IsWellKeyed, IsCanonical}

-- The specification: the addresses of the other nodes, in their order.
abbrev pub others : Text → List Text → List Text
others mine [] = []
others mine (a ∷ addresses) = if mine == a then others mine addresses else a ∷ others mine addresses

module _ (network : Network) where
  -- Every `connect` to the address gives a connection that has the address as its key and is open at first.
  pub record IsReachable (a : Text) : Type 0 where
    pub connects : (i : ℕ) → (s : Socket) × (network.connect a i ≡ some s)
    pub canonical : IsCanonical network a

  -- The connections are those to the other nodes, one for each, in their order.
  record Opened (addresses : List Text) (mine : Text) (r : Result (List Socket) × Connections)
      : Type 0 where
    sockets : List Socket
    result : r.0 ≡ ok sockets
    places : map (λ s. s.address) sockets ≡ others mine addresses
    keyed : IsWellKeyed r.1.sockets

  -- What is sent, and over which connections.
  pub record IsDelivered (addresses : List Text) (mine : Text) (m : Message) (c : Connections)
      (r : Result {0} Unit) (c' : Connections) : Type 0 where
    pub sockets : List Socket
    pub result : r ≡ ok tt
    pub sent : c'.sent ≡ c.sent ++ map (λ s. (s, m)) sockets
    pub places : map (λ s. s.address) sockets ≡ others mine addresses
