-- ===== src/Voting/Sockets/Producer.antt =====
-- Over which connections a vote is sent (`Producer.producer` of app/websocket.py).
use validation_node.Prelude.{
  ℕ, zero, suc, true, Option, none, some, List, [], ◌∷◌, ◌++◌, map, All, append-nil, ◌≡◌, ◌≢◌, refl,
  sym, ap, ◌∙◌, Bool-cases, inl, inr,
}
use validation_node.Prelude.Eq.{contains, ◌==◌, nat_eq, list_eq}
use validation_node.Prelude.Dict.{lookup, has_key}
use validation_node.Database.Schema.{Text, VerityEvent, Result, ok, raise}
use validation_node.Database.Events.{metadata}
use validation_node.Node.{Message, Node}
use validation_node.Voting.Sockets.{
  Socket, Connections, Network, called, register, unregister, register_if, connect_to_websocket,
  connected, checked, with_rest, get_or_create_websocket_connection,
  get_or_create_websocket_connections, send_all, sending, is_unset, stored_event, producer,
}
use validation_node.Voting.Sockets.Returns.{IsWellKeyed}
use validation_node.Voting.Sockets.Sending.{AreOthers, get_or_create_connections-AreOthers}

module _ (network : Network) where
  register_if-sent : (s : Option Socket) (c : Connections) → (register_if s c).sent ≡ c.sent
  unfolding register
  register_if-sent none c = refl
  register_if-sent (some s) c = refl

  connected-sent : (a : Text) (c : Connections) → (connected network a c).sent ≡ c.sent
  unfolding connect_to_websocket
  connected-sent a c = elim (Bool-cases (has_key a c.sockets)) [
    | inl present ↦ rw present refl
    | inr absent ↦ rw absent (register_if-sent (network.connect a c.calls) (called c))
  ]

  checked-sent :
      (o : Option Socket) (c : Connections)
      (again : Connections → Result (Option Socket) × Connections)
      → ((k : Connections) → (again k).1.sent ≡ k.sent)
      → (checked network o c again).1.sent ≡ c.sent
  unfolding unregister
  checked-sent none c again h = refl
  checked-sent (some s) c again h = elim (Bool-cases (network.is_open s c.calls)) [
    | inl up ↦ rw up refl
    | inr shut ↦ rw shut (h (unregister s (called c)))
  ]

  get_or_create-sent :
      (depth : ℕ) (a : Text) (c : Connections)
      → (get_or_create_websocket_connection network depth a c).1.sent ≡ c.sent
  unfolding get_or_create_websocket_connection
  get_or_create-sent zero a c = refl
  get_or_create-sent (suc depth) a c =
      checked-sent (lookup a (connected network a c).sockets) (connected network a c)
        (get_or_create_websocket_connection network depth a) (get_or_create-sent depth a)
      ∙ connected-sent a c

  with_rest-sent :
      (found : Result (Option Socket) × Connections)
      (rest : Connections → Result (List Socket) × Connections)
      → ((k : Connections) → (rest k).1.sent ≡ k.sent)
      → (with_rest network found rest).1.sent ≡ found.1.sent
  with_rest-sent (raise e, c) rest h = refl
  with_rest-sent (ok o, c) rest h = h c

  -- Only the producer sends.
  pub connections-sent :
      (depth : ℕ) (addresses : List Text) (mine : Text) (c : Connections)
      → (get_or_create_websocket_connections network depth addresses mine c).1.sent ≡ c.sent
  unfolding get_or_create_websocket_connections
  connections-sent depth [] mine c = refl
  connections-sent depth (a ∷ addresses) mine c = elim (Bool-cases (mine == a)) [
    | inl self ↦ rw self (connections-sent depth addresses mine c)
    | inr other ↦ rw other (
        with_rest-sent (get_or_create_websocket_connection network depth a c)
          (get_or_create_websocket_connections network depth addresses mine)
          (connections-sent depth addresses mine)
        ∙ get_or_create-sent depth a c)
  ]

  abbrev over : Message → List Socket → List (Socket × Message)
  over m sockets = map (λ s. (s, m)) sockets

  -- What is sent is sent over connections to listed addresses that are not the node's own.
  pub record IsSent (addresses : List Text) (mine : Text) (m : Message) (c c' : Connections)
      : Type 0 where
    pub sockets : List Socket
    pub sent : c'.sent ≡ c.sent ++ map (λ s. (s, m)) sockets
    pub others : All (λ s. (contains addresses s.address ≡ true) × (s.address ≢ mine)) sockets
    pub keyed : IsWellKeyed c'.sockets

  sending-IsSent :
      (addresses : List Text) (mine : Text) (m : Message) (c : Connections)
      (r : Result (List Socket) × Connections)
      → r.1.sent ≡ c.sent
      → AreOthers network addresses mine r.0
      → IsWellKeyed r.1.sockets
      → IsSent addresses mine m c (sending network r m).1
  unfolding send_all
  sending-IsSent addresses mine m c (raise e, k) same o h = record {
    sockets = [];
    sent = same ∙ sym (append-nil c.sent);
    others = tt;
    keyed = h;
  }
  sending-IsSent addresses mine m c (ok sockets, k) same o h = record {
    sockets = sockets;
    sent = ap (λ l. l ++ over m sockets) same;
    others = o;
    keyed = h;
  }

  -- A vote on a stored event, with connections that are registered under their own keys: each connection it is
  -- sent over has one of the addresses in the event's metadata, and not the node's own; nothing else is
  -- sent, whether or not an exception ends it; and the connections stay so registered.
  pub producer-IsSent :
      (depth : ℕ) (m : Message) (mine : Text) (n : Node) (c : Connections) (event : VerityEvent)
      → stored_event network m.event_id n.db ≡ some event
      → IsWellKeyed c.sockets
      → IsSent
          (metadata event n.db).0.node_websocket_ips
          mine
          m
          c
          (producer network depth m mine n c).2
  unfolding producer
  producer-IsSent depth m mine n c event stored h =
      let addresses = (metadata event n.db).0.node_websocket_ips in
      elim (Bool-cases (is_unset network addresses)) [
        | inl unset ↦
            rw (producer, stored, unset)
              (record { sockets = []; sent = sym (append-nil c.sent); others = tt; keyed = h })
        | inr set ↦
            let (others, keyed) =
              get_or_create_connections-AreOthers network depth addresses mine c h in
            rw (producer, stored, set)
              (sending-IsSent addresses mine m c
                (get_or_create_websocket_connections network depth addresses mine c)
                (connections-sent depth addresses mine c) others keyed)
      ]
